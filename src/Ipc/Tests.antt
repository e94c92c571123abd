-- ===== src/Ipc/Tests.antt =====
-- Runs of the message layer at concrete inputs.
use sdk_linux.Prelude.{
  All-replicate, ℕ, ◌+◌, ◌≤◌, ◌≡◌, ◌≢◌, ◌↔◌, refl, true, false, ◌&&◌, ◌||◌, inl, inr, Option, none,
  some, List, [], ◌∷◌, ◌++◌, arith, length, take, replicate,
}
use sdk_linux.Prelude.Int.{pos}
use sdk_linux.Prelude.Bytes.{find, Bytes, codes, str_eq, set_has}
use sdk_linux.Prelude.Dict.{lookup}
use sdk_linux.Ipc.Names.{
  evt_stopped, do_register_evt_receiver, do_stop, umbrella_recv_addr, event_recv_addr,
}
use sdk_linux.Ipc.State.{Sendto, Ipc, initial}
use sdk_linux.Ipc.Text.{words, skip_space, atoi, is_space, get_lines}
use sdk_linux.Ipc.Lines.{split_lines, get_lines-split_lines, get_lines-trailing}
use sdk_linux.Ipc.Send.{message, umbrella_send_event}
use sdk_linux.Ipc.Worker.{Round, receive, umbrella_receive}
use sdk_linux.Ipc.RoundTrip.{receive_size, Delivers, send-receive, send-receive_cut}
use sdk_linux.Ipc.Routing.{
  datagrams, takes_all, umbrella_send_event_result, forward_event, forward_action,
}
use sdk_linux.Ipc.Register.{is_current, bind_message, receivers_of, registeration, register_message}
use sdk_linux.Ipc.Init.{events_text, Os, interface_init}
use sdk_linux.Ipc.Receivers.{IsWord}
use sdk_linux.Ipc.Handlers.{init-registers, entry_after, registration, register_message-ignores}
use sdk_linux.Ipc.Subscriptions.{
  same_subscriptions, register_each, Registration, asks, subscriptions,
}

abbrev taking : Sendto
taking sends d = record { wr = pos 1; errno = 0 }

abbrev stop_process : Ipc ℕ
stop_process = record initial { handlers = (do_stop, 7) ∷ [] }

stop_handled : lookup do_stop stop_process.handlers ≡ some 7
unfolding lookup str_eq
stop_handled = refl

send-receive_example :
    Delivers {H = ℕ} taking initial stop_process 7 do_stop
      (codes "now")
      (take receive_size (message do_stop (codes "now")))
      (codes "now")
send-receive_example =
    send-receive {H = ℕ} taking take (λ n d. refl) initial stop_process 7 do_stop (codes "now")
      (omega arith) (omega arith) (omega arith) refl stop_handled (omega arith)

abbrev long_text : Bytes
long_text = replicate 4088 b'x'

send-receive_cut_example :
    Delivers {H = ℕ} taking initial stop_process 7 do_stop long_text
      (take receive_size (message do_stop long_text))
      (take 4087 long_text)
    × (take 4087 long_text ≢ long_text)
send-receive_cut_example =
    send-receive_cut {H = ℕ} taking take (λ n d. refl) initial stop_process 7 do_stop long_text
      (omega arith) (omega arith) (All-replicate {A = ℕ} (λ c. c ≢ 0) 4088 b'x' (omega arith)) refl
      stop_handled (omega arith) (omega arith) (omega arith)

get_lines-split_lines_example :
    get_lines (codes "40\nfalse") ≡ some (split_lines (codes "40\nfalse"))
get_lines-split_lines_example = get_lines-split_lines (codes "40\nfalse") (omega arith)

two_lines : get_lines (codes "40\nfalse") ≡ some (codes "40" ∷ codes "false" ∷ [])
unfolding get_lines
two_lines = refl

trailing_line_feed :
    get_lines (codes "40\nfalse" ++ b'\n' ∷ []) ≡ some (split_lines (codes "40\nfalse") ++ [] ∷ [])
trailing_line_feed = get_lines-trailing (codes "40\nfalse") (omega arith)

abbrev evt_end : Bytes
evt_end = codes "EVT_DIALOG_END"

abbrev mic : Bytes
mic = codes "IFLYOS_INTERFACE_MIC"

-- An umbrella process at which one address is a receiver of the end of a dialog.
abbrev routing : Ipc ℕ
routing = record initial { receivers = (evt_end, mic ∷ []) ∷ [] }

abbrev mic_process : Ipc ℕ
mic_process = record initial { handlers = (evt_end, 3) ∷ [] }

end_unhandled : lookup evt_end routing.handlers ≡ none
unfolding lookup
end_unhandled = refl

end_routed : lookup evt_end routing.receivers ≡ some (mic ∷ [])
unfolding lookup str_eq
end_routed = refl

end_handled : lookup evt_end mic_process.handlers ≡ some 3
unfolding lookup str_eq
end_handled = refl

event_forwarded :
    (umbrella_receive taking routing (some (message evt_end []))
      ≡ (record routing { sends = datagrams (message evt_end []) (mic ∷ []) }, Round.next))
    × (receive mic_process (some (message evt_end [])) ≡ Round.call 3 evt_end [])
event_forwarded =
    forward_event taking routing b'E' (codes "VT_DIALOG_END") [] (omega arith) (omega arith) tt
      end_unhandled (omega arith) mic_process 3 (mic ∷ []) refl end_routed end_handled

stop_unhandled : lookup do_stop routing.handlers ≡ none
unfolding lookup
stop_unhandled = refl

stop_forwarded : umbrella_receive taking routing (some (message do_stop [])) ≡ (
  record routing {
    sends = record { address = event_recv_addr; content = message do_stop [] } ∷ [];
  },
  Round.next,
)
stop_forwarded =
    forward_action taking routing b'D' (codes "O_STOP") [] (omega arith) (omega arith) tt
      stop_unhandled (omega arith) (omega arith)

send_result : ((umbrella_send_event taking routing evt_end []).1 ≡ pos 0) ↔ (
    (addrs : List Bytes) × (lookup evt_end routing.receivers ≡ some addrs)
    × (length evt_end + 0 ≤ 4096)
    × (takes_all taking [] (datagrams (message evt_end []) addrs) ≡ true))
send_result = umbrella_send_event_result taking routing evt_end []

abbrev mic_regs : List (Bytes × Option ℕ)
mic_regs = (evt_end, some 3) ∷ (evt_stopped, some 4) ∷ []

abbrev binding : Os
binding = record { socket_ret = pos 5; bind_ret = pos 0 }

evt_end-IsWord : IsWord evt_end
unfolding is_space
evt_end-IsWord = ((λ e. cc), ground arith)

evt_stopped-IsWord : IsWord evt_stopped
unfolding is_space
evt_stopped-IsWord = ((λ e. cc), ground arith)

short_enough : length do_register_evt_receiver + length (registration mic mic_regs) ≤ 4096
unfolding bind_message events_text skip_space is_space
short_enough = omega arith

start_registers :
    let s' = (interface_init taking binding (initial {H = ℕ}) mic mic_regs).0 in
    let u' = registeration routing (registration mic mic_regs) in
    ((evt : Bytes) → lookup evt s'.handlers ≡ entry_after evt mic_regs (lookup evt []))
    × (s'.sends
        ≡ record {
          address = umbrella_recv_addr;
          content = message do_register_evt_receiver (registration mic mic_regs);
        }
          ∷ [])
    × ((b evt : Bytes)
        → set_has b (receivers_of evt u'.receivers) ≡ (
            (set_has evt (evt_end ∷ evt_stopped ∷ []) && str_eq b mic)
            || set_has b (receivers_of evt routing.receivers)))
start_registers =
    init-registers {H = ℕ} taking binding initial routing mic (evt_end, some 3)
      ((evt_stopped, some 4) ∷ []) refl refl (omega arith)
      (evt_end-IsWord, (evt_stopped-IsWord, tt)) short_enough

old_blank : find b' ' (codes "2 addr EVT_X") ≡ some 1
unfolding find
old_blank = refl

old_version : is_current (atoi (codes "2")) ≡ false
unfolding atoi
old_version = refl

old_version_ignored : register_message (codes "2 addr EVT_X") [] ≡ []
old_version_ignored =
    register_message-ignores (codes "2 addr EVT_X") [] (inr (1, old_blank, inl old_version))

abbrev one_way : List Registration
one_way =
    record { address = codes "a"; events = codes "EVT_X EVT_Y" }
    ∷ record { address = codes "b"; events = codes "EVT_X" }
    ∷ []

abbrev other_way : List Registration
other_way =
    record { address = codes "b"; events = codes "EVT_X" }
    ∷ record { address = codes "a"; events = codes "EVT_Y" }
    ∷ record { address = codes "a"; events = codes "EVT_X EVT_X" }
    ∷ []

same_subscriptions_example :
    (subscriptions (register_each one_way stop_process)
      ≡ subscriptions (register_each other_way stop_process))
    ↔ ((b e : Bytes) → asks b e one_way ≡ asks b e other_way)
same_subscriptions_example =
    same_subscriptions stop_process one_way other_way refl (ground arith) (ground arith)

asked_alike : (b e : Bytes) → asks b e one_way ≡ asks b e other_way
unfolding asks words is_space set_has
asked_alike b e = ground arith

order_forgotten :
    subscriptions (register_each one_way stop_process)
    ≡ subscriptions (register_each other_way stop_process)
order_forgotten = same_subscriptions_example.1 asked_alike
