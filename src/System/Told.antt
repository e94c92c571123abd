-- ===== src/System/Told.antt =====
-- The messages of iFLYOS, sent by IFLYOS_InterfaceOSSendEvent and passed on by the umbrella process to
-- the events that `main` of MicAgent.cpp registers.
use mathlib.Core.List.{map}
use sdk_linux.Prelude.{
  ◌<◌, ◌+◌, ◌≡◌, refl, ap, sym, ◌∙◌, true, Option, none, some, List, [], ◌∷◌, ◌++◌, append_assoc,
  append-nil, arith, All, length,
}
use sdk_linux.Prelude.Bytes.{Bytes, Lacks, str_eq}
use sdk_linux.Prelude.Dict.{lookup}
use sdk_linux.Ipc.State.{Sendto, Datagram, Ipc}
use sdk_linux.Ipc.Names.{umbrella_recv_addr}
use sdk_linux.Ipc.Init.{events_text}
use sdk_linux.Ipc.Text.{is_space, skip_space}
use sdk_linux.Ipc.Register.{bind_message}
use sdk_linux.Ipc.Send.{message, os_send_event}
use sdk_linux.Umbrella.Handlers.{own_table}
use sdk_linux.Umbrella.Delivery.{read_whole, Turn, registers, IsTurn, subscribed}
use sdk_linux.Umbrella.Subscribers.{
  Event, buffer, IsEvent, addressed_to, addressed_to-append, meant_for,
}
use sdk_linux.Agent.State.{Agent}
use sdk_linux.Agent.Main.{
  Handler, evt_reg, mic_addr, receive_round, call_handler, Texts, stop_capture_handler,
  on_thinking_handler, on_speaking_handler, iflyos_app_exited_handler, play_auth_code_handler,
  auth_ok_handler, auth_error_handler, vol_changed_handler, token_expired_handler,
  revoke_auth_handler, sw_update_handler, sw_update_check_handler, set_wakeword_handler,
  factory_reset_handler, reboot_handler,
}
use sdk_linux.Agent.Messages.{mic_addr_self}
use sdk_linux.Agent.Registration.{event_of, registered, event_of-IsName}

-- A message of iFLYOS for one of the handlers, which fits a receiver's buffer.
abbrev pub Told : Type 0
Told = Handler × Bytes

abbrev pub event : Told → Event
event (h, text) = record { name = event_of h; text = text }

abbrev pub IsTold : Told → Type 0
IsTold (h, text) = Lacks 0 text × (length (event_of h) + length text < 4095)

-- iFLYOS sends the messages one after the other.
unfoldable pub tell_all {ℓ} : {G : Type ℓ} → Sendto → List Told → Ipc G → Ipc G
tell_all kernel [] i = i
tell_all kernel ((h, text) ∷ ms) i = tell_all kernel ms (os_send_event kernel i (event_of h) text).0

-- The receiver thread of MicAgent reads the datagrams one after the other.
unfoldable pub read_all : Texts → Ipc Handler → List Bytes → Agent → Option Agent
read_all texts ipc [] s = some s
read_all texts ipc (m ∷ ms) s = elim (receive_round texts ipc (some m) s) [
  | none ↦ none
  | some t ↦ read_all texts ipc ms t
]

-- The handlers one after the other.
unfoldable pub handle_all : Texts → List Told → Agent → Option Agent
handle_all texts [] s = some s
handle_all texts ((h, text) ∷ ms) s = elim (call_handler texts h text s) [
  | none ↦ none
  | some t ↦ handle_all texts ms t
]

unfoldable pub buffers : List Told → List Bytes
buffers ms = map (λ m. buffer (event m)) ms

tell_one {ℓ} :
    {G : Type ℓ} (kernel : Sendto) (h : Handler) (text : Bytes) (i : Ipc G)
    → IsTold (h, text)
    → (os_send_event kernel i (event_of h) text).0 ≡ record i {
      sends =
          i.sends
          ++ record { address = umbrella_recv_addr; content = message (event_of h) text } ∷ [];
    }
unfolding os_send_event
tell_one kernel h text i v = ground (arith, v)

umbrella_gets :
    (m : Bytes)
    → addressed_to umbrella_recv_addr (record { address = umbrella_recv_addr; content = m } ∷ [])
      ≡ m ∷ []
unfolding addressed_to str_eq
umbrella_gets m = refl

pub tell_all-sends {ℓ} :
    {G : Type ℓ} (kernel : Sendto) (ms : List Told) (i : Ipc G)
    → All IsTold ms
    → addressed_to umbrella_recv_addr (tell_all kernel ms i).sends
      ≡ addressed_to umbrella_recv_addr i.sends ++ buffers ms
unfolding tell_all buffers
tell_all-sends kernel [] i v = sym (append-nil (addressed_to umbrella_recv_addr i.sends))
tell_all-sends kernel ((h, text) ∷ ms) i v =
    let d : Datagram = record {
      address = umbrella_recv_addr;
      content = message (event_of h) text;
    } in
    tell_all-sends kernel ms (os_send_event kernel i (event_of h) text).0 v.1
    ∙ ap (λ j. addressed_to umbrella_recv_addr j.sends ++ buffers ms) (tell_one kernel h text i v.0)
    ∙ ap (λ ds. ds ++ buffers ms)
        (addressed_to-append umbrella_recv_addr i.sends (d ∷ [])
          ∙ ap (◌++◌ (addressed_to umbrella_recv_addr i.sends))
              (umbrella_gets (message (event_of h) text)))
    ∙ append_assoc (addressed_to umbrella_recv_addr i.sends) (message (event_of h) text ∷ [])
        (buffers ms)

unhandled : (h : Handler) → lookup (event_of h) own_table ≡ none
unfolding event_of lookup str_eq
unhandled stop_capture_handler = refl
unhandled on_thinking_handler = refl
unhandled on_speaking_handler = refl
unhandled iflyos_app_exited_handler = refl
unhandled play_auth_code_handler = refl
unhandled auth_ok_handler = refl
unhandled auth_error_handler = refl
unhandled vol_changed_handler = refl
unhandled token_expired_handler = refl
unhandled revoke_auth_handler = refl
unhandled sw_update_handler = refl
unhandled sw_update_check_handler = refl
unhandled set_wakeword_handler = refl
unhandled factory_reset_handler = refl
unhandled reboot_handler = refl

told-IsEvent : (m : Told) → IsTold m → IsEvent (event m)
told-IsEvent (h, text) (nul, short) =
    let v = event_of-IsName h in
    let fits = read_whole (event_of h) text short in
    record {
      rest = v.name;
      starts = v.starts;
      blank = v.blank;
      nul = v.nul;
      text_nul = nul;
      unhandled = rw v.starts at (unhandled h);
      whole = rw v.starts at fits;
    }

pub messages-IsEvent : (ms : List Told) → All IsTold ms → All IsEvent (map event ms)
messages-IsEvent [] v = tt
messages-IsEvent (m ∷ ms) v = (told-IsEvent m v.0, messages-IsEvent ms v.1)

-- The events that `main` registers.
abbrev pub names : List Bytes
names = map (λ r. r.0) evt_reg

mic_subscribed :
    (h : Handler) (ts : List Turn)
    → subscribed mic_addr (event_of h) (registers mic_addr names ∷ ts) ≡ true
unfolding subscribed
mic_subscribed h ts = ground (arith, (registered h).1, mic_addr_self)

pub all_meant :
    (ms : List Told) (ts : List Turn)
    → meant_for mic_addr (registers mic_addr names ∷ ts) (map event ms) ≡ buffers ms
unfolding meant_for buffers
all_meant [] ts = refl
all_meant ((h, text) ∷ ms) ts =
    rw (mic_subscribed h ts) (ap (◌∷◌ (message (event_of h) text)) (all_meant ms ts))

pub mic-IsTurn : IsTurn (registers mic_addr names)
unfolding events_text is_space skip_space bind_message evt_reg message
mic-IsTurn = ground arith
