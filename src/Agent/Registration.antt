-- ===== src/Agent/Registration.antt =====
-- The registration of MicAgent: its events, at both ends.
use sdk_linux.Prelude.{
  sym, ◌++◌, inr, inl, ◌∙◌, Bool-cases, if◌then◌else◌, Option, not, ◌==◌, ap, Bool, ◌||◌, ◌&&◌,
  false, true, ◌≤◌, ◌+◌, length, All, none, some, List, [], ◌∷◌, ◌≡◌, refl, arith,
}
use mathlib.Core.List.{append-nil, map}
use sdk_linux.Prelude.Int.{ℤ, pos, is_neg}
use sdk_linux.Prelude.Bytes.{set_has, str_eq, Bytes, Lacks}
use sdk_linux.Ipc.Register.{bind_message, receivers_of, registeration}
use sdk_linux.Ipc.Text.{skip_space, is_space}
use sdk_linux.Ipc.Init.{is_zero, interface_init, Os, events_text}
use sdk_linux.Ipc.Receivers.{IsWord}
use sdk_linux.Ipc.Handlers.{entry_after, registration, init-registers}
use sdk_linux.Ipc.Names.{
  do_stop, umbrella_recv_addr, evt_factory_reset, evt_reboot, evt_sw_update, evt_sw_update_check,
  evt_revoke_authorization, evt_set_wakeword, evt_auth_required, evt_auth_token_expired,
  evt_auth_ok, evt_auth_server_error, evt_dialog_thinking, evt_dialog_speaking, evt_dialog_end,
  evt_vol_changed, evt_stopped,
}
use sdk_linux.Ipc.State.{Datagram, Ipc, Sendto}
use sdk_linux.Ipc.Send.{send_event, message}
use sdk_linux.Agent.Main.{
  Handler, stop_capture_handler, on_thinking_handler, on_speaking_handler,
  iflyos_app_exited_handler, play_auth_code_handler, auth_ok_handler, auth_error_handler,
  vol_changed_handler, token_expired_handler, revoke_auth_handler, sw_update_handler,
  sw_update_check_handler, set_wakeword_handler, factory_reset_handler, reboot_handler, evt_reg,
  mic_addr, boot,
}
use sdk_linux.Ipc.Names.{
  evt_sw_update_check, evt_sw_update, evt_revoke_authorization, evt_auth_token_expired,
  evt_vol_changed, evt_auth_server_error, evt_auth_ok, evt_auth_required, evt_stopped,
  evt_dialog_speaking, do_register_evt_receiver, evt_dialog_thinking, evt_dialog_end,
}
use sdk_linux.Ipc.Receivers.{IsWord}
use sdk_linux.Ipc.Handlers.{registration, entry_after}
use sdk_linux.Prelude.Dict.{lookup}

-- The event for which each handler is there.
unfoldable pub event_of : Handler → Bytes
event_of stop_capture_handler = evt_dialog_end
event_of on_thinking_handler = evt_dialog_thinking
event_of on_speaking_handler = evt_dialog_speaking
event_of iflyos_app_exited_handler = evt_stopped
event_of play_auth_code_handler = evt_auth_required
event_of auth_ok_handler = evt_auth_ok
event_of auth_error_handler = evt_auth_server_error
event_of vol_changed_handler = evt_vol_changed
event_of token_expired_handler = evt_auth_token_expired
event_of revoke_auth_handler = evt_revoke_authorization
event_of sw_update_handler = evt_sw_update
event_of sw_update_check_handler = evt_sw_update_check
event_of set_wakeword_handler = evt_set_wakeword
event_of factory_reset_handler = evt_factory_reset
event_of reboot_handler = evt_reboot

-- A name begins with `E`, and has no white space and no NUL.
unfoldable pub is_clean : Bytes → Bool
is_clean [] = true
is_clean (c ∷ s) = (not (is_space c) && not (c == 0)) && is_clean s

unfoldable pub is_name : Bytes → Bool
is_name [] = false
is_name (c ∷ name) = (c == b'E') && is_clean (c ∷ name)

unfoldable pub all_names : List (Bytes × Option Handler) → Bool
all_names [] = true
all_names ((evt, h) ∷ regs) = is_name evt && all_names regs

is_clean_lem :
    (s : Bytes) → is_clean s ≡ true → All (λ c. is_space c ≡ false) s × Lacks b' ' s × Lacks 0 s
unfolding is_clean is_space
is_clean_lem [] h = (tt, tt, tt)
is_clean_lem (c ∷ s) h = ground (arith, h, is_clean_lem s)

pub record IsName (evt : Bytes) : Type 0 where
  pub name : Bytes
  pub starts : evt ≡ b'E' ∷ name
  pub blank : Lacks b' ' (b'E' ∷ name)
  pub nul : Lacks 0 (b'E' ∷ name)

is_name-IsWord : (evt : Bytes) → is_name evt ≡ true → IsWord evt
unfolding is_name
is_name-IsWord [] h = cc
is_name-IsWord (c ∷ name) h = ((λ e. cc), (is_clean_lem (c ∷ name) (ground (arith, h))).0)

is_name-IsName : (evt : Bytes) → is_name evt ≡ true → IsName evt
unfolding is_name
is_name-IsName [] h = cc
is_name-IsName (c ∷ name) h =
    let e : c ≡ b'E' = ground (arith, h) in
    let (words, blank, nul) = is_clean_lem (c ∷ name) (ground (arith, h)) in
    record { name = name; starts = ap (λ d. d ∷ name) e; blank = rw e at blank; nul = rw e at nul }

all_names-IsWord :
    (regs : List (Bytes × Option Handler)) → all_names regs ≡ true → All (λ r. IsWord r.0) regs
unfolding all_names
all_names-IsWord [] h = tt
all_names-IsWord ((evt, k) ∷ regs) h =
    (is_name-IsWord evt (ground (arith, h)), all_names-IsWord regs (ground (arith, h)))

evt_reg_named : all_names evt_reg ≡ true
unfolding all_names evt_reg is_name is_clean is_space
evt_reg_named = refl

-- The registrations leave the handler at its event, which is one of those sent to the umbrella
-- process and has a name.
pub registered :
    (h : Handler)
    → (entry_after (event_of h) evt_reg none ≡ some h)
      × (set_has (event_of h) (map (λ r. r.0) evt_reg) ≡ true)
      × (is_name (event_of h) ≡ true)
unfolding event_of evt_reg str_eq entry_after set_has is_name is_clean is_space
registered stop_capture_handler = (refl, refl, refl)
registered on_thinking_handler = (refl, refl, refl)
registered on_speaking_handler = (refl, refl, refl)
registered iflyos_app_exited_handler = (refl, refl, refl)
registered play_auth_code_handler = (refl, refl, refl)
registered auth_ok_handler = (refl, refl, refl)
registered auth_error_handler = (refl, refl, refl)
registered vol_changed_handler = (refl, refl, refl)
registered token_expired_handler = (refl, refl, refl)
registered revoke_auth_handler = (refl, refl, refl)
registered sw_update_handler = (refl, refl, refl)
registered sw_update_check_handler = (refl, refl, refl)
registered set_wakeword_handler = (refl, refl, refl)
registered factory_reset_handler = (refl, refl, refl)
registered reboot_handler = (refl, refl, refl)

pub event_of-IsName : (h : Handler) → IsName (event_of h)
event_of-IsName h = is_name-IsName (event_of h) (registered h).2

short_registration : length do_register_evt_receiver + length (registration mic_addr evt_reg) ≤ 4096
unfolding evt_reg bind_message skip_space events_text is_space
short_registration = omega arith

-- `IFLYOS_InterfaceInit` as `main` calls it.
abbrev pub begun : Sendto → Os → Ipc Handler × ℤ
begun kernel os = interface_init kernel os (sdk_linux.Ipc.State.initial) mic_addr evt_reg

abbrev stop_datagram : Datagram
stop_datagram = record { address = umbrella_recv_addr; content = message do_stop [] }

boot-handlers :
    (kernel : Sendto) (os : Os) → (boot kernel os).0.handlers ≡ (begun kernel os).0.handlers
unfolding boot send_event
boot-handlers kernel os = elim (Bool-cases (is_zero (begun kernel os).1)) [
  | inl e ↦ rw (boot, e) refl
  | inr e ↦ rw (boot, e) refl
]

boot-sends :
    (kernel : Sendto) (os : Os)
    → (boot kernel os).0.sends
      ≡ (begun kernel os).0.sends
        ++ (if is_zero (begun kernel os).1 then stop_datagram ∷ [] else [])
unfolding boot send_event
boot-sends kernel os = elim (Bool-cases (is_zero (begun kernel os).1)) [
  | inl e ↦ rw (boot, e) refl
  | inr e ↦ rw (boot, e) (sym (append-nil (begun kernel os).0.sends))
]

-- The start registers all of them, at both ends, and then asks for a stop of iFLYOS, unless
-- `IFLYOS_InterfaceInit` gave an error.
pub boot-registers {κ} :
    {G : Type κ} (kernel : Sendto) (os : Os) (u : Ipc G)
    → is_neg os.socket_ret ≡ false
    → os.bind_ret ≡ pos 0
    → let ipc = (boot kernel os).0 in
      let u' = registeration u (registration mic_addr evt_reg) in
      ((evt : Bytes) → lookup evt ipc.handlers ≡ entry_after evt evt_reg none)
      × (ipc.sends
          ≡ record {
            address = umbrella_recv_addr;
            content = message do_register_evt_receiver (registration mic_addr evt_reg);
          }
            ∷ (if is_zero (begun kernel os).1 then stop_datagram ∷ [] else []))
      × ((b evt : Bytes)
          → set_has b (receivers_of evt u'.receivers) ≡ (
              (set_has evt (map (λ k. k.0) evt_reg) && str_eq b mic_addr)
              || set_has b (receivers_of evt u.receivers)))
unfolding evt_reg lookup
boot-registers kernel os u opened bound =
    let (entries, sends, sets) =
      init-registers kernel os (sdk_linux.Ipc.State.initial {H = Handler}) u mic_addr
        (evt_dialog_end, some stop_capture_handler) _ opened bound (ground arith)
        (all_names-IsWord evt_reg evt_reg_named) short_registration in
    let stop = if is_zero (begun kernel os).1 then stop_datagram ∷ [] else [] in
    (
      λ evt. ap (lookup evt) (boot-handlers kernel os) ∙ entries evt,
      boot-sends kernel os ∙ ap (λ ds. ds ++ stop) sends,
      sets,
    )
