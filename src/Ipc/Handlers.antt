-- ===== src/Ipc/Handlers.antt =====
-- What `IFLYOS_InterfaceInit` and the registration at the umbrella process come to.
use mathlib.Core.List.{map}
use sdk_linux.Prelude.{
  drop, take, ◌+◌, length, ◌≤◌, ℕ, ◌≡◌, refl, ap, ◌∙◌, ◌⊎◌, inl, inr, false, ◌&&◌, ◌||◌, Option,
  none, some, List, [], ◌∷◌, ◌++◌, arith, if◌then◌else◌, All,
}
use sdk_linux.Prelude.Int.{is_neg, pos}
use sdk_linux.Prelude.Bytes.{Bytes, Lacks, str_eq, set_has, find}
use sdk_linux.Prelude.Dict.{lookup-erase, Dict, lookup, lookup-insert}
use sdk_linux.Ipc.Text.{skip_space, atoi}
use sdk_linux.Ipc.State.{Mutex, Sendto, Ipc}
use sdk_linux.Ipc.Register.{
  is_current, bind_events, registeration, register_handler, receivers_of, register_message,
  register_address, bind_message,
}
use sdk_linux.Ipc.Init.{
  bind_registered, start_receiver, Os, register_all, interface_init, events_text,
}
use sdk_linux.Ipc.Send.{message, send_event}
use sdk_linux.Ipc.Names.{umbrella_recv_addr, do_register_evt_receiver}
use sdk_linux.Ipc.Receivers.{IsWord, words_of_events, set_has-add_receiver, register-bind_message}

-- What a list of registrations makes of an event's entry: the last one for the event decides, and
-- a null handler takes the entry away.
unfoldable pub entry_after {ℓ} :
    {H : Type ℓ} → Bytes → List (Bytes × Option H) → Option H → Option H
entry_after evt [] h = h
entry_after evt ((k, g) ∷ regs) h = entry_after evt regs (if str_eq k evt then g else h)

lookup-register_handler {ℓ} :
    {H : Type ℓ} (s : Ipc H) (h : Option H) (k evt : Bytes)
    → lookup evt (register_handler s h k).0.handlers
      ≡ (if str_eq k evt then h else lookup evt s.handlers)
unfolding register_handler
lookup-register_handler s none k evt = lookup-erase k evt s.handlers
lookup-register_handler s (some h) k evt = lookup-insert k evt h s.handlers

sends-register_handler {ℓ} :
    {H : Type ℓ} (s : Ipc H) (h : Option H) (k : Bytes) → (register_handler s h k).0.sends ≡ s.sends
unfolding register_handler
sends-register_handler s none k = refl
sends-register_handler s (some h) k = refl

pub register_all_lem {ℓ} :
    {H : Type ℓ} (s : Ipc H) (regs : List (Bytes × Option H))
    → ((evt : Bytes)
        → lookup evt (register_all s regs).handlers ≡ entry_after evt regs (lookup evt s.handlers))
      × ((register_all s regs).sends ≡ s.sends)
unfolding register_all entry_after
register_all_lem s [] = (λ evt. refl, refl)
register_all_lem s ((k, h) ∷ regs) =
    let (entries, sends) = register_all_lem (register_handler s h k).0 regs in
    (
      λ evt. entries evt ∙ ap (entry_after evt regs) (lookup-register_handler s h k evt),
      sends ∙ sends-register_handler s h k,
    )

-- The message by which a process registers its events.
abbrev pub registration {ℓ} : {H : Type ℓ} → Bytes → List (Bytes × Option H) → Bytes
registration address regs = bind_message address (skip_space (events_text regs))

prepared {ℓ} : {H : Type ℓ} → Os → Ipc H → Bytes → Ipc H
prepared os s address = record s {
  sock = os.socket_ret;
  handler_table_mutex = Mutex.live;
  local_addr = address;
}

send_event_short {ℓ} :
    {H : Type ℓ} (kernel : Sendto) (s : Ipc H) (evt msg : Bytes)
    → length evt + length msg ≤ 4096
    → (send_event kernel s evt msg).0 ≡ record s {
      sends = s.sends ++ record { address = umbrella_recv_addr; content = message evt msg } ∷ [];
    }
unfolding send_event
send_event_short kernel s evt msg short = ground arith

init_sends {ℓ} :
    {H : Type ℓ} (kernel : Sendto) (os : Os) (s : Ipc H) (address : Bytes) (r : Bytes × Option H)
    (regs : List (Bytes × Option H))
    → is_neg os.socket_ret ≡ false
    → os.bind_ret ≡ pos 0
    → length do_register_evt_receiver + length (registration address (r ∷ regs)) ≤ 4096
    → let t = register_all (start_receiver (prepared os s address) address) (r ∷ regs) in
      (interface_init kernel os s address (r ∷ regs)).0 ≡ record t {
        sends =
            t.sends
            ++ record {
              address = umbrella_recv_addr;
              content = message do_register_evt_receiver (registration address (r ∷ regs));
            }
              ∷ [];
      }
unfolding interface_init prepared
init_sends kernel os s address r regs opened bound short =
    rw (opened, bound)
      (unfold bind_registered bind_events in
        send_event_short kernel
          (register_all (start_receiver (prepared os s address) address) (r ∷ regs))
          do_register_evt_receiver (registration address (r ∷ regs)) short)

-- A process starts whose socket opens and binds, with one event or more, each a word, under an
-- address with no blank, the registration being short enough. Each event has the handler of its
-- last registration. One datagram goes to the umbrella process, and once that process has handled
-- it, the address is a receiver of exactly those events more than before, and no other address is.
pub init-registers {ℓ κ} :
    {H : Type ℓ} {G : Type κ} (kernel : Sendto) (os : Os) (s : Ipc H) (u : Ipc G) (address : Bytes)
    (r : Bytes × Option H) (regs : List (Bytes × Option H))
    → is_neg os.socket_ret ≡ false
    → os.bind_ret ≡ pos 0
    → Lacks b' ' address
    → All (λ k. IsWord k.0) (r ∷ regs)
    → length do_register_evt_receiver + length (registration address (r ∷ regs)) ≤ 4096
    → let s' = (interface_init kernel os s address (r ∷ regs)).0 in
      let u' = registeration u (registration address (r ∷ regs)) in
      ((evt : Bytes) → lookup evt s'.handlers ≡ entry_after evt (r ∷ regs) (lookup evt s.handlers))
      × (s'.sends
          ≡ s.sends
            ++ record {
              address = umbrella_recv_addr;
              content = message do_register_evt_receiver (registration address (r ∷ regs));
            }
              ∷ [])
      × ((b evt : Bytes)
          → set_has b (receivers_of evt u'.receivers) ≡ (
              (set_has evt (map (λ k. k.0) (r ∷ regs)) && str_eq b address)
              || set_has b (receivers_of evt u.receivers)))
unfolding registeration start_receiver prepared
init-registers kernel os s u address r regs opened bound blank named short =
    let started = start_receiver (prepared os s address) address in
    let (entries, sends) = register_all_lem started (r ∷ regs) in
    let whole = init_sends kernel os s address r regs opened bound short in
    (
      λ evt. rw whole (entries evt),
      rw (whole, sends),
      λ b evt.
          rw (register-bind_message address _ u.receivers blank, words_of_events (r ∷ regs) named)
            (set_has-add_receiver b evt address _ u.receivers),
    )

-- A registration is ignored whose text has no blank, whose version is not the current one, or which
-- has no blank behind the version.
pub register_message-ignores :
    (str : Bytes) (m : Dict (List Bytes))
    → (find b' ' str ≡ none)
      ⊎ ((p : ℕ) × (find b' ' str ≡ some p)
          × ((is_current (atoi (take p str)) ≡ false) ⊎ (find b' ' (drop (p + 1) str) ≡ none)))
    → register_message str m ≡ m
unfolding register_message register_address
register_message-ignores str m (inl e) = ground arith
register_message-ignores str m (inr (p, e, inl old)) = ground arith
register_message-ignores str m (inr (p, e, inr bare)) = ground arith
