-- ===== src/Agent/Messages.antt =====
-- The messages of iFLYOS to the handlers that `main` registers, by way of the umbrella process.
use sdk_linux.Prelude.{
  ◌<◌, ◌∙◌, inr, inl, Option-cases, false, true, ◌≤◌, ◌+◌, length, none, some, List, ◌++◌, ◌≡◌,
  refl, arith,
}
use sdk_linux.Prelude.Int.{pos, is_neg}
use sdk_linux.Prelude.Bytes.{set_has, str_eq, Bytes, Lacks}
use sdk_linux.Ipc.Register.{receivers_of, registeration}
use sdk_linux.Ipc.Init.{Os}
use sdk_linux.Ipc.Handlers.{registration}
use sdk_linux.Ipc.State.{Ipc, Sendto}
use sdk_linux.Ipc.Send.{message}
use sdk_linux.Ipc.Worker.{Round, receive, umbrella_receive}
use sdk_linux.Ipc.Routing.{datagrams, forward_event}
use sdk_linux.Agent.Main.{Handler, evt_reg, mic_addr, boot, receive_round, call_handler, Texts}
use sdk_linux.Ipc.Handlers.{registration}
use sdk_linux.Prelude.Dict.{lookup, Dict}
use sdk_linux.Agent.State.{Agent}
use sdk_linux.Agent.Registration.{event_of, IsName, registered, event_of-IsName, boot-registers}

-- A set that has something is there.
receivers-some :
    (a evt : Bytes) (m : Dict (List Bytes))
    → set_has a (receivers_of evt m) ≡ true
    → (addrs : List Bytes) × (lookup evt m ≡ some addrs) × (set_has a addrs ≡ true)
unfolding receivers_of set_has
receivers-some a evt m h = elim (Option-cases (lookup evt m)) [
  | inl e ↦ ground (arith, h)
  | inr (addrs, e) ↦ (addrs, e, ground (arith, h, e))
]

pub mic_addr_self : str_eq mic_addr mic_addr ≡ true
unfolding str_eq
mic_addr_self = refl

forward-IsName {κ} :
    {G : Type κ} (kernel : Sendto) (t : Ipc G) (p : Ipc Handler) (evt msg : Bytes) (h : Handler)
    (addrs : List Bytes)
    → IsName evt
    → Lacks 0 msg
    → lookup evt t.handlers ≡ none
    → length evt + length msg ≤ 4096
    → lookup evt t.receivers ≡ some addrs
    → lookup evt p.handlers ≡ some h
    → (umbrella_receive kernel t (some (message evt msg))
        ≡ (record t { sends = t.sends ++ datagrams (message evt msg) addrs }, Round.next))
      × (receive p (some (message evt msg)) ≡ Round.call h evt msg)
forward-IsName kernel t p evt msg h addrs v nul free short found handled = rw v.starts (
    forward_event kernel t b'E' v.name msg v.blank v.nul nul (rw v.starts at free)
      (rw v.starts at short) p h addrs refl (rw v.starts at found) (rw v.starts at handled))

-- The process starts with a socket that opens and binds; the umbrella process handles its
-- registration, and has itself no handler for the event of one of the
-- fifteen handlers. Then a message of that event whose text has no NUL and which fits a receiver's
-- buffer goes unchanged from the umbrella process to its receivers, and this process is one of them;
-- and there it is that handler that is called, with the text sent.
pub event-call_handler {κ} :
    {G : Type κ} (kernel : Sendto) (os : Os) (u : Ipc G) (texts : Texts) (h : Handler) (msg : Bytes)
    (s : Agent)
    → is_neg os.socket_ret ≡ false
    → os.bind_ret ≡ pos 0
    → lookup (event_of h) u.handlers ≡ none
    → Lacks 0 msg
    → length (event_of h) + length msg < 4095
    → let ipc = (boot kernel os).0 in
      let u' = registeration u (registration mic_addr evt_reg) in
      let sent = message (event_of h) msg in
      ((addrs : List Bytes) × (set_has mic_addr addrs ≡ true)
        × (umbrella_receive kernel u' (some sent)
            ≡ (record u' { sends = u'.sends ++ datagrams sent addrs }, Round.next)))
      × (receive_round texts ipc (some sent) s ≡ call_handler texts h msg s)
unfolding registeration receive_round
event-call_handler kernel os u texts h msg s opened bound free nul short =
    let (entries, sends, sets) = boot-registers kernel os u opened bound in
    let u' = registeration u (registration mic_addr evt_reg) in
    let here : set_has mic_addr (receivers_of (event_of h) u'.receivers) ≡ true =
      ground (arith, sets mic_addr (event_of h), (registered h).1, mic_addr_self) in
    let (addrs, found, has) = receivers-some mic_addr (event_of h) u'.receivers here in
    let (way, called) =
      forward-IsName kernel u' (boot kernel os).0 (event_of h) msg h addrs (event_of-IsName h) nul
        free (omega arith) found (entries (event_of h) ∙ (registered h).0) in
    ((addrs, has, way), rw (receive_round, called) refl)
