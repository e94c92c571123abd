-- ===== src/System/Events.antt =====
-- The messages of iFLYOS on their whole way: IFLYOS_InterfaceOSSendEvent, the umbrella process, and
-- the handlers that `main` of MicAgent.cpp registers.
use mathlib.Core.List.{map}
use sdk_linux.Prelude.{
  true, arith, ◌≡◌, refl, ap, ◌∙◌, false, Option, none, some, List, [], ◌∷◌, ◌++◌, All,
}
use sdk_linux.Prelude.Int.{pos, is_neg}
use sdk_linux.Prelude.Bytes.{Lacks}
use sdk_linux.Ipc.State.{Sendto, Datagram, Ipc}
use sdk_linux.Ipc.Handlers.{registration}
use sdk_linux.Ipc.Names.{do_stop, do_register_evt_receiver, umbrella_recv_addr}
use sdk_linux.Ipc.Init.{is_zero, Os, events_text}
use sdk_linux.Ipc.Send.{message}
use sdk_linux.Ipc.RoundTrip.{receive_split, split_message_lem}
use sdk_linux.Umbrella.{Umbrella}
use sdk_linux.Umbrella.Startup.{Config}
use sdk_linux.Umbrella.Process.{receives, steps}
use sdk_linux.Umbrella.Delivery.{acts, Turn, registers, to_step, IsTurn, subscribed}
use sdk_linux.Umbrella.Subscribers.{buffer, receive_all, addressed_to, events_in_order}
use sdk_linux.Agent.State.{Agent}
use sdk_linux.Agent.Main.{Handler, evt_reg, mic_addr, boot, receive_round, call_handler, Texts}
use sdk_linux.Agent.Registration.{begun, event_of, registered, event_of-IsName, boot-registers}
use sdk_linux.System.Told.{
  Told, event, IsTold, tell_all, read_all, handle_all, buffers, tell_all-sends, messages-IsEvent,
  names, all_meant, mic-IsTurn,
}

read-handles :
    (kernel : Sendto) (os : Os) (texts : Texts) (m : Told) (s : Agent)
    → is_neg os.socket_ret ≡ false
    → os.bind_ret ≡ pos 0
    → Lacks 0 m.1
    → receive_round texts (boot kernel os).0 (some (buffer (event m))) s
      ≡ call_handler texts m.0 m.1 s
unfolding receive_round
read-handles kernel os texts (h, text) s opened bound nul =
    let v = event_of-IsName h in
    let (entries, sends, sets) =
      boot-registers kernel os (sdk_linux.Ipc.State.initial {H = Handler}) opened bound in
    let blank : Lacks b' ' (event_of h) = rw v.starts v.blank in
    let whole : Lacks 0 (event_of h) = rw v.starts v.nul in
    let called =
      receive_split (boot kernel os).0 (message (event_of h) text) (event_of h) text
        (split_message_lem (event_of h) text blank whole nul) in
    let found = entries (event_of h) ∙ (registered h).0 in rw (receive_round, called, found) refl

at_each :
    (u : Option Agent) (f g : Agent → Option Agent)
    → ((t : Agent) → f t ≡ g t)
    → (elim u [ none ↦ none | some t ↦ f t ]) ≡ elim u [ none ↦ none | some t ↦ g t ]
at_each none f g same = refl
at_each (some t) f g same = same t

read_all-handle_all :
    (kernel : Sendto) (os : Os) (texts : Texts) (ms : List Told) (s : Agent)
    → is_neg os.socket_ret ≡ false
    → os.bind_ret ≡ pos 0
    → All IsTold ms
    → read_all texts (boot kernel os).0 (buffers ms) s ≡ handle_all texts ms s
unfolding read_all handle_all buffers
read_all-handle_all kernel os texts [] s opened bound v = refl
read_all-handle_all kernel os texts ((h, text) ∷ ms) s opened bound v =
    ap (λ u. elim u [ none ↦ none | some t ↦ read_all texts (boot kernel os).0 (buffers ms) t ])
      (read-handles kernel os texts (h, text) s opened bound v.0.0)
    ∙ at_each (call_handler texts h text s) (λ t. read_all texts (boot kernel os).0 (buffers ms) t)
        (handle_all texts ms) (λ t. read_all-handle_all kernel os texts ms t opened bound v.1)

-- The registration that `main` sends is that of its events.
registers_names :
    registration mic_addr evt_reg ≡ sdk_linux.Umbrella.Delivery.registered mic_addr names
unfolding evt_reg events_text
registers_names = refl

-- The request for a stop with which `main` goes on.
abbrev pub asks_stop : Turn
asks_stop = acts (receives (some (message do_stop [])))

asks_stop-IsTurn : IsTurn asks_stop
unfolding message
asks_stop-IsTurn =
    let there = split_message_lem do_stop [] (ground arith) (ground arith) tt in
    (λ msg h. ground (arith, there, h), omega arith)

registers_first :
    (kernel : Sendto) (os : Os)
    → is_neg os.socket_ret ≡ false
    → os.bind_ret ≡ pos 0
    → is_zero (begun kernel os).1 ≡ true
    → map (λ d. receives (some d.content)) (boot kernel os).0.sends
      ≡ map to_step (registers mic_addr names ∷ asks_stop ∷ [])
unfolding to_step
registers_first kernel os opened bound done =
    let (entries, sends, sets) =
      boot-registers kernel os (sdk_linux.Ipc.State.initial {H = Handler}) opened bound in
    let stop = receives (some (message do_stop [])) in
    ap (map (λ d. receives (some d.content))) sends
    ∙ rw done
        (ap (λ r. receives (some (message do_register_evt_receiver r)) ∷ stop ∷ []) registers_names)

-- MicAgent starts with a socket that opens and binds, and `IFLYOS_InterfaceInit` returns 0. Up to its
-- first message it sends two datagrams, its registration and the request for a stop of iFLYOS. These
-- come to the umbrella process as the first steps from the start there; registrations of others, of
-- events that are words under addresses with no blank and with no NUL, and any other steps may
-- follow, and nothing that it receives has more than the 4095 bytes that it reads. Then iFLYOS sends
-- messages for the handlers of MicAgent, which fit a receiver's buffer and have no NUL. All of them
-- go to the umbrella process in their order; it sends each of them once to MicAgent, in the same
-- order, whoever else gets them; and MicAgent, whatever its state, calls the handler of each with its
-- text, one after the other, and changes its state by nothing else.
pub events_handled {ℓ} :
    {G : Type ℓ} (of_iflyos of_umbrella of_mic : Sendto) (os os' : Os) (c : Config) (i : Ipc G)
    (u t : Umbrella) (ts : List Turn) (texts : Texts) (ms : List Told) (s : Agent)
    → sdk_linux.Umbrella.Startup.boot of_umbrella os c ≡ some u
    → is_neg os'.socket_ret ≡ false
    → os'.bind_ret ≡ pos 0
    → is_zero (begun of_mic os').1 ≡ true
    → All IsTurn ts
    → steps of_umbrella u (map to_step (registers mic_addr names ∷ asks_stop ∷ ts)) ≡ some t
    → All IsTold ms
    → (map (λ d. receives (some d.content)) (boot of_mic os').0.sends
        ≡ map to_step (registers mic_addr names ∷ asks_stop ∷ []))
      × (addressed_to umbrella_recv_addr (tell_all of_iflyos ms i).sends
          ≡ addressed_to umbrella_recv_addr i.sends ++ buffers ms)
      × (addressed_to mic_addr (receive_all of_umbrella (map event ms) t).ipc.sends
          ≡ addressed_to mic_addr t.ipc.sends ++ buffers ms)
      × (read_all texts (boot of_mic os').0 (buffers ms) s ≡ handle_all texts ms s)
events_handled of_iflyos of_umbrella of_mic os os' c i u t ts texts ms s booted opened bound done
      valid ran told =
    (
      registers_first of_mic os' opened bound done,
      tell_all-sends of_iflyos ms i told,
      events_in_order of_umbrella os c u t (registers mic_addr names ∷ asks_stop ∷ ts)
            (map event ms) mic_addr booted (mic-IsTurn, (asks_stop-IsTurn, valid)) ran
            (messages-IsEvent ms told)
          ∙ ap (◌++◌ (addressed_to mic_addr t.ipc.sends)) (all_meant ms (asks_stop ∷ ts)),
      read_all-handle_all of_mic os' texts ms s opened bound told,
    )
