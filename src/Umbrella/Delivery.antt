-- ===== src/Umbrella/Delivery.antt =====
-- The events of IFLYOS_InterfaceUmbrellaSendEvent against the registrations that the umbrella process
-- was sent.
use mathlib.Core.List.{map}
use sdk_linux.Prelude.{
  ◌<◌, ◌+◌, ◌≤◌, ◌≡◌, refl, ap, sym, ◌∙◌, inl, inr, Bool, false, ◌&&◌, ◌||◌, Option, none, some,
  List, [], ◌∷◌, ◌++◌, append-nil, arith, if◌then◌else◌, Option-cases, All, length,
}
use sdk_linux.Prelude.Bytes.{Bytes, Lacks, str_eq, set_has}
use sdk_linux.Prelude.Sets.{times, times-IsSet_list}
use sdk_linux.Prelude.Dict.{Dict, lookup}
use sdk_linux.Ipc.Names.{do_register_evt_receiver}
use sdk_linux.Ipc.State.{Sendto, Ipc}
use sdk_linux.Ipc.Init.{Os}
use sdk_linux.Ipc.Send.{message, umbrella_send_event}
use sdk_linux.Ipc.Register.{receivers_of, add_receiver, registeration}
use sdk_linux.Ipc.Receivers.{IsWord, words_of_events, set_has-add_receiver, register-bind_message}
use sdk_linux.Ipc.Handlers.{registration}
use sdk_linux.Ipc.Routing.{datagrams, umbrella_receive-forward, umbrella_send_event-datagrams}
use sdk_linux.Ipc.Worker.{forward}
use sdk_linux.Ipc.RoundTrip.{receive_size, split_message_lem, umbrella_receive_split}
use sdk_linux.Umbrella.{Handler, registeration_handler, Umbrella, receive_round, handle}
use sdk_linux.Umbrella.Startup.{Config, boot}
use sdk_linux.Umbrella.Process.{Step, receives, steps, step}
use sdk_linux.Umbrella.Handlers.{IsTable, add_receiver-IsTable, own_table, boot_tables}
use sdk_linux.Umbrella.Table.{own_registers, IsOther, step-Keeps}

-- A step of the process: a process registers events under its address, or any other step.
pub data Turn : Type 0 where
  registers : Bytes → List Bytes → Turn
  acts : Step → Turn

abbrev pub without_handlers : List Bytes → List (Bytes × Option Handler)
without_handlers [] = []
without_handlers (e ∷ es) = (e, none) ∷ without_handlers es

abbrev pub registered : Bytes → List Bytes → Bytes
registered address events = registration address (without_handlers events)

unfoldable pub to_step : Turn → Step
to_step (registers address events) =
    receives (some (message do_register_evt_receiver (registered address events)))
to_step (acts a) = a

-- What comes from `recvfrom` has at most 4095 bytes.
abbrev pub IsRead : Step → Type 0
IsRead (receives (some buf)) = length buf ≤ receive_size
IsRead _ = Unit

abbrev pub IsTurn : Turn → Type 0
IsTurn (registers address events) =
    Lacks b' ' address
    × Lacks 0 (registered address events)
    × All IsWord events
    × (length (message do_register_evt_receiver (registered address events)) ≤ receive_size)
IsTurn (acts a) = IsOther a × IsRead a

-- Whether an address has registered for an event.
unfoldable pub subscribed : Bytes → Bytes → List Turn → Bool
subscribed b e [] = false
subscribed b e (registers address events ∷ ts) =
    (set_has e events && str_eq b address) || subscribed b e ts
subscribed b e (acts a ∷ ts) = subscribed b e ts

names_alone : (events : List Bytes) → map (λ r. r.0) (without_handlers events) ≡ events
names_alone [] = refl
names_alone (e ∷ es) = ap (◌∷◌ e) (names_alone es)

words_alone :
    (events : List Bytes) → All IsWord events → All (λ r. IsWord r.0) (without_handlers events)
words_alone [] h = tt
words_alone (e ∷ es) h = (h.0, words_alone es h.1)

receive_registered :
    (kernel : Sendto) (address : Bytes) (events : List Bytes) (s : Umbrella)
    → IsTurn (registers address events)
    → s.ipc.handlers ≡ own_table
    → receive_round kernel (some (message do_register_evt_receiver (registered address events))) s
      ≡ record s { ipc = record s.ipc { receivers = add_receiver address events s.ipc.receivers } }
unfolding receive_round handle registeration
receive_registered kernel address events s v own =
    let (blank, nul, named, fits) = v in
    let text =
      register-bind_message address _ s.ipc.receivers blank
      ∙ ap (λ ws. add_receiver address ws s.ipc.receivers)
          (words_of_events (without_handlers events) (words_alone events named)
            ∙ names_alone events) in
    let found : lookup do_register_evt_receiver s.ipc.handlers ≡ some registeration_handler =
      ap (lookup do_register_evt_receiver) own ∙ own_registers in
    rw
      (umbrella_receive_split s.ipc kernel
        (message do_register_evt_receiver (registered address events)) do_register_evt_receiver
        (registered address events)
        (split_message_lem do_register_evt_receiver (registered address events) (ground arith)
          (ground arith) nul))
      (rw found (ap (λ m. record s { ipc = record s.ipc { receivers = m } }) text))

-- What the tables tell of the registrations so far.
pub record Tells (s t : Umbrella) (ts : List Turn) : Type 0 where
  pub handlers : t.ipc.handlers ≡ own_table
  pub table : IsTable t.ipc.receivers
  pub tells :
      (b e : Bytes)
      → set_has b (receivers_of e t.ipc.receivers)
        ≡ (subscribed b e ts || set_has b (receivers_of e s.ipc.receivers))

turn-Tells :
    (kernel : Sendto) (a : Turn) (s t : Umbrella)
    → step kernel s (to_step a) ≡ some t
    → IsTurn a
    → s.ipc.handlers ≡ own_table
    → IsTable s.ipc.receivers
    → Tells s t (a ∷ [])
unfolding to_step step subscribed
turn-Tells kernel (registers address events) s t h v own set =
    let e = receive_registered kernel address events s v own in
    let e' : t ≡ record s {
      ipc = record s.ipc { receivers = add_receiver address events s.ipc.receivers };
    } =
      ground (arith, h, e) in
    rw e' (record {
      handlers = own;
      table = add_receiver-IsTable address events s.ipc.receivers set;
      tells = λ b e. ground (arith, set_has-add_receiver b e address events s.ipc.receivers);
    })
turn-Tells kernel (acts a) s t h v own set =
    let k = step-Keeps kernel a s t h v.0 own in
    record {
      handlers = k.handlers ∙ own;
      table = rw k.receivers set;
      tells = λ b e. rw k.receivers refl;
    }

after_turn :
    (a : Turn) (ts : List Turn) (s u t : Umbrella)
    → Tells s u (a ∷ [])
    → Tells u t ts
    → Tells s t (a ∷ ts)
unfolding subscribed
after_turn (registers address events) ts s u t v w = record {
  handlers = w.handlers;
  table = w.table;
  tells = λ b e. ground (arith, v.tells b e, w.tells b e);
}
after_turn (acts a) ts s u t v w = record {
  handlers = w.handlers;
  table = w.table;
  tells = λ b e. ground (arith, v.tells b e, w.tells b e);
}

pub turns-Tells :
    (kernel : Sendto) (ts : List Turn) (s t : Umbrella)
    → steps kernel s (map to_step ts) ≡ some t
    → All IsTurn ts
    → s.ipc.handlers ≡ own_table
    → IsTable s.ipc.receivers
    → Tells s t ts
unfolding steps subscribed
turns-Tells kernel [] s t h v own set =
    let e : s ≡ t = ground (arith, h) in
    rw (sym e) (record { handlers = own; table = set; tells = λ b k. refl })
turns-Tells kernel (a ∷ ts) s t h v own set = elim (Option-cases (step kernel s (to_step a))) [
  | inl e ↦ ground (arith, h, e)
  | inr (u, e) ↦
      let first = turn-Tells kernel a s u e v.0 own set in
      after_turn a ts s u t first
        (turns-Tells kernel ts u t (rw (e, steps) at h) v.1 first.handlers first.table)
]

length-message : (evt msg : Bytes) → length (message evt msg) ≡ length evt + length msg + 1
unfolding message
length-message [] msg = omega arith
length-message (c ∷ evt) msg = omega (arith, length-message evt msg)

-- What a receiver reads whole, a sender sends.
pub below_limit :
    (evt msg : Bytes) → length (message evt msg) ≤ receive_size → length evt + length msg ≤ 4096
below_limit evt msg whole = omega (arith, length-message evt msg)

pub read_whole :
    (evt msg : Bytes) → length evt + length msg < 4095 → length (message evt msg) ≤ receive_size
read_whole evt msg short = omega (arith, length-message evt msg)

forward_all :
    (kernel : Sendto) (i : Ipc Handler) (name msg : Bytes)
    → length (b'E' ∷ name) + length msg ≤ 4096
    → forward kernel i (message (b'E' ∷ name) msg) (b'E' ∷ name) msg ≡ record i {
      sends =
          i.sends ++ datagrams (message (b'E' ∷ name) msg) (receivers_of (b'E' ∷ name) i.receivers);
    }
unfolding forward message receivers_of umbrella_send_event
forward_all kernel i name msg short = elim (Option-cases (lookup (b'E' ∷ name) i.receivers)) [
  | inl e ↦ ground (arith, e, append-nil i.sends)
  | inr (addrs, e) ↦
      ground (arith, e, umbrella_send_event-datagrams kernel i (b'E' ∷ name) msg addrs e short)
]

-- An event for which the process has no handler, at whatever receivers there are.
pub receive_event :
    (kernel : Sendto) (t : Umbrella) (name msg : Bytes)
    → Lacks b' ' (b'E' ∷ name)
    → Lacks 0 (b'E' ∷ name)
    → Lacks 0 msg
    → lookup (b'E' ∷ name) t.ipc.handlers ≡ none
    → length (b'E' ∷ name) + length msg ≤ 4096
    → receive_round kernel (some (message (b'E' ∷ name) msg)) t ≡ record t {
      ipc = record t.ipc {
        sends =
            t.ipc.sends
            ++ datagrams (message (b'E' ∷ name) msg) (receivers_of (b'E' ∷ name) t.ipc.receivers);
      };
    }
unfolding receive_round receivers_of
receive_event kernel t name msg blank nul nul' free short =
    rw (umbrella_receive-forward kernel t.ipc b'E' name msg blank nul nul' free short)
      (ap (λ i. record t { ipc = i }) (forward_all kernel t.ipc name msg short))

pub empty-IsTable : (m : Dict (List Bytes)) → m ≡ [] → IsTable m
unfolding receivers_of lookup
empty-IsTable m e k = rw e tt

pub empty_subscribed :
    (b e : Bytes) (m : Dict (List Bytes)) (ts : List Turn)
    → m ≡ []
    → (subscribed b e ts || set_has b (receivers_of e m)) ≡ subscribed b e ts
unfolding receivers_of lookup set_has
empty_subscribed b e m ts none_yet = ground arith

-- From the start of the umbrella process, along every schedule of its threads in which processes
-- register events, each a word, under addresses with no blank and with no NUL, and nothing that it
-- receives, the registrations included, has more than the 4095 bytes that it reads: an event that
-- the process has no handler for itself goes out unchanged, once to each address that has
-- registered for it, in whichever registration and however often, and to no other. The event's name
-- begins with `E`, it and the text have no NUL and the name no blank, and the two and the blank
-- between them have at most 4095 bytes.
pub event_once :
    (kernel : Sendto) (os : Os) (c : Config) (s t : Umbrella) (ts : List Turn) (name msg : Bytes)
    → boot kernel os c ≡ some s
    → All IsTurn ts
    → steps kernel s (map to_step ts) ≡ some t
    → Lacks b' ' (b'E' ∷ name)
    → Lacks 0 (b'E' ∷ name)
    → Lacks 0 msg
    → lookup (b'E' ∷ name) own_table ≡ none
    → length (message (b'E' ∷ name) msg) ≤ receive_size
    → (addrs : List Bytes) × (receive_round kernel (some (message (b'E' ∷ name) msg)) t ≡ record t {
      ipc = record t.ipc { sends = t.ipc.sends ++ datagrams (message (b'E' ∷ name) msg) addrs };
    })
      × ((b : Bytes) → times b addrs ≡ (if subscribed b (b'E' ∷ name) ts then 1 else 0))
event_once kernel os c s t ts name msg booted valid ran blank nul nul' free whole =
    let short = below_limit (b'E' ∷ name) msg whole in
    let (own, none_yet) = boot_tables kernel os c s booted in
    let v = turns-Tells kernel ts s t ran valid own (empty-IsTable s.ipc.receivers none_yet) in
    let evt : Bytes = b'E' ∷ name in
    (
      receivers_of evt t.ipc.receivers,
      receive_event kernel t name msg blank nul nul' (rw v.handlers free) short,
      λ b.
          times-IsSet_list b (receivers_of evt t.ipc.receivers) (v.table evt)
          ∙ ap (λ (has : Bool). if has then 1 else 0)
              (v.tells b evt ∙ empty_subscribed b evt s.ipc.receivers ts none_yet),
    )
