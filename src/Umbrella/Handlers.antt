-- ===== src/Umbrella/Handlers.antt =====
-- The tables of the umbrella process, of IFLYOSInterface.cpp, and what its start makes of them.
use mathlib.Core.Option
use sdk_linux.Prelude.{
  ◌≡◌, refl, ◌⊎◌, inl, inr, Bool, true, none, some, List, [], ◌∷◌, ◌++◌, arith, Option-cases,
  Bool-cases,
}
use sdk_linux.Prelude.Int.{is_neg}
use sdk_linux.Prelude.Int.{pos}
use sdk_linux.Prelude.Bytes.{
  Bytes, str_eq, str_eq_iff, IsSetList, set_insert, set_insert-IsSet_list,
}
use sdk_linux.Prelude.Dict.{Dict, lookup, insert}
use sdk_linux.Ipc.Names.{evt_custom_directive, do_stop, do_start, do_register_evt_receiver}
use sdk_linux.Ipc.State.{Sendto, Ipc}
use sdk_linux.Ipc.Init.{is_zero, Os}
use sdk_linux.Ipc.Send.{message, send_all, umbrella_send_event, umbrella_send_action}
use sdk_linux.Ipc.Worker.{forward}
use sdk_linux.Ipc.Register.{receivers_of, add_receiver}
use sdk_linux.Ipc.Receivers.{receivers_of-insert}
use sdk_linux.Umbrella.{
  Handler, registeration_handler, do_start_handler, do_stop_handler, custom_directive_handler,
  Umbrella,
}
use sdk_linux.Umbrella.Startup.{Config, boot}

-- The receivers' sets have each address once.
abbrev pub IsTable : Dict (List Bytes) → Type 0
IsTable m = (e : Bytes) → IsSetList (receivers_of e m)

pub add_receiver-IsTable :
    (addr : Bytes) (events : List Bytes) (m : Dict (List Bytes))
    → IsTable m
    → IsTable (add_receiver addr events m)
unfolding add_receiver
add_receiver-IsTable addr [] m v = v
add_receiver-IsTable addr (event ∷ events) m v =
    add_receiver-IsTable addr events (insert event (set_insert addr (receivers_of event m)) m) (λ e.
      ground (
        arith,
        v e,
        receivers_of-insert event e (set_insert addr (receivers_of event m)) m,
        set_insert-IsSet_list addr (receivers_of event m) (v event),
      ))

-- The tables are those of `s`.
pub record Keeps (s t : Ipc Handler) : Type 0 where
  pub handlers : t.handlers ≡ s.handlers
  pub receivers : t.receivers ≡ s.receivers

send_all-Keeps :
    (kernel : Sendto) (s : Ipc Handler) (addrs : List Bytes) (content : Bytes) (ok : Bool)
    → Keeps s (send_all kernel s addrs content ok).0
unfolding send_all
send_all-Keeps kernel s [] content ok = record { handlers = refl; receivers = refl }
send_all-Keeps kernel s (a ∷ addrs) content ok =
    let rest =
      send_all-Keeps kernel
        (record s { sends = s.sends ++ record { address = a; content = content } ∷ [] }) addrs
        content _ in
    record { handlers = rest.handlers; receivers = rest.receivers }

pub send_event-Keeps :
    (kernel : Sendto) (s : Ipc Handler) (evt msg : Bytes)
    → Keeps s (umbrella_send_event kernel s evt msg).0
unfolding umbrella_send_event
send_event-Keeps kernel s evt msg = elim (Option-cases (lookup evt s.receivers)) [
  | inl e ↦ ground (arith, e)
  | inr (addrs, e) ↦ ground (arith, e, send_all-Keeps kernel s addrs (message evt msg) true)
]

send_action-Keeps :
    (kernel : Sendto) (s : Ipc Handler) (evt msg : Bytes)
    → Keeps s (umbrella_send_action kernel s evt msg).0
unfolding umbrella_send_action
send_action-Keeps kernel s evt msg = ground arith

pub forward-Keeps :
    (kernel : Sendto) (s : Ipc Handler) (buf evt msg : Bytes)
    → Keeps s (forward kernel s buf evt msg)
unfolding forward
forward-Keeps kernel s buf evt msg =
    ground (arith, send_event-Keeps kernel s evt msg, send_action-Keeps kernel s evt msg)

-- The handlers that `main` registers before its loop.
abbrev pub own_table : Dict Handler
own_table =
    (do_register_evt_receiver, registeration_handler)
    ∷ (do_start, do_start_handler)
    ∷ (do_stop, do_stop_handler)
    ∷ (evt_custom_directive, custom_directive_handler)
    ∷ []

tables_of : Umbrella → Dict Handler × Dict (List Bytes)
tables_of s = (s.ipc.handlers, s.ipc.receivers)

boot_cases :
    (kernel : Sendto) (os : Os) (c : Config)
    → (boot kernel os c ≡ none) ⊎ (Option.map tables_of (boot kernel os c) ≡ some (own_table, []))
unfolding boot tables_of insert str_eq
boot_cases kernel os c = elim (Bool-cases (is_neg os.socket_ret)) [
  | inl e ↦ inl (rw e refl)
  | inr e ↦ elim (Bool-cases (is_zero os.bind_ret)) [
    | inl f ↦ inr (rw (e, f) refl)
    | inr f ↦ inl (rw (e, f) refl)
  ]
]

pub boot_tables :
    (kernel : Sendto) (os : Os) (c : Config) (s : Umbrella)
    → boot kernel os c ≡ some s
    → (s.ipc.handlers ≡ own_table) × (s.ipc.receivers ≡ [])
unfolding tables_of
boot_tables kernel os c s h = ground (arith, h, boot_cases kernel os c)

-- The rest of the state.
pub boot_rest :
    (kernel : Sendto) (os : Os) (c : Config) (s : Umbrella)
    → boot kernel os c ≡ some s
    → s ≡ record {
      ipc = s.ipc;
      ipc_version = c.ipc_version;
      iflyos_pid = pos 0;
      queue = [];
      monitors = 0;
      children = 0;
      zombies = 0;
      signals = [];
    }
unfolding boot
boot_rest kernel os c s h = ground (arith, h)

-- The handler of registrations stands in the table for its event alone.
pub registers_alone :
    (evt : Bytes)
    → lookup evt own_table ≡ some registeration_handler
    → evt ≡ do_register_evt_receiver
unfolding lookup
registers_alone evt found = ground (arith, found, str_eq_iff do_register_evt_receiver evt)
