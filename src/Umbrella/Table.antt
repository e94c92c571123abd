-- ===== src/Umbrella/Table.antt =====
-- The tables of the umbrella process, of IFLYOSInterface.cpp, under every step of its threads.
use sdk_linux.Prelude.{
  ◌≢◌, ℕ, ◌≡◌, refl, ap, ◌∙◌, inl, inr, Option, none, some, List, [], ◌∷◌, arith, Option-cases,
}
use sdk_linux.Prelude.Bytes.{Bytes, str_eq}
use sdk_linux.Prelude.Dict.{lookup}
use sdk_linux.Ipc.Names.{do_stop, do_start, evt_stopped, do_register_evt_receiver}
use sdk_linux.Ipc.State.{Sendto, Ipc}
use sdk_linux.Ipc.Worker.{Round, split_message, umbrella_receive}
use sdk_linux.Ipc.RoundTrip.{umbrella_receive_split}
use sdk_linux.Umbrella.{
  Handler, registeration_handler, do_start_handler, do_stop_handler, custom_directive_handler,
  Umbrella, Task, start_task, stop_task, exited_task, run_task, run_front, wait_returns, child_ends,
  handle, after_round, receive_round, on_do_start, on_do_stop,
}
use sdk_linux.Umbrella.Process.{
  Fork, pid_of, Step, receives, runs, waits, ends, starts, stops, step,
}
use sdk_linux.Umbrella.Handlers.{Keeps, send_event-Keeps, forward-Keeps, own_table, registers_alone}

-- A step other than the receipt of a registration.
abbrev pub IsOther : Step → Type 0
IsOther (receives none) = Unit
IsOther (receives (some buf)) =
    (msg : Bytes) → split_message buf ≢ some (do_register_evt_receiver, msg)
IsOther (runs f) = Unit
IsOther waits = Unit
IsOther ends = Unit
IsOther starts = Unit
IsOther stops = Unit

same : (s : Ipc Handler) → Keeps s s
same s = record { handlers = refl; receivers = refl }

handle-Keeps :
    (h : Handler) (msg : Bytes) (s : Umbrella)
    → h ≢ registeration_handler
    → Keeps s.ipc (handle h msg s).ipc
unfolding handle on_do_start on_do_stop
handle-Keeps registeration_handler msg s other = absurd (other refl)
handle-Keeps do_start_handler msg s other = same s.ipc
handle-Keeps do_stop_handler msg s other = same s.ipc
handle-Keeps custom_directive_handler msg s other = same s.ipc

passed_over :
    (kernel : Sendto) (s : Ipc Handler) (c : ℕ) (buf : Bytes)
    → split_message (c ∷ buf) ≡ none
    → umbrella_receive kernel s (some (c ∷ buf)) ≡ (s, Round.next)
unfolding umbrella_receive
passed_over kernel s c buf e = rw (e, umbrella_receive) refl

arrived-Keeps :
    (kernel : Sendto) (c : ℕ) (buf : Bytes) (s : Umbrella)
    → IsOther (receives (some (c ∷ buf)))
    → s.ipc.handlers ≡ own_table
    → Keeps s.ipc (receive_round kernel (some (c ∷ buf)) s).ipc
unfolding receive_round after_round
arrived-Keeps kernel c buf s other own = elim (Option-cases (split_message (c ∷ buf))) [
  | inl e ↦ rw (passed_over kernel s.ipc c buf e) (same s.ipc)
  | inr ((evt, msg), e) ↦ elim (Option-cases (lookup evt s.ipc.handlers)) [
    | inl f ↦
        rw (umbrella_receive_split s.ipc kernel (c ∷ buf) evt msg e, f)
          (forward-Keeps kernel s.ipc (c ∷ buf) evt msg)
    | inr (h, f) ↦
        rw (umbrella_receive_split s.ipc kernel (c ∷ buf) evt msg e, f)
          (handle-Keeps h msg s
            (λ g. other msg (e ∙ ap (λ k. some (k, msg)) (registers_alone evt (rw (g, own) at f)))))
  ]
]

round-Keeps :
    (kernel : Sendto) (buf : Option Bytes) (s : Umbrella)
    → IsOther (receives buf)
    → s.ipc.handlers ≡ own_table
    → Keeps s.ipc (receive_round kernel buf s).ipc
unfolding receive_round after_round umbrella_receive
round-Keeps kernel none s other own = same s.ipc
round-Keeps kernel (some []) s other own = same s.ipc
round-Keeps kernel (some (c ∷ buf)) s other own = arrived-Keeps kernel c buf s other own

task-Keeps :
    (kernel : Sendto) (f : Fork) (task : Task) (s : Umbrella)
    → Keeps s.ipc (run_task kernel (pid_of f) task s).ipc
unfolding run_task
task-Keeps kernel f start_task s = ground arith
task-Keeps kernel f stop_task s = ground arith
task-Keeps kernel f exited_task s = send_event-Keeps kernel s.ipc evt_stopped []

front-Keeps :
    (kernel : Sendto) (f : Fork) (s t : Umbrella) (q : List Task)
    → s.queue ≡ q
    → run_front kernel (pid_of f) s ≡ some t
    → Keeps s.ipc t.ipc
unfolding run_front
front-Keeps kernel f s t [] e h = ground (arith, e, h)
front-Keeps kernel f s t (task ∷ q) e h =
    let v = task-Keeps kernel f task (record s { queue = q }) in ground (arith, e, h, v)

wait-Keeps : (s t : Umbrella) → wait_returns s ≡ some t → Keeps s.ipc t.ipc
unfolding wait_returns
wait-Keeps s t h = ground (arith, h)

ends-Keeps : (s t : Umbrella) → child_ends s ≡ some t → Keeps s.ipc t.ipc
unfolding child_ends
ends-Keeps s t h = ground (arith, h)

pub step-Keeps :
    (kernel : Sendto) (a : Step) (s t : Umbrella)
    → step kernel s a ≡ some t
    → IsOther a
    → s.ipc.handlers ≡ own_table
    → Keeps s.ipc t.ipc
unfolding step run_front wait_returns child_ends on_do_start on_do_stop
step-Keeps kernel (receives buf) s t h other own =
    ground (arith, h, round-Keeps kernel buf s other own)
step-Keeps kernel (runs f) s t h other own = front-Keeps kernel f s t s.queue refl h
step-Keeps kernel waits s t h other own = wait-Keeps s t h
step-Keeps kernel ends s t h other own = ends-Keeps s t h
step-Keeps kernel starts s t h other own = ground (arith, h)
step-Keeps kernel stops s t h other own = ground (arith, h)

pub own_registers : lookup do_register_evt_receiver own_table ≡ some registeration_handler
unfolding lookup str_eq
own_registers = refl

pub own_starts : lookup do_start own_table ≡ some do_start_handler
unfolding lookup str_eq
own_starts = refl

pub own_stops : lookup do_stop own_table ≡ some do_stop_handler
unfolding lookup str_eq
own_stops = refl
