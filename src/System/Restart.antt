-- ===== src/System/Restart.antt =====
-- A key in MicAgent that stops and starts iFLYOS, at the umbrella process: a start that comes before
-- the end of the process is reported.
use mathlib.Core.List.{map}
use sdk_linux.Prelude.{
  length, length-append, ap, ℕ, suc, ◌+◌, ◌≤◌, List, [], ◌∷◌, ◌++◌, ◌≡◌, refl, ◌⊎◌, inl, inr, arith,
  some, none, true, false, Bool, Option-cases, All,
}
use sdk_linux.Prelude.Int.{pos}
use sdk_linux.Prelude.Dict.{lookup}
use sdk_linux.Ipc.Names.{do_start, do_stop}
use sdk_linux.Ipc.State.{Sendto}
use sdk_linux.SysKey.{SysKeyValue, key_restart_iflyos, key_net_config}
use sdk_linux.Agent.State.{Agent}
use sdk_linux.Agent.KeyLoop.{on_key}
use sdk_linux.Umbrella.{
  Task, start_task, stop_task, exited_task, child_ends, wait_returns, run_task, Umbrella,
  do_start_handler, do_stop_handler, on_do_start, on_do_stop, run_front,
}
use sdk_linux.Umbrella.Process.{
  Step, step, Fork, pid_of, steps, receives, runs, waits, ends, exits, exits-append,
}
use sdk_linux.System.{sent}
use sdk_linux.System.Keys.{
  IsRunning, stop_message, start_message, receive_stop, receive_start, key-sends,
}

-- What happens at the umbrella process: one of the two messages comes, the executor runs a task in
-- which `fork` returns as given, the iFLYOS process ends, or the `wait` for it returns.
pub data Turn : Type 0 where
  stop_comes start_comes process_ends wait_is_over : Turn
  task_runs : Fork → Turn

abbrev pub to_step : Turn → Step
to_step stop_comes = receives (some stop_message)
to_step start_comes = receives (some start_message)
to_step process_ends = ends
to_step wait_is_over = waits
to_step (task_runs f) = runs f

-- A turn before the end is reported, and one behind the last message.
abbrev pub is_before : Turn → Bool
is_before wait_is_over = false
is_before _ = true

abbrev pub is_after : Turn → Bool
is_after stop_comes = false
is_after start_comes = false
is_after _ = true

-- The process is watched, and its end has not been reported.
record Watched (n : ℕ) (u : Umbrella) : Type 0 where
  pid : u.iflyos_pid ≡ pos (suc n)
  watched : u.monitors ≡ 1
  unreported : exits u.queue ≡ 0
  there : u.children + u.zombies ≡ 1
  starts : lookup do_start u.ipc.handlers ≡ some do_start_handler
  stops : lookup do_stop u.ipc.handlers ≡ some do_stop_handler

-- Its end has been reported, as the last task.
record Reported (n : ℕ) (u : Umbrella) : Type 0 where
  pid : u.iflyos_pid ≡ pos (suc n)
  unwatched : u.monitors ≡ 0
  gone : u.children + u.zombies ≡ 0
  tasks : List Task
  earlier : exits tasks ≡ 0
  last : u.queue ≡ tasks ++ exited_task ∷ []

-- No process is there, and nothing is queued.
pub record IsOver (u : Umbrella) : Type 0 where
  pub pid : u.iflyos_pid ≡ pos 0
  pub unwatched : u.monitors ≡ 0
  pub gone : u.children + u.zombies ≡ 0
  pub idle : u.queue ≡ []

front-Watched :
    (kernel : Sendto) (n : ℕ) (f : Fork) (s t : Umbrella) (q : List Task)
    → s.queue ≡ q
    → run_front kernel (pid_of f) s ≡ some t
    → Watched n s
    → Watched n t
unfolding run_front run_task
front-Watched kernel n f s t [] e h v = ground (arith, h, e)
front-Watched kernel n f s t (start_task ∷ q) e h v = ground (arith, h, e, v)
front-Watched kernel n f s t (stop_task ∷ q) e h v = ground (arith, h, e, v)
front-Watched kernel n f s t (exited_task ∷ q) e h v = ground (arith, e, v)

before-Watched :
    (kernel : Sendto) (n : ℕ) (a : Turn) (s t : Umbrella)
    → is_before a ≡ true
    → step kernel s (to_step a) ≡ some t
    → Watched n s
    → Watched n t
unfolding step on_do_start on_do_stop child_ends
before-Watched kernel n stop_comes s t b h v =
    ground (arith, h, receive_stop kernel s v.stops, v, exits-append s.queue (stop_task ∷ []))
before-Watched kernel n start_comes s t b h v =
    ground (arith, h, receive_start kernel s v.starts, v, exits-append s.queue (start_task ∷ []))
before-Watched kernel n process_ends s t b h v = ground (arith, h, v)
before-Watched kernel n wait_is_over s t b h v = cc
before-Watched kernel n (task_runs f) s t b h v = front-Watched kernel n f s t s.queue refl h v

wait-Reported : (n : ℕ) (s t : Umbrella) → wait_returns s ≡ some t → Watched n s → Reported n t
unfolding wait_returns
wait-Reported n s t h v = record {
  pid = ground (arith, h, v);
  unwatched = ground (arith, h, v);
  gone = ground (arith, h, v);
  tasks = s.queue;
  earlier = v.unreported;
  last = ground (arith, h, v);
}

front-Reported :
    (kernel : Sendto) (n : ℕ) (f : Fork) (s t : Umbrella) (v : Reported n s) (q : List Task)
    → v.tasks ≡ q
    → run_front kernel (pid_of f) s ≡ some t
    → Reported n t ⊎ IsOver t
unfolding run_front run_task
front-Reported kernel n f s t v [] e h = inr (ground (arith, h, e, v))
front-Reported kernel n f s t v (start_task ∷ q) e h = inl (record {
  pid = ground (arith, h, e, v);
  unwatched = ground (arith, h, e, v);
  gone = ground (arith, h, e, v);
  tasks = q;
  earlier = ground (arith, e, v);
  last = ground (arith, h, e, v);
})
front-Reported kernel n f s t v (stop_task ∷ q) e h = inl (record {
  pid = ground (arith, h, e, v);
  unwatched = ground (arith, h, e, v);
  gone = ground (arith, h, e, v);
  tasks = q;
  earlier = ground (arith, e, v);
  last = ground (arith, h, e, v);
})
front-Reported kernel n f s t v (exited_task ∷ q) e h = ground (arith, e, v)

-- The process is there, its end is reported, or all is over.
abbrev Phase : ℕ → Umbrella → Type 0
Phase n u = Watched n u ⊎ (Reported n u ⊎ IsOver u)

run_before :
    (kernel : Sendto) (n : ℕ) (as' bs : List Turn) (s t : Umbrella)
    → All (λ a. is_before a ≡ true) as'
    → steps kernel s (map to_step (as' ++ bs)) ≡ some t
    → Watched n s
    → (u : Umbrella) × Watched n u × (steps kernel u (map to_step bs) ≡ some t)
unfolding steps
run_before kernel n [] bs s t b h v = (s, v, h)
run_before kernel n (a ∷ as') bs s t b h v = elim (Option-cases (step kernel s (to_step a))) [
  | inl e ↦ ground (arith, h, e)
  | inr (u, e) ↦
      run_before kernel n as' bs u t b.1 (rw (e, steps) at h)
        (before-Watched kernel n a s u b.0 e v)
]

Watched-Phase :
    (kernel : Sendto) (n : ℕ) (a : Turn) (s t : Umbrella)
    → is_after a ≡ true
    → step kernel s (to_step a) ≡ some t
    → Watched n s
    → Phase n t
unfolding step
Watched-Phase kernel n stop_comes s t b h v = cc
Watched-Phase kernel n start_comes s t b h v = cc
Watched-Phase kernel n process_ends s t b h v =
    inl (before-Watched kernel n process_ends s t refl h v)
Watched-Phase kernel n wait_is_over s t b h v = inr (inl (wait-Reported n s t h v))
Watched-Phase kernel n (task_runs f) s t b h v =
    inl (before-Watched kernel n (task_runs f) s t refl h v)

Reported-Phase :
    (kernel : Sendto) (n : ℕ) (a : Turn) (s t : Umbrella)
    → is_after a ≡ true
    → step kernel s (to_step a) ≡ some t
    → Reported n s
    → Phase n t
unfolding step child_ends wait_returns
Reported-Phase kernel n stop_comes s t b h v = cc
Reported-Phase kernel n start_comes s t b h v = cc
Reported-Phase kernel n process_ends s t b h v = ground (arith, h, v)
Reported-Phase kernel n wait_is_over s t b h v = ground (arith, h, v)
Reported-Phase kernel n (task_runs f) s t b h v =
    inr (front-Reported kernel n f s t v v.tasks refl h)

over-none :
    (kernel : Sendto) (a : Turn) (s : Umbrella)
    → is_after a ≡ true
    → IsOver s
    → step kernel s (to_step a) ≡ none
unfolding step child_ends wait_returns run_front
over-none kernel stop_comes s b v = cc
over-none kernel start_comes s b v = cc
over-none kernel process_ends s b v = ground (arith, v)
over-none kernel wait_is_over s b v = ground (arith, v)
over-none kernel (task_runs f) s b v = ground (arith, v)

run_after :
    (kernel : Sendto) (n : ℕ) (bs : List Turn) (s t : Umbrella)
    → All (λ a. is_after a ≡ true) bs
    → steps kernel s (map to_step bs) ≡ some t
    → Phase n s
    → Phase n t
unfolding steps
run_after kernel n [] s t b h v = let same : s ≡ t = ground (arith, h) in rw same at v
run_after kernel n (a ∷ bs) s t b h v = elim (Option-cases (step kernel s (to_step a))) [
  | inl e ↦ ground (arith, h, e)
  | inr (u, e) ↦ run_after kernel n bs u t b.1 (rw (e, steps) at h) (elim v [
    | inl w ↦ Watched-Phase kernel n a s u b.0 e w
    | inr (inl w) ↦ Reported-Phase kernel n a s u b.0 e w
    | inr (inr w) ↦ ground (arith, over-none kernel a s b.0 w, e)
  ])
]

running-Watched : (n : ℕ) (u : Umbrella) → IsRunning n u → Watched n u
running-Watched n u v = record {
  pid = v.pid;
  watched = v.watched;
  unreported = ground (arith, v.idle);
  there = ground (arith, v.alive, v.ended);
  starts = v.starts;
  stops = v.stops;
}

-- The process number is still that of the process that ran, and something is left to do.
abbrev pub IsEnding : ℕ → Umbrella → Type 0
IsEnding n u = (u.iflyos_pid ≡ pos (suc n)) × (1 ≤ length u.queue + u.monitors)

Phase-ends : (n : ℕ) (u : Umbrella) → Phase n u → IsEnding n u ⊎ IsOver u
Phase-ends n u (inl v) = inl (v.pid, omega (arith, v.watched))
Phase-ends n u (inr (inl v)) =
    inl (v.pid, omega (arith, ap length v.last, length-append v.tasks (exited_task ∷ [])))
Phase-ends n u (inr (inr v)) = inr v

-- The key for a restart and the one for the network configuration both send a stop and then a start.
-- Suppose that iFLYOS runs, and that these messages, and whatever others of the two kinds, come to the
-- umbrella process before the `wait` for iFLYOS returns, in any order with each other, the tasks of the
-- executor and the end of the process, and that none of them comes behind that. Then no start leads to
-- a new process, whatever `fork` would return: `iflyosPid` stays the number of the first process as
-- long as a task is queued or the `wait` is not over, and at the end no process is there, nothing
-- is queued, and nothing more happens by itself.
pub start_is_lost :
    (kernel : Sendto) (n : ℕ) (k : SysKeyValue) (s : Agent) (u t : Umbrella)
    (before behind : List Turn)
    → (k ≡ key_restart_iflyos) ⊎ (k ≡ key_net_config)
    → IsRunning n u
    → All (λ a. is_before a ≡ true) before
    → All (λ a. is_after a ≡ true) behind
    → steps kernel u (map to_step (before ++ behind)) ≡ some t
    → (sent (on_key k s).0.effects ≡ sent s.effects ++ stop_message ∷ start_message ∷ [])
      × (IsEnding n t ⊎ IsOver t)
start_is_lost kernel n k s u t before behind which v first last h =
    let (m, w, rest) = run_before kernel n before behind u t first h (running-Watched n u v) in
    (key-sends k s which, Phase-ends n t (run_after kernel n behind m t last rest (inl w)))
