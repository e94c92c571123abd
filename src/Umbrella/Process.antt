-- ===== src/Umbrella/Process.antt =====
-- The life of the iFLYOS process under every schedule of the umbrella's threads.
use mathlib.Core.Option
use sdk_linux.Prelude.{
  ℕ, zero, suc, ◌+◌, ◌≤◌, ◌≡◌, ◌≢◌, refl, ◌⊎◌, inl, inr, true, Option, none, some, List, [], ◌∷◌,
  ◌++◌, arith, if◌then◌else◌, Option-cases,
}
use sdk_linux.Prelude.Int.{ℤ, pos, neg}
use sdk_linux.Prelude.Bytes.{Bytes}
use sdk_linux.Ipc.Names.{evt_stopped}
use sdk_linux.Ipc.State.{Sendto, Ipc}
use sdk_linux.Ipc.Register.{is_current}
use sdk_linux.Ipc.Send.{umbrella_send_event}
use sdk_linux.Umbrella.{
  registeration_handler, do_start_handler, do_stop_handler, custom_directive_handler, Round,
  umbrella_receive, handle, after_round, Handler, Task, start_task, stop_task, exited_task,
  Umbrella, is_set, on_do_start, on_do_stop, run_task, run_front, wait_returns, child_ends,
  receive_round,
}
use sdk_linux.Ipc.Init.{Os}
use sdk_linux.Umbrella.Startup.{Config, boot}

-- What `fork` returns in the parent: a process number, or -1.
pub data Fork : Type 0 where
  fork_ok : ℕ → Fork
  fork_failed : Fork

abbrev pub pid_of : Fork → ℤ
pid_of (fork_ok n) = pos (suc n)
pid_of fork_failed = neg 1

-- The receiver thread handles a call of `recvfrom`, the executor runs a task in which `fork` returns
-- as given, a monitor's `wait` returns, the iFLYOS process ends, or `main` enqueues a task.
pub data Step : Type 0 where
  receives : Option Bytes → Step
  runs : Fork → Step
  waits ends starts stops : Step

unfoldable pub step : Sendto → Umbrella → Step → Option Umbrella
step kernel s (receives buf) = some (receive_round kernel buf s)
step kernel s (runs f) = run_front kernel (pid_of f) s
step kernel s waits = wait_returns s
step kernel s ends = child_ends s
step kernel s starts = some (on_do_start s)
step kernel s stops = some (on_do_stop s)

unfoldable pub steps : Sendto → Umbrella → List Step → Option Umbrella
steps kernel s [] = some s
steps kernel s (a ∷ acts) = elim (step kernel s a) [ none ↦ none | some t ↦ steps kernel t acts ]

abbrev pub exits : List Task → ℕ
exits [] = 0
exits (exited_task ∷ q) = suc (exits q)
exits (start_task ∷ q) = exits q
exits (stop_task ∷ q) = exits q

pub exits-append : (p q : List Task) → exits (p ++ q) ≡ exits p + exits q
exits-append [] q = omega arith
exits-append (exited_task ∷ p) q = omega (arith, exits-append p q)
exits-append (start_task ∷ p) q = exits-append p q
exits-append (stop_task ∷ p) q = exits-append p q

abbrev pub owed : ℤ → ℕ
owed pid = if is_set pid then 1 else 0

-- While `iflyosPid` is set, one thread waits for the process or one report of its end is under way.
pub record Inv (s : Umbrella) : Type 0 where
  pub reported : s.monitors + exits s.queue ≡ owed s.iflyos_pid
  pub watched : s.children + s.zombies ≤ s.monitors

on_do_start-Inv : (s : Umbrella) → Inv s → Inv (on_do_start s)
unfolding on_do_start
on_do_start-Inv s v = ground (arith, exits-append s.queue (start_task ∷ []))

on_do_stop-Inv : (s : Umbrella) → Inv s → Inv (on_do_stop s)
unfolding on_do_stop
on_do_stop-Inv s v = ground (arith, exits-append s.queue (stop_task ∷ []))

handle-Inv : (h : Handler) (msg : Bytes) (s : Umbrella) → Inv s → Inv (handle h msg s)
unfolding handle
handle-Inv registeration_handler msg s v = ground arith
handle-Inv do_start_handler msg s v = on_do_start-Inv s v
handle-Inv do_stop_handler msg s v = on_do_stop-Inv s v
handle-Inv custom_directive_handler msg s v = v

after_round-Inv : (x : Ipc Handler × Round Handler) (s : Umbrella) → Inv s → Inv (after_round x s)
unfolding after_round
after_round-Inv (ipc, Round.stop) s v = ground arith
after_round-Inv (ipc, Round.next) s v = ground arith
after_round-Inv (ipc, Round.call h evt msg) s v =
    handle-Inv h msg (record s { ipc = ipc }) (ground arith)

-- The executor's task; `q` is the queue behind it.
run_task-Inv :
    (kernel : Sendto) (f : Fork) (task : Task) (q : List Task) (s : Umbrella)
    → s.queue ≡ task ∷ q
    → Inv s
    → Inv (run_task kernel (pid_of f) task (record s { queue = q }))
unfolding run_task
run_task-Inv kernel (fork_ok n) start_task q s e v = ground arith
run_task-Inv kernel fork_failed start_task q s e v = ground arith
run_task-Inv kernel f stop_task q s e v = ground arith
run_task-Inv kernel f exited_task q s e v = ground arith

front_at :
    (kernel : Sendto) (f : Fork) (s t : Umbrella) (q : List Task)
    → s.queue ≡ q
    → run_front kernel (pid_of f) s ≡ some t
    → Inv s
    → Inv t
unfolding run_front
front_at kernel f s t [] e h v = ground arith
front_at kernel f s t (task ∷ q) e h v = ground (arith, run_task-Inv kernel f task q s e v)

wait_at :
    (s t : Umbrella) (m z : ℕ)
    → s.monitors ≡ m
    → s.zombies ≡ z
    → wait_returns s ≡ some t
    → Inv s
    → Inv t
unfolding wait_returns
wait_at s t zero z e f h v = ground arith
wait_at s t (suc m) zero e f h v = ground (arith, exits-append s.queue (exited_task ∷ []))
wait_at s t (suc m) (suc z) e f h v = ground (arith, exits-append s.queue (exited_task ∷ []))

ends_at : (s t : Umbrella) (c : ℕ) → s.children ≡ c → child_ends s ≡ some t → Inv s → Inv t
unfolding child_ends
ends_at s t zero e h v = ground arith
ends_at s t (suc c) e h v = ground arith

step-Inv : (kernel : Sendto) (s t : Umbrella) (a : Step) → step kernel s a ≡ some t → Inv s → Inv t
unfolding step receive_round
step-Inv kernel s t (receives buf) h v =
    ground (arith, after_round-Inv (umbrella_receive kernel s.ipc buf) s v)
step-Inv kernel s t (runs f) h v = front_at kernel f s t s.queue refl h v
step-Inv kernel s t waits h v = wait_at s t s.monitors s.zombies refl refl h v
step-Inv kernel s t ends h v = ends_at s t s.children refl h v
step-Inv kernel s t starts h v = ground (arith, on_do_start-Inv s v)
step-Inv kernel s t stops h v = ground (arith, on_do_stop-Inv s v)

steps-Inv :
    (kernel : Sendto) (s t : Umbrella) (acts : List Step)
    → steps kernel s acts ≡ some t
    → Inv s
    → Inv t
unfolding steps
steps-Inv kernel s t [] h v = ground arith
steps-Inv kernel s t (a ∷ acts) h v = elim (Option-cases (step kernel s a)) [
  | inl e ↦ ground arith
  | inr (u, e) ↦ steps-Inv kernel u t acts (rw (e, steps) at h) (step-Inv kernel s u a e v)
]

boot-Inv :
    (kernel : Sendto) (os : Os) (c : Config) (s : Umbrella) → boot kernel os c ≡ some s → Inv s
unfolding boot
boot-Inv kernel os c s h = ground arith

-- From the start of the process, on every schedule of its threads and whatever `fork` returns, at
-- most one iFLYOS process is there, running or ended and not waited for; and none is there when
-- `iflyosPid` is 0, so that a start never makes a second one.
pub one_child :
    (kernel : Sendto) (os : Os) (c : Config) (s t : Umbrella) (acts : List Step)
    → boot kernel os c ≡ some s
    → steps kernel s acts ≡ some t
    → (t.children + t.zombies ≤ 1) × ((t.iflyos_pid ≢ pos 0) ⊎ (t.children + t.zombies ≡ 0))
one_child kernel os c s t acts b h =
    let v = steps-Inv kernel s t acts h (boot-Inv kernel os c s b) in ground (arith, v)

-- A stop that runs right behind a start sends SIGTERM to whatever `fork` returned in the start: the
-- new process, or -1 if `fork` failed, which `kill` takes for every process there is.
pub stop_after_start :
    (kernel : Sendto) (f g : Fork) (s : Umbrella) (q : List Task)
    → s.iflyos_pid ≡ pos 0
    → is_current s.ipc_version ≡ true
    → s.queue ≡ start_task ∷ stop_task ∷ q
    → Option.map (λ t. t.signals) (steps kernel s (runs f ∷ runs g ∷ []))
      ≡ some (s.signals ++ pid_of f ∷ [])
unfolding steps step run_front run_task
stop_after_start kernel (fork_ok n) g s q none_yet current queued = ground arith
stop_after_start kernel fork_failed g s q none_yet current queued = ground arith

-- When the process has ended while nothing else is queued, its end is announced to the receivers of
-- the stopped event, and a start behind that makes a new process, the only one.
pub restart_after_end :
    (kernel : Sendto) (g : Fork) (n : ℕ) (s : Umbrella)
    → s.queue ≡ []
    → s.monitors ≡ 1
    → s.zombies ≡ 1
    → s.children ≡ 0
    → is_current s.ipc_version ≡ true
    → steps kernel s (waits ∷ runs g ∷ starts ∷ runs (fork_ok n) ∷ [])
      ≡ some (record s {
        ipc = (umbrella_send_event kernel s.ipc evt_stopped []).0;
        iflyos_pid = pos (suc n);
        queue = [];
        monitors = 1;
        children = 1;
        zombies = 0;
      })
unfolding steps step run_front run_task wait_returns on_do_start
restart_after_end kernel g n s idle watched ended gone current = ground arith
