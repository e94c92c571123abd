-- ===== src/Umbrella/Pool.antt =====
-- The umbrella process with `exector`, its pool of one thread, in full.
use sdk_linux.Prelude.{
  ◌+◌, ◌≤◌, ◌≡◌, ◌≢◌, refl, ◌⊎◌, Option, none, some, List, [], ◌∷◌, ◌++◌, append-nil, arith,
}
use sdk_linux.Prelude.Int.{pos}
use sdk_linux.Prelude.Bytes.{Bytes}
use sdk_linux.Ipc.State.{Sendto, Ipc}
use sdk_linux.Ipc.Init.{Os}
use sdk_linux.Ipc.Worker.{Round, umbrella_receive}
use sdk_linux.Umbrella.{
  run_front, Handler, registeration_handler, do_start_handler, do_stop_handler,
  custom_directive_handler, handle, after_round, Umbrella, Task, start_task, stop_task, exited_task,
  run_task, receive_round, wait_returns, child_ends, on_do_start, on_do_stop,
}
use sdk_linux.Umbrella.Startup.{Config, boot}
use sdk_linux.Umbrella.Process.{
  Fork, pid_of, Step, receives, runs, waits, ends, starts, stops, step, steps, one_child,
}
use sdk_linux.ThreadPool.Executor.{
  does, Act, act, Client, Enqueues, Move, does_in, finishes, Machine, begin, moves, held, seen,
  view,
}
use sdk_linux.ThreadPool.Turns.{Program, Turn, without_locks, to_moves, steps-refine}

module _ (kernel : Sendto) where
  pub run_task-enqueues :
      (f : Fork) (t : Task) (q : List Task) (s : Umbrella)
      → run_task kernel (pid_of f) t (record s { queue = q })
        ≡ record (run_task kernel (pid_of f) t (record s { queue = [] })) {
          queue = q ++ (run_task kernel (pid_of f) t (record s { queue = [] })).queue;
        }
  unfolding run_task
  run_task-enqueues f start_task q s = ground (arith, append-nil q)
  run_task-enqueues f stop_task q s = ground (arith, append-nil q)
  run_task-enqueues f exited_task q s = ground (arith, append-nil q)

  abbrev pub exector : Client Umbrella Task Fork
  exector = record {
    queue = λ s. s.queue;
    set_queue = λ q s. record s { queue = q };
    run = λ f t s. run_task kernel (pid_of f) t s;
    queue-set_queue = λ q s. refl;
    set_queue_twice = λ p q s. refl;
    set_queue_same = λ s. refl;
    run-enqueues = run_task-enqueues;
  }

  handle-Enqueues : (h : Handler) (msg : Bytes) → Enqueues exector (λ s. some (handle h msg s))
  unfolding handle on_do_start on_do_stop
  handle-Enqueues registeration_handler msg q s = ground (arith, append-nil q)
  handle-Enqueues do_start_handler msg q s = refl
  handle-Enqueues do_stop_handler msg q s = refl
  handle-Enqueues custom_directive_handler msg q s = ground (arith, append-nil q)

  after_round-Enqueues :
      (x : Ipc Handler × Round Handler) → Enqueues exector (λ s. some (after_round x s))
  unfolding after_round
  after_round-Enqueues (ipc, Round.stop) q s = ground (arith, append-nil q)
  after_round-Enqueues (ipc, Round.next) q s = ground (arith, append-nil q)
  after_round-Enqueues (ipc, Round.call h evt msg) q s =
      handle-Enqueues h msg q (record s { ipc = ipc })

  pub receive-Enqueues :
      (buf : Option Bytes) → Enqueues exector (λ s. some (receive_round kernel buf s))
  unfolding receive_round
  receive-Enqueues buf q s = after_round-Enqueues (umbrella_receive kernel s.ipc buf) q s

  pub waits-Enqueues : Enqueues exector wait_returns
  unfolding wait_returns
  waits-Enqueues q s = ground (arith, append-nil q)

  pub ends-Enqueues : Enqueues exector child_ends
  unfolding child_ends
  ends-Enqueues q s = ground (arith, append-nil q)

  pub starts-Enqueues : Enqueues exector (λ s. some (on_do_start s))
  unfolding on_do_start
  starts-Enqueues q s = refl

  pub stops-Enqueues : Enqueues exector (λ s. some (on_do_stop s))
  unfolding on_do_stop
  stops-Enqueues q s = refl

  -- A step of the process in which the pool's queue stands for its own; the end of a task is one.
  unfoldable pub to_move : Step → Move exector
  to_move (receives buf) = does_in (λ s. some (receive_round kernel buf s)) (receive-Enqueues buf)
  to_move (runs f) = finishes f
  to_move waits = does_in wait_returns waits-Enqueues
  to_move ends = does_in child_ends ends-Enqueues
  to_move starts = does_in (λ s. some (on_do_start s)) starts-Enqueues
  to_move stops = does_in (λ s. some (on_do_stop s)) stops-Enqueues

  abbrev pub to_act : Step → Act exector
  to_act (receives buf) = does (λ s. some (receive_round kernel buf s)) (receive-Enqueues buf)
  to_act (runs f) = Act.runs f
  to_act waits = does wait_returns waits-Enqueues
  to_act ends = does child_ends ends-Enqueues
  to_act starts = does (λ s. some (on_do_start s)) starts-Enqueues
  to_act stops = does (λ s. some (on_do_stop s)) stops-Enqueues

  pub steps_next :
      (s : Umbrella) (a : Step) (as' : List Step)
      → steps kernel s (a ∷ as')
        ≡ elim (act exector s (to_act a)) [ none ↦ none | some t ↦ steps kernel t as' ]
  unfolding steps step act run_front
  steps_next s (receives buf) as' = refl
  steps_next s (runs f) as' = refl
  steps_next s waits as' = refl
  steps_next s ends as' = refl
  steps_next s starts as' = refl
  steps_next s stops as' = refl

  pub steps_none : (s : Umbrella) → steps kernel s [] ≡ some s
  unfolding steps
  steps_none s = refl

  pub seen_as :
      (a : Step) (ms : List (Move exector))
      → seen exector (to_move a ∷ ms) ≡ to_act a ∷ seen exector ms
  unfolding to_move
  seen_as (receives buf) ms = refl
  seen_as (runs f) ms = refl
  seen_as waits ms = refl
  seen_as ends ms = refl
  seen_as starts ms = refl
  seen_as stops ms = refl

  abbrev pub program : Program exector Step
  program = record {
    to_move = to_move;
    to_act = to_act;
    steps = steps kernel;
    steps_none = steps_none;
    steps_next = steps_next;
    seen_as = seen_as;
  }

boot-queue :
    (kernel : Sendto) (os : Os) (c : Config) (s : Umbrella)
    → boot kernel os c ≡ some s
    → s.queue ≡ []
unfolding boot
boot-queue kernel os c s h = ground (arith, h)

-- From its start the process with the pool of one thread, with the lock and the worker's steps, does
-- what the process with a queue does: along every schedule the state is the one behind the same steps
-- without those of the lock, and the tasks that run or wait in the pool are the queue. So here too at
-- most one iFLYOS process is there, and none when `iflyosPid` is 0.
pub pool-refines :
    (kernel : Sendto) (os : Os) (c : Config) (s : Umbrella) (turns : List (Turn Step))
    (n : Machine (exector kernel))
    → boot kernel os c ≡ some s
    → moves
        (exector kernel)
        (begin (exector kernel) s)
        (to_moves (exector kernel) (program kernel) turns)
      ≡ some n
    → (steps kernel s (without_locks turns)
        ≡ some (record n.client { queue = held (exector kernel) n.pool.workers ++ n.pool.tasks }))
      × (n.client.children + n.client.zombies ≤ 1)
      × ((n.client.iflyos_pid ≢ pos 0) ⊎ (n.client.children + n.client.zombies ≡ 0))
unfolding view
pool-refines kernel os c s turns n b h =
    let same =
      steps-refine (exector kernel) (program kernel) s turns n (boot-queue kernel os c s b) h in
    let (one, gone) = one_child kernel os c s _ (without_locks turns) b same in (same, one, gone)
