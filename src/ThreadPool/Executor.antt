-- ===== src/ThreadPool/Executor.antt =====
-- A pool with one thread as the executor of a process: the pool of IFLYOSThreadPool.cpp with its lock
-- and its worker, and the process that enqueues its tasks. The body of a task is one step, at its end.
use mathlib.Core.Option
use sdk_linux.Prelude.{◌≡◌, Option, none, some, List, [], ◌∷◌, ◌++◌, get_elem?}
use sdk_linux.ThreadPool.{
  Worker, waiting, asleep, running, exited, ThreadPool, create, enqueue, wake_worker, stir,
  finish_task,
}

-- A process whose state has the tasks that it has enqueued and that have not run; `run` is the body of
-- a task, which `X` gives what it asks of the outside.
pub record Client {ℓ} (S T X : Type ℓ) : Type ℓ where
  pub queue : S → List T
  pub set_queue : List T → S → S
  pub run : X → T → S → S
  pub queue-set_queue : (q : List T) (s : S) → queue (set_queue q s) ≡ q
  pub set_queue_twice : (p q : List T) (s : S) → set_queue p (set_queue q s) ≡ set_queue p s
  pub set_queue_same : (s : S) → set_queue (queue s) s ≡ s
  pub run-enqueues :
      (x : X) (t : T) (q : List T) (s : S)
      → run x t (set_queue q s)
        ≡ set_queue (q ++ queue (run x t (set_queue [] s))) (run x t (set_queue [] s))

module _ {ℓ} {S T X : Type ℓ} (c : Client S T X) where
  -- An operation that does not read the queue, and enqueues tasks at its end.
  abbrev pub Enqueues : (S → Option S) → Type ℓ
  Enqueues f =
      (q : List T) (s : S)
      → f (c.set_queue q s)
        ≡ Option.map (λ t. c.set_queue (q ++ c.queue t) t) (f (c.set_queue [] s))

  -- What the process and its executor do.
  pub data Act : Type ℓ where
    does : (f : S → Option S) → Enqueues f → Act
    runs : X → Act

  -- The process with its queue.
  unfoldable pub act : S → Act → Option S
  act s (does f e) = f s
  act s (runs x) = elim (c.queue s) [ [] ↦ none | t ∷ rest ↦ some (c.run x t (c.set_queue rest s)) ]

  unfoldable pub acts : S → List Act → Option S
  acts s [] = some s
  acts s (a ∷ as') = elim (act s a) [ none ↦ none | some t ↦ acts t as' ]

  -- The process with the pool: what it enqueues goes to the pool.
  pub record Machine : Type ℓ where
    pub pool : ThreadPool T
    pub client : S

  unfoldable pub enqueue_all : ThreadPool T → List T → Option (ThreadPool T)
  enqueue_all p [] = some p
  enqueue_all p (t ∷ ts) = elim (enqueue p t) [ none ↦ none | some q ↦ enqueue_all q ts ]

  unfoldable pub hand_over : ThreadPool T → Option S → Option Machine
  hand_over p none = none
  hand_over p (some s) = elim (enqueue_all p (c.queue s)) [
    | none ↦ none
    | some q ↦ some (record { pool = q; client = c.set_queue [] s })
  ]

  -- What the process does, and the steps of its pool's one worker: it gets the lock, wakes by itself,
  -- or its task is done.
  pub data Move : Type ℓ where
    does_in : (f : S → Option S) → Enqueues f → Move
    wakes stirs : Move
    finishes : X → Move

  unfoldable pub finish : Machine → X → Option (Worker T) → Option Machine
  unfolding hand_over
  finish m x (some (running t)) = elim (finish_task m.pool 0) [
    | none ↦ none
    | some p ↦ hand_over p (some (c.run x t m.client))
  ]
  finish m x _ = none

  unfoldable pub move : Machine → Move → Option Machine
  unfolding hand_over finish
  move m (does_in f e) = hand_over m.pool (f m.client)
  move m wakes = Option.map (λ p. record m { pool = p }) (wake_worker m.pool 0)
  move m stirs = Option.map (λ p. record m { pool = p }) (stir m.pool 0)
  move m (finishes x) = finish m x (get_elem? m.pool.workers 0)

  unfoldable pub moves : Machine → List Move → Option Machine
  moves m [] = some m
  moves m (a ∷ as') = elim (move m a) [ none ↦ none | some n ↦ moves n as' ]

  -- The tasks that the workers run.
  abbrev pub held : List (Worker T) → List T
  held [] = []
  held (running t ∷ ws) = t ∷ held ws
  held (waiting ∷ ws) = held ws
  held (asleep ∷ ws) = held ws
  held (exited ∷ ws) = held ws

  -- The queue as the process sees it: the task that runs is still at its front.
  unfoldable pub view : Machine → S
  view m = c.set_queue (held m.pool.workers ++ m.pool.tasks) m.client

  pub record IsOne (m : Machine) : Type ℓ where
    pub emptied : c.queue m.client ≡ []
    pub worker : Worker T
    pub one : m.pool.workers ≡ worker ∷ []

  -- The moves that the process sees.
  abbrev pub seen : List Move → List Act
  seen [] = []
  seen (does_in f e ∷ ms) = does f e ∷ seen ms
  seen (wakes ∷ ms) = seen ms
  seen (stirs ∷ ms) = seen ms
  seen (finishes x ∷ ms) = runs x ∷ seen ms

  -- The process with the pool that its constructor makes.
  abbrev pub begin : S → Machine
  begin s = record { pool = create 1; client = s }
