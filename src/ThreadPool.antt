-- ===== src/ThreadPool.antt =====
-- IFLYOSInterface/include/IFLYOSThreadPool.h and IFLYOSInterface/src/IFLYOSThreadPool.cpp: a queue
-- of tasks and the threads that run them. Each critical section of `queue_mutex` is one step, with the
-- `notify` behind it; a schedule is a list of steps, of the pool's threads and of those that use the
-- pool.
pub mod Order
pub mod Shutdown
pub mod Wakeup
pub mod Executor
pub mod Refinement
pub mod Turns
mod Tests
use sdk_linux.Prelude.{
  ℕ, zero, suc, ◌+◌, Bool, true, false, Option, none, some, List, [], ◌∷◌, ◌++◌, if◌then◌else◌,
  replicate, get_elem?, set,
}

-- A thread of `workers`: about to get the lock and to test the predicate of `condition.wait`, asleep
-- there, in `task()`, or returned.
pub data Worker {ℓ} (T : Type ℓ) : Type ℓ where
  waiting : Worker T
  asleep : Worker T
  running : T → Worker T
  exited : Worker T

pub record ThreadPool {ℓ} (T : Type ℓ) : Type ℓ where
  pub tasks : List T
  pub quit : Bool
  pub workers : List (Worker T)

-- What a worker does when it holds the lock: the wait's predicate fails, it returns, or it takes the
-- task at the front.
pub data Wake {ℓ} (T : Type ℓ) : Type ℓ where
  blocks : Wake T
  returns : Wake T
  takes : T → List T → Wake T

-- `quit || !tasks.empty()`, then `quit && tasks.empty()`.
unfoldable pub wake {ℓ} : {T : Type ℓ} → Bool → List T → Wake T
wake quit [] = if quit then returns else blocks
wake quit (t ∷ tasks) = takes t tasks

module _ {ℓ} {T : Type ℓ} where
  -- The constructor.
  unfoldable pub create : ℕ → ThreadPool T
  create threads = record { tasks = []; quit = false; workers = replicate threads waiting }

  -- `condition.notify_one()`, if a thread is asleep. Which one it wakes is open; that another one
  -- wakes is `stir`.
  unfoldable pub notify_one : List (Worker T) → List (Worker T)
  notify_one [] = []
  notify_one (asleep ∷ ws) = waiting ∷ ws
  notify_one (waiting ∷ ws) = waiting ∷ notify_one ws
  notify_one (running t ∷ ws) = running t ∷ notify_one ws
  notify_one (exited ∷ ws) = exited ∷ notify_one ws

  -- `condition.notify_all()`.
  unfoldable pub notify_all : List (Worker T) → List (Worker T)
  notify_all [] = []
  notify_all (asleep ∷ ws) = waiting ∷ notify_all ws
  notify_all (waiting ∷ ws) = waiting ∷ notify_all ws
  notify_all (running t ∷ ws) = running t ∷ notify_all ws
  notify_all (exited ∷ ws) = exited ∷ notify_all ws

  -- `enqueue`: `none` is the `std::runtime_error`.
  unfoldable pub enqueue : ThreadPool T → T → Option (ThreadPool T)
  enqueue p t =
      if p.quit
      then none
      else some (record p { tasks = p.tasks ++ t ∷ []; workers = notify_one p.workers })

  unfoldable pub safe_quit : ThreadPool T → ThreadPool T
  safe_quit p = record p { quit = true; workers = notify_all p.workers }

  -- `join` returns when every worker has returned.
  unfoldable pub all_exited : List (Worker T) → Bool
  all_exited [] = true
  all_exited (exited ∷ ws) = all_exited ws
  all_exited (waiting ∷ ws) = false
  all_exited (asleep ∷ ws) = false
  all_exited (running t ∷ ws) = false

  -- Worker `i` gets the lock in `condition.wait`, and falls asleep if the predicate fails. `none`: it is
  -- not there.
  unfoldable pub wake_worker : ThreadPool T → ℕ → Option (ThreadPool T)
  unfolding wake
  wake_worker p i = elim (get_elem? p.workers i) [
    | some waiting ↦ elim (wake p.quit p.tasks) [
      | blocks ↦ some (record p { workers = set p.workers i asleep })
      | returns ↦ some (record p { workers = set p.workers i exited })
      | takes t rest ↦ some (record p { tasks = rest; workers = set p.workers i (running t) })
    ]
    | _ ↦ none
  ]

  -- Worker `i` wakes without a call of `notify`, as a condition variable may.
  unfoldable pub stir : ThreadPool T → ℕ → Option (ThreadPool T)
  stir p i = elim (get_elem? p.workers i) [
    | some asleep ↦ some (record p { workers = set p.workers i waiting })
    | _ ↦ none
  ]

  -- Worker `i` comes back from `task()`.
  unfoldable pub finish_task : ThreadPool T → ℕ → Option (ThreadPool T)
  finish_task p i = elim (get_elem? p.workers i) [
    | some (running t) ↦ some (record p { workers = set p.workers i waiting })
    | _ ↦ none
  ]
