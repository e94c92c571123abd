-- ===== src/ThreadPool/Tests.antt =====
-- Schedules of a pool with one and with two threads.
use sdk_linux.Prelude.{
  sum_by, ℕ, ◌≤◌, ◌≡◌, ◌≢◌, ◌⊎◌, refl, true, false, none, some, List, [], ◌∷◌, ◌++◌, arith,
}
use sdk_linux.ThreadPool.{
  asleep, waiting, running, exited, create, enqueue, safe_quit, all_exited, wake_worker,
  finish_task, notify_one, notify_all,
}
use sdk_linux.ThreadPool.Order.{
  asleep_one, Step, enqueues, safe_quits, wakes, finishes, Run, step, steps, start, starts_in_order,
}
use sdk_linux.ThreadPool.Wakeup.{Takes, queued-served}
use sdk_linux.ThreadPool.Shutdown.{is_own, all_own, load, join-drains, join_waits, join-returns}

-- The second thread falls asleep before there is a task, and `enqueue` wakes it.
abbrev schedule : List (Step ℕ)
schedule = wakes 1 ∷ enqueues 10 ∷ enqueues 11 ∷ wakes 0 ∷ wakes 1 ∷ finishes 1 ∷ []

abbrev busy : Run ℕ
busy = record {
  pool = record { tasks = []; quit = false; workers = running 10 ∷ waiting ∷ [] };
  accepted = 10 ∷ 11 ∷ [];
  started = 10 ∷ 11 ∷ [];
  finished = 1;
}

schedule_runs : steps (start 2) schedule ≡ some busy
unfolding steps step start create enqueue wake_worker finish_task notify_one
schedule_runs = refl

starts_in_order_example : busy.accepted ≡ busy.started ++ []
starts_in_order_example = starts_in_order 2 schedule busy schedule_runs

join_waits_busy : all_exited busy.pool.workers ≡ false
join_waits_busy = join_waits 2 (omega arith) schedule busy schedule_runs refl

-- It falls asleep again, and `safeQuit` wakes it.
abbrev quitting : List (Step ℕ)
quitting = schedule ++ wakes 1 ∷ safe_quits ∷ []

abbrev closing : List (Step ℕ)
closing = quitting ++ wakes 1 ∷ finishes 0 ∷ wakes 0 ∷ []

abbrev closed : Run ℕ
closed = record {
  pool = record { tasks = []; quit = true; workers = exited ∷ exited ∷ [] };
  accepted = 10 ∷ 11 ∷ [];
  started = 10 ∷ 11 ∷ [];
  finished = 2;
}

closing_runs : steps (start 2) closing ≡ some closed
unfolding steps step start create enqueue wake_worker finish_task safe_quit notify_one notify_all
closing_runs = refl

join-drains_example :
    (closed.pool.quit ≡ true) × (closed.started ≡ closed.accepted) × (closed.finished ≡ 2)
unfolding all_exited
join-drains_example = join-drains 2 (omega arith) closing closed closing_runs refl

abbrev told : Run ℕ
told = record busy {
  pool = record { tasks = []; quit = true; workers = running 10 ∷ waiting ∷ [] };
}

quitting_runs : steps (start 2) quitting ≡ some told
unfolding steps step start create enqueue wake_worker finish_task safe_quit notify_one notify_all
quitting_runs = refl

told_runs : steps told (wakes 1 ∷ finishes 0 ∷ wakes 0 ∷ []) ≡ some closed
unfolding steps step wake_worker finish_task
told_runs = refl

join-returns_example :
    (3 ≤ load told)
    × ((all_exited closed.pool.workers ≡ true)
        ⊎ ((a : Step ℕ) × (is_own a ≡ true) × (step closed a ≢ none)))
    × (sum_by asleep_one closed.pool.workers ≡ 0)
    × ((t : ℕ) → step closed (enqueues t) ≡ none)
unfolding all_own
join-returns_example =
    join-returns 2 quitting told closed (wakes 1 ∷ finishes 0 ∷ wakes 0 ∷ []) quitting_runs refl
      refl told_runs

-- Both threads fall asleep, and one of them is woken by the task.
abbrev sleeping : List (Step ℕ)
sleeping = wakes 0 ∷ wakes 1 ∷ enqueues 10 ∷ []

abbrev queued : Run ℕ
queued = record {
  pool = record { tasks = 10 ∷ []; quit = false; workers = waiting ∷ asleep ∷ [] };
  accepted = 10 ∷ [];
  started = [];
  finished = 0;
}

sleeping_runs : steps (start 2) sleeping ≡ some queued
unfolding steps step start create enqueue wake_worker notify_one
sleeping_runs = refl

queued-served_example : (i : ℕ) × (Takes queued.pool i ⊎ (step queued (finishes i) ≢ none))
queued-served_example = queued-served 2 sleeping queued (omega arith) sleeping_runs (omega arith)
