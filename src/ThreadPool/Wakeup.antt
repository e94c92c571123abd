-- ===== src/ThreadPool/Wakeup.antt =====
-- The calls of `notify_one`: whether a thread of the pool is awake for a task that is queued.
use sdk_linux.Prelude.{
  get_elem?-set_self, set, ◌≢◌, ℕ, suc, ◌≤◌, ◌<◌, ◌≡◌, refl, ◌⊎◌, inl, inr, false, none, some, List,
  [], ◌∷◌, arith, get_elem?, length, Option-cases, Bool-cases, sum_by, sum_by-set, length-replicate,
}
use sdk_linux.ThreadPool.{
  Worker, waiting, asleep, running, exited, ThreadPool, wake, create, enqueue, safe_quit,
  wake_worker, finish_task, stir, notify_one, notify_all,
}
use sdk_linux.ThreadPool.Order.{
  Step, enqueues, safe_quits, wakes, stirs, finishes, Run, exited_one, step, steps, start, Inv,
  Woken, wake_worker-some, finish_task-some, stir-some, step-Inv, start-Inv,
}
use sdk_linux.ThreadPool.Shutdown.{running_moves, step-length}

abbrev awake_one {ℓ} : {T : Type ℓ} → Worker T → ℕ
awake_one waiting = 1
awake_one (running t) = 1
awake_one _ = 0

module _ {ℓ} {T : Type ℓ} where
  awake-notify_one :
      (ws : List (Worker T))
      → 0 < length ws
      → sum_by exited_one ws ≡ 0
      → 0 < sum_by awake_one (notify_one ws)
  unfolding notify_one
  awake-notify_one [] some_threads open_pool = absurd (omega arith)
  awake-notify_one (waiting ∷ ws) some_threads open_pool = omega arith
  awake-notify_one (asleep ∷ ws) some_threads open_pool = omega arith
  awake-notify_one (running t ∷ ws) some_threads open_pool = omega arith
  awake-notify_one (exited ∷ ws) some_threads open_pool = absurd (omega (arith, open_pool))

  awake-notify_all : (ws : List (Worker T)) → sum_by awake_one ws ≤ sum_by awake_one (notify_all ws)
  unfolding notify_all
  awake-notify_all [] = omega arith
  awake-notify_all (waiting ∷ ws) = omega (arith, awake-notify_all ws)
  awake-notify_all (asleep ∷ ws) = omega (arith, awake-notify_all ws)
  awake-notify_all (running t ∷ ws) = omega (arith, awake-notify_all ws)
  awake-notify_all (exited ∷ ws) = omega (arith, awake-notify_all ws)

  -- A thread is awake if a task is queued.
  abbrev IsServed : ThreadPool T → Type 0
  IsServed p = 0 < length p.tasks → 0 < sum_by awake_one p.workers

  none_exited : (r : Run T) → Inv r → r.pool.quit ≡ false → sum_by exited_one r.pool.workers ≡ 0
  none_exited r v open_pool = ground (arith, v.drained, open_pool)

  Woken-IsServed : (p p' : ThreadPool T) (i : ℕ) → Woken p p' i → IsServed p → IsServed p'
  Woken-IsServed p p' i (idle, inr (open_pool, empty, e)) v = ground (arith, e, empty)
  Woken-IsServed p p' i (idle, inl (inl (q, empty, e))) v = ground (arith, e, empty)
  Woken-IsServed p p' i (idle, inl (inr (t, rest, front, e))) v =
      ground (arith, e, sum_by-set awake_one p.workers i waiting (running t) idle)

  step-IsServed :
      (r r' : Run T) (a : Step T)
      → step r a ≡ some r'
      → 0 < length r.pool.workers
      → Inv r
      → IsServed r.pool
      → IsServed r'.pool
  unfolding step enqueue safe_quit
  step-IsServed r r' (enqueues t) h some_threads v w = elim (Bool-cases r.pool.quit) [
    | inl q ↦ ground (arith, h, q)
    | inr q ↦
        let up = awake-notify_one r.pool.workers some_threads (none_exited r v q) in
        ground (arith, h, q, up)
  ]
  step-IsServed r r' safe_quits h some_threads v w =
      ground (arith, h, w, awake-notify_all r.pool.workers)
  step-IsServed r r' (wakes i) h some_threads v w = elim (Option-cases (wake_worker r.pool i)) [
    | inl e ↦ ground arith
    | inr (p, e) ↦ ground (arith, h, e, Woken-IsServed r.pool p i (wake_worker-some r.pool p i e) w)
  ]
  step-IsServed r r' (stirs i) h some_threads v w = elim (Option-cases (stir r.pool i)) [
    | inl e ↦ ground arith
    | inr (p, e) ↦
        let (still, e') = stir-some r.pool p i e in
        ground (arith, h, e, e', sum_by-set awake_one r.pool.workers i asleep waiting still)
  ]
  step-IsServed r r' (finishes i) h some_threads v w = elim (Option-cases (finish_task r.pool i)) [
    | inl e ↦ ground arith
    | inr (p, e) ↦
        let (t, busy, e') = finish_task-some r.pool p i e in
        ground (arith, h, e, e', sum_by-set awake_one r.pool.workers i (running t) waiting busy)
  ]

  steps-IsServed :
      (r r' : Run T) (acts : List (Step T))
      → steps r acts ≡ some r'
      → 0 < length r.pool.workers
      → Inv r
      → IsServed r.pool
      → IsServed r'.pool
  unfolding steps
  steps-IsServed r r' [] h some_threads v w = ground (arith, h, w)
  steps-IsServed r r' (a ∷ acts) h some_threads v w = elim (Option-cases (step r a)) [
    | inl e ↦ ground arith
    | inr (q, e) ↦
        let kept = step-length r q a e in
        steps-IsServed q r' acts (rw (e, steps) at h) (omega (arith, kept)) (step-Inv r q a e v)
          (step-IsServed r q a e some_threads v w)
  ]

  awake_worker :
      (ws : List (Worker T))
      → 0 < sum_by awake_one ws
      → (i : ℕ) × ((get_elem? ws i ≡ some waiting)
          ⊎ ((t : T) × (get_elem? ws i ≡ some (running t))))
  awake_worker [] h = absurd (omega arith)
  awake_worker (waiting ∷ ws) h = (0, inl refl)
  awake_worker (running t ∷ ws) h = (0, inr (t, refl))
  awake_worker (asleep ∷ ws) h = let (i, live) = awake_worker ws (omega arith) in (suc i, live)
  awake_worker (exited ∷ ws) h = let (i, live) = awake_worker ws (omega arith) in (suc i, live)

  -- Worker `i` takes the task at the front.
  abbrev pub Takes : ThreadPool T → ℕ → Type ℓ
  Takes p i =
      (t : T) × (q : ThreadPool T) × (wake_worker p i ≡ some q)
      × (p.tasks ≡ t ∷ q.tasks)
      × (get_elem? q.workers i ≡ some (running t))

  waiting-Takes :
      (p : ThreadPool T) (i : ℕ) (ts : List T)
      → p.tasks ≡ ts
      → get_elem? p.workers i ≡ some waiting
      → 0 < length ts
      → Takes p i
  unfolding wake_worker wake
  waiting-Takes p i [] e idle queued = absurd (omega arith)
  waiting-Takes p i (t ∷ rest) e idle queued = (
    t,
    record p { tasks = rest; workers = set p.workers i (running t) },
    ground (arith, e, idle),
    e,
    get_elem?-set_self p.workers i waiting (running t) idle,
  )

  -- On every schedule from the start of a pool with a thread, whichever threads have fallen asleep: as
  -- long as a task is queued, there is a thread that takes the one at the front when it gets the
  -- lock, or that can come back from a task of its own. No queued task waits for a further `notify`.
  pub queued-served :
      (threads : ℕ) (schedule : List (Step T)) (r : Run T)
      → 0 < threads
      → steps (start threads) schedule ≡ some r
      → 0 < length r.pool.tasks
      → (i : ℕ) × (Takes r.pool i ⊎ (step r (finishes i) ≢ none))
  unfolding start create
  queued-served threads schedule r some_threads ran queued =
      let idle : Worker T = waiting in
      let all : length (start threads).pool.workers ≡ threads = length-replicate threads idle in
      let served =
        steps-IsServed (start threads) r schedule ran (omega (arith, all)) (start-Inv threads)
          (λ h. absurd (omega arith)) in
      let (i, live) = awake_worker r.pool.workers (served queued) in
      (
        i,
        elim live [
          | inl idle ↦ inl (waiting-Takes r.pool i r.pool.tasks refl idle queued)
          | inr (t, busy) ↦ inr (running_moves r i t busy)
        ],
      )
