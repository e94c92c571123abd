-- ===== src/ThreadPool/Shutdown.antt =====
-- How a pool ends: `safeQuit`, and when `join` returns.
use sdk_linux.Prelude.{
  ◌&&◌, ◌≢◌, ℕ, suc, ◌+◌, ◌*◌, ◌≤◌, ◌<◌, ◌≡◌, refl, sym, ap, ◌∙◌, ◌⊎◌, inl, inr, Bool, true, false,
  none, some, List, [], ◌∷◌, ◌++◌, append-nil, arith, get_elem?, length, Option-cases, Bool-cases,
  sum_by, sum_by-set, length-set, length-replicate,
}
use sdk_linux.ThreadPool.{
  Worker, waiting, asleep, running, exited, ThreadPool, wake, create, enqueue, safe_quit,
  all_exited, wake_worker, finish_task, stir, notify_one, notify_all,
}
use sdk_linux.ThreadPool.Order.{
  Step, enqueues, safe_quits, wakes, stirs, finishes, asleep_one, stir-some, Run, busy_one,
  exited_one, step, steps, start, Woken, wake_worker-some, finish_task-some, steps-Inv, start-Inv,
}

module _ {ℓ} {T : Type ℓ} where
  all_exited-sums :
      (ws : List (Worker T))
      → all_exited ws ≡ true
      → (sum_by busy_one ws ≡ 0) × (sum_by exited_one ws ≡ length ws)
  unfolding all_exited
  all_exited-sums [] h = (refl, refl)
  all_exited-sums (exited ∷ ws) h = ground (arith, all_exited-sums ws h)
  all_exited-sums (waiting ∷ ws) h = cc
  all_exited-sums (asleep ∷ ws) h = cc
  all_exited-sums (running t ∷ ws) h = cc

  workers_kept : (p p' : ThreadPool T) (i : ℕ) → Woken p p' i → length p'.workers ≡ length p.workers
  workers_kept p p' i (idle, inr (open_pool, empty, e)) =
      ground (arith, length-set p.workers i asleep)
  workers_kept p p' i (idle, inl (inl (q, empty, e))) =
      ground (arith, length-set p.workers i exited)
  workers_kept p p' i (idle, inl (inr (t, rest, front, e))) =
      ground (arith, length-set p.workers i (running t))

  length-notify_one : (ws : List (Worker T)) → length (notify_one ws) ≡ length ws
  unfolding notify_one
  length-notify_one [] = refl
  length-notify_one (asleep ∷ ws) = refl
  length-notify_one (waiting ∷ ws) = ap suc (length-notify_one ws)
  length-notify_one (running t ∷ ws) = ap suc (length-notify_one ws)
  length-notify_one (exited ∷ ws) = ap suc (length-notify_one ws)

  length-notify_all : (ws : List (Worker T)) → length (notify_all ws) ≡ length ws
  unfolding notify_all
  length-notify_all [] = refl
  length-notify_all (asleep ∷ ws) = ap suc (length-notify_all ws)
  length-notify_all (waiting ∷ ws) = ap suc (length-notify_all ws)
  length-notify_all (running t ∷ ws) = ap suc (length-notify_all ws)
  length-notify_all (exited ∷ ws) = ap suc (length-notify_all ws)

  pub step-length :
      (r r' : Run T) (a : Step T)
      → step r a ≡ some r'
      → length r'.pool.workers ≡ length r.pool.workers
  unfolding step enqueue safe_quit
  step-length r r' (enqueues t) h = ground (arith, length-notify_one r.pool.workers)
  step-length r r' safe_quits h = ground (arith, length-notify_all r.pool.workers)
  step-length r r' (stirs i) h = elim (Option-cases (stir r.pool i)) [
    | inl e ↦ ground arith
    | inr (p, e) ↦
        let (still, e') = stir-some r.pool p i e in
        ground (arith, length-set r.pool.workers i waiting)
  ]
  step-length r r' (wakes i) h = elim (Option-cases (wake_worker r.pool i)) [
    | inl e ↦ ground arith
    | inr (p, e) ↦ ground (arith, workers_kept r.pool p i (wake_worker-some r.pool p i e))
  ]
  step-length r r' (finishes i) h = elim (Option-cases (finish_task r.pool i)) [
    | inl e ↦ ground arith
    | inr (p, e) ↦
        let (t, busy, e') = finish_task-some r.pool p i e in
        ground (arith, length-set r.pool.workers i waiting)
  ]

  steps-length :
      (r r' : Run T) (acts : List (Step T))
      → steps r acts ≡ some r'
      → length r'.pool.workers ≡ length r.pool.workers
  unfolding steps
  steps-length r r' [] h = ground arith
  steps-length r r' (a ∷ acts) h = elim (Option-cases (step r a)) [
    | inl e ↦ ground arith
    | inr (q, e) ↦ steps-length q r' acts (rw (e, steps) at h) ∙ step-length r q a e
  ]

  module _ (threads : ℕ) (some_threads : 0 < threads) (schedule : List (Step T)) (r : Run T)
      (ran : steps (start threads) schedule ≡ some r) where
    exited_all :
        all_exited r.pool.workers ≡ true
        → (sum_by busy_one r.pool.workers ≡ 0) × (sum_by exited_one r.pool.workers ≡ threads)
    unfolding start create
    exited_all h =
        let (idle, all) = all_exited-sums r.pool.workers h in
        let kept : length r.pool.workers ≡ threads =
          steps-length (start threads) r schedule ran ∙ length-replicate threads waiting in
        (idle, all ∙ kept)

    -- When `join` returns from a pool with a thread, `safeQuit` was called, and every task that was
    -- accepted has been started, and has come back.
    pub join-drains :
        all_exited r.pool.workers ≡ true
        → (r.pool.quit ≡ true) × (r.started ≡ r.accepted) × (r.finished ≡ length r.accepted)
    join-drains h =
        let v = steps-Inv (start threads) r schedule ran (start-Inv threads) in
        let (idle, all) = exited_all h in
        let (q, empty) = v.drained (omega arith) in
        let same : r.accepted ≡ r.started =
          v.fifo ∙ ap (◌++◌ r.started) empty ∙ append-nil r.started in
        (q, sym same, omega (arith, ap length same, v.counted))

    -- As long as `safeQuit` has not been called, `join` does not return.
    pub join_waits : r.pool.quit ≡ false → all_exited r.pool.workers ≡ false
    join_waits open_pool = elim (Bool-cases (all_exited r.pool.workers)) [
      | inl h ↦ ground (arith, join-drains h)
      | inr h ↦ h
    ]

  -- The steps that the pool's own threads make, with no thread waking by itself.
  unfoldable pub is_own : Step T → Bool
  is_own (wakes i) = true
  is_own (finishes i) = true
  is_own (enqueues t) = false
  is_own (stirs i) = false
  is_own safe_quits = false

  abbrev pub weight : Worker T → ℕ
  weight waiting = 1
  weight asleep = 0
  weight (running t) = 2
  weight exited = 0

  -- What the threads still have to do.
  abbrev pub load : Run T → ℕ
  load r = 2 * length r.pool.tasks + sum_by weight r.pool.workers

  Woken-load :
      (p p' : ThreadPool T) (i : ℕ)
      → Woken p p' i
      → 2 * length p'.tasks + sum_by weight p'.workers
        < 2 * length p.tasks + sum_by weight p.workers
  Woken-load p p' i (idle, inr (open_pool, empty, e)) =
      ground (arith, sum_by-set weight p.workers i waiting asleep idle)
  Woken-load p p' i (idle, inl (inl (q, empty, e))) =
      ground (arith, sum_by-set weight p.workers i waiting exited idle)
  Woken-load p p' i (idle, inl (inr (t, rest, front, e))) =
      ground (arith, sum_by-set weight p.workers i waiting (running t) idle)

  own-load :
      (r r' : Run T) (a : Step T)
      → is_own a ≡ true
      → step r a ≡ some r'
      → (load r' < load r) × (r'.pool.quit ≡ r.pool.quit)
  unfolding is_own step
  own-load r r' (enqueues t) o h = cc
  own-load r r' safe_quits o h = cc
  own-load r r' (stirs i) o h = cc
  own-load r r' (wakes i) o h = elim (Option-cases (wake_worker r.pool i)) [
    | inl e ↦ ground arith
    | inr (p, e) ↦
        let w = wake_worker-some r.pool p i e in ground (arith, w, Woken-load r.pool p i w)
  ]
  own-load r r' (finishes i) o h = elim (Option-cases (finish_task r.pool i)) [
    | inl e ↦ ground arith
    | inr (p, e) ↦
        let (t, busy, e') = finish_task-some r.pool p i e in
        ground (arith, sum_by-set weight r.pool.workers i (running t) waiting busy)
  ]

  live_worker :
      (ws : List (Worker T))
      → all_exited ws ≡ false
      → sum_by asleep_one ws ≡ 0
      → (i : ℕ) × ((get_elem? ws i ≡ some waiting)
          ⊎ ((t : T) × (get_elem? ws i ≡ some (running t))))
  unfolding all_exited
  live_worker [] h v = cc
  live_worker (waiting ∷ ws) h v = (0, inl refl)
  live_worker (asleep ∷ ws) h v = absurd (omega arith)
  live_worker (running t ∷ ws) h v = (0, inr (t, refl))
  live_worker (exited ∷ ws) h v =
      let (i, live) = live_worker ws h (omega (arith, v)) in (suc i, live)

  waiting_moves :
      (r : Run T) (i : ℕ)
      → r.pool.quit ≡ true
      → get_elem? r.pool.workers i ≡ some waiting
      → step r (wakes i) ≢ none
  unfolding step wake_worker wake
  waiting_moves r i q idle = ground arith

  pub running_moves :
      (r : Run T) (i : ℕ) (t : T)
      → get_elem? r.pool.workers i ≡ some (running t)
      → step r (finishes i) ≢ none
  unfolding step finish_task
  running_moves r i t busy = ground arith

  own_move :
      (r : Run T)
      → r.pool.quit ≡ true
      → all_exited r.pool.workers ≡ false
      → sum_by asleep_one r.pool.workers ≡ 0
      → (a : Step T) × (is_own a ≡ true) × (step r a ≢ none)
  unfolding is_own
  own_move r q h v =
      let (i, live) = live_worker r.pool.workers h v in
      elim live [
        | inl idle ↦ (wakes i, refl, waiting_moves r i q idle)
        | inr (t, busy) ↦ (finishes i, refl, running_moves r i t busy)
      ]

  unfoldable pub all_own : List (Step T) → Bool
  unfolding is_own
  all_own [] = true
  all_own (a ∷ acts) = is_own a && all_own acts

  own_steps :
      (r r' : Run T) (acts : List (Step T))
      → all_own acts ≡ true
      → steps r acts ≡ some r'
      → (length acts + load r' ≤ load r) × (r'.pool.quit ≡ r.pool.quit)
  unfolding steps all_own
  own_steps r r' [] o h = ground arith
  own_steps r r' (a ∷ acts) o h = elim (Option-cases (step r a)) [
    | inl e ↦ ground arith
    | inr (q, e) ↦ ground (arith, own-load r q a, own_steps q r' acts)
  ]

  -- Behind any schedule from the start of a pool in which `safeQuit` was called, `join` returns: the
  -- threads of the pool make at most `load r` more steps, whatever their schedule, and can make one
  -- more step as long as one of them has not returned; none of them is left asleep at the condition
  -- variable. Meanwhile `enqueue` is refused.
  pub join-returns :
      (threads : ℕ) (schedule : List (Step T)) (r r' : Run T) (acts : List (Step T))
      → steps (start threads) schedule ≡ some r
      → r.pool.quit ≡ true
      → all_own acts ≡ true
      → steps r acts ≡ some r'
      → (length acts ≤ load r)
        × ((all_exited r'.pool.workers ≡ true)
            ⊎ ((a : Step T) × (is_own a ≡ true) × (step r' a ≢ none)))
        × (sum_by asleep_one r'.pool.workers ≡ 0)
        × ((t : T) → step r' (enqueues t) ≡ none)
  unfolding step enqueue
  join-returns threads schedule r r' acts ran q own h =
      let (few, kept) = own_steps r r' acts own h in
      let v = steps-Inv (start threads) r schedule ran (start-Inv threads) in
      let up = (steps-Inv r r' acts h v).awake (kept ∙ q) in
      (
        omega arith,
        elim (Bool-cases (all_exited r'.pool.workers)) [
          | inl ended ↦ inl ended
          | inr busy ↦ inr (own_move r' (kept ∙ q) busy up)
        ],
        up,
        λ t. ground arith,
      )
