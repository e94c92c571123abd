-- ===== src/ThreadPool/Order.antt =====
-- Schedules of a pool, with a record of what was accepted, started and finished.
use sdk_linux.Prelude.{
  sum_by-replicate, ℕ, ◌+◌, ◌<◌, ◌≡◌, refl, ◌⊎◌, inl, inr, true, Option, none, some, List, [], ◌∷◌,
  ◌++◌, append-nil, append_assoc, arith, get_elem?, set, length, length-append, Option-cases,
  Bool-cases, false, sum_by, sum_by-set, get_elem?-set_self,
}
use sdk_linux.ThreadPool.{
  Worker, waiting, asleep, running, exited, ThreadPool, create, enqueue, safe_quit, wake_worker,
  stir, finish_task, notify_one, notify_all,
}

pub data Step {ℓ} (T : Type ℓ) : Type ℓ where
  enqueues : T → Step T
  safe_quits : Step T
  wakes : ℕ → Step T
  stirs : ℕ → Step T
  finishes : ℕ → Step T

pub record Run {ℓ} (T : Type ℓ) : Type ℓ where
  pub pool : ThreadPool T
  pub accepted : List T
  pub started : List T
  pub finished : ℕ

-- The task that a worker has just taken.
unfoldable pub taken {ℓ} : {T : Type ℓ} → Option (Worker T) → List T
taken (some (running t)) = t ∷ []
taken _ = []

abbrev pub busy_one {ℓ} : {T : Type ℓ} → Worker T → ℕ
busy_one (running t) = 1
busy_one _ = 0

abbrev pub exited_one {ℓ} : {T : Type ℓ} → Worker T → ℕ
exited_one exited = 1
exited_one _ = 0

abbrev pub asleep_one {ℓ} : {T : Type ℓ} → Worker T → ℕ
asleep_one asleep = 1
asleep_one _ = 0

module _ {ℓ} {T : Type ℓ} where
  -- One step of the schedule; `none` if the step cannot be made, or throws.
  unfoldable pub step : Run T → Step T → Option (Run T)
  unfolding taken
  step r (enqueues t) = elim (enqueue r.pool t) [
    | none ↦ none
    | some p ↦ some (record r { pool = p; accepted = r.accepted ++ t ∷ [] })
  ]
  step r safe_quits = some (record r { pool = safe_quit r.pool })
  step r (wakes i) = elim (wake_worker r.pool i) [
    | none ↦ none
    | some p ↦ some (record r { pool = p; started = r.started ++ taken (get_elem? p.workers i) })
  ]
  step r (stirs i) = elim (stir r.pool i) [ none ↦ none | some p ↦ some (record r { pool = p }) ]
  step r (finishes i) = elim (finish_task r.pool i) [
    | none ↦ none
    | some p ↦ some (record r { pool = p; finished = r.finished + 1 })
  ]

  unfoldable pub steps : Run T → List (Step T) → Option (Run T)
  steps r [] = some r
  steps r (a ∷ acts) = elim (step r a) [ none ↦ none | some r' ↦ steps r' acts ]

  -- The pool as its constructor leaves it.
  unfoldable pub start : ℕ → Run T
  start threads = record { pool = create threads; accepted = []; started = []; finished = 0 }

  pub record Inv (r : Run T) : Type ℓ where
    pub fifo : r.accepted ≡ r.started ++ r.pool.tasks
    pub counted : length r.started ≡ r.finished + sum_by busy_one r.pool.workers
    pub awake : r.pool.quit ≡ true → sum_by asleep_one r.pool.workers ≡ 0
    pub drained : 0 < sum_by exited_one r.pool.workers → (r.pool.quit ≡ true) × (r.pool.tasks ≡ [])

  -- The two ways in which a worker gets past the wait, and the one in which it does not.
  abbrev pub Woken : ThreadPool T → ThreadPool T → ℕ → Type ℓ
  Woken p p' i =
      (get_elem? p.workers i ≡ some waiting)
      × ((((p.quit ≡ true) × (p.tasks ≡ []) × (p' ≡ record p { workers = set p.workers i exited }))
            ⊎ ((t : T) × (rest : List T) × (p.tasks ≡ t ∷ rest)
                × (p' ≡ record p { tasks = rest; workers = set p.workers i (running t) })))
          ⊎ ((p.quit ≡ false)
              × (p.tasks ≡ [])
              × (p' ≡ record p { workers = set p.workers i asleep })))

  Woken-at :
      (p p' : ThreadPool T) (i : ℕ) (w : Option (Worker T)) (ts : List T)
      → get_elem? p.workers i ≡ w
      → p.tasks ≡ ts
      → wake_worker p i ≡ some p'
      → Woken p p' i
  unfolding wake_worker
  Woken-at p p' i none ts e f h = ground arith
  Woken-at p p' i (some (running t)) ts e f h = ground arith
  Woken-at p p' i (some exited) ts e f h = ground arith
  Woken-at p p' i (some asleep) ts e f h = ground arith
  Woken-at p p' i (some waiting) [] e f h = elim (Bool-cases p.quit) [
    | inl q ↦ (e, inl (inl (q, f, ground (arith, q, h, e, f))))
    | inr q ↦ (e, inr (q, f, ground (arith, q, h, e, f)))
  ]
  Woken-at p p' i (some waiting) (t ∷ rest) e f h = (e, inl (inr (t, rest, f, ground arith)))

  pub wake_worker-some : (p p' : ThreadPool T) (i : ℕ) → wake_worker p i ≡ some p' → Woken p p' i
  wake_worker-some p p' i = Woken-at p p' i (get_elem? p.workers i) p.tasks refl refl

  abbrev pub Stirred : ThreadPool T → ThreadPool T → ℕ → Type ℓ
  Stirred p p' i =
      (get_elem? p.workers i ≡ some asleep) × (p' ≡ record p { workers = set p.workers i waiting })

  Stirred-at :
      (p p' : ThreadPool T) (i : ℕ) (w : Option (Worker T))
      → get_elem? p.workers i ≡ w
      → stir p i ≡ some p'
      → Stirred p p' i
  unfolding stir
  Stirred-at p p' i none e h = ground arith
  Stirred-at p p' i (some waiting) e h = ground arith
  Stirred-at p p' i (some exited) e h = ground arith
  Stirred-at p p' i (some (running t)) e h = ground arith
  Stirred-at p p' i (some asleep) e h = (e, ground arith)

  pub stir-some : (p p' : ThreadPool T) (i : ℕ) → stir p i ≡ some p' → Stirred p p' i
  stir-some p p' i = Stirred-at p p' i (get_elem? p.workers i) refl

  abbrev pub Finished : ThreadPool T → ThreadPool T → ℕ → Type ℓ
  Finished p p' i =
      (t : T) × (get_elem? p.workers i ≡ some (running t))
      × (p' ≡ record p { workers = set p.workers i waiting })

  Finished-at :
      (p p' : ThreadPool T) (i : ℕ) (w : Option (Worker T))
      → get_elem? p.workers i ≡ w
      → finish_task p i ≡ some p'
      → Finished p p' i
  unfolding finish_task
  Finished-at p p' i none e h = ground arith
  Finished-at p p' i (some waiting) e h = ground arith
  Finished-at p p' i (some exited) e h = ground arith
  Finished-at p p' i (some asleep) e h = ground arith
  Finished-at p p' i (some (running t)) e h = (t, e, ground arith)

  pub finish_task-some : (p p' : ThreadPool T) (i : ℕ) → finish_task p i ≡ some p' → Finished p p' i
  finish_task-some p p' i = Finished-at p p' i (get_elem? p.workers i) refl

  -- What a step makes of the run, by its kind.
  step-wakes :
      (r r' : Run T) (i : ℕ)
      → step r (wakes i) ≡ some r'
      → (p : ThreadPool T) × (wake_worker r.pool i ≡ some p)
        × (r' ≡ record r { pool = p; started = r.started ++ taken (get_elem? p.workers i) })
  unfolding step
  step-wakes r r' i h = elim (Option-cases (wake_worker r.pool i)) [
    | inl e ↦ ground arith
    | inr (p, e) ↦ (p, e, ground arith)
  ]

  step-stirs :
      (r r' : Run T) (i : ℕ)
      → step r (stirs i) ≡ some r'
      → (p : ThreadPool T) × (stir r.pool i ≡ some p) × (r' ≡ record r { pool = p })
  unfolding step
  step-stirs r r' i h = elim (Option-cases (stir r.pool i)) [
    | inl e ↦ ground arith
    | inr (p, e) ↦ (p, e, ground arith)
  ]

  step-finishes :
      (r r' : Run T) (i : ℕ)
      → step r (finishes i) ≡ some r'
      → (p : ThreadPool T) × (finish_task r.pool i ≡ some p)
        × (r' ≡ record r { pool = p; finished = r.finished + 1 })
  unfolding step
  step-finishes r r' i h = elim (Option-cases (finish_task r.pool i)) [
    | inl e ↦ ground arith
    | inr (p, e) ↦ (p, e, ground arith)
  ]

  abbrev woken_run : Run T → ThreadPool T → ℕ → Run T
  woken_run r p i = record r { pool = p; started = r.started ++ taken (get_elem? p.workers i) }

  Woken-Inv :
      (r : Run T) (p : ThreadPool T) (i : ℕ) → Woken r.pool p i → Inv r → Inv (woken_run r p i)
  unfolding taken
  Woken-Inv r p i (idle, inr (open_pool, empty, e)) v = ground (
    arith,
    get_elem?-set_self r.pool.workers i waiting asleep idle,
    sum_by-set busy_one r.pool.workers i waiting asleep idle,
    sum_by-set exited_one r.pool.workers i waiting asleep idle,
    append-nil r.started,
  )
  Woken-Inv r p i (idle, inl (inl (q, empty, e))) v = ground (
    arith,
    get_elem?-set_self r.pool.workers i waiting exited idle,
    sum_by-set busy_one r.pool.workers i waiting exited idle,
    sum_by-set asleep_one r.pool.workers i waiting exited idle,
    append-nil r.started,
  )
  Woken-Inv r p i (idle, inl (inr (t, rest, front, e))) v = ground (
    arith,
    sum_by-set asleep_one r.pool.workers i waiting (running t) idle,
    get_elem?-set_self r.pool.workers i waiting (running t) idle,
    sum_by-set busy_one r.pool.workers i waiting (running t) idle,
    sum_by-set exited_one r.pool.workers i waiting (running t) idle,
    append_assoc r.started (t ∷ []) rest,
    length-append r.started (t ∷ []),
  )

  finished-Inv :
      (r : Run T) (p : ThreadPool T) (i : ℕ)
      → Finished r.pool p i
      → Inv r
      → Inv (record r { pool = p; finished = r.finished + 1 })
  finished-Inv r p i (t, busy, e) v = ground (
    arith,
    sum_by-set busy_one r.pool.workers i (running t) waiting busy,
    sum_by-set exited_one r.pool.workers i (running t) waiting busy,
    sum_by-set asleep_one r.pool.workers i (running t) waiting busy,
  )

  Stirred-Inv :
      (r : Run T) (p : ThreadPool T) (i : ℕ)
      → Stirred r.pool p i
      → Inv r
      → Inv (record r { pool = p })
  Stirred-Inv r p i (still, e) v = ground (
    arith,
    sum_by-set busy_one r.pool.workers i asleep waiting still,
    sum_by-set exited_one r.pool.workers i asleep waiting still,
    sum_by-set asleep_one r.pool.workers i asleep waiting still,
  )

  -- A `notify` changes no sum in which a thread asleep counts like one that is not.
  pub sum_by-notify_one :
      (f : Worker T → ℕ) (ws : List (Worker T))
      → f asleep ≡ f waiting
      → sum_by f (notify_one ws) ≡ sum_by f ws
  unfolding notify_one
  sum_by-notify_one f [] h = refl
  sum_by-notify_one f (asleep ∷ ws) h = ground arith
  sum_by-notify_one f (waiting ∷ ws) h = ground (arith, sum_by-notify_one f ws h)
  sum_by-notify_one f (running t ∷ ws) h = ground (arith, sum_by-notify_one f ws h)
  sum_by-notify_one f (exited ∷ ws) h = ground (arith, sum_by-notify_one f ws h)

  pub sum_by-notify_all :
      (f : Worker T → ℕ) (ws : List (Worker T))
      → f asleep ≡ f waiting
      → sum_by f (notify_all ws) ≡ sum_by f ws
  unfolding notify_all
  sum_by-notify_all f [] h = refl
  sum_by-notify_all f (asleep ∷ ws) h = ground (arith, sum_by-notify_all f ws h)
  sum_by-notify_all f (waiting ∷ ws) h = ground (arith, sum_by-notify_all f ws h)
  sum_by-notify_all f (running t ∷ ws) h = ground (arith, sum_by-notify_all f ws h)
  sum_by-notify_all f (exited ∷ ws) h = ground (arith, sum_by-notify_all f ws h)

  none_asleep : (ws : List (Worker T)) → sum_by asleep_one (notify_all ws) ≡ 0
  unfolding notify_all
  none_asleep [] = refl
  none_asleep (asleep ∷ ws) = ground (arith, none_asleep ws)
  none_asleep (waiting ∷ ws) = ground (arith, none_asleep ws)
  none_asleep (running t ∷ ws) = ground (arith, none_asleep ws)
  none_asleep (exited ∷ ws) = ground (arith, none_asleep ws)

  -- Every step keeps the invariant.
  pub step-Inv : (r r' : Run T) (a : Step T) → step r a ≡ some r' → Inv r → Inv r'
  unfolding step enqueue safe_quit
  step-Inv r r' (enqueues t) h v = ground (
    arith,
    append_assoc r.started r.pool.tasks (t ∷ []),
    sum_by-notify_one busy_one r.pool.workers refl,
    sum_by-notify_one exited_one r.pool.workers refl,
  )
  step-Inv r r' safe_quits h v = ground (
    arith,
    sum_by-notify_all busy_one r.pool.workers refl,
    sum_by-notify_all exited_one r.pool.workers refl,
    none_asleep r.pool.workers,
  )
  step-Inv r r' (stirs i) h v =
      let (p, stirred, e) = step-stirs r r' i h in
      rw e (Stirred-Inv r p i (stir-some r.pool p i stirred) v)
  step-Inv r r' (wakes i) h v =
      let (p, woken, e) = step-wakes r r' i h in
      rw e (Woken-Inv r p i (wake_worker-some r.pool p i woken) v)
  step-Inv r r' (finishes i) h v =
      let (p, back, e) = step-finishes r r' i h in
      rw e (finished-Inv r p i (finish_task-some r.pool p i back) v)

  pub start-Inv : (n : ℕ) → Inv (start n)
  unfolding start create
  start-Inv n =
      let idle : Worker T = waiting in
      ground (arith, sum_by-replicate busy_one n idle refl, sum_by-replicate exited_one n idle refl)

  pub steps-Inv : (r r' : Run T) (acts : List (Step T)) → steps r acts ≡ some r' → Inv r → Inv r'
  unfolding steps
  steps-Inv r r' [] h v = ground arith
  steps-Inv r r' (a ∷ acts) h v = elim (Option-cases (step r a)) [
    | inl e ↦ ground arith
    | inr (q, e) ↦ steps-Inv q r' acts (rw (e, steps) at h) (step-Inv r q a e v)
  ]

  -- On every schedule of a pool with any number of threads, the tasks are started in the order in
  -- which they were accepted: those started so far and then those in the queue are all of them.
  pub starts_in_order :
      (threads : ℕ) (schedule : List (Step T)) (r : Run T)
      → steps (start threads) schedule ≡ some r
      → r.accepted ≡ r.started ++ r.pool.tasks
  starts_in_order threads schedule r h = (steps-Inv _ r schedule h (start-Inv threads)).fifo
