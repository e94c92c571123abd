-- ===== src/ThreadPool/Refinement.antt =====
-- The pool of IFLYOSThreadPool.cpp with one worker does what a queue does from whose front the process
-- takes a task at a time.
use mathlib.Core.Option
use sdk_linux.Prelude.{
  Bool-cases, ◌≡◌, refl, sym, ap, ◌∙◌, inl, inr, false, Option, none, some, List, [], ◌∷◌, ◌++◌,
  append-nil, append_assoc, arith, get_elem?, Option-cases,
}
use sdk_linux.ThreadPool.{
  Worker, waiting, asleep, running, exited, ThreadPool, create, enqueue, wake_worker, stir,
  finish_task, notify_one,
}
use sdk_linux.ThreadPool.Order.{Woken, wake_worker-some, stir-some, finish_task-some}
use sdk_linux.ThreadPool.Executor.{
  Client, does, runs, does_in, wakes, stirs, finishes, Enqueues, Act, act, acts, Machine,
  enqueue_all, hand_over, Move, finish, move, moves, held, view, IsOne, seen, begin,
}

module _ {ℓ} {S T X : Type ℓ} (c : Client S T X) where
  held-notify_one : (ws : List (Worker T)) → held c (notify_one ws) ≡ held c ws
  unfolding notify_one
  held-notify_one [] = refl
  held-notify_one (asleep ∷ ws) = refl
  held-notify_one (waiting ∷ ws) = held-notify_one ws
  held-notify_one (running t ∷ ws) = ap (◌∷◌ t) (held-notify_one ws)
  held-notify_one (exited ∷ ws) = held-notify_one ws

  one-notify_one : (w : Worker T) → (x : Worker T) × (notify_one (w ∷ []) ≡ x ∷ [])
  unfolding notify_one
  one-notify_one asleep = (waiting, refl)
  one-notify_one waiting = (waiting, refl)
  one-notify_one (running t) = (running t, refl)
  one-notify_one exited = (exited, refl)

  -- What a pool is behind tasks that it was given: its one worker may have been woken.
  record Given (p q : ThreadPool T) (ts : List T) : Type ℓ where
    tasks : q.tasks ≡ p.tasks ++ ts
    holds : held c q.workers ≡ held c p.workers
    one : (w : Worker T) → p.workers ≡ w ∷ [] → (x : Worker T) × (q.workers ≡ x ∷ [])

  given_one : ThreadPool T → T → ThreadPool T
  given_one p t = record p { tasks = p.tasks ++ t ∷ []; workers = notify_one p.workers }

  enqueue_all-open :
      (p : ThreadPool T) (t : T) (ts : List T)
      → p.quit ≡ false
      → enqueue_all c p (t ∷ ts) ≡ enqueue_all c (given_one p t) ts
  unfolding enqueue_all enqueue given_one
  enqueue_all-open p t ts e = ground (arith, e)

  one-Given :
      (p q : ThreadPool T) (t : T) (ts : List T) → Given (given_one p t) q ts → Given p q (t ∷ ts)
  unfolding given_one
  one-Given p q t ts v = record {
    tasks = v.tasks ∙ append_assoc p.tasks (t ∷ []) ts;
    holds = v.holds ∙ held-notify_one p.workers;
    one = λ w e. let (x, f) = one-notify_one w in v.one x (ap notify_one e ∙ f);
  }

  enqueue_all-some : (p q : ThreadPool T) (ts : List T) → enqueue_all c p ts ≡ some q → Given p q ts
  unfolding enqueue_all enqueue
  enqueue_all-some p q [] h =
      let same : p ≡ q = ground (arith, h) in
      rw same (record { tasks = sym (append-nil q.tasks); holds = refl; one = λ w e. (w, e) })
  enqueue_all-some p q (t ∷ ts) h = elim (Bool-cases p.quit) [
    | inl e ↦ ground (arith, h, e)
    | inr e ↦
        one-Given p q t ts
          (enqueue_all-some (given_one p t) q ts (sym (enqueue_all-open p t ts e) ∙ h))
  ]

  hand_over-some :
      (p : ThreadPool T) (s : S) (n : Machine c)
      → hand_over c p (some s) ≡ some n
      → (n.client ≡ c.set_queue [] s) × Given p n.pool (c.queue s)
  unfolding hand_over
  hand_over-some p s n h = elim (Option-cases (enqueue_all c p (c.queue s))) [
    | inl e ↦ ground (arith, h, e)
    | inr (q, e) ↦
        let same : n ≡ record { pool = q; client = c.set_queue [] s } = ground (arith, h, e) in
        rw same (refl, enqueue_all-some p q (c.queue s) e)
  ]

  -- What is handed over stands behind what the process had enqueued before.
  handed_view :
      (p : ThreadPool T) (s : S) (n : Machine c)
      → hand_over c p (some s) ≡ some n
      → c.set_queue ((held c p.workers ++ p.tasks) ++ c.queue s) s ≡ view c n
  unfolding view
  handed_view p s n h =
      let (client, given) = hand_over-some p s n h in
      let queued : held c n.pool.workers ++ n.pool.tasks
          ≡ held c p.workers ++ (p.tasks ++ c.queue s) =
        ap (λ ts. ts ++ n.pool.tasks) given.holds ∙ ap (◌++◌ (held c p.workers)) given.tasks in
      ap (λ q. c.set_queue q s) (append_assoc (held c p.workers) p.tasks (c.queue s))
      ∙ sym (c.set_queue_twice (held c p.workers ++ (p.tasks ++ c.queue s)) [] s)
      ∙ ap (λ q. c.set_queue q (c.set_queue [] s)) (sym queued)
      ∙ ap (c.set_queue (held c n.pool.workers ++ n.pool.tasks)) (sym client)

  emptied_same : (s : S) → c.queue s ≡ [] → c.set_queue [] s ≡ s
  emptied_same s e = ap (λ q. c.set_queue q s) (sym e) ∙ c.set_queue_same s

  -- An operation that enqueues, at the process as it is seen.
  Enqueues-view :
      (f : S → Option S) (p : ThreadPool T) (s : S) (n : Machine c)
      → Enqueues c f
      → c.queue s ≡ []
      → hand_over c p (f s) ≡ some n
      → f (c.set_queue (held c p.workers ++ p.tasks) s) ≡ some (view c n)
  unfolding hand_over
  Enqueues-view f p s n e none_yet h =
      let here : f (c.set_queue (held c p.workers ++ p.tasks) s)
          ≡ Option.map (λ t. c.set_queue ((held c p.workers ++ p.tasks) ++ c.queue t) t) (f s) =
        e (held c p.workers ++ p.tasks) s
        ∙ ap
            (λ u.
              Option.map (λ t. c.set_queue ((held c p.workers ++ p.tasks) ++ c.queue t) t) (f u))
            (emptied_same s none_yet) in
      elim (Option-cases (f s)) [
        | inl g ↦ ground (arith, h, g)
        | inr (t, g) ↦ here ∙ rw g (ap some (handed_view p t n (rw g at h)))
      ]

  handed-IsOne :
      (p : ThreadPool T) (w : Worker T) (u : Option S) (n : Machine c)
      → p.workers ≡ w ∷ []
      → hand_over c p u ≡ some n
      → IsOne c n
  unfolding hand_over
  handed-IsOne p w none n one h = cc
  handed-IsOne p w (some s) n one h =
      let (client, given) = hand_over-some p s n h in
      let (x, alone) = given.one w one in
      record { emptied = ap c.queue client ∙ c.queue-set_queue [] s; worker = x; one = alone }

  -- A step of the lock is not seen.
  wakes-unseen :
      (m n : Machine c) → move c m wakes ≡ some n → IsOne c m → (view c m ≡ view c n) × IsOne c n
  unfolding move view
  wakes-unseen m n h v = elim (Option-cases (wake_worker m.pool 0)) [
    | inl e ↦ ground (arith, h, e)
    | inr (p, e) ↦ unseen p (wake_worker-some m.pool p 0 e) (ground (arith, h, e))
  ]
    where
      unseen :
          (p : ThreadPool T)
          → Woken m.pool p 0
          → n ≡ record m { pool = p }
          → (view c m ≡ view c n) × IsOne c n
      unseen p (idle, inr (open_pool, empty, e)) same =
          let one : n.pool.workers ≡ asleep ∷ [] = ground (arith, same, e, v.one) in
          let was : m.pool.workers ≡ waiting ∷ [] = ground (arith, idle, v.one) in
          (
            ground (arith, one, was, same, e),
            record { emptied = ground (arith, same, v.emptied); worker = asleep; one = one },
          )
      unseen p (idle, inl (inl (q, empty, e))) same =
          let one : n.pool.workers ≡ exited ∷ [] = ground (arith, same, e, v.one) in
          let was : m.pool.workers ≡ waiting ∷ [] = ground (arith, idle, v.one) in
          (
            ground (arith, one, was, same, e),
            record { emptied = ground (arith, same, v.emptied); worker = exited; one = one },
          )
      unseen p (idle, inl (inr (t, rest, front, e))) same =
          let one : n.pool.workers ≡ running t ∷ [] = ground (arith, same, e, v.one) in
          let was : m.pool.workers ≡ waiting ∷ [] = ground (arith, idle, v.one) in
          (
            ground (arith, one, was, same, e, front),
            record { emptied = ground (arith, same, v.emptied); worker = running t; one = one },
          )

  -- A worker that wakes by itself is not seen.
  stirs-unseen :
      (m n : Machine c) → move c m stirs ≡ some n → IsOne c m → (view c m ≡ view c n) × IsOne c n
  unfolding move view
  stirs-unseen m n h v = elim (Option-cases (stir m.pool 0)) [
    | inl e ↦ ground (arith, h, e)
    | inr (p, e) ↦
        let (still, e') = stir-some m.pool p 0 e in
        let same : n ≡ record m { pool = p } = ground (arith, h, e) in
        let one : n.pool.workers ≡ waiting ∷ [] = ground (arith, same, e', v.one) in
        let was : m.pool.workers ≡ asleep ∷ [] = ground (arith, still, v.one) in
        (
          ground (arith, one, was, same, e'),
          record { emptied = ground (arith, same, v.emptied); worker = waiting; one = one },
        )
  ]

  act-runs :
      (x : X) (t : T) (rest : List T) (s : S)
      → act c (c.set_queue (t ∷ rest) s) (runs x) ≡ some (c.run x t (c.set_queue rest s))
  unfolding act
  act-runs x t rest s =
      rw (act, c.queue-set_queue (t ∷ rest) s)
        (ap (λ u. some (c.run x t u)) (c.set_queue_twice rest (t ∷ rest) s))

  finish-refines :
      (m n : Machine c) (x : X) (w : Worker T)
      → m.pool.workers ≡ w ∷ []
      → c.queue m.client ≡ []
      → finish c m x (some w) ≡ some n
      → (act c (view c m) (runs x) ≡ some (view c n)) × IsOne c n
  unfolding finish view
  finish-refines m n x waiting one none_yet h = cc
  finish-refines m n x exited one none_yet h = cc
  finish-refines m n x asleep one none_yet h = cc
  finish-refines m n x (running t) one none_yet h = elim (Option-cases (finish_task m.pool 0)) [
    | inl e ↦ ground (arith, h, e)
    | inr (p, e) ↦
        let back : p.workers ≡ waiting ∷ [] = ground (arith, one, finish_task-some m.pool p 0 e) in
        let same : p.tasks ≡ m.pool.tasks = ground (arith, finish_task-some m.pool p 0 e) in
        let over : hand_over c p (some (c.run x t m.client)) ≡ some n = ground (arith, h, e) in
        let ran =
          Enqueues-view (λ s. some (c.run x t s)) p m.client n
            (λ q s. ap some (c.run-enqueues x t q s)) none_yet over in
        let at_front : view c m ≡ c.set_queue (t ∷ p.tasks) m.client = ground (arith, one, same) in
        (
          ap (λ s. act c s (runs x)) at_front
              ∙ act-runs x t p.tasks m.client
              ∙ ap (λ ws. some (c.run x t (c.set_queue (held c ws ++ p.tasks) m.client))) (sym back)
              ∙ ran,
          handed-IsOne p waiting (some (c.run x t m.client)) n back over,
        )
  ]

  does_in-refines :
      (m n : Machine c) (f : S → Option S) (e : Enqueues c f)
      → move c m (does_in f e) ≡ some n
      → IsOne c m
      → (act c (view c m) (does f e) ≡ some (view c n)) × IsOne c n
  unfolding move act view
  does_in-refines m n f e h v = (
    Enqueues-view f m.pool m.client n e v.emptied h,
    handed-IsOne m.pool v.worker (f m.client) n v.one h,
  )

  finishes-refines :
      (m n : Machine c) (x : X)
      → move c m (finishes x) ≡ some n
      → IsOne c m
      → (act c (view c m) (runs x) ≡ some (view c n)) × IsOne c n
  unfolding move
  finishes-refines m n x h v =
      let found : get_elem? m.pool.workers 0 ≡ some v.worker = rw v.one refl in
      finish-refines m n x v.worker v.one v.emptied (rw found at h)

  step-acts :
      (s t : S) (a : Act c) (as' : List (Act c)) (u : Option S)
      → act c s a ≡ some t
      → acts c t as' ≡ u
      → acts c s (a ∷ as') ≡ u
  unfolding acts
  step-acts s t a as' u h rest = rw (acts, h) rest

  move-then :
      (m k : Machine c) (a : Move c) (ms : List (Move c)) (u : Option S)
      → move c m a ≡ some k
      → IsOne c m
      → (acts c (view c k) (seen c ms) ≡ u → acts c (view c m) (seen c (a ∷ ms)) ≡ u) × IsOne c k
  move-then m k (does_in f e) ms u h v =
      let (one, w) = does_in-refines m k f e h v in
      (λ rest. step-acts (view c m) (view c k) (does f e) (seen c ms) u one rest, w)
  move-then m k wakes ms u h v =
      let (same, w) = wakes-unseen m k h v in
      (λ rest. ap (λ s. acts c s (seen c ms)) same ∙ rest, w)
  move-then m k stirs ms u h v =
      let (same, w) = stirs-unseen m k h v in
      (λ rest. ap (λ s. acts c s (seen c ms)) same ∙ rest, w)
  move-then m k (finishes x) ms u h v =
      let (one, w) = finishes-refines m k x h v in
      (λ rest. step-acts (view c m) (view c k) (runs x) (seen c ms) u one rest, w)

  -- A pool with one worker does what the queue does: along every schedule of what the process does and
  -- of the worker's steps, the process sees its operations and the ends of its tasks, each of them at
  -- the front of the queue, and nothing else.
  pub moves-refines :
      (m n : Machine c) (ms : List (Move c))
      → moves c m ms ≡ some n
      → IsOne c m
      → (acts c (view c m) (seen c ms) ≡ some (view c n)) × IsOne c n
  unfolding moves acts
  moves-refines m n [] h v = (ground (arith, h), ground (arith, h, v))
  moves-refines m n (a ∷ ms) h v = elim (Option-cases (move c m a)) [
    | inl e ↦ ground (arith, h, e)
    | inr (k, e) ↦
        let (then_rest, w) = move-then m k a ms (some (view c n)) e v in
        let (rest, u) = moves-refines k n ms (rw (e, moves) at h) w in (then_rest rest, u)
  ]

  pub begin-IsOne : (s : S) → c.queue s ≡ [] → IsOne c (begin c s)
  unfolding create
  begin-IsOne s e = record { emptied = e; worker = waiting; one = refl }
