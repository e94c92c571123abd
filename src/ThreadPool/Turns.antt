-- ===== src/ThreadPool/Turns.antt =====
-- The steps of a process between those in which its pool's one worker gets the lock or wakes, for a
-- process that runs on the pool of IFLYOSThreadPool.cpp.
use sdk_linux.Prelude.{◌≡◌, refl, sym, ap, ◌∙◌, Option, none, some, List, [], ◌∷◌}
use sdk_linux.ThreadPool.{create}
use sdk_linux.ThreadPool.Executor.{
  Client, Act, act, acts, Move, wakes, stirs, Machine, moves, view, seen, begin,
}
use sdk_linux.ThreadPool.Refinement.{moves-refines, begin-IsOne}

-- The steps of a process with a queue: what each is with the pool, and what it is to the process.
pub record Program {ℓ} {S T X : Type ℓ} (c : Client S T X) (A : Type ℓ) : Type ℓ where
  pub to_move : A → Move c
  pub to_act : A → Act c
  pub steps : S → List A → Option S
  pub steps_none : (s : S) → steps s [] ≡ some s
  pub steps_next :
      (s : S) (a : A) (as' : List A)
      → steps s (a ∷ as') ≡ elim (act c s (to_act a)) [ none ↦ none | some t ↦ steps t as' ]
  pub seen_as : (a : A) (ms : List (Move c)) → seen c (to_move a ∷ ms) ≡ to_act a ∷ seen c ms

pub data Turn {ℓ} (A : Type ℓ) : Type ℓ where
  locks wakes_up : Turn A
  steps_by : A → Turn A

unfoldable pub without_locks {ℓ} : {A : Type ℓ} → List (Turn A) → List A
without_locks [] = []
without_locks (locks ∷ ts) = without_locks ts
without_locks (wakes_up ∷ ts) = without_locks ts
without_locks (steps_by a ∷ ts) = a ∷ without_locks ts

module _ {ℓ} {S T X A : Type ℓ} (c : Client S T X) (p : Program c A) where
  unfoldable pub to_moves : List (Turn A) → List (Move c)
  to_moves [] = []
  to_moves (locks ∷ ts) = wakes ∷ to_moves ts
  to_moves (wakes_up ∷ ts) = stirs ∷ to_moves ts
  to_moves (steps_by a ∷ ts) = p.to_move a ∷ to_moves ts

  behind :
      (u : Option S) (f g : S → Option S)
      → ((t : S) → f t ≡ g t)
      → (elim u [ none ↦ none | some t ↦ f t ]) ≡ elim u [ none ↦ none | some t ↦ g t ]
  behind none f g same = refl
  behind (some t) f g same = same t

  acts-steps :
      (ts : List (Turn A)) (s : S) → acts c s (seen c (to_moves ts)) ≡ p.steps s (without_locks ts)
  unfolding acts to_moves without_locks
  acts-steps [] s = sym (p.steps_none s)
  acts-steps (locks ∷ ts) s = acts-steps ts s
  acts-steps (wakes_up ∷ ts) s = acts-steps ts s
  acts-steps (steps_by a ∷ ts) s =
      ap (acts c s) (p.seen_as a (to_moves ts))
      ∙ behind (act c s (p.to_act a)) (λ t. acts c t (seen c (to_moves ts)))
          (λ t. p.steps t (without_locks ts)) (acts-steps ts)
      ∙ sym (p.steps_next s a (without_locks ts))

  -- A process that has enqueued nothing, with the pool that it makes.
  pub steps-refine :
      (s : S) (ts : List (Turn A)) (n : Machine c)
      → c.queue s ≡ []
      → moves c (begin c s) (to_moves ts) ≡ some n
      → p.steps s (without_locks ts) ≡ some (view c n)
  unfolding view create
  steps-refine s ts n none_yet h =
      let (refined, w) = moves-refines c (begin c s) n (to_moves ts) h (begin-IsOne c s none_yet) in
      let from_start : view c (begin c s) ≡ s =
        ap (λ q. c.set_queue q s) (sym none_yet) ∙ c.set_queue_same s in
      sym (acts-steps ts s) ∙ ap (λ t. acts c t (seen c (to_moves ts))) (sym from_start) ∙ refined
