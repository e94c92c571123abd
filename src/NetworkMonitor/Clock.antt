-- ===== src/NetworkMonitor/Clock.antt =====
-- When the first loop ends.
use sdk_linux.Prelude.{
  ℕ, zero, suc, ◌+◌, ◌≡◌, refl, Bool, true, false, List, [], ◌∷◌, ◌++◌, arith, replicate,
}
use sdk_linux.NetworkMonitor.{Monitor, time_loop}

time_loop-set : (m : Monitor) (rest : List Bool) → m.time_set ≡ true → time_loop m rest ≡ m
unfolding time_loop
time_loop-set m [] h = refl
time_loop-set m (r ∷ rest) h = ground arith

-- The loop goes on as long as setting the time succeeds, with a request in each round, and takes the
-- time for set at the first round that fails. Here `k` rounds succeed and the next one fails.
pub time_loop-ends_on_failure :
    (k : ℕ) (rest : List Bool) (m : Monitor)
    → m.quit ≡ false
    → m.time_set ≡ false
    → (time_loop m (replicate k true) ≡ record m { fetches = m.fetches + k })
      × (time_loop m (replicate k true ++ false ∷ rest)
          ≡ record m { fetches = m.fetches + k + 1; time_set = true })
unfolding time_loop
time_loop-ends_on_failure zero rest m going unset =
    let failed = record m { fetches = m.fetches + 1; time_set = true } in
    ground (arith, time_loop-set failed rest refl)
time_loop-ends_on_failure (suc k) rest m going unset =
    let asked = record m { fetches = m.fetches + 1 } in
    ground (arith, time_loop-ends_on_failure k rest asked going unset)
