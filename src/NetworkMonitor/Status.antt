-- ===== src/NetworkMonitor/Status.antt =====
-- The status against the history of the checks.
use sdk_linux.Prelude.{
  ℕ, zero, suc, ◌+◌, ◌≡◌, refl, Bool, true, false, ◌&&◌, ◌||◌, Option, none, some, List, [], ◌∷◌,
  ◌++◌, arith, ltb, if◌then◌else◌, replicate,
}
use sdk_linux.NetworkMonitor.{
  NetworkStatus, network_fail, https_ok, Monitor, new, check_round, check_loop, reset,
}

-- Some check of the history passed.
abbrev pub any_passed : List Bool → Bool
any_passed [] = false
any_passed (r ∷ rs) = r || any_passed rs

-- The failures at the end of a history, behind `n` failures.
abbrev pub trailing : ℕ → List Bool → ℕ
trailing n [] = n
trailing n (true ∷ rs) = trailing 0 rs
trailing n (false ∷ rs) = trailing (suc n) rs

-- The status that a history calls for: the network is there if a check passed and fewer than three
-- have failed since.
unfoldable pub status_of : List Bool → NetworkStatus
status_of history =
    if any_passed history && ltb (trailing 0 history) 3 then https_ok else network_fail

-- Each report differs from the status before it; the result is the status that the last one states.
unfoldable pub follow : NetworkStatus → List NetworkStatus → Option NetworkStatus
follow s [] = some s
follow network_fail (network_fail ∷ rs) = none
follow network_fail (https_ok ∷ rs) = follow https_ok rs
follow https_ok (https_ok ∷ rs) = none
follow https_ok (network_fail ∷ rs) = follow network_fail rs

follow-append :
    (s t : NetworkStatus) (rs : List NetworkStatus) (r : NetworkStatus)
    → follow s rs ≡ some t
    → follow s (rs ++ r ∷ []) ≡ follow t (r ∷ [])
unfolding follow
follow-append network_fail t [] r h = ground arith
follow-append https_ok t [] r h = ground arith
follow-append network_fail t (network_fail ∷ rs) r h = cc
follow-append network_fail t (https_ok ∷ rs) r h = follow-append https_ok t rs r h
follow-append https_ok t (https_ok ∷ rs) r h = cc
follow-append https_ok t (network_fail ∷ rs) r h = follow-append network_fail t rs r h

-- What holds between two rounds, behind a history with `passed` and `n` failures at its end.
record Tracks (m : Monitor) (passed : Bool) (n : ℕ) : Type 0 where
  counted : m.fail_times ≡ n
  shown : m.status ≡ (if passed && ltb n 3 then https_ok else network_fail)
  followed : follow network_fail m.reports ≡ some m.status
  going : m.quit ≡ false

check_round-Tracks :
    (m : Monitor) (passed ret : Bool) (n : ℕ)
    → Tracks m passed n
    → Tracks (check_round ret m) (ret || passed) (if ret then 0 else suc n)
unfolding check_round follow
check_round-Tracks m passed ret n t = ground (
  arith,
  follow-append network_fail m.status m.reports network_fail t.followed,
  follow-append network_fail m.status m.reports https_ok t.followed,
)

check_loop-Tracks :
    (m : Monitor) (passed : Bool) (n : ℕ) (rs : List Bool)
    → Tracks m passed n
    → Tracks (check_loop m rs) (passed || any_passed rs) (trailing n rs)
unfolding check_loop
check_loop-Tracks m passed n [] t = ground (arith, t)
check_loop-Tracks m passed n (true ∷ rs) t = ground (
  arith,
  t.going,
  check_loop-Tracks (check_round true m) true 0 rs (check_round-Tracks m passed true n t),
)
check_loop-Tracks m passed n (false ∷ rs) t = ground (
  arith,
  t.going,
  check_loop-Tracks (check_round false m) passed (suc n) rs (check_round-Tracks m passed false n t),
)

-- After every history of checks the status is the one that the history calls for: up if a check
-- passed and fewer than three have failed since. The observers were told of every change, of
-- nothing else, and their last report is the status.
pub check_loop-status :
    (history : List Bool)
    → ((check_loop new history).status ≡ status_of history)
      × (follow network_fail (check_loop new history).reports ≡ some (status_of history))
unfolding status_of follow
check_loop-status history =
    let start : Tracks new false 0 = ground arith in
    let t = check_loop-Tracks new false 0 history start in ground (arith, t)

silent :
    (m : Monitor) (k : ℕ)
    → m.quit ≡ false
    → m.status ≡ network_fail
    → ((check_loop m (replicate k false)).reports ≡ m.reports)
      × ((check_loop m (replicate k false ++ true ∷ [])).reports ≡ m.reports ++ https_ok ∷ [])
unfolding check_loop check_round
silent m zero going failed = ground arith
silent m (suc k) going failed =
    ground (arith, silent (record m { fail_times = m.fail_times + 1 }) k going failed)

-- After `reset` nothing is reported as long as the checks fail; the next one that passes is
-- reported, whether the network was there before or not.
pub reset-reports :
    (m : Monitor) (k : ℕ)
    → m.quit ≡ false
    → ((check_loop (reset m) (replicate k false)).reports ≡ m.reports)
      × ((check_loop (reset m) (replicate k false ++ true ∷ [])).reports
          ≡ m.reports ++ https_ok ∷ [])
unfolding reset
reset-reports m k going = silent (reset m) k going refl
