-- ===== src/Agent/Boot.antt =====
-- The first half of `main`: the wait for the network.
use native.Mathlib.Decide.{dec_lt}
use sdk_linux.Prelude.{
  ◌⊎◌, ℕ, zero, suc, ◌+◌, ◌*◌, ◌≤◌, ◌<◌, ◌≡◌, inl, inr, Bool, true, false, Option, none, some,
  arith, ltb, if◌then◌else◌, Bool-cases,
}

-- `while(!hasNetwork)`: `seen k` is what round `k` of the loop reads of `hasNetwork`. The result is
-- `none` if the fuel ran out, and otherwise the seconds counted and whether `setNetwork` was called.
unfoldable pub wait_network : ℕ → (ℕ → Bool) → ℕ → ℕ → Option (ℕ × Bool)
wait_network zero seen round count = none
wait_network (suc fuel) seen round count =
    let rest = wait_network fuel seen (round + 1) (count + 5) in
    if seen round
    then some (count, false)
    else if ltb 60 (count + 5)
    then some (count + 5, true)
    else rest

module _ (seen : ℕ → Bool) where
  -- The first of `n` rounds that sees the network, if there is one.
  first_seen :
      (n : ℕ)
      → ((k : ℕ) × (k < n) × (seen k ≡ true) × ((j : ℕ) → j < k → seen j ≡ false))
        ⊎ ((j : ℕ) → j < n → seen j ≡ false)
  first_seen zero = inr (λ j h. absurd (omega arith))
  first_seen (suc n) = elim (first_seen n) [
    | inl (k, soon, lit, dark) ↦ inl (k, omega arith, lit, dark)
    | inr dark ↦ elim (Bool-cases (seen n)) [
      | inl lit ↦ inl (n, omega arith, lit, dark)
      | inr out ↦ inr (λ j h. elim (dec_lt j n) [
        | yes p ↦ dark j p
        | no p ↦ let e : j ≡ n = omega arith in rw e out
      ])
    ]
  ]

  -- A round that sees no network, before the time is up.
  next_round :
      (fuel round : ℕ)
      → seen round ≡ false
      → round < 12
      → wait_network (suc fuel) seen round (5 * round)
        ≡ wait_network fuel seen (round + 1) (5 * (round + 1))
  unfolding wait_network
  next_round fuel round dark soon =
      let later : 5 * (round + 1) ≡ 5 * round + 5 = omega arith in rw later (ground (arith, dark))

  found_at :
      (m fuel round k : ℕ)
      → round + m ≡ k
      → ((j : ℕ) → j < k → seen j ≡ false)
      → seen k ≡ true
      → k ≤ 12
      → m < fuel
      → wait_network fuel seen round (5 * round) ≡ some (5 * k, false)
  found_at m zero round k e dark lit soon enough = absurd (omega arith)
  found_at zero (suc fuel) round k e dark lit soon enough =
      let here : round ≡ k = omega arith in rw here (unfold wait_network in ground (arith, lit))
  found_at (suc m) (suc fuel) round k e dark lit soon enough =
      rw (next_round fuel round (dark round (omega arith)) (omega arith))
        (found_at m fuel (round + 1) k (omega arith) dark lit soon (omega arith))

  up_at :
      (m fuel round : ℕ)
      → round + m ≡ 12
      → ((j : ℕ) → j ≤ 12 → seen j ≡ false)
      → m < fuel
      → wait_network fuel seen round (5 * round) ≡ some (65, true)
  up_at m zero round e dark enough = absurd (omega arith)
  up_at zero (suc fuel) round e dark enough =
      let here : round ≡ 12 = omega arith in
      rw here (unfold wait_network in ground (arith, dark 12 (omega arith)))
  up_at (suc m) (suc fuel) round e dark enough =
      rw (next_round fuel round (dark round (omega arith)) (omega arith))
        (up_at m fuel (round + 1) (omega arith) dark (omega arith))

  -- The wait ends within thirteen rounds: at the first round that sees the network, if that is one of
  -- them, and else after 65 seconds, with a call of `setNetwork`.
  pub wait_network_ends :
      (fuel : ℕ)
      → 13 ≤ fuel
      → ((k : ℕ) × (k ≤ 12)
          × (seen k ≡ true)
          × ((j : ℕ) → j < k → seen j ≡ false)
          × (wait_network fuel seen 0 0 ≡ some (5 * k, false)))
        ⊎ (((j : ℕ) → j ≤ 12 → seen j ≡ false) × (wait_network fuel seen 0 0 ≡ some (65, true)))
  wait_network_ends fuel enough = elim (first_seen 13) [
    | inl (k, soon, lit, dark) ↦ inl (
      k,
      omega arith,
      lit,
      dark,
      found_at k fuel 0 k (omega arith) dark lit (omega arith) (omega arith),
    )
    | inr dark ↦
        let all = λ (j : ℕ) (h : j ≤ 12). dark j (omega arith) in
        inr (all, up_at 12 fuel 0 (omega arith) all (omega arith))
  ]
