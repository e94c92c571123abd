-- ===== src/Prelude/Sets.antt =====
-- `std::set<std::string>`: each text stands in it once.
use Prim.Native.Nat.{ℕ, suc, Ordering}
use mathlib.Core.Path.{◌≡◌, refl}
use mathlib.Core.List.{List, [], ◌∷◌}
use mathlib.Core.Logic.{inl, inr}
use native.Mathlib.Omega.{arith}
use sdk_linux.Prelude.Tests.{Bool-cases, if◌then◌else◌}
use sdk_linux.Prelude.Bytes.{Bytes, lex, str_eq, str_eq_iff, Rises, IsSetList, set_has}

lex_trans : (s t u : Bytes) → lex s t ≡ Ordering.lt → lex t u ≡ Ordering.lt → lex s u ≡ Ordering.lt
unfolding lex
lex_trans [] [] u h k = cc
lex_trans [] (b ∷ t) [] h k = cc
lex_trans [] (b ∷ t) (c ∷ u) h k = refl
lex_trans (a ∷ s) [] u h k = cc
lex_trans (a ∷ s) (b ∷ t) [] h k = cc
lex_trans (a ∷ s) (b ∷ t) (c ∷ u) h k = ground (arith, lex_trans s t u)

-- How often a text stands in a list.
unfoldable pub times : Bytes → List Bytes → ℕ
times a [] = 0
times a (x ∷ xs) = if str_eq a x then suc (times a xs) else times a xs

lex_refl : (s : Bytes) → lex s s ≡ Ordering.eq
unfolding lex
lex_refl [] = refl
lex_refl (a ∷ s) = ground (arith, lex_refl s)

Rises-below : (w a : Bytes) (xs : List Bytes) → lex w a ≡ Ordering.lt → Rises a xs → Rises w xs
Rises-below w a [] h r = tt
Rises-below w a (x ∷ xs) h r = (lex_trans w a x h r.0, r.1)

times-Rises : (a : Bytes) (xs : List Bytes) → Rises a xs → times a xs ≡ 0
unfolding times
times-Rises a [] r = refl
times-Rises a (x ∷ xs) r =
    ground (arith, str_eq_iff a x, lex_refl x, r.0, times-Rises a xs (Rises-below a x xs r.0 r.1))

rest-IsSet_list : (x : Bytes) (xs : List Bytes) → Rises x xs → IsSetList xs
rest-IsSet_list x [] r = tt
rest-IsSet_list x (y ∷ xs) r = r.1

-- In a set each text stands once at most.
pub times-IsSet_list :
    (a : Bytes) (xs : List Bytes) → IsSetList xs → times a xs ≡ (if set_has a xs then 1 else 0)
unfolding times set_has
times-IsSet_list a [] h = refl
times-IsSet_list a (x ∷ xs) h = elim (Bool-cases (str_eq a x)) [
  | inl e ↦
      let same : a ≡ x = ground (arith, str_eq_iff a x) in
      let once : times a xs ≡ 0 = times-Rises a xs (rw same h) in ground arith
  | inr e ↦ ground (arith, times-IsSet_list a xs (rest-IsSet_list x xs h))
]
