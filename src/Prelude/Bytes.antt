-- ===== src/Prelude/Bytes.antt =====
-- Texts as lists of bytes: C strings, `std::string::find` of one character and `substr`, the
-- order of `std::string`, and `std::set<std::string>` as a sorted list.
use Prim.Native.Char.{code}
use Prim.Native.Nat.{ℕ, suc, compare, Ordering}
use Prim.Native.String.{String}
use mathlib.Core.Path.{◌≡◌, refl}
use mathlib.Core.Logic.{◌≢◌, ◌↔◌}
use mathlib.Core.Bool.{Bool, true, false, ◌&&◌, ◌||◌}
use mathlib.Core.Option.{Option, none, some}
use mathlib.Core.Option
use mathlib.Core.List.{List, [], ◌∷◌, ◌++◌}
use native.Mathlib.Omega.{arith}
use sdk_linux.Prelude.Tests.{◌==◌, if◌then◌else◌}
use sdk_linux.Prelude.Lists.{length, take, drop, All}

abbrev pub Bytes : Type 0
Bytes = List ℕ

-- The code points of a literal, which are its bytes: every literal of the model is ASCII.
abbrev pub codes : String → Bytes
codes String.[] = []
codes (String.◌∷◌ c s) = code c ∷ codes s

-- `operator==` of `std::string`.
unfoldable pub str_eq : Bytes → Bytes → Bool
str_eq [] [] = true
str_eq [] (b ∷ t) = false
str_eq (a ∷ s) [] = false
str_eq (a ∷ s) (b ∷ t) = (a == b) && str_eq s t

pub str_eq_refl : (s : Bytes) → str_eq s s ≡ true
unfolding str_eq
str_eq_refl [] = refl
str_eq_refl (a ∷ s) = ground (arith, str_eq_refl s)

pub eq_of_str_eq : (s t : Bytes) → str_eq s t ≡ true → s ≡ t
unfolding str_eq
eq_of_str_eq [] [] h = refl
eq_of_str_eq [] (b ∷ t) h = cc
eq_of_str_eq (a ∷ s) [] h = cc
eq_of_str_eq (a ∷ s) (b ∷ t) h = ground (arith, eq_of_str_eq s t)

pub str_eq_iff : (s t : Bytes) → (str_eq s t ≡ true) ↔ (s ≡ t)
str_eq_iff s t = (eq_of_str_eq s t, λ e. rw e (str_eq_refl t))

-- What `std::string(const char *)` and `strlen` read of a buffer: the bytes before the first NUL.
unfoldable pub c_str : Bytes → Bytes
c_str [] = []
c_str (c ∷ s) = if c == 0 then [] else c ∷ c_str s

-- `s.find(c)`, with `npos` as `none`.
unfoldable pub find : ℕ → Bytes → Option ℕ
find c [] = none
find c (x ∷ s) = if x == c then some 0 else Option.map suc (find c s)

-- `s.substr(pos)` and `s.substr(pos, n)`.
abbrev pub substr_from : ℕ → Bytes → Bytes
substr_from = drop

abbrev pub substr : ℕ → ℕ → Bytes → Bytes
substr pos n s = take n (drop pos s)

abbrev pub Lacks : ℕ → Bytes → Type 0
Lacks b = All (λ c. c ≢ b)

pub c_str-append_nul : (s rest : Bytes) → Lacks 0 s → c_str (s ++ 0 ∷ rest) ≡ s
unfolding c_str
c_str-append_nul [] rest h = refl
c_str-append_nul (c ∷ s) rest h = ground (arith, c_str-append_nul s rest h.1)

pub c_str_lem : (s : Bytes) → Lacks 0 s → c_str s ≡ s
unfolding c_str
c_str_lem [] h = refl
c_str_lem (c ∷ s) h = ground (arith, c_str_lem s h.1)

pub find-append : (b : ℕ) (s rest : Bytes) → Lacks b s → find b (s ++ b ∷ rest) ≡ some (length s)
unfolding find
find-append b [] rest h = ground arith
find-append b (c ∷ s) rest h = ground (arith, find-append b s rest h.1)

pub find-Lacks : (b : ℕ) (s : Bytes) → Lacks b s → find b s ≡ none
unfolding find
find-Lacks b [] h = refl
find-Lacks b (c ∷ s) h = ground (arith, find-Lacks b s h.1)

-- The order of `std::string`: bytes compared as unsigned numbers, a prefix first.
unfoldable pub lex : Bytes → Bytes → Ordering
lex [] [] = Ordering.eq
lex [] (b ∷ t) = Ordering.lt
lex (a ∷ s) [] = Ordering.gt
lex (a ∷ s) (b ∷ t) = elim (compare a b) [
  | Ordering.lt ↦ Ordering.lt
  | Ordering.gt ↦ Ordering.gt
  | Ordering.eq ↦ lex s t
]

pub eq_of_lex : (s t : Bytes) → lex s t ≡ Ordering.eq → s ≡ t
unfolding lex
eq_of_lex [] [] h = refl
eq_of_lex [] (b ∷ t) h = cc
eq_of_lex (a ∷ s) [] h = cc
eq_of_lex (a ∷ s) (b ∷ t) h = ground (arith, eq_of_lex s t)

-- `std::set<std::string>::insert` and `count`.
unfoldable pub set_insert : Bytes → List Bytes → List Bytes
set_insert a [] = a ∷ []
set_insert a (x ∷ xs) = elim (lex a x) [
  | Ordering.lt ↦ a ∷ x ∷ xs
  | Ordering.eq ↦ x ∷ xs
  | Ordering.gt ↦ x ∷ set_insert a xs
]

unfoldable pub set_has : Bytes → List Bytes → Bool
set_has a [] = false
set_has a (x ∷ xs) = str_eq a x || set_has a xs

-- Inserting adds the one text and keeps every other.
pub set_has-set_insert :
    (b a : Bytes) (xs : List Bytes) → set_has b (set_insert a xs) ≡ (str_eq b a || set_has b xs)
unfolding set_has set_insert
set_has-set_insert b a [] = refl
set_has-set_insert b a (x ∷ xs) = ground (arith, eq_of_lex a x, set_has-set_insert b a xs)

lex_swap_gt : (s t : Bytes) → lex s t ≡ Ordering.gt → lex t s ≡ Ordering.lt
unfolding lex
lex_swap_gt [] [] h = cc
lex_swap_gt [] (b ∷ t) h = cc
lex_swap_gt (a ∷ s) [] h = refl
lex_swap_gt (a ∷ s) (b ∷ t) h = ground (arith, lex_swap_gt s t)

-- In strictly rising order, as a `std::set` is iterated.
abbrev pub Rises : Bytes → List Bytes → Type 0
Rises a [] = Unit
Rises a (x ∷ xs) = (lex a x ≡ Ordering.lt) × Rises x xs

abbrev pub IsSetList : List Bytes → Type 0
IsSetList [] = Unit
IsSetList (x ∷ xs) = Rises x xs

set_insert-Rises :
    (w a : Bytes) (xs : List Bytes) → lex w a ≡ Ordering.lt → Rises w xs → Rises w (set_insert a xs)
unfolding set_insert
set_insert-Rises w a [] h r = (h, tt)
set_insert-Rises w a (x ∷ xs) h r = ground (arith, lex_swap_gt a x, set_insert-Rises x a xs)

pub set_insert-IsSet_list :
    (a : Bytes) (xs : List Bytes) → IsSetList xs → IsSetList (set_insert a xs)
unfolding set_insert
set_insert-IsSet_list a [] h = tt
set_insert-IsSet_list a (x ∷ xs) h = ground (arith, lex_swap_gt a x, set_insert-Rises x a xs)
