-- ===== src/Http/Search.antt =====
-- Searching and reading an array that holds a text and then other bytes.
use sdk_linux.Prelude.{ℕ, ◌+◌, ◌*◌, ◌-◌, ◌≤◌, ◌≡◌, refl, arith, [], ◌∷◌, ◌++◌, length, true, false}
use sdk_linux.Prelude.Bytes.{Bytes}
use sdk_linux.Ipc.Text.{atoi, skip_space, signed_digits, digits_from}
use sdk_linux.Http.Header.{Search, found, absent, outside, starts, strstr, all_digits, reads_past}

starts-append : (pat s t : Bytes) → starts pat s ≡ true → starts pat (s ++ t) ≡ true
unfolding starts
starts-append [] s t h = refl
starts-append (p ∷ pat) [] t h = ground (arith, h)
starts-append (p ∷ pat) (c ∷ s) t h = ground (arith, h, starts-append pat s t)

starts-append_found :
    (pat s t : Bytes) → starts pat s ≡ false → length pat ≤ length s → starts pat (s ++ t) ≡ false
unfolding starts
starts-append_found [] s t h k = h
starts-append_found (p ∷ pat) [] t h k = absurd (omega arith)
starts-append_found (p ∷ pat) (c ∷ s) t h k = ground (arith, h, starts-append_found pat s t)

starts-length : (pat s : Bytes) → starts pat s ≡ true → length pat ≤ length s
unfolding starts
starts-length [] s h = omega arith
starts-length (p ∷ pat) [] h = ground (arith, h)
starts-length (p ∷ pat) (c ∷ s) h = ground (arith, h, starts-length pat s)

pub data SearchCase (x : Search) : Type 0 where
  is_found : (j : ℕ) → x ≡ found j → SearchCase x
  is_absent : x ≡ absent → SearchCase x
  is_outside : x ≡ outside → SearchCase x

pub Search-cases : (x : Search) → SearchCase x
Search-cases (found j) = is_found j refl
Search-cases absent = is_absent refl
Search-cases outside = is_outside refl

strstr_found : (s pat : Bytes) (i : ℕ) → strstr s pat ≡ found i → i + length pat ≤ length s
unfolding strstr
strstr_found [] pat i h = ground (arith, h)
strstr_found (c ∷ s) pat i h = elim (Search-cases (strstr s pat)) [
  | is_found j e ↦ ground (arith, h, e, starts-length pat (c ∷ s), strstr_found s pat j e)
  | is_absent e ↦ ground (arith, h, e, starts-length pat (c ∷ s))
  | is_outside e ↦ ground (arith, h, e, starts-length pat (c ∷ s))
]

pub strstr-append :
    (s t pat : Bytes) (i : ℕ) → strstr s pat ≡ found i → strstr (s ++ t) pat ≡ found i
unfolding strstr
strstr-append [] t pat i h = ground (arith, h)
strstr-append (c ∷ s) t pat i h =
    let kept = starts-append pat (c ∷ s) t in
    let kept_not = starts-append_found pat (c ∷ s) t in
    elim (Search-cases (strstr s pat)) [
      | is_found j e ↦
          ground (arith, h, e, kept, kept_not, strstr_found s pat j e, strstr-append s t pat j e)
      | is_absent e ↦ ground (arith, h, e, kept)
      | is_outside e ↦ ground (arith, h, e, kept)
    ]

all_digits-append : (s t : Bytes) → all_digits s ≡ false → all_digits (s ++ t) ≡ false
unfolding all_digits
all_digits-append [] t h = ground (arith, h)
all_digits-append (c ∷ s) t h = ground (arith, h, all_digits-append s t)

digits_from-append :
    (n : ℕ) (s t : Bytes) → all_digits s ≡ false → digits_from n (s ++ t) ≡ digits_from n s
unfolding all_digits digits_from
digits_from-append n [] t h = ground (arith, h)
digits_from-append n (c ∷ s) t h = ground (arith, h, digits_from-append (n * 10 + (c - b'0')) s t)

reads_past-append : (s t : Bytes) → reads_past s ≡ false → reads_past (s ++ t) ≡ false
unfolding reads_past
reads_past-append [] t h = ground (arith, h)
reads_past-append (c ∷ s) t h =
    ground (arith, h, all_digits-append s t, all_digits-append (c ∷ s) t)

signed_digits-append :
    (s t : Bytes) → reads_past s ≡ false → signed_digits (s ++ t) ≡ signed_digits s
unfolding reads_past signed_digits
signed_digits-append [] t h = ground (arith, h)
signed_digits-append (c ∷ s) t h =
    ground (arith, h, digits_from-append 0 s t, digits_from-append 0 (c ∷ s) t)

skip_space-append :
    (s t : Bytes) → reads_past (skip_space s) ≡ false → skip_space (s ++ t) ≡ skip_space s ++ t
unfolding reads_past skip_space
skip_space-append [] t h = ground (arith, h)
skip_space-append (c ∷ s) t h = ground (arith, h, skip_space-append s t)

-- A number that ends inside a text is read the same with other bytes behind it.
pub atoi-append : (s t : Bytes) → reads_past (skip_space s) ≡ false → atoi (s ++ t) ≡ atoi s
unfolding atoi
atoi-append s t h = rw (skip_space-append s t h) (signed_digits-append (skip_space s) t h)

pub skipped-append :
    (s t : Bytes) → reads_past (skip_space s) ≡ false → reads_past (skip_space (s ++ t)) ≡ false
skipped-append s t h = rw (skip_space-append s t h) (reads_past-append (skip_space s) t h)
