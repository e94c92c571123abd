-- ===== src/Ipc/Lines.antt =====
-- `IFLYOS_InterfaceGetLines` against a plain split at the line feeds.
use Prim.Native.Nat.add
use sdk_linux.Prelude.{
  ap, ◌∙◌, ◌≢◌, length-append, ℕ, zero, suc, ◌+◌, ◌-◌, ◌%◌, ◌≤◌, ◌<◌, ◌≡◌, refl, inl, inr, none,
  some, List, [], ◌∷◌, ◌++◌, append_assoc, arith, ◌==◌, if◌then◌else◌, length, take, drop, take_all,
  length-drop, Option-cases,
}
use sdk_linux.Prelude.Bytes.{Bytes, find}
use sdk_linux.Ipc.Text.{size_mod, npos, line_feed, find_first_of, get_lines_loop, get_lines}

-- The text between line feeds: always one more part than there are line feeds.
unfoldable pub cons_head : ℕ → List Bytes → List Bytes
cons_head c [] = (c ∷ []) ∷ []
cons_head c (w ∷ ws) = (c ∷ w) ∷ ws

unfoldable pub split_lines : Bytes → List Bytes
unfolding cons_head
split_lines [] = [] ∷ []
split_lines (c ∷ s) =
    let rest = split_lines s in if c == line_feed then [] ∷ rest else cons_head c rest

-- What `find` says of the text.
find-some :
    (c : ℕ) (s : Bytes) (i : ℕ)
    → find c s ≡ some i
    → (s ≡ take i s ++ c ∷ drop (suc i) s) × (i < length s)
unfolding find
find-some c [] i h = cc
find-some c (x ∷ s) zero h = ground arith
find-some c (x ∷ s) (suc i) h = ground (arith, find-some c s i)

split_lines-none : (s : Bytes) → find line_feed s ≡ none → split_lines s ≡ s ∷ []
unfolding split_lines find
split_lines-none [] h = refl
split_lines-none (x ∷ s) h = ground (arith, split_lines-none s)

split_lines-some :
    (s : Bytes) (i : ℕ)
    → find line_feed s ≡ some i
    → split_lines s ≡ take i s ∷ split_lines (drop (suc i) s)
unfolding split_lines find
split_lines-some [] i h = cc
split_lines-some (x ∷ s) zero h = ground arith
split_lines-some (x ∷ s) (suc i) h = ground (arith, split_lines-some s i)

drop-drop : (i n : ℕ) (s : Bytes) → drop (n + suc i) s ≡ drop (suc i) (drop n s)
drop-drop i zero s = rw add.zero
drop-drop i (suc n) [] = rw add.suc
drop-drop i (suc n) (c ∷ s) = rw add.suc (drop-drop i n s)

find_first_of-none :
    (s : Bytes) (last : ℕ)
    → find line_feed (drop last s) ≡ none
    → find_first_of line_feed s last ≡ npos
unfolding find_first_of
find_first_of-none s last e = rw (e, find_first_of)

find_first_of-some :
    (s : Bytes) (last i : ℕ)
    → find line_feed (drop last s) ≡ some i
    → find_first_of line_feed s last ≡ last + i
unfolding find_first_of
find_first_of-some s last i e = rw (e, find_first_of)

-- The last round: the rest of the text, which is never taken for empty.
get_lines_loop-last :
    (fuel : ℕ) (s : Bytes) (last : ℕ) (lines : List Bytes)
    → last ≤ length s
    → length s < npos
    → get_lines_loop (suc fuel) s last npos lines ≡ some (lines ++ drop last s ∷ [])
unfolding get_lines_loop
get_lines_loop-last fuel s last lines h fits =
    ground (arith, take_all ((npos + size_mod - last) % size_mod) (drop last s), length-drop last s)

get_lines_loop-next :
    (fuel : ℕ) (s : Bytes) (last i : ℕ) (lines : List Bytes)
    → last + i < npos
    → get_lines_loop (suc fuel) s last (last + i) lines
      ≡ get_lines_loop fuel s
          (last + suc i)
          (find_first_of line_feed s (last + suc i))
          (lines ++ take i (drop last s) ∷ [])
unfolding get_lines_loop
get_lines_loop-next fuel s last i lines fits =
    let n : (last + i + size_mod - last) % size_mod ≡ i = omega arith in
    let e : last + i + 1 ≡ last + suc i = omega arith in rw (n, e) (ground arith)

get_lines_loop_lem :
    (fuel : ℕ) (s : Bytes) (last : ℕ) (lines : List Bytes)
    → length s < fuel + last
    → last ≤ length s
    → length s < npos
    → get_lines_loop fuel s last (find_first_of line_feed s last) lines
      ≡ some (lines ++ split_lines (drop last s))
get_lines_loop_lem zero s last lines h le fits = absurd (omega arith)
get_lines_loop_lem (suc fuel) s last lines h le fits =
    elim (Option-cases (find line_feed (drop last s))) [
      | inl e ↦ rw (
        find_first_of-none s last e,
        get_lines_loop-last fuel s last lines le fits,
        split_lines-none _ e,
      )
      | inr (i, e) ↦
          let inside : i < length s - last =
            omega (arith, (find-some _ _ i e).1, length-drop last s) in
          rw (find_first_of-some s last i e, get_lines_loop-next fuel s last i lines (omega arith))
            (rw (get_lines_loop_lem fuel s (last + suc i) _ (omega arith) (omega arith) fits)
              (simp (append_assoc, drop-drop, split_lines-some _ i e)))
    ]

-- For a text shorter than `npos`, `IFLYOS_InterfaceGetLines` ends, and gives the parts between the
-- line feeds, the part behind the last one included, whether it is empty or not.
pub get_lines-split_lines : (s : Bytes) → length s < npos → get_lines s ≡ some (split_lines s)
unfolding get_lines
get_lines-split_lines s fits =
    get_lines_loop_lem (suc (length s)) s 0 [] (omega arith) (omega arith) fits

cons_head-append :
    (c : ℕ) (ws : List Bytes) → ws ≢ [] → cons_head c (ws ++ [] ∷ []) ≡ cons_head c ws ++ [] ∷ []
unfolding cons_head
cons_head-append c [] h = absurd (h refl)
cons_head-append c (w ∷ ws) h = refl

split_lines-ne-nil : (s : Bytes) → split_lines s ≢ []
unfolding split_lines
split_lines-ne-nil [] = λ e. cc
split_lines-ne-nil (c ∷ s) = cons_or (split_lines s)
  where
    cons_or : (ws : List Bytes) → (if c == line_feed then [] ∷ ws else cons_head c ws) ≢ []
    cons_or [] = ground arith
    cons_or (w ∷ ws) = ground arith

split_lines-line_feed : (s : Bytes) → split_lines (s ++ line_feed ∷ []) ≡ split_lines s ++ [] ∷ []
unfolding split_lines
split_lines-line_feed [] = refl
split_lines-line_feed (c ∷ s) =
    ground
      (arith, split_lines-line_feed s, cons_head-append c (split_lines s) (split_lines-ne-nil s))

-- A text that ends in a line feed gives one more line, an empty one, than without it.
pub get_lines-trailing :
    (s : Bytes)
    → length s + 1 < npos
    → get_lines (s ++ line_feed ∷ []) ≡ some (split_lines s ++ [] ∷ [])
get_lines-trailing s fits =
    get_lines-split_lines (s ++ line_feed ∷ []) (omega (arith, length-append s (line_feed ∷ [])))
    ∙ ap some (split_lines-line_feed s)
