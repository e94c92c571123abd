-- ===== src/Player/Playing.antt =====
-- The callbacks of a stream, one after the other, against the whole sound.
use native.Mathlib.Decide.{dec_lt}
use sdk_linux.Prelude.{
  ℕ, if◌then◌else◌, length-drop, zero, suc, ◌+◌, ◌-◌, ◌≤◌, ◌<◌, ◌≡◌, refl, arith, Bool, true, false,
  List, [], ◌∷◌, ◌++◌, leb, Option, none, some, length, take, drop, replicate, ap, sym, ◌∙◌,
}
use sdk_linux.Prelude.Int.{ℤ, pos}
use sdk_linux.Prelude.Bytes.{Bytes}
use sdk_linux.Player.{
  Player, samples, scale, scale_all, copied, pa_continue, pa_complete, pa_stream_callback,
}

-- What the stream plays when it asks for these numbers of frames: PortAudio calls no more once the
-- callback returned `paComplete`. The Boolean says whether it did.
unfoldable pub stream_plays : Player → List ℕ → Option (List ℤ × Bool)
stream_plays p [] = some ([], false)
stream_plays p (n ∷ ns) = elim (pa_stream_callback n p) [
  | none ↦ none
  | some (q, output, pa_complete) ↦ some (output, true)
  | some (q, output, pa_continue) ↦ elim (stream_plays q ns) [
    | none ↦ none
    | some (rest, ended) ↦ some (output ++ rest, ended)
  ]
]

-- The frames that are asked for until `left` are reached, and whether they are.
abbrev pub asked_for : ℕ → List ℕ → ℕ × Bool
asked_for left [] = (0, false)
asked_for left (n ∷ ns) =
    let rest = asked_for (left - n) ns in if leb left n then (n, true) else (n + rest.0, rest.1)

-- The first samples of a sound that has silence behind it.
abbrev pub first : ℕ → List ℤ → List ℤ
first zero xs = []
first (suc n) [] = pos 0 ∷ first n []
first (suc n) (x ∷ xs) = x ∷ first n xs

scale_all-take : (vol n : ℕ) (xs : List ℤ) → scale_all vol (take n xs) ≡ take n (scale_all vol xs)
unfolding scale_all
scale_all-take vol zero xs = refl
scale_all-take vol (suc n) [] = refl
scale_all-take vol (suc n) (x ∷ xs) = ap (λ ys. scale vol x ∷ ys) (scale_all-take vol n xs)

scale_all-drop : (vol n : ℕ) (xs : List ℤ) → scale_all vol (drop n xs) ≡ drop n (scale_all vol xs)
unfolding scale_all
scale_all-drop vol zero xs = refl
scale_all-drop vol (suc n) [] = refl
scale_all-drop vol (suc n) (x ∷ xs) = scale_all-drop vol n xs

length-scale_all : (vol : ℕ) (xs : List ℤ) → length (scale_all vol xs) ≡ length xs
unfolding scale_all
length-scale_all vol [] = refl
length-scale_all vol (x ∷ xs) = ap suc (length-scale_all vol xs)

copied-take : (vol n : ℕ) (xs : List ℤ) → copied vol (take n xs) ≡ take n (copied vol xs)
unfolding copied
copied-take vol n xs = ground (arith, scale_all-take vol n xs)

copied-drop : (vol n : ℕ) (xs : List ℤ) → copied vol (drop n xs) ≡ drop n (copied vol xs)
unfolding copied
copied-drop vol n xs = ground (arith, scale_all-drop vol n xs)

length-copied : (vol : ℕ) (xs : List ℤ) → length (copied vol xs) ≡ length xs
unfolding copied
length-copied vol xs = ground (arith, length-scale_all vol xs)

drop-drop : (m n : ℕ) (xs : List ℤ) → drop n (drop m xs) ≡ drop (m + n) xs
drop-drop zero n xs = ground arith
drop-drop (suc m) zero [] = ground arith
drop-drop (suc m) (suc n) [] = let e : suc m + suc n ≡ suc (m + suc n) = omega arith in rw e refl
drop-drop (suc m) n (x ∷ xs) =
    let e : suc m + n ≡ suc (m + n) = omega arith in rw e (drop-drop m n xs)

first_sound : (n : ℕ) (xs : List ℤ) → n ≤ length xs → take n xs ≡ first n xs
first_sound zero xs h = refl
first_sound (suc n) [] h = absurd (omega arith)
first_sound (suc n) (x ∷ xs) h = ap (◌∷◌ x) (first_sound n xs (omega arith))

first_silence : (n : ℕ) → replicate n (pos 0) ≡ first n []
first_silence zero = refl
first_silence (suc n) = ap (◌∷◌ (pos 0)) (first_silence n)

first_all :
    (n : ℕ) (xs : List ℤ)
    → length xs ≤ n
    → take (length xs) xs ++ replicate (n - length xs) (pos 0) ≡ first n xs
first_all n [] h = ground (arith, first_silence n)
first_all zero (x ∷ xs) h = absurd (omega arith)
first_all (suc n) (x ∷ xs) h = ground (arith, first_all n xs (omega arith))

first-append :
    (n m : ℕ) (xs : List ℤ) → n ≤ length xs → first n xs ++ first m (drop n xs) ≡ first (n + m) xs
first-append zero m xs h = ground arith
first-append (suc n) m [] h = absurd (omega arith)
first-append (suc n) m (x ∷ xs) h =
    let e : suc n + m ≡ suc (n + m) = omega arith in
    rw e (ap (◌∷◌ x) (first-append n m xs (omega arith)))

-- The sound from the offset on, at the volume of the player.
abbrev pub sound_left : Player → Bytes → List ℤ
sound_left p file = copied p.vol (drop p.current_playing_sample_offset (samples file))

length-sound_left :
    (p : Player) (file : Bytes)
    → length (sound_left p file) ≡ length (samples file) - p.current_playing_sample_offset
length-sound_left p file =
    length-copied p.vol _ ∙ length-drop p.current_playing_sample_offset (samples file)

continues :
    (n : ℕ) (p : Player) (file : Bytes)
    → p.current_playing ≡ some file
    → n < length (sound_left p file)
    → pa_stream_callback n p
      ≡ some (
        record p { current_playing_sample_offset = p.current_playing_sample_offset + n },
        first n (sound_left p file),
        pa_continue,
      )
unfolding pa_stream_callback
continues n p file playing more =
    let left = length-sound_left p file in
    let part =
      copied-take p.vol n (drop p.current_playing_sample_offset (samples file))
      ∙ first_sound n (sound_left p file) (omega arith) in
    ground (arith, playing, left, part)

completes :
    (n : ℕ) (p : Player) (file : Bytes)
    → p.current_playing ≡ some file
    → p.current_playing_sample_offset ≤ length (samples file)
    → length (sound_left p file) ≤ n
    → pa_stream_callback n p ≡ some (p, first n (sound_left p file), pa_complete)
unfolding pa_stream_callback
completes n p file playing inside over =
    let left = length-sound_left p file in
    let part =
      copied-take p.vol (length (sound_left p file))
        (drop p.current_playing_sample_offset (samples file)) in
    ground (arith, playing, left, part, first_all n (sound_left p file) over)

-- While a sound is played from an offset inside it, the stream gets the samples from there on, each
-- once, in their order and at the player's volume, and silence behind the last one; the callback
-- returns `paComplete` when as many frames as were left, or more, have been asked for, and is not
-- called any more.
pub stream_plays_lem :
    (ns : List ℕ) (p : Player) (file : Bytes)
    → p.current_playing ≡ some file
    → p.current_playing_sample_offset ≤ length (samples file)
    → stream_plays p ns
      ≡ some (
        first
            (asked_for (length (samples file) - p.current_playing_sample_offset) ns).0
            (copied p.vol (drop p.current_playing_sample_offset (samples file))),
        (asked_for (length (samples file) - p.current_playing_sample_offset) ns).1,
      )
unfolding stream_plays
stream_plays_lem [] p file playing inside = refl
stream_plays_lem (n ∷ ns) p file playing inside =
    let left = length-sound_left p file in
    elim (dec_lt n (length (sound_left p file))) [
      | no over ↦
          rw (stream_plays, completes n p file playing inside (omega arith)) (ground (arith, left))
      | yes more ↦
          let q = record p {
            current_playing_sample_offset = p.current_playing_sample_offset + n;
          } in
          let rest = stream_plays_lem ns q file playing (omega (arith, left)) in
          let fewer : length (samples file) - (p.current_playing_sample_offset + n)
              ≡ length (samples file) - p.current_playing_sample_offset - n =
            omega arith in
          let next : sound_left q file ≡ drop n (sound_left p file) =
            ap (copied p.vol) (sym (drop-drop p.current_playing_sample_offset n (samples file)))
            ∙ copied-drop p.vol n (drop p.current_playing_sample_offset (samples file)) in
          let counted =
            asked_for (length (samples file) - p.current_playing_sample_offset - n) ns in
          let joined = first-append n counted.0 (sound_left p file) (omega arith) in
          rw (stream_plays, continues n p file playing more, rest)
            (ground (arith, left, fewer, next, joined))
    ]
