-- ===== src/Player/Volume.antt =====
-- `play` of PCMPlayer.cpp: the volume that is set, and what is heard then.
use native.Mathlib.Nat.{mul-le-mul_left}
use sdk_linux.Prelude.{
  true, false, if◌then◌else◌, ℕ, zero, suc, ◌*◌, ◌/◌, ◌≤◌, ◌<◌, arith, Bool, List, [], ◌∷◌, All,
}
use sdk_linux.Prelude.Int.{ℤ, pos, negsuc, neg}
use sdk_linux.Prelude.Bytes.{Bytes}
use sdk_linux.Player.{
  PaCall, start_stream, stop_stream, abort_stream, close_stream, terminate, Player, short_of,
  samples, scale, scale_all, clamp,
}
use sdk_linux.Ipc.Init.{is_zero}

-- A value of `short`.
abbrev pub IsShort : ℤ → Type 0
IsShort (pos n) = n < 32768
IsShort (negsuc n) = n < 32768

clamp_le : (vol : ℤ) → clamp vol ≤ 100
unfolding clamp
clamp_le (pos n) = ground arith
clamp_le (negsuc n) = omega arith

short_of-IsShort : (lo hi : ℕ) → lo < 256 → hi < 256 → IsShort (short_of lo hi)
unfolding short_of
short_of-IsShort lo hi l h = ground arith

samples-IsShort : (bs : Bytes) → All (λ b. b < 256) bs → All IsShort (samples bs)
unfolding samples
samples-IsShort [] h = tt
samples-IsShort (lo ∷ []) h = tt
samples-IsShort (lo ∷ hi ∷ bs) h = (short_of-IsShort lo hi h.0 h.1.0, samples-IsShort bs h.1.1)

quotient_le : (n vol : ℕ) → vol ≤ 100 → n * vol / 100 ≤ n
quotient_le n vol h = let most : n * vol ≤ n * 100 = mul-le-mul_left n h in omega arith

neg-IsShort : (m : ℕ) → m ≤ 32768 → IsShort (neg m)
neg-IsShort zero h = omega arith
neg-IsShort (suc m) h = omega arith

scale-IsShort : (vol : ℕ) (x : ℤ) → vol ≤ 100 → IsShort x → IsShort (scale vol x)
unfolding scale
scale-IsShort vol (pos n) h s = omega (arith, quotient_le n vol h)
scale-IsShort vol (negsuc n) h s = neg-IsShort _ (omega (arith, quotient_le (suc n) vol h))

scale_all-IsShort :
    (vol : ℕ) (xs : List ℤ) → vol ≤ 100 → All IsShort xs → All IsShort (scale_all vol xs)
unfolding scale_all
scale_all-IsShort vol [] h s = tt
scale_all-IsShort vol (x ∷ xs) h s = (scale-IsShort vol x h s.0, scale_all-IsShort vol xs h s.1)

-- Whatever the volume that `play` is given, every sample at the volume that its task sets is a value
-- of `short`, so that the conversion from `float` is defined.
pub copied-IsShort :
    (vol : ℤ) (file : Bytes)
    → All (λ b. b < 256) file
    → All IsShort (scale_all (clamp vol) (samples file))
copied-IsShort vol file h =
    scale_all-IsShort (clamp vol) (samples file) (clamp_le vol) (samples-IsShort file h)

-- Whether the stream runs behind these calls, as PortAudio says: from a start that succeeds to the
-- next stop.
unfoldable pub is_running : Bool → List PaCall → Bool
is_running on [] = on
is_running on (start_stream err ∷ calls) = is_running (if is_zero err then true else on) calls
is_running on (stop_stream ∷ calls) = is_running false calls
is_running on (abort_stream ∷ calls) = is_running false calls
is_running on (close_stream ∷ calls) = is_running false calls
is_running on (terminate ∷ calls) = is_running false calls
