-- ===== src/NetworkSetter/Start.antt =====
-- What `NetworkSetter::start` comes to.
use sdk_linux.Prelude.{
  ℕ, ◌+◌, Bool, true, false, ◌||◌, none, some, List, [], ◌∷◌, ◌≡◌, refl, arith, if◌then◌else◌,
}
use sdk_linux.Prelude.Bytes.{Bytes}
use sdk_linux.Recorder.{Call, on_wake_word, on_audio, on_sonic, sonic_decode, same_format}
use sdk_linux.NetworkMonitor.{HttpResult}
use sdk_linux.NetworkSetter.{
  sonic_receiver_consume, try_decode, fresh, hear, hear_all, observer_on_audio, polling, undefined,
  start,
}

abbrev pub is_sonic : Call → Bool
is_sonic (on_sonic k sound sound2) = true
is_sonic (on_audio k sound format) = same_format format sonic_decode
is_sonic (on_wake_word k angle score beam) = false

abbrev pub has_sonic : List Call → Bool
has_sonic [] = false
has_sonic (c ∷ calls) = is_sonic c || has_sonic calls

abbrev pub has_sonic_round : List (List Call) → Bool
has_sonic_round [] = false
has_sonic_round (calls ∷ rounds) = has_sonic calls || has_sonic_round rounds

hear-fresh : (c : Call) → hear c fresh ≡ (if is_sonic c then none else some fresh)
unfolding hear observer_on_audio try_decode sonic_receiver_consume
hear-fresh (on_sonic k sound sound2) = refl
hear-fresh (on_audio k sound format) = ground arith
hear-fresh (on_wake_word k angle score beam) = refl

hear_all-fresh :
    (calls : List Call) → hear_all calls fresh ≡ (if has_sonic calls then none else some fresh)
unfolding hear_all
hear_all-fresh [] = refl
hear_all-fresh (c ∷ calls) = ground (arith, hear-fresh c, hear_all-fresh calls)

-- Whatever the recorder hears and the network does, `start` never returns: it polls, with nothing
-- decoded, as long as no sound comes in the format for the decoder, and the first such sound makes it
-- call `strlen` with NULL, which is undefined.
pub start-never_returns :
    (system : Bytes → ℕ) (first second : HttpResult) (rounds : List (List Call)) (slept : ℕ)
    → start system first second rounds slept fresh
      ≡ (if has_sonic_round rounds then undefined else polling fresh)
unfolding start
start-never_returns system first second [] slept = refl
start-never_returns system first second (calls ∷ rounds) slept =
    ground (arith, hear_all-fresh calls, start-never_returns system first second rounds (slept + 2))
