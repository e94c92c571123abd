-- ===== src/NetworkSetter.antt =====
-- MicAgent/NetworkSetter.cpp: the configuration of the Wi-Fi by sound. Its decoder is commented out
-- in the source, so `sonic_receiver_consume` gives NULL.
pub mod Start
mod Tests
use sdk_linux.Prelude.{
  ℕ, ◌+◌, Bool, true, false, not, Option, none, some, List, [], ◌∷◌, ◌++◌, ◌==◌, if◌then◌else◌,
  length,
}
use sdk_linux.Prelude.Int.{ℤ}
use sdk_linux.Prelude.Bytes.{Bytes, codes, str_eq}
use sdk_linux.Ipc.Text.{words}
use sdk_linux.Recorder.{Call, on_wake_word, on_audio, on_sonic, Format, sonic_decode, same_format}
use sdk_linux.NetworkMonitor.{HttpResult, try_set_time_one_time}

-- `SonicAudioObserver`, and the calls of `std::system` in its handler, the oldest first.
pub record Observer : Type 0 where
  pub done : Bool
  pub need_auth : Bool
  pub commands : List Bytes

abbrev pub fresh : Observer
fresh = record { done = false; need_auth = true; commands = [] }

-- NULL: the calls of the decoder are commented out.
unfoldable pub sonic_receiver_consume : List ℤ → Option Bytes
sonic_receiver_consume buf = none

-- `sstream >> flag >> ssid >> pass`: a word that is missing is empty.
unfoldable pub three_words : List Bytes → Bytes × Bytes × Bytes
three_words [] = ([], [], [])
three_words (flag ∷ []) = (flag, [], [])
three_words (flag ∷ ssid ∷ []) = (flag, ssid, [])
three_words (flag ∷ ssid ∷ pass ∷ rest) = (flag, ssid, pass)

-- The body of the test in `onAudio`, with the handler that `start` gives.
unfoldable pub configure : Bytes → Observer → Observer
configure result o =
    let (flag, ssid, pass) = three_words (words result) in
    record {
      done = true;
      need_auth = str_eq flag (codes "1");
      commands =
          o.commands
          ++ codes
              "/home/pi/ivs/SampleAppCtrl.sh play /home/pi/ivs/sound_effect/start_config_wifi.mp3 0.5"
            ∷ (codes "/home/pi/ivs/SampleAppCtrl.sh configwifi "
                ++ ssid
                ++ codes " "
                ++ pass
                ++ codes " &")
            ∷ [];
    }

-- The test itself: `strlen` is undefined for NULL, `none`; the second buffer is decoded if the first gave an empty text.
unfoldable pub try_decode : Option Bytes → Option Bytes → Observer → Option Observer
unfolding configure
try_decode none second o = none
try_decode (some result) second o =
    if not (length result == 0) then some (configure result o) else elim second [
      | none ↦ none
      | some text ↦ some (if not (length text == 0) then configure text o else o)
    ]

-- `SonicAudioObserver::onAudio`; `none` where it is undefined.
unfoldable pub observer_on_audio : List ℤ → List ℤ → Format → Observer → Option Observer
observer_on_audio sound sound2 format o =
    if not (same_format format sonic_decode)
    then some o
    else if o.done
    then some o
    else try_decode (sonic_receiver_consume sound) (sonic_receiver_consume sound2) o

-- What a call of the recorder does to the observer. Sound in another format is passed over.
unfoldable pub hear : Call → Observer → Option Observer
unfolding observer_on_audio
hear (on_sonic k sound sound2) o = observer_on_audio sound sound2 sonic_decode o
hear (on_audio k sound format) o = observer_on_audio [] [] format o
hear _ o = some o

unfoldable pub hear_all : List Call → Observer → Option Observer
hear_all [] o = some o
hear_all (c ∷ calls) o = elim (hear c o) [ none ↦ none | some p ↦ hear_all calls p ]

-- How far `start` has come: it polls, it has returned with `needAuth`, `success` and the seconds
-- slept, or it has done what C++ leaves undefined.
pub data Outcome : Type 0 where
  polling : Observer → Outcome
  returned : Bool → Bool → ℕ → Outcome
  undefined : Outcome

-- The end of `start`, with the results of the two requests for the time.
unfoldable pub finish : (Bytes → ℕ) → HttpResult → HttpResult → Bool → ℕ → Outcome
finish system first second need_auth slept =
    if try_set_time_one_time system first
    then returned need_auth true (slept + 20)
    else if try_set_time_one_time system second
    then returned need_auth true (slept + 20 + 10)
    else returned need_auth false (slept + 20 + 10)

-- The loop of `oneTry`: each round has the calls that the recorder makes in the two seconds between
-- two polls.
unfoldable pub start :
    (Bytes → ℕ) → HttpResult → HttpResult → List (List Call) → ℕ → Observer → Outcome
start system first second [] slept o = polling o
start system first second (calls ∷ rounds) slept o =
    if o.done then finish system first second o.need_auth slept else elim (hear_all calls o) [
      | none ↦ undefined
      | some p ↦ start system first second rounds (slept + 2) p
    ]
