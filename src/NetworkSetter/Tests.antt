-- ===== src/NetworkSetter/Tests.antt =====
-- The setter with a recorder, and its handler on a text.
use sdk_linux.Prelude.{◌≡◌, refl, [], ◌∷◌, List}
use sdk_linux.Prelude.Int.{pos, neg}
use sdk_linux.Prelude.Bytes.{Bytes, codes}
use sdk_linux.Ipc.Text.{words}
use sdk_linux.Recorder.{Call, on_wake_word, on_audio, on_sonic, origin_output}
use sdk_linux.NetworkMonitor.{HttpResult}
use sdk_linux.NetworkSetter.{ℕ, fresh, configure, three_words, start, undefined}
use sdk_linux.NetworkSetter.Start.{start-never_returns}

abbrev fails : HttpResult
fails = record { ret = neg 400; code = neg 1; body = [] }

abbrev no_command : Bytes → ℕ
no_command command = 0

abbrev quiet : List Call
quiet = on_audio 1 (0 ∷ 0 ∷ []) origin_output ∷ []

abbrev loud : List Call
loud = on_wake_word 1 (pos 0) (pos 0) (pos 0) ∷ on_sonic 1 (pos 5 ∷ []) (pos 5 ∷ []) ∷ []

start-never_returns_example :
    start no_command fails fails (quiet ∷ loud ∷ quiet ∷ []) 0 fresh ≡ undefined
start-never_returns_example =
    start-never_returns no_command fails fails (quiet ∷ loud ∷ quiet ∷ []) 0

two_words :
    (configure (codes "1 home") fresh).commands
    ≡ codes "/home/pi/ivs/SampleAppCtrl.sh play /home/pi/ivs/sound_effect/start_config_wifi.mp3 0.5"
      ∷ codes "/home/pi/ivs/SampleAppCtrl.sh configwifi home  &"
      ∷ []
unfolding configure three_words words
two_words = refl
