-- ===== src/Recorder/Tests.antt =====
-- Runs of the recorder.
use sdk_linux.Prelude.{◌≡◌, ◌≢◌, ◌⊎◌, refl, true, false, List, [], ◌∷◌, none, some}
use sdk_linux.Prelude.Int.{pos}
use sdk_linux.Capture.{alsa_tdmin_init, HwResults, null}
use sdk_linux.Recorder.{
  on_audio, on_wake_word, deliver, end_read, origin_output, begin_read, Recorder, start, begin_stop,
  end_stop,
}
use mathlib.Core.Option
use sdk_linux.Recorder.Extras.{fill_cae_buf, fake_loop, destroy, construct}
use sdk_linux.Recorder.Rounds.{
  stop_or_step, stops, Step, begins, ends, step, steps, Reading, one_read, Stopped, is_own,
  stop_returns,
}

abbrev fresh : Recorder
fresh = record {
  quit = false;
  format = origin_output;
  cae = false;
  observers = 1 ∷ [];
  executor = none;
  pcm_params = record {
    handle = false;
    chunk_size = 0;
    buffer_size = 0;
    channels = 0;
    chunk_bytes = 0;
    chunk_bytes_16 = 0;
    bits_per_sample = 0;
    bits_per_frame = 0;
    data_buf = null;
    data_buf_16 = null;
  };
  calls = [];
}

abbrev packets : HwResults
packets = record {
  errs = [];
  period_size = 320;
  buffer_size = 3200;
  malloc = true;
  malloc_16 = true;
}

abbrev started : Recorder
started = elim (start true packets fresh) [ none ↦ fresh | some r ↦ r ]

-- A packet with a wake word, and a stop while the next one is read.
abbrev round : List Step
round = begins ∷ ends (pos 0) (pos 1) (7 ∷ []) [] ∷ begins ∷ stops ∷ []

abbrev stopping : Recorder
stopping = elim (steps started round) [ none ↦ fresh | some r ↦ r ]

told :
    stopping.calls ≡ on_wake_word 1 (pos 0) (pos 0) (pos 0) ∷ on_audio 1 (7 ∷ []) origin_output ∷ []
unfolding steps step begin_read end_read begin_stop start alsa_tdmin_init deliver
told = refl

one_read_example : Reading stopping
unfolding steps step begin_read end_read begin_stop start alsa_tdmin_init deliver
one_read_example =
    one_read true packets fresh started stopping started.pcm_params round refl refl refl

stop_or_step_started :
    Stopped (end_stop (begin_stop started))
    ⊎ ((a : Step) × (is_own a ≡ true) × (step (begin_stop started) a ≢ none))
unfolding start alsa_tdmin_init
stop_or_step_started =
    stop_or_step 320 started
      (record { handle = refl; chunk_bytes = refl; data_buf = refl; data_buf_16 = refl })

abbrev ended : Recorder
ended = elim (step (begin_stop started) begins) [ none ↦ fresh | some r ↦ r ]

stop_returns_example : Stopped (end_stop ended)
unfolding start alsa_tdmin_init step begin_read begin_stop
stop_returns_example =
    stop_returns 320 started ended begins (refl, refl)
      (record { handle = refl; chunk_bytes = refl; data_buf = refl; data_buf_16 = refl }) refl refl

-- Two rounds of the constructor write five words of an array of two.
past_the_array : fill_cae_buf 2 (0 ∷ 0 ∷ 7 ∷ 7 ∷ 7 ∷ []) ≡ 256 ∷ 256 ∷ 512 ∷ 768 ∷ 1024 ∷ []
unfolding fill_cae_buf
past_the_array = refl

typed : (fake_loop ((b' ' ∷ []) ∷ (b'u' ∷ b'd' ∷ []) ∷ [] ∷ (b'm' ∷ []) ∷ []) fresh).1 ≡ b'u' ∷ []
unfolding fake_loop
typed = refl

unused_goes : Option.map (λ r. r.quit) (destroy (construct fresh)) ≡ some true
unfolding destroy construct begin_stop end_stop
unused_goes = refl
