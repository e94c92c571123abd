-- ===== src/Capture/Tests.antt =====
-- Runs of the capture interface.
use sdk_linux.Prelude.{◌≡◌, refl, arith, true, false, [], ◌∷◌, none, some, if◌then◌else◌, ◌==◌}
use sdk_linux.Prelude.Int.{pos, neg}
use sdk_linux.Capture.{
  allocate, alsa_set_hw_params, PcmContainer, unset, null, HwResults, alsa_tdmin_init,
  alsa_tdmin_uninit, alsa_read_tdmin_pcm,
}
use sdk_linux.Capture.Reading.{full, gives, retries, alsa_read_tdmin_pcm_lem}
use sdk_linux.Capture.Life.{
  IsClosed, Outcome, succeeds, alsa_tdmin_init-Outcome, uninit-IsClosed, init_frees_unset,
}

abbrev closed : PcmContainer
closed = record {
  handle = false;
  chunk_size = 0;
  buffer_size = 0;
  channels = 1;
  chunk_bytes = 0;
  chunk_bytes_16 = 0;
  bits_per_sample = 0;
  bits_per_frame = 0;
  data_buf = null;
  data_buf_16 = null;
}

abbrev packets : HwResults
packets = record {
  errs = pos 0 ∷ pos 0 ∷ [];
  period_size = 320;
  buffer_size = 3200;
  malloc = true;
  malloc_16 = true;
}

abbrev opened : PcmContainer
opened = elim (alsa_tdmin_init true packets closed) [ none ↦ closed | some x ↦ x.0 ]

alsa_tdmin_init-Outcome_example :
    Outcome (succeeds true packets) 320 (alsa_tdmin_init true packets closed)
alsa_tdmin_init-Outcome_example =
    alsa_tdmin_init-Outcome true packets closed
      (record { handle = refl; data_buf = refl; data_buf_16 = refl })

uninit_opened : (q : PcmContainer) × (alsa_tdmin_uninit opened ≡ some q) × IsClosed q
unfolding alsa_tdmin_init alsa_set_hw_params allocate
uninit_opened =
    uninit-IsClosed 320 opened
      (record { handle = refl; chunk_bytes = refl; data_buf = refl; data_buf_16 = refl })

init_unset :
    alsa_tdmin_init true
      (record packets { errs = neg 22 ∷ [] })
      (record closed { data_buf = unset })
    ≡ none
init_unset =
    init_frees_unset (record packets { errs = neg 22 ∷ [] }) (record closed { data_buf = unset })
      refl refl

-- An overrun, then two portions.
alsa_read_tdmin_pcm_lem_example :
    alsa_read_tdmin_pcm (record closed { chunk_bytes = 640 }) (neg 32 ∷ pos 200 ∷ pos 120 ∷ [])
    ≡ some ((if 640 == 640 then pos 0 else pos 640), 640)
alsa_read_tdmin_pcm_lem_example =
    alsa_read_tdmin_pcm_lem (record closed { chunk_bytes = 640 }) (neg 32 ∷ pos 200 ∷ pos 120 ∷ [])
      [] (retries refl (gives (omega arith) (gives (omega arith) full)))
