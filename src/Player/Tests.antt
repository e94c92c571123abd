-- ===== src/Player/Tests.antt =====
-- The player on a short sound.
use sdk_linux.Prelude.{ℕ, ◌<◌, ◌-◌, ◌≡◌, refl, List, [], ◌∷◌, Option, none, some, true, All, arith}
use sdk_linux.Prelude.Int.{pos, neg}
use sdk_linux.Prelude.Bytes.{Bytes, codes}
use sdk_linux.Player.{drop, length, clamp, copied, pa_stream_callback, scale_all, samples, Player}
use sdk_linux.Player.Load.{construct, readable, halves, construct-halves}
use sdk_linux.Player.Playing.{stream_plays_lem, asked_for, first, stream_plays}
use sdk_linux.Player.Volume.{copied-IsShort, IsShort}

-- Four samples: 1, 200, -100 and 256.
abbrev tone : Bytes
tone = 1 ∷ 0 ∷ 200 ∷ 0 ∷ 156 ∷ 255 ∷ 0 ∷ 1 ∷ []

abbrev files : List (Bytes × Bytes)
files = (codes "a", tone) ∷ (codes "b", 5 ∷ 6 ∷ 7 ∷ []) ∷ []

construct-halves_example :
    construct 2 (readable files) true
    ≡ some (record {
      stream = true;
      map_buffer = halves files [];
      current_playing = none;
      current_playing_sample_offset = 0;
      vol = 100;
      queue = [];
      calls = [];
    })
construct-halves_example = construct-halves 2 files true (omega arith)

abbrev player : Player
player = record {
  stream = true;
  map_buffer = (codes "a", tone) ∷ [];
  current_playing = some tone;
  current_playing_sample_offset = 1;
  vol = 50;
  queue = [];
  calls = [];
}

-- From the second sample on, at half the volume.
plays :
    stream_plays player (2 ∷ 3 ∷ 4 ∷ [])
    ≡ some (pos 100 ∷ neg 50 ∷ pos 128 ∷ pos 0 ∷ pos 0 ∷ [], true)
unfolding stream_plays pa_stream_callback copied scale_all samples
plays = refl

stream_plays_lem_example :
    stream_plays player (2 ∷ 3 ∷ 4 ∷ [])
    ≡ some (
      first
          (asked_for (length (samples tone) - 1) (2 ∷ 3 ∷ 4 ∷ [])).0
          (copied 50 (drop 1 (samples tone))),
      (asked_for (length (samples tone) - 1) (2 ∷ 3 ∷ 4 ∷ [])).1,
    )
unfolding samples
stream_plays_lem_example = stream_plays_lem (2 ∷ 3 ∷ 4 ∷ []) player tone refl (ground arith)

loud-IsShort : All IsShort (scale_all (clamp (pos 130)) (samples (0 ∷ 128 ∷ [])))
loud-IsShort = copied-IsShort (pos 130) (0 ∷ 128 ∷ []) (ground arith)
