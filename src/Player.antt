-- ===== src/Player.antt =====
-- MicAgent/PCMPlayer.h and MicAgent/PCMPlayer.cpp: short sounds from memory, through one PortAudio
-- stream. `Load` has the constructor's reading of the files, `Playing` and `Volume` prove.
pub mod Load
pub mod Playing
pub mod Volume
mod Tests
use sdk_linux.Prelude.{
  replicate, not, drop, take, ◌&&◌, length, if◌then◌else◌, ℕ, zero, suc, ◌+◌, ◌-◌, ◌*◌, ◌/◌, ◌==◌,
  Bool, true, false, List, [], ◌∷◌, ◌++◌, ltb, Option, none, some,
}
use sdk_linux.Prelude.Int.{ℤ, pos, negsuc, neg}
use sdk_linux.Prelude.Bytes.{Bytes}
use sdk_linux.Prelude.Dict.{Dict, lookup}

-- What the executor is given: by `play`, by `stop`, and at the end of a stream.
pub data Task : Type 0 where
  start : Bytes → ℤ → Task
  stop finish : Task

-- The calls of PortAudio on the stream; a start with its result, 0 for `paNoError`.
pub data PaCall : Type 0 where
  start_stream : ℤ → PaCall
  stop_stream abort_stream close_stream terminate : PaCall

-- The fields. `current_playing` points into the map, whose files no longer change: it is held as the
-- file's bytes. `stream` says whether `m_paStream` is set.
pub record Player : Type 0 where
  pub stream : Bool
  pub map_buffer : Dict Bytes
  pub current_playing : Option Bytes
  pub current_playing_sample_offset : ℕ
  pub vol : ℕ
  pub queue : List Task
  pub calls : List PaCall

-- A `short` from its two bytes, the low one first.
unfoldable pub short_of : ℕ → ℕ → ℤ
short_of lo hi =
    if ltb (lo + 256 * hi) 32768 then pos (lo + 256 * hi) else negsuc (65535 - (lo + 256 * hi))

-- The bytes of a file as `short*`; `size() / 2` passes over an odd byte.
unfoldable pub samples : Bytes → List ℤ
unfolding short_of
samples [] = []
samples (lo ∷ []) = []
samples (lo ∷ hi ∷ bs) = short_of lo hi ∷ samples bs

-- `(short) ((float) x * m_vol / 100)`: the product is less than 2^24, so it is exact, and the
-- quotient's rounding stays away from the next integer.
unfoldable pub scale : ℕ → ℤ → ℤ
scale vol (pos n) = pos (n * vol / 100)
scale vol (negsuc n) = neg (suc n * vol / 100)

unfoldable pub scale_all : ℕ → List ℤ → List ℤ
unfolding scale
scale_all vol [] = []
scale_all vol (x ∷ xs) = scale vol x ∷ scale_all vol xs

-- `memcpy` at the volume 100, and the loop at any other.
unfoldable pub copied : ℕ → List ℤ → List ℤ
unfolding scale_all
copied vol xs = if vol == 100 then xs else scale_all vol xs

pub data CallbackResult : Type 0 where
  pa_continue pa_complete : CallbackResult

-- `paStreamCallback` for `frame_count` frames: the new state, what it writes to `output`, and what
-- it returns. Without a sound, or with an offset past its end, it reads outside: `none`.
unfoldable pub pa_stream_callback : ℕ → Player → Option (Player × List ℤ × CallbackResult)
pa_stream_callback frame_count p = elim p.current_playing [
  | none ↦ none
  | some file ↦
      let sound = samples file in
      let offset = p.current_playing_sample_offset in
      let remaining = length sound - offset in
      if ltb (length sound) offset
      then none
      else if ltb frame_count remaining
      then some (
        record p { current_playing_sample_offset = offset + frame_count },
        copied p.vol (take frame_count (drop offset sound)),
        pa_continue,
      )
      else some (
        p,
        copied p.vol (take remaining (drop offset sound))
            ++ replicate (frame_count - remaining) (pos 0),
        pa_complete,
      )
]

-- `vol < 0 ? 0 : (vol > 100 ? 100 : vol)`.
unfoldable pub clamp : ℤ → ℕ
clamp (pos n) = if ltb 100 n then 100 else n
clamp (negsuc n) = 0

-- `play`: a file that is not in the map is passed over.
unfoldable pub play : Bytes → ℤ → Player → Player
unfolding lookup
play file vol p = elim (lookup file p.map_buffer) [
  | none ↦ p
  | some found ↦ record p { queue = p.queue ++ start file vol ∷ [] }
]

unfoldable pub stop_playing : Player → Player
stop_playing p = record p { queue = p.queue ++ stop ∷ [] }

-- `PaStreamFinishedCallback`.
unfoldable pub pa_stream_finished : Player → Player
pa_stream_finished p = record p { queue = p.queue ++ finish ∷ [] }

-- A task of the executor; `err` is what `Pa_StartStream` returns, which the task only prints, and
-- `stopped` what `Pa_IsStreamStopped` returns.
unfoldable pub run_task : ℤ → Bool → Task → Player → Player
unfolding clamp lookup
run_task err stopped (start file vol) p = record p {
  current_playing = lookup file p.map_buffer;
  current_playing_sample_offset = 0;
  vol = clamp vol;
  calls = p.calls ++ start_stream err ∷ [];
}
run_task err stopped stop p =
    if p.stream && not stopped then record p { calls = p.calls ++ stop_stream ∷ [] } else p
run_task err stopped finish p =
    if p.stream then record p { calls = p.calls ++ stop_stream ∷ [] } else p

-- The destructor's calls; it then waits for the executor.
unfoldable pub destroy : Player → Player
destroy p =
    if p.stream
    then record p { calls = p.calls ++ abort_stream ∷ close_stream ∷ terminate ∷ [] }
    else p
