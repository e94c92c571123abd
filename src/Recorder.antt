-- ===== src/Recorder.antt =====
-- MicAgent/Recorder.h and MicAgent/Recorder.cpp: a task of the recorder's own executor reads a
-- packet, hands it to the observers and enqueues itself again. A run of that task is two steps, the
-- test of `m_quit` with the read behind it, and the rest.
pub mod Rounds
pub mod Extras
mod Tests
use sdk_linux.Prelude.{
  is_member, drop, ◌||◌, ◌/◌, ◌*◌, take, ℕ, zero, suc, ◌+◌, ◌==◌, Bool, true, false, not, List, [],
  ◌∷◌, ◌++◌, if◌then◌else◌, Option, none, some,
}
use sdk_linux.Prelude.Int.{ℤ, pos, is_pos}
use sdk_linux.Prelude.Bytes.{Bytes}
use sdk_linux.Ipc.Init.{is_zero}
use sdk_linux.Capture.{PcmContainer, HwResults, alsa_tdmin_init, alsa_tdmin_uninit}
use sdk_linux.Player.{samples}

pub data Format : Type 0 where
  none_output cae_output origin_output sonic_decode : Format

abbrev pub same_format : Format → Format → Bool
same_format none_output none_output = true
same_format cae_output cae_output = true
same_format origin_output origin_output = true
same_format sonic_decode sonic_decode = true
same_format _ _ = false

-- A call of an observer, by its number: `onWakeWord` with the angle, the score and the beam, or
-- `onAudio`; for SONIC_DECODE with the samples of its two buffers, which the source divides by 2^15.
pub data Call : Type 0 where
  on_wake_word : ℕ → ℤ → ℤ → ℤ → Call
  on_audio : ℕ → Bytes → Format → Call
  on_sonic : ℕ → List ℤ → List ℤ → Call

-- `m_executor`: whether `safeQuit` was called, the queued runs of `readAudio`, and those that are
-- reading a packet.
pub record Executor : Type 0 where
  pub closing : Bool
  pub queued : ℕ
  pub reading : ℕ

-- `cae` says whether `m_cae` is not NULL; `observers` are the elements of the set, each once, in
-- the order in which the loops reach them.
pub record Recorder : Type 0 where
  pub quit : Bool
  pub format : Format
  pub cae : Bool
  pub observers : List ℕ
  pub executor : Option Executor
  pub pcm_params : PcmContainer
  pub calls : List Call

-- `start`: `none` if `alsa_tdmin_init` is undefined.
unfoldable pub start : Bool → HwResults → Recorder → Option Recorder
start opened hw r = elim (alsa_tdmin_init opened hw (record r.pcm_params { channels = 1 })) [
  | none ↦ none
  | some (p, ret) ↦ some (
      if is_zero ret
      then record r {
        pcm_params = p;
        quit = false;
        executor = some (record { closing = false; queued = 1; reading = 0 });
      }
      else record r { pcm_params = p })
]

-- `observer->onWakeWord(…)` and `observer->onAudio(…)` for each observer.
unfoldable pub tell_wake : List ℕ → ℤ → ℤ → ℤ → List Call
tell_wake [] angle score beam = []
tell_wake (o ∷ os) angle score beam =
    on_wake_word o angle score beam ∷ tell_wake os angle score beam

unfoldable pub tell_audio : List ℕ → Bytes → Format → List Call
tell_audio [] sound format = []
tell_audio (o ∷ os) sound format = on_audio o sound format ∷ tell_audio os sound format

unfoldable pub tell_sonic : List ℕ → List ℤ → List ℤ → List Call
tell_sonic [] buf buf2 = []
tell_sonic (o ∷ os) buf buf2 = on_sonic o buf buf2 ∷ tell_sonic os buf buf2

-- `sizeof(m_caeBuf) / 2`.
abbrev pub packet_bytes : ℕ
packet_bytes = 16 * 20 * 1 * 4 / 2

-- What a packet comes to, where `alsa_read_tdmin_pcm` returned `ret` and `RunDetection` returned
-- `detected`. For CAE_OUTPUT the packet goes to the engine, whose write is a stub of
-- Recorder.h. For SONIC_DECODE the second buffer reads two samples behind the packet: `beyond` is what
-- stands there.
unfoldable pub deliver : ℤ → ℤ → Bytes → List ℤ → Recorder → List Call
unfolding tell_wake tell_audio tell_sonic samples
deliver ret detected sound beyond r =
    let woken = if is_pos detected then tell_wake r.observers (pos 0) (pos 0) (pos 0) else [] in
    if not (is_zero ret)
    then []
    else if same_format r.format none_output
    then []
    else if not (r.pcm_params.chunk_bytes == packet_bytes)
    then []
    else if same_format r.format cae_output
    then woken
    else if same_format r.format sonic_decode
    then woken ++ tell_sonic r.observers (samples sound) (drop 2 (samples sound) ++ beyond)
    else woken ++ tell_audio r.observers sound r.format

-- The worker takes `readAudio` from the queue and tests `m_quit`.
unfoldable pub begin_read : Recorder → Option Recorder
begin_read r = elim r.executor [
  | none ↦ none
  | some e ↦ elim e.queued [
    | ℕ.zero ↦ none
    | ℕ.suc n ↦ some (record r {
      executor = some (
          if r.quit
          then record e { queued = n }
          else record e { queued = n; reading = e.reading + 1 });
    })
  ]
]

-- The rest of the run. Every path enqueues it again, which throws behind `safeQuit`: the exception
-- stays in the task's future.
unfoldable pub end_read : ℤ → ℤ → Bytes → List ℤ → Recorder → Option Recorder
unfolding deliver
end_read ret detected sound beyond r = elim r.executor [
  | none ↦ none
  | some e ↦ elim e.reading [
    | ℕ.zero ↦ none
    | ℕ.suc n ↦ some (record r {
      calls = r.calls ++ deliver ret detected sound beyond r;
      executor =
          some (record e { reading = n; queued = if e.closing then e.queued else e.queued + 1 });
    })
  ]
]

-- `stop` up to the call of `join`.
unfoldable pub begin_stop : Recorder → Recorder
begin_stop r = record r {
  quit = true;
  executor = elim r.executor [ none ↦ none | some e ↦ some (record e { closing = true }) ];
}

-- The rest of `stop`: `none` while `join` waits, and where `alsa_tdmin_uninit` is undefined.
unfoldable pub uninit_if_open : Recorder → Option Recorder
uninit_if_open r =
    if r.pcm_params.handle
    then elim (alsa_tdmin_uninit r.pcm_params) [
      | none ↦ none
      | some p ↦ some (record r { pcm_params = p })
    ]
    else some r

unfoldable pub end_stop : Recorder → Option Recorder
unfolding uninit_if_open
end_stop r = elim r.executor [
  | none ↦ uninit_if_open r
  | some e ↦
      if e.queued + e.reading == 0 then uninit_if_open (record r { executor = none }) else none
]

-- `setFormat`: `CAENew` and `CAEDestroy` are stubs that change nothing.
unfoldable pub set_format : Format → Recorder → Recorder
set_format format r =
    if same_format r.format format
    then r
    else if same_format format cae_output
    then record r { format = format }
    else record r { format = format; cae = false }

-- `addObserver`.
unfoldable pub add_observer : ℕ → Recorder → Recorder
add_observer o r =
    if is_member o r.observers then r else record r { observers = r.observers ++ o ∷ [] }

-- `cb_ivw` and `cb_audio`, the callbacks of the engine.
unfoldable pub cb_ivw : ℤ → ℤ → ℤ → Recorder → Recorder
unfolding tell_wake
cb_ivw angle score beam r = record r { calls = r.calls ++ tell_wake r.observers angle score beam }

unfoldable pub cb_audio : Bytes → Recorder → Recorder
unfolding tell_audio
cb_audio sound r =
    if same_format r.format cae_output
    then record r { calls = r.calls ++ tell_audio r.observers (take 256 sound) cae_output }
    else r
