-- ===== src/Recorder/Extras.antt =====
-- The rest of Recorder.h and Recorder.cpp: the constructor, the destructor, and the thread that takes
-- the standard input for wake words and keys.
use sdk_linux.Prelude.{
  ℕ, zero, suc, ◌+◌, Bool, false, not, ◌||◌, Option, none, List, [], ◌∷◌, ◌++◌, take, drop, ◌==◌,
  if◌then◌else◌,
}
use sdk_linux.Prelude.Int.{ℤ, pos, is_neg}
use sdk_linux.Prelude.Bytes.{Bytes}
use sdk_linux.Recorder.{Recorder, none_output, begin_stop, end_stop, tell_wake}

-- `m_caeBuf[baseIdx]` to `m_caeBuf[baseIdx + 3]`, in the words of the array and of what stands behind
-- it.
abbrev pub put_four : ℕ → List ℕ → List ℕ
put_four i words = take i words ++ 256 ∷ 512 ∷ 768 ∷ 1024 ∷ drop (i + 4) words

-- The first `n` rounds of the constructor's loop; CH_NUM is 1.
unfoldable pub fill_cae_buf : ℕ → List ℕ → List ℕ
fill_cae_buf zero words = words
fill_cae_buf (suc n) words = put_four n (fill_cae_buf n words)

-- The constructor. It sets the handle of the container and leaves its pointers, `m_cae` and `m_quit`
-- as they are in `memory`.
unfoldable pub construct : Recorder → Recorder
construct memory = record memory {
  format = none_output;
  observers = [];
  executor = none;
  pcm_params = record memory.pcm_params { handle = false };
  calls = [];
}

-- The destructor; `CAEDestroy` does nothing.
unfoldable pub destroy : Recorder → Option Recorder
destroy r = end_stop (begin_stop r)

-- `fakeWakeUp`: whether the call makes the thread.
unfoldable pub fake_wake_up : Bool → ℤ → Bool
fake_wake_up running fd = not (running || is_neg fd)

-- The loop of that thread, on what `read` gave in each round, nothing at the end or on an error: the
-- bytes written to `fakeWakeupFd`, beside the calls of the observers.
unfoldable pub fake_loop : List Bytes → Recorder → Recorder × Bytes
unfolding tell_wake
fake_loop [] r = (r, [])
fake_loop ([] ∷ reads) r = (r, [])
fake_loop ((c ∷ b) ∷ reads) r =
    let woken = record r { calls = r.calls ++ tell_wake r.observers (pos 0) (pos 10) (pos 0) } in
    let rest = fake_loop reads (if c == b' ' then woken else r) in
    (rest.0, (if c == b' ' then rest.1 else c ∷ rest.1))
