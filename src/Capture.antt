-- ===== src/Capture.antt =====
-- MicAgent/tdmin_interface.h and MicAgent/tdmin_interface.c: the recorded sound from ALSA. What the
-- calls of ALSA and `malloc` return is an argument.
pub mod Reading
pub mod Life
pub mod Convert
mod Tests
use sdk_linux.Prelude.{
  ◌^◌, ℕ, zero, suc, ◌+◌, ◌-◌, ◌*◌, ◌/◌, ◌%◌, ◌==◌, Bool, true, false, not, ◌&&◌, ◌||◌, List, [],
  ◌∷◌, ltb, if◌then◌else◌, Option, none, some,
}
use sdk_linux.Prelude.Int.{ℤ, pos, negsuc, neg, is_neg}
use sdk_linux.Ipc.Text.{size_mod}

-- What a pointer to a buffer holds: what was there before, NULL, or a block of so many bytes.
pub data Buffer : Type 0 where
  unset null : Buffer
  block : ℕ → Buffer

-- `PCMContainer_t`, without the fields that nothing reads; `handle` says whether it is not NULL.
pub record PcmContainer : Type 0 where
  pub handle : Bool
  pub chunk_size : ℕ
  pub buffer_size : ℕ
  pub channels : ℕ
  pub chunk_bytes : ℕ
  pub chunk_bytes_16 : ℕ
  pub bits_per_sample : ℕ
  pub bits_per_frame : ℕ
  pub data_buf : Buffer
  pub data_buf_16 : Buffer

-- `-EAGAIN`, `-EPIPE` and `-ESTRPIPE`, behind which the loop goes on.
abbrev pub is_retry : ℤ → Bool
is_retry (pos n) = false
is_retry (negsuc n) = (n == 10) || (n == 31) || (n == 85)

-- `FRAME_TIME * SAMPLES_PER_MS`.
abbrev pub frames_per_read : ℕ
frames_per_read = 20 * 16

-- The loop of `_alsa_read_pcm` over the results of `snd_pcm_readi`: what it returns, and the bytes
-- that it has put into the buffer. It has not come back while more results are needed: `none`.
unfoldable pub read_loop : List ℤ → ℕ → ℕ → Option (ℤ × ℕ)
read_loop results zero real_count = some (pos (1 * 2 * real_count), 2 * real_count)
read_loop [] (suc count) real_count = none
read_loop (negsuc n ∷ results) (suc count) real_count =
    let rest = read_loop results (suc count) real_count in
    if is_retry (negsuc n) then rest else some (neg 1, 2 * real_count)
read_loop (pos n ∷ results) (suc count) real_count =
    read_loop results ((suc count + size_mod - n) % size_mod) (real_count + n)

unfoldable pub alsa_read_pcm : List ℤ → Option (ℤ × ℕ)
alsa_read_pcm results = read_loop results frames_per_read 0

-- `i4_ret == (int) pcm_params->chunk_bytes`.
abbrev pub is_chunk : ℤ → ℕ → Bool
is_chunk (pos n) chunk_bytes = n == chunk_bytes
is_chunk (negsuc n) chunk_bytes = false

-- `alsa_read_tdmin_pcm`.
unfoldable pub alsa_read_tdmin_pcm : PcmContainer → List ℤ → Option (ℤ × ℕ)
unfolding alsa_read_pcm
alsa_read_tdmin_pcm p results = elim (alsa_read_pcm results) [
  | none ↦ none
  | some (ret, written) ↦ some ((if is_chunk ret p.chunk_bytes then pos 0 else ret), written)
]

-- `if (NULL != buf) { free(buf); buf = NULL; }`: undefined for a pointer that was never set.
unfoldable pub free_buffer : Buffer → Option Buffer
free_buffer unset = none
free_buffer null = some null
free_buffer (block n) = some null

-- Both buffers freed and the handle closed: the lines of ERR_SET_PARAMS and of `alsa_tdmin_uninit`.
unfoldable pub release : PcmContainer → Option PcmContainer
unfolding free_buffer
release p = elim (free_buffer p.data_buf) [
  | none ↦ none
  | some b ↦ elim (free_buffer p.data_buf_16) [
    | none ↦ none
    | some c ↦ some (record p { handle = false; data_buf = b; data_buf_16 = c })
  ]
]

-- What the checked calls of `_alsa_set_hw_params` return, in their order; the two sizes that ALSA
-- then gives; and whether the two calls of `malloc` gave memory.
pub record HwResults : Type 0 where
  pub errs : List ℤ
  pub period_size : ℕ
  pub buffer_size : ℕ
  pub malloc : Bool
  pub malloc_16 : Bool

abbrev pub any_neg : List ℤ → Bool
any_neg [] = false
any_neg (e ∷ es) = is_neg e || any_neg es

unfoldable pub fail_params : PcmContainer → Option (PcmContainer × ℤ)
unfolding release
fail_params p = elim (release p) [ none ↦ none | some q ↦ some (q, neg 1) ]

-- The sizes and the buffers, once the parameters are set.
unfoldable pub allocate : HwResults → PcmContainer → Option (PcmContainer × ℤ)
unfolding fail_params
allocate hw p =
    let frame = 16 * p.channels % 2 ^ 32 in
    let bytes = hw.period_size * frame % 2 ^ 32 / 8 in
    let sized = record p {
      chunk_size = hw.period_size;
      buffer_size = hw.buffer_size;
      bits_per_sample = 16;
      bits_per_frame = frame;
      chunk_bytes = bytes;
      chunk_bytes_16 = bytes / 2;
    } in
    if not hw.malloc
    then fail_params (record sized { data_buf = null })
    else if not hw.malloc_16
    then fail_params (record sized { data_buf = block bytes; data_buf_16 = null })
    else some (record sized { data_buf = block bytes; data_buf_16 = block (bytes / 2) }, pos 0)

-- `_alsa_set_hw_params`.
unfoldable pub alsa_set_hw_params : HwResults → PcmContainer → Option (PcmContainer × ℤ)
unfolding allocate fail_params
alsa_set_hw_params hw p =
    if not p.handle
    then some (p, neg 1)
    else if any_neg hw.errs
    then fail_params p
    else if hw.period_size == hw.buffer_size
    then fail_params (record p { chunk_size = hw.period_size; buffer_size = hw.buffer_size })
    else allocate hw p

-- `alsa_tdmin_init`, where `snd_pcm_open` succeeds or not; the result is `TDMIN_FAIL` or `TDMIN_OK`.
unfoldable pub alsa_tdmin_init : Bool → HwResults → PcmContainer → Option (PcmContainer × ℤ)
unfolding alsa_set_hw_params
alsa_tdmin_init opened hw p =
    if not opened then some (p, neg 1) else alsa_set_hw_params hw (record p { handle = true })

-- `alsa_tdmin_uninit`.
unfoldable pub alsa_tdmin_uninit : PcmContainer → Option PcmContainer
unfolding release
alsa_tdmin_uninit p = release p
