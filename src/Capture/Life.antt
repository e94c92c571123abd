-- ===== src/Capture/Life.antt =====
-- The buffers and the handle over `alsa_tdmin_init` and `alsa_tdmin_uninit`.
use sdk_linux.Prelude.{
  ◌%◌, ◌^◌, ℕ, ◌&&◌, not, ◌*◌, ◌/◌, ◌==◌, ◌≡◌, refl, arith, Bool, true, false, Option, none, some,
}
use sdk_linux.Prelude.Int.{ℤ, pos, neg}
use sdk_linux.Capture.{
  PcmContainer, unset, null, block, HwResults, any_neg, alsa_tdmin_init, alsa_tdmin_uninit,
}

-- The container is closed: no handle and no buffer.
pub record IsClosed (p : PcmContainer) : Type 0 where
  pub handle : p.handle ≡ false
  pub data_buf : p.data_buf ≡ null
  pub data_buf_16 : p.data_buf_16 ≡ null

-- The container is open, with the sizes that belong to a number of frames in `size_t`, and buffers of
-- them.
pub record IsOpen (period_size : ℕ) (p : PcmContainer) : Type 0 where
  pub handle : p.handle ≡ true
  pub chunk_bytes : p.chunk_bytes ≡ period_size * (16 * p.channels % 2 ^ 32) % 2 ^ 32 / 8
  pub data_buf : p.data_buf ≡ block p.chunk_bytes
  pub data_buf_16 : p.data_buf_16 ≡ block (p.chunk_bytes / 2)

-- Everything that the initialization needs was given.
abbrev pub succeeds : Bool → HwResults → Bool
succeeds opened hw =
    opened
    && (not (any_neg hw.errs)
        && (not (hw.period_size == hw.buffer_size) && (hw.malloc && hw.malloc_16)))

-- The state and the result that a run of the initialization comes to.
abbrev pub Outcome : Bool → ℕ → Option (PcmContainer × ℤ) → Type 0
Outcome ok period_size none = true ≡ false
Outcome true period_size (some (q, ret)) = (ret ≡ pos 0) × IsOpen period_size q
Outcome false period_size (some (q, ret)) = (ret ≡ neg 1) × IsClosed q

-- From a closed container, `alsa_tdmin_init` either returns 0 and opens it, with buffers of the
-- sizes of a packet, which wrap in 32 bits, or returns -1 and leaves it closed, with nothing kept: the first exactly if
-- every call succeeded and the two sizes of ALSA differ.
pub alsa_tdmin_init-Outcome :
    (opened : Bool) (hw : HwResults) (p : PcmContainer)
    → IsClosed p
    → Outcome (succeeds opened hw) hw.period_size (alsa_tdmin_init opened hw p)
unfolding alsa_tdmin_init
alsa_tdmin_init-Outcome opened hw p c = ground (arith, c)

-- An open container is closed by `alsa_tdmin_uninit`.
pub uninit-IsClosed :
    (n : ℕ) (p : PcmContainer)
    → IsOpen n p
    → (q : PcmContainer) × (alsa_tdmin_uninit p ≡ some q) × IsClosed q
unfolding alsa_tdmin_uninit
uninit-IsClosed n p o = (
  record p { handle = false; data_buf = null; data_buf_16 = null },
  ground (arith, o),
  record { handle = refl; data_buf = refl; data_buf_16 = refl },
)

-- In a container whose pointers were never set, a call of ALSA that fails once the device is open
-- leads to a `free` of what they hold, which is undefined.
pub init_frees_unset :
    (hw : HwResults) (p : PcmContainer)
    → p.data_buf ≡ unset
    → any_neg hw.errs ≡ true
    → alsa_tdmin_init true hw p ≡ none
unfolding alsa_tdmin_init
init_frees_unset hw p u e = ground (arith, u, e)
