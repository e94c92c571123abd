-- ===== src/Capture/Reading.antt =====
-- A read of one packet.
use sdk_linux.Prelude.{
  ℕ, zero, suc, ◌+◌, ◌-◌, ◌*◌, ◌≤◌, ◌%◌, ◌≡◌, ◌<◌, ◌==◌, refl, ap, arith, ◌∙◌, true, List, [], ◌∷◌,
  ◌++◌, if◌then◌else◌, some,
}
use sdk_linux.Prelude.Int.{ℤ, pos, negsuc}
use sdk_linux.Ipc.Text.{size_mod}
use sdk_linux.Capture.{PcmContainer, is_retry, read_loop, alsa_read_tdmin_pcm}

-- Results that `snd_pcm_readi` may give while `count` frames are missing: at most as many frames as
-- asked for, or an error behind which it is called again; at the end no frame is missing.
pub data Fills : ℕ → List ℤ → Type 0 where
  full : Fills 0 []
  gives : {count n : ℕ} {rs : List ℤ} → n ≤ count → Fills (count - n) rs → Fills count (pos n ∷ rs)
  retries :
      {count : ℕ} {r : ℤ} {rs : List ℤ} → is_retry r ≡ true → Fills count rs → Fills count (r ∷ rs)

gives_at :
    (count n real : ℕ) (rs : List ℤ)
    → n ≤ count
    → count < 4294967296
    → read_loop (pos n ∷ rs) count real ≡ read_loop rs (count - n) (real + n)
unfolding read_loop
gives_at zero n real rs h small = let e : n ≡ 0 = omega arith in rw e (ground arith)
gives_at (suc count) n real rs h small =
    let e : (suc count + size_mod - n) % size_mod ≡ suc count - n = omega arith in
    ap (λ k. read_loop rs k (real + n)) e

retries_at :
    (count real : ℕ) (r : ℤ) (rs : List ℤ)
    → is_retry r ≡ true
    → read_loop (r ∷ rs) count real ≡ read_loop rs count real
unfolding read_loop
retries_at zero real r rs h = refl
retries_at (suc count) real (pos n) rs h = ground (arith, h)
retries_at (suc count) real (negsuc n) rs h = ground (arith, h)

read_loop_lem :
    {count : ℕ} {rs : List ℤ} (later : List ℤ) (real : ℕ)
    → Fills count rs
    → count < 4294967296
    → read_loop (rs ++ later) count real ≡ some (pos (2 * (real + count)), 2 * (real + count))
unfolding read_loop
read_loop_lem later real full small = ground arith
read_loop_lem later real (gives {count = count} {n = n} {rs = rs} h fills) small =
    let e : real + n + (count - n) ≡ real + count = omega arith in
    gives_at count n real (rs ++ later) h small
    ∙ (rw e at (read_loop_lem later (real + n) fills (omega arith)))
read_loop_lem later real (retries {count = count} {r = r} {rs = rs} h fills) small =
    retries_at count real r (rs ++ later) h ∙ read_loop_lem later real fills small

-- When ALSA gives the 320 frames of a packet, in any portions and with any errors between them
-- behind which the read goes on, the read comes back with 640 bytes in the buffer, whatever the
-- buffer's size, and the result is 0 if the buffer has that size and else 640, which is no error
-- code.
pub alsa_read_tdmin_pcm_lem :
    (p : PcmContainer) (results later : List ℤ)
    → Fills 320 results
    → alsa_read_tdmin_pcm p (results ++ later)
      ≡ some ((if p.chunk_bytes == 640 then pos 0 else pos 640), 640)
unfolding alsa_read_tdmin_pcm
alsa_read_tdmin_pcm_lem p results later fills =
    let whole = read_loop_lem later 0 fills (omega arith) in ground (arith, whole)
