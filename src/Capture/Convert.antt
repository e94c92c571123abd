-- ===== src/Capture/Convert.antt =====
-- `_pcm_32_to_16` of MicAgent/tdmin_interface.c, on a processor that stores the low byte first.
use sdk_linux.Prelude.{ℕ, ◌+◌, ◌*◌, ◌/◌, ◌%◌, ◌<◌, ◌≡◌, refl, arith, List, [], ◌∷◌, All}
use sdk_linux.Prelude.Bytes.{Bytes}

-- The four bytes of a word, and the word of four bytes.
abbrev pub word : ℕ → ℕ → ℕ → ℕ → ℕ
word a b c d = a + 256 * b + 65536 * c + 16777216 * d

-- The loop: the bytes written to `dst_buf`, where `ori_len` is the length of the bytes and the shift
-- `factor` is `2 ^ fseek_bit`, with `fseek_bit < 32`. Up to three bytes at the end are left.
unfoldable pub pcm_32_to_16 : ℕ → Bytes → Bytes
pcm_32_to_16 factor (a ∷ b ∷ c ∷ d ∷ ori) =
    let temp = word a b c d * factor % 4294967296 in
    temp / 65536 % 256 ∷ temp / 16777216 % 256 ∷ pcm_32_to_16 factor ori
pcm_32_to_16 factor _ = []

abbrev pub bytes_of_words : List ℕ → Bytes
bytes_of_words [] = []
bytes_of_words (w ∷ ws) =
    w % 256 ∷ w / 256 % 256 ∷ w / 65536 % 256 ∷ w / 16777216 % 256 ∷ bytes_of_words ws

abbrev pub bytes_of_shorts : List ℕ → Bytes
bytes_of_shorts [] = []
bytes_of_shorts (h ∷ hs) = h % 256 ∷ h / 256 % 256 ∷ bytes_of_shorts hs

-- The upper halves of the words, each shifted and cut to 32 bits.
abbrev pub upper_halves : ℕ → List ℕ → List ℕ
upper_halves factor [] = []
upper_halves factor (w ∷ ws) = w * factor % 4294967296 / 65536 ∷ upper_halves factor ws

whole_word :
    (w : ℕ)
    → w < 4294967296
    → word (w % 256) (w / 256 % 256) (w / 65536 % 256) (w / 16777216 % 256) ≡ w
whole_word w h = omega arith

halves : (t : ℕ) → t / 16777216 % 256 ≡ t / 65536 / 256 % 256
halves t = omega arith

-- The words of a buffer come to the upper halves of the shifted words.
pub pcm_32_to_16-bytes_of_words :
    (factor : ℕ) (ws : List ℕ)
    → All (λ w. w < 4294967296) ws
    → pcm_32_to_16 factor (bytes_of_words ws) ≡ bytes_of_shorts (upper_halves factor ws)
unfolding pcm_32_to_16
pcm_32_to_16-bytes_of_words factor [] h = refl
pcm_32_to_16-bytes_of_words factor (w ∷ ws) h =
    rw
      (
        whole_word w h.0,
        halves (w * factor % 4294967296),
        pcm_32_to_16-bytes_of_words factor ws h.1,
      )
      refl
