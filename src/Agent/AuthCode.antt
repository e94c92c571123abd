-- ===== src/Agent/AuthCode.antt =====
-- `sonic_speak` of MicAgent.cpp, and the thread that repeats the spoken code.
use sdk_linux.Prelude.{
  append_assoc, inr, inl, append-nil, ℕ, zero, suc, ◌+◌, ◌-◌, ◌*◌, ◌≤◌, ◌≡◌, refl, ap, ◌∙◌, Bool,
  true, ◌&&◌, [], ◌∷◌, ◌++◌, arith, leb, if◌then◌else◌, length, length-append, Bool-cases,
}
use sdk_linux.Prelude.Bytes.{Bytes}
use sdk_linux.Agent.State.{Agent, system, sleep, does}

abbrev pub digit_len : ℕ
digit_len = 16000

abbrev pub buffer_len : ℕ
buffer_len = digit_len * 11

-- The bytes `p[from]`, …, `p[from + n - 1]` of a buffer.
unfoldable pub slice : (ℕ → ℕ) → ℕ → ℕ → Bytes
slice buffer from zero = []
slice buffer from (suc n) = buffer from ∷ slice buffer (from + 1) n

-- `digits[i] < '0' || digits[i] > '9'` is the `continue`.
abbrev pub is_digit : ℕ → Bool
is_digit c = leb b'0' c && leb c b'9'

-- The loop over the digits: what is written to `out`, and `count`.
unfoldable pub speak_loop : (ℕ → ℕ) → Bytes → Bytes → ℕ → Bytes × ℕ
speak_loop numbers [] out count = (out, count)
speak_loop numbers (c ∷ digits) out count =
    let said = out ++ slice numbers ((c - b'0') * digit_len) digit_len in
    speak_loop numbers digits (if is_digit c then said else out)
      (if is_digit c then count + digit_len else count)

-- `sonic_speak`: `leading` is what `fread` gave of the first file, at most `BUFFER_LEN` bytes, and
-- `numbers` is the second buffer behind its `fread`.
unfoldable pub sonic_speak : Bytes → (ℕ → ℕ) → Bytes → Bytes × ℕ
unfolding speak_loop
sonic_speak leading numbers digits = speak_loop numbers digits leading (length leading)

-- A round of the detached thread of `playAuthCode`: it ends when the flag is set.
unfoldable pub auth_code_round : Agent → Agent
auth_code_round s =
    let played =
      does (system "/home/pi/ivs/SampleAppCtrl.sh play /tmp/authTip.wav&" ∷ sleep 10 ∷ []) s in
    if s.stop_auth_code_player
    then record played { auth_code_players = s.auth_code_players - 1 }
    else played

-- The code as it is to be heard: the leading sound, then the recording of each digit.
unfoldable pub spoken : (ℕ → ℕ) → Bytes → Bytes
spoken numbers [] = []
spoken numbers (c ∷ digits) =
    (if is_digit c then slice numbers ((c - b'0') * digit_len) digit_len else [])
    ++ spoken numbers digits

length-slice : (buffer : ℕ → ℕ) (from n : ℕ) → length (slice buffer from n) ≡ n
unfolding slice
length-slice buffer from zero = refl
length-slice buffer from (suc n) = ap suc (length-slice buffer (from + 1) n)

-- A digit's recording lies in the buffer.
digit_in_buffer : (c : ℕ) → is_digit c ≡ true → (c - b'0') * digit_len + digit_len ≤ buffer_len
digit_in_buffer c h = ground arith

speak_loop_lem :
    (numbers : ℕ → ℕ) (digits out : Bytes)
    → speak_loop numbers digits out (length out)
      ≡ (out ++ spoken numbers digits, length (out ++ spoken numbers digits))
unfolding speak_loop spoken
speak_loop_lem numbers [] out = ground (arith, append-nil out)
speak_loop_lem numbers (c ∷ digits) out =
    let clip = slice numbers ((c - b'0') * digit_len) digit_len in
    let longer : length (out ++ clip) ≡ length out + digit_len =
      length-append out clip ∙ ap (λ n. length out + n) (length-slice numbers _ digit_len) in
    elim (Bool-cases (is_digit c)) [
      | inl d ↦
          rw (d, ← longer)
            (rw (append_assoc out clip) at (speak_loop_lem numbers digits (out ++ clip)))
      | inr d ↦ rw d (speak_loop_lem numbers digits out)
    ]

-- `sonic_speak` writes the leading sound and then, for each digit of the text in turn, the recording
-- of that digit, and returns the number of bytes written. Other characters are passed over.
pub sonic_speak_lem :
    (leading : Bytes) (numbers : ℕ → ℕ) (digits : Bytes)
    → sonic_speak leading numbers digits
      ≡ (leading ++ spoken numbers digits, length (leading ++ spoken numbers digits))
unfolding sonic_speak
sonic_speak_lem leading numbers digits = speak_loop_lem numbers digits leading
