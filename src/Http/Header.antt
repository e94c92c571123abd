-- ===== src/Http/Header.antt =====
-- The first loop of `jnh_get`: 128 bytes of `beforeBodyLine`, the response code, and the empty line.
use sdk_linux.Prelude.{
  some, none, Option, suc, ℕ, ◌+◌, ◌-◌, List, [], ◌∷◌, ◌++◌, take, drop, length, Bool, true, false,
  ◌&&◌, ◌||◌, ◌==◌, leb, ltb, replicate, if◌then◌else◌,
}
use sdk_linux.Prelude.Int.{ℤ, pos, negsuc}
use sdk_linux.Prelude.Bytes.{Bytes}
use sdk_linux.Ipc.Text.{atoi, skip_space}
use sdk_linux.Http.State.{
  Call, Run, pending, undefined, close_and_return, jnhe_read, jnhe_ok, jnhe_http, Limits, stops,
  ready, wait_ready, fails, got, Round,
}
use sdk_linux.Http.Body.{body_loop}

-- `char beforeBodyLine[128] = {0}`.
unfoldable pub before_body_line : Bytes
before_body_line = replicate 128 0

-- What `strstr` gives on an array: the index of the first occurrence, NULL, or a read past the end,
-- when neither it nor a NUL is there.
pub data Search : Type 0 where
  found : ℕ → Search
  absent outside : Search

abbrev pub next : Search → Search
next (found i) = found (suc i)
next absent = absent
next outside = outside

unfoldable pub starts : Bytes → Bytes → Bool
starts [] s = true
starts (p ∷ pat) [] = false
starts (p ∷ pat) (c ∷ s) = (p == c) && starts pat s

unfoldable pub strstr : Bytes → Bytes → Search
unfolding starts
strstr [] pat = outside
strstr (c ∷ s) pat =
    let rest = strstr s pat in
    if starts pat (c ∷ s) then found 0 else if c == 0 then absent else next rest

-- `atoi` reads digits up to the end of an array.
unfoldable pub all_digits : Bytes → Bool
all_digits [] = true
all_digits (c ∷ s) = (leb b'0' c && leb c b'9') && all_digits s

unfoldable pub reads_past : Bytes → Bool
unfolding all_digits
reads_past [] = true
reads_past (c ∷ s) = if (c == b'-') || (c == b'+') then all_digits s else all_digits (c ∷ s)

-- `recv` into the array at `idx`.
abbrev pub put : ℕ → Bytes → Bytes → Bytes
put idx part buf = take idx buf ++ part ++ drop (idx + length part) buf

abbrev pub is_break : ℕ → Bool
is_break c = (c == b'\r') || (c == b'\n')

-- The bytes CR and LF at the end of a text.
unfoldable pub breaks_back : Bytes → ℕ
breaks_back [] = 0
breaks_back (c ∷ s) =
    let n = breaks_back s in if n == length s then (if is_break c then suc n else n) else n

-- The bytes CR and LF before and at the position `tail` go to the front, and `idx` counts them.
-- `buf` has four bytes, and `tail` is not to leave the array: `none`.
unfoldable pub keep_tail : Bytes → ℕ → Option (Bytes × ℕ)
unfolding breaks_back
keep_tail buf tail =
    let upto = take (tail + 1) buf in
    let n = breaks_back upto in
    if leb (length buf) tail
    then none
    else if ltb 4 n
    then none
    else if n == tail + 1
    then none
    else some (drop (tail + 1 - n) upto ++ drop n buf, n)

-- The response code, if it is not known yet; the code `none` is a read outside.
pub data Coded : Type 0 where
  outside_line no_line : Coded
  code : ℤ → Coded

abbrev pub is_unset : ℤ → Bool
is_unset (pos n) = false
is_unset (negsuc n) = n == 0

unfoldable pub crlf : Bytes
crlf = b'\r' ∷ b'\n' ∷ []

unfoldable pub empty_line : Bytes
empty_line = b'\n' ∷ b'\r' ∷ b'\n' ∷ []

-- `&beforeBodyLine[sizeof("HTTP/1.1")]`.
unfoldable pub read_code : Bytes → ℤ → Coded
unfolding strstr crlf reads_past
read_code buf before =
    let text = drop 9 buf in
    if is_unset before
    then elim (strstr buf crlf) [
      | outside ↦ outside_line
      | absent ↦ no_line
      | found i ↦ if reads_past (skip_space text) then outside_line else code (atoi text)
    ]
    else code before

-- The body's first bytes: `i` is where the empty line was found, `rd` what `recv` returned. A
-- negative `len` makes `memcpy` run over everything.
unfoldable pub begin_body : Limits → List Round → Bytes → ℕ → ℕ → Call → Run
begin_body l rs buf i rd c =
    let len = rd - (i + 3) in
    let all = record c { body = take c.body_len (drop (i + 3) buf) } in
    let some_bytes = record c { body = take len (drop (i + 3) buf) } in
    if ltb rd (i + 3)
    then undefined
    else if leb c.body_len len
    then close_and_return jnhe_ok all
    else if len == 0
    then close_and_return jnhe_ok (record c { body = []; body_len = 0 })
    else body_loop l rs some_bytes

-- What a packet comes to once it is in the array: a read outside, no line in it, the body's place and
-- the response code, or what is kept for the next packet.
pub data Packet : Type 0 where
  reads_outside no_response : Packet
  body_at : ℕ → ℤ → Packet
  keeps : Bytes → ℕ → ℤ → Packet

unfoldable pub find_body : Bytes → ℕ → ℤ → Packet
unfolding strstr empty_line keep_tail
find_body buf tail rsp_code = elim (strstr buf empty_line) [
  | outside ↦ reads_outside
  | found i ↦ body_at i rsp_code
  | absent ↦ elim (keep_tail buf tail) [
    | none ↦ reads_outside
    | some (kept, count) ↦ keeps kept count rsp_code
  ]
]

unfoldable pub read_packet : Bytes → ℕ → ℤ → Packet
unfolding read_code find_body
read_packet buf tail before = elim (read_code buf before) [
  | outside_line ↦ reads_outside
  | no_line ↦ no_response
  | code n ↦ find_body buf tail n
]

-- The loop on the array `buf`, with `idx` as it stands before `recv`.
unfoldable pub head_loop : Limits → List Round → Bytes → ℕ → Call → Run
head_loop l [] buf idx c = pending c
head_loop l (r ∷ rs) buf idx c = elim (wait_ready l r.clock r.selected c) [
  | stops ret d ↦ close_and_return ret d
  | ready d ↦ elim r.received [
    | fails ↦ close_and_return jnhe_read d
    | got bytes ↦
        let part = take (128 - idx) bytes in
        let filled = put idx part buf in
        if length part == 0
        then close_and_return jnhe_read d
        else elim (read_packet filled (idx + length part) d.rsp_code) [
          | reads_outside ↦ undefined
          | no_response ↦ close_and_return jnhe_http d
          | body_at i n ↦ begin_body l rs filled i (length part) (record d { rsp_code = n })
          | keeps kept count n ↦ head_loop l rs kept count (record d { rsp_code = n })
        ]
  ]
]
