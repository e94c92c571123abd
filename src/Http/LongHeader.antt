-- ===== src/Http/LongHeader.antt =====
-- A response whose header does not end in the first 128 bytes that are received.
use sdk_linux.Prelude.{
  ℕ, ◌+◌, ◌≤◌, ◌≡◌, ◌≢◌, refl, arith, List, [], ◌∷◌, append-nil, take, length, length-take, ◌∙◌,
  false, ◌==◌,
}
use sdk_linux.Prelude.Int.{ℤ, neg}
use sdk_linux.Prelude.Bytes.{Bytes, Lacks}
use sdk_linux.Http.State.{Call, undefined, Limits, got, Round}
use sdk_linux.Http.Header.{
  found, absent, strstr, crlf, empty_line, read_code, find_body, read_packet, reads_outside,
  head_loop, put, before_body_line,
}
use sdk_linux.Http.Request.{Answers, request_parts, fresh, jnh_get}
use sdk_linux.Http.Response.{IsTimely, timely_ready}
use sdk_linux.Http.Search.{is_found, is_absent, is_outside, Search-cases}
use sdk_linux.Http.Outcome.{limits_of}
use sdk_linux.Http.Exchange.{IsAnswered, request_text, jnh_get-IsAnswered}

-- In an array with no NUL, a search that finds nothing goes past the end.
strstr-Lacks : (s pat : Bytes) → Lacks 0 s → strstr s pat ≢ absent
unfolding strstr
strstr-Lacks [] pat h = λ e. cc
strstr-Lacks (c ∷ s) pat h = λ e. ground (arith, e, h, strstr-Lacks s pat h.1)

read_packet-outside :
    (buf : Bytes) (tail : ℕ)
    → Lacks 0 buf
    → ((i : ℕ) → strstr buf empty_line ≢ found i)
    → read_packet buf tail (neg 1) ≡ reads_outside
unfolding read_packet read_code find_body
read_packet-outside buf tail h none = elim (Search-cases (strstr buf empty_line)) [
  | is_found i e ↦ absurd (none i e)
  | is_absent e ↦ absurd (strstr-Lacks buf empty_line h e)
  | is_outside e ↦ ground (arith, e, strstr-Lacks buf crlf h)
]

head_loop-long :
    (l : Limits) (r : Round) (rs : List Round) (c : Call) (bytes : Bytes)
    → IsTimely l r.clock r.selected
    → r.received ≡ got bytes
    → 128 ≤ length bytes
    → Lacks 0 (take 128 bytes)
    → ((i : ℕ) → strstr (take 128 bytes) empty_line ≢ found i)
    → head_loop l (r ∷ rs) before_body_line 0 (record c { rsp_code = neg 1 }) ≡ undefined
unfolding head_loop
head_loop-long l r rs c bytes t e long h none =
    let (w, f) = timely_ready l r.clock r.selected (record c { rsp_code = neg 1 }) t in
    let size : length (take 128 bytes) ≡ 128 = omega (arith, length-take 128 bytes) in
    let whole : put 0 (take 128 bytes) before_body_line ≡ take 128 bytes =
      rw size (unfold before_body_line in append-nil (take 128 bytes)) in
    let some_bytes : (length (take 128 bytes) == 0) ≡ false = rw size refl in
    let past = read_packet-outside (take 128 bytes) (0 + 128) h none in
    rw (head_loop, f, e, some_bytes, whole, size, past) refl

-- The request goes out whole, and 128 bytes or more arrive at once, with no NUL and no empty line in
-- the first 128: then `strstr` reads past the end of the array, which is undefined.
pub jnh_get-long_header :
    (host port path : Bytes) (all after_dns : ℕ) (a : Answers) (r : Round) (rs : List Round)
    (code : ℤ) (cap : ℕ) (bytes : Bytes)
    → IsAnswered (limits_of all after_dns a) (request_parts host port path) a
    → IsTimely (limits_of all after_dns a) r.clock r.selected
    → r.received ≡ got bytes
    → 128 ≤ length bytes
    → Lacks 0 (take 128 bytes)
    → ((i : ℕ) → strstr (take 128 bytes) empty_line ≢ found i)
    → jnh_get host port path all after_dns a (r ∷ rs) code cap ≡ undefined
jnh_get-long_header host port path all after_dns a r rs code cap bytes v t e long h none =
    let (w, g) = jnh_get-IsAnswered host port path all after_dns a (r ∷ rs) code cap v in
    g
    ∙ head_loop-long (limits_of all after_dns a) r rs
        (record (fresh code cap) { opened = 1; waits = w; sent = request_text host port path })
        bytes t e long h none
