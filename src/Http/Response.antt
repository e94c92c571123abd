-- ===== src/Http/Response.antt =====
-- A response that arrives in time: its code and its body.
use sdk_linux.Prelude.{
  ℕ, zero, suc, ◌+◌, ◌-◌, ◌≤◌, ◌<◌, ◌≡◌, refl, sym, arith, List, [], ◌∷◌, ◌++◌, append-nil, take,
  drop, take_all, length, length-append, length-take, length-drop, ap, ◌∙◌, true, false, Bool, inl,
  inr, some,
}
use sdk_linux.Prelude.Int.{neg, ℤ}
use sdk_linux.Prelude.Bytes.{Bytes}
use sdk_linux.Ipc.Text.{atoi, skip_space}
use sdk_linux.Http.State.{
  shorter, Call, Run, returned, pending, undefined, close_and_return, jnhe_ok, Clock, to_ms, Limits,
  ready, wait_ready, time_left, got, Round,
}
use sdk_linux.Http.Body.{body_loop}
use sdk_linux.Http.Header.{
  found, strstr, crlf, empty_line, reads_past, read_code, find_body, read_packet, body_at,
}
use sdk_linux.Http.Safety.{Bytes-cases}
use sdk_linux.Http.Search.{strstr-append, atoi-append, skipped-append}

-- The round begins before both limits end, and `select` finds the socket ready.
pub record IsTimely (l : Limits) (clock : Clock) (selected : Bool) : Type 0 where
  pub sec : ℕ
  pub nsec : ℕ
  pub read : clock ≡ some (sec, nsec)
  pub in_all : to_ms sec nsec < l.start_dns + l.timeout_all_ms
  pub after_dns : to_ms sec nsec < l.start_connect + l.timeout_after_dns_ms
  pub woken : selected ≡ true

-- Rounds in which the text arrives in pieces, with nothing behind it: the server closes.
pub data Ends (l : Limits) : List Round → Bytes → Type 0 where
  closes :
      {r : Round} {later : List Round}
      → IsTimely l r.clock r.selected
      → r.received ≡ got []
      → Ends l (r ∷ later) []
  piece :
      {r : Round} {rs : List Round} {b : ℕ} {part text : Bytes}
      → IsTimely l r.clock r.selected
      → r.received ≡ got (b ∷ part)
      → Ends l rs text
      → Ends l (r ∷ rs) ((b ∷ part) ++ text)

-- The request returned OK, with this response code, and as much of the text as the caller has room
-- for; `*bodyLen` says how much.
abbrev pub Gives : ℕ → ℤ → Bytes → Bytes → Run → Type 0
Gives cap code sent text (returned ret c) =
    (ret ≡ jnhe_ok)
    × (c.rsp_code ≡ code)
    × (c.sent ≡ sent)
    × (c.body ≡ take cap text)
    × (c.body_len ≡ length (take cap text))
Gives cap code sent text (pending c) = true ≡ false
Gives cap code sent text undefined = true ≡ false

pub Gives-clipped :
    (cap : ℕ) (code : ℤ) (sent s t : Bytes) (x : Run)
    → take cap s ≡ take cap t
    → Gives cap code sent s x
    → Gives cap code sent t x
Gives-clipped cap code sent s t (returned ret c) e (ok, same, all, body, len) =
    (ok, same, all, body ∙ e, len ∙ ap length e)
Gives-clipped cap code sent s t (pending c) e g = g
Gives-clipped cap code sent s t undefined e g = g

pub timely_ready :
    (l : Limits) (clock : Clock) (selected : Bool) (c : Call)
    → IsTimely l clock selected
    → (w : List (ℕ × ℕ)) × (wait_ready l clock selected c ≡ ready (record c { waits = w }))
unfolding wait_ready time_left
timely_ready l clock selected c t = (
  c.waits
      ++ (
        to_ms t.sec t.nsec,
        shorter (time_left l.timeout_all_ms l.start_dns (to_ms t.sec t.nsec))
            (time_left l.timeout_after_dns_ms l.start_connect (to_ms t.sec t.nsec)),
      )
        ∷ [],
  rw (t.read, t.woken) (ground (arith, t.in_all, t.after_dns)),
)

take-take : (n : ℕ) (s t : Bytes) → take n (take n s ++ t) ≡ take n (s ++ t)
take-take zero s t = refl
take-take (suc n) [] t = refl
take-take (suc n) (c ∷ s) t = ap (◌∷◌ c) (take-take n s t)

-- What does not fit is cut off, piece by piece as at once.
take_clip :
    (cap : ℕ) (s part t : Bytes)
    → length s ≤ cap
    → take cap ((s ++ take (cap - length s) part) ++ t) ≡ take cap (s ++ (part ++ t))
take_clip cap [] part t h = ground (arith, take-take cap part t)
take_clip zero (c ∷ s) part t h = absurd (omega arith)
take_clip (suc cap) (c ∷ s) part t h = ground (arith, take_clip cap s part t (omega arith))

pub take-append_left : (n : ℕ) (s t : Bytes) → n ≤ length s → take n (s ++ t) ≡ take n s
take-append_left zero s t h = refl
take-append_left (suc n) [] t h = absurd (omega arith)
take-append_left (suc n) (c ∷ s) t h = ap (◌∷◌ c) (take-append_left n s t (omega arith))

pub drop-append_left : (n : ℕ) (s t : Bytes) → n ≤ length s → drop n (s ++ t) ≡ drop n s ++ t
drop-append_left zero s t h = refl
drop-append_left (suc n) [] t h = absurd (omega arith)
drop-append_left (suc n) (c ∷ s) t h = drop-append_left n s t (omega arith)

pub take_nil : (n : ℕ) → ◌≡◌ {A = Bytes} (take n []) []
take_nil zero = refl
take_nil (suc n) = refl

pub body_loop-Gives :
    (l : Limits) {rs : List Round} {text : Bytes} (c : Call)
    → Ends l rs text
    → length c.body ≤ c.body_len
    → Gives c.body_len c.rsp_code c.sent (c.body ++ text) (body_loop l rs c)
unfolding body_loop close_and_return
body_loop-Gives l c (closes {r = r} {later = later} t e) h =
    let (w, f) = timely_ready l r.clock r.selected c t in
    let none_left : take (c.body_len - length c.body) [] ≡ [] =
      take_nil (c.body_len - length c.body) in
    let kept : take c.body_len (c.body ++ []) ≡ c.body =
      ap (take c.body_len) (append-nil c.body) ∙ take_all c.body_len c.body h in
    rw (body_loop, f, e, none_left) (refl, refl, refl, sym kept, ap length (sym kept))
body_loop-Gives l c (piece {r = r} {rs = rs} {b = b} {part = part} {text = text} t e ends) h =
    let (w, f) = timely_ready l r.clock r.selected c t in
    elim (Bytes-cases (take (c.body_len - length c.body) (b ∷ part))) [
      | inl g ↦
          let room = length-take (c.body_len - length c.body) (b ∷ part) in
          let kept : take c.body_len (c.body ++ ((b ∷ part) ++ text)) ≡ c.body =
            take-append_left c.body_len c.body ((b ∷ part) ++ text)
              (omega (arith, room, ap length g))
            ∙ take_all c.body_len c.body h in
          rw (body_loop, f, e, g) (refl, refl, refl, sym kept, ap length (sym kept))
      | inr (x, taken, g) ↦
          let room = length-take (c.body_len - length c.body) (b ∷ part) in
          let clipped = take_clip c.body_len c.body (b ∷ part) text h in
          let rest =
            body_loop-Gives l (record c { waits = w; body = c.body ++ x ∷ taken }) ends
              (omega (arith, room, ap length g, length-append c.body (x ∷ taken))) in
          rw (body_loop, f, e, g) (Gives-clipped c.body_len _ _ _ _ _ (rw g at clipped) rest)
    ]

-- The first packet of a response: it fits into the array, its line ends in it, the code is read in
-- it, and the empty line stands at `i`.
pub record IsFirst (i : ℕ) (first : Bytes) : Type 0 where
  pub line_at : ℕ
  pub fits : length first ≤ 128
  pub line : strstr first crlf ≡ found line_at
  pub header : strstr first empty_line ≡ found i
  pub number : reads_past (skip_space (drop 9 first)) ≡ false

pub number_at : (i : ℕ) (first : Bytes) → IsFirst i first → 9 ≤ length first
unfolding reads_past skip_space
number_at i first v = elim (Bytes-cases (drop 9 first)) [
  | inl e ↦ ground (arith, e, v.number)
  | inr (b, part, e) ↦ omega (arith, ap length e, length-drop 9 first)
]

pub read_packet-first :
    (i : ℕ) (first rest : Bytes) (tail : ℕ)
    → IsFirst i first
    → read_packet (first ++ rest) tail (neg 1) ≡ body_at i (atoi (drop 9 first))
unfolding read_packet read_code find_body
read_packet-first i first rest tail v =
    let line = strstr-append first rest crlf v.line_at v.line in
    let header = strstr-append first rest empty_line i v.header in
    let code = atoi-append (drop 9 first) rest v.number in
    let number = skipped-append (drop 9 first) rest v.number in
    let at_code = drop-append_left 9 first rest (number_at i first v) in
    ground (arith, at_code, line, header, number, code)
