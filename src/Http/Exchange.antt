-- ===== src/Http/Exchange.antt =====
-- Whole requests that a server answers in time.
use sdk_linux.Prelude.{
  ℕ, ◌+◌, ◌<◌, ◌≡◌, ◌⊎◌, inl, inr, refl, arith, List, [], ◌∷◌, ◌++◌, append-nil, append_assoc, drop,
  take_all, length, true, false, some, leb, Option,
}
use sdk_linux.Prelude.Int.{ℤ, neg}
use sdk_linux.Prelude.Bytes.{Bytes, codes}
use sdk_linux.Ipc.Text.{atoi}
use sdk_linux.Http.State.{Call, to_ms, Limits, got, Round}
use sdk_linux.Http.Header.{before_body_line, head_loop}
use sdk_linux.Http.Request.{
  Answers, connected, in_progress, write_parts, exchange, make_connection, look_up, request_parts,
  fresh, jnh_get,
}
use sdk_linux.Http.Response.{IsTimely, Ends, Gives, timely_ready, IsFirst}
use sdk_linux.Http.Outcome.{limits_of}
use sdk_linux.Http.FirstPacket.{begin_body-Gives, begin_body-alone, head_loop-first}

-- Each write takes all of its part.
abbrev pub WritesAll : (ℕ → Option ℕ) → ℕ → List Bytes → Type 0
WritesAll write k [] = Unit {0}
WritesAll write k (part ∷ parts) = (write k ≡ some (length part)) × WritesAll write (k + 1) parts

abbrev joined : List Bytes → Bytes
joined [] = []
joined (part ∷ parts) = part ++ joined parts

write_parts-WritesAll :
    (write : ℕ → Option ℕ) (k : ℕ) (parts : List Bytes) (c : Call)
    → WritesAll write k parts
    → write_parts write k parts c ≡ (record c { sent = c.sent ++ joined parts }, true)
unfolding write_parts
write_parts-WritesAll write k [] c h = rw (append-nil c.sent) refl
write_parts-WritesAll write k (part ∷ parts) c h =
    let all = take_all (length part) part (omega arith) in
    let rest = write_parts-WritesAll write (k + 1) parts (record c { sent = c.sent ++ part }) h.1 in
    rw (write_parts, h.0, all, rest, append_assoc c.sent part (joined parts)) refl

-- The text of a request.
abbrev pub request_text : Bytes → Bytes → Bytes → Bytes
request_text host port path =
    codes "GET "
    ++ (path
        ++ (codes " HTTP/1.1\r\nHost: "
            ++ (host ++ (b':' ∷ (port ++ codes "\r\nConnection: close\r\n\r\n")))))

-- The host is found and the connection made before the limits end, and the request is taken whole.
pub record IsAnswered (l : Limits) (parts : List Bytes) (a : Answers) : Type 0 where
  pub sec : ℕ
  pub nsec : ℕ
  pub sec_connect : ℕ
  pub nsec_connect : ℕ
  pub clock_dns : a.clock_dns ≡ some (sec, nsec)
  pub clock_connect : a.clock_connect ≡ some (sec_connect, nsec_connect)
  pub socket_ok : a.socket_ok ≡ true
  pub in_time : to_ms sec_connect nsec_connect < to_ms sec nsec + l.timeout_all_ms
  pub host_found : a.host_found ≡ true
  pub connects :
      (a.connect ≡ connected)
      ⊎ ((a.connect ≡ in_progress) × IsTimely l a.clock_select a.selected × (a.so_error ≡ false))
  pub writes : WritesAll a.write 0 parts

make_connection-IsAnswered :
    (l : Limits) (parts : List Bytes) (a : Answers) (rs : List Round) (c : Call)
    → IsAnswered l parts a
    → (w : List (ℕ × ℕ)) × (make_connection l a parts rs c
        ≡ head_loop l rs before_body_line 0
            (record c { waits = w; sent = c.sent ++ joined parts; rsp_code = neg 1 }))
unfolding make_connection exchange
make_connection-IsAnswered l parts a rs c v = elim v.connects [
  | inl e ↦
      let written = write_parts-WritesAll a.write 0 parts c v.writes in
      (c.waits, simp (make_connection, e, exchange, written) refl)
  | inr (e, timely, ok) ↦
      let (w, f) = timely_ready l a.clock_select a.selected c timely in
      let written = write_parts-WritesAll a.write 0 parts (record c { waits = w }) v.writes in
      (w, simp (make_connection, e, f, ok, exchange, written) refl)
]

request_parts-text :
    (host port path : Bytes) → joined (request_parts host port path) ≡ request_text host port path
unfolding request_parts
request_parts-text host port path = refl

pub jnh_get-IsAnswered :
    (host port path : Bytes) (all after_dns : ℕ) (a : Answers) (rs : List Round) (code : ℤ)
    (cap : ℕ)
    → IsAnswered (limits_of all after_dns a) (request_parts host port path) a
    → (w : List (ℕ × ℕ)) × (jnh_get host port path all after_dns a rs code cap
        ≡ head_loop (limits_of all after_dns a) rs before_body_line 0 (record (fresh code cap) {
          opened = 1;
          waits = w;
          sent = request_text host port path;
          rsp_code = neg 1;
        }))
unfolding jnh_get look_up
jnh_get-IsAnswered host port path all after_dns a rs code cap v =
    let (w, e) =
      make_connection-IsAnswered (limits_of all after_dns a) (request_parts host port path) a rs
        (record (fresh code cap) { opened = 1 }) v in
    let text = request_parts-text host port path in
    let soon : leb (to_ms v.sec v.nsec + all) (to_ms v.sec_connect v.nsec_connect) ≡ false =
      ground (arith, v.in_time) in
    (
      w,
      simp (jnh_get, v.clock_dns, v.socket_ok, look_up, v.clock_connect, soon, v.host_found)
          (simp (v.clock_dns, v.clock_connect, text) at e),
    )

-- The request goes out whole and in time, and the first packet of the response, of at most 128 bytes,
-- has all of its header, with a number that ends before the packet does, and some of its body. Then
-- the request returns OK with the number behind the first nine characters as the code, and with the
-- whole body as far as the caller has room for it, in whatever pieces the rest arrives until the server
-- closes.
pub jnh_get-Gives :
    (host port path : Bytes) (all after_dns : ℕ) (a : Answers) (r : Round) (rs : List Round)
    (code : ℤ) (cap i : ℕ) (first text : Bytes)
    → IsAnswered (limits_of all after_dns a) (request_parts host port path) a
    → IsTimely (limits_of all after_dns a) r.clock r.selected
    → r.received ≡ got first
    → IsFirst i first
    → i + 3 < length first
    → Ends (limits_of all after_dns a) rs text
    → Gives cap
        (atoi (drop 9 first))
        (request_text host port path)
        (drop (i + 3) first ++ text)
        (jnh_get host port path all after_dns a (r ∷ rs) code cap)
jnh_get-Gives host port path all after_dns a r rs code cap i first text v t e f begun ends =
    let l = limits_of all after_dns a in
    let (w, g) = jnh_get-IsAnswered host port path all after_dns a (r ∷ rs) code cap v in
    let (w2, h) =
      head_loop-first l i first f r rs
        (record (fresh code cap) { opened = 1; waits = w; sent = request_text host port path }) t
        e in
    rw (g, h) (begin_body-Gives l i first f _ _ begun ends)

-- The request goes out whole and in time, and the first packet of the response, of at most 128 bytes,
-- ends with the header, in which a number ends before the packet does. Then the request returns OK
-- with that number as the code and with no body, and does not read the body that follows.
pub jnh_get-alone :
    (host port path : Bytes) (all after_dns : ℕ) (a : Answers) (r : Round) (rs : List Round)
    (code : ℤ) (cap i : ℕ) (first : Bytes)
    → IsAnswered (limits_of all after_dns a) (request_parts host port path) a
    → IsTimely (limits_of all after_dns a) r.clock r.selected
    → r.received ≡ got first
    → IsFirst i first
    → i + 3 ≡ length first
    → Gives cap
        (atoi (drop 9 first))
        (request_text host port path)
        []
        (jnh_get host port path all after_dns a (r ∷ rs) code cap)
jnh_get-alone host port path all after_dns a r rs code cap i first v t e f last =
    let l = limits_of all after_dns a in
    let (w, g) = jnh_get-IsAnswered host port path all after_dns a (r ∷ rs) code cap v in
    let (w2, h) =
      head_loop-first l i first f r rs
        (record (fresh code cap) { opened = 1; waits = w; sent = request_text host port path }) t
        e in
    rw (g, h) (begin_body-alone l i first f rs _ _ last)
