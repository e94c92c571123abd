-- ===== src/Http/Safety.antt =====
-- What holds of every request: its one socket, the caller's buffer, and its waits.
use sdk_linux.Prelude.{
  leb, ◌==◌, ltb, ap, ℕ, ◌+◌, ◌-◌, ◌≤◌, ◌<◌, ◌≡◌, refl, arith, ◌⊎◌, inl, inr, List, [], ◌∷◌, ◌++◌,
  take, drop, length, length-append, length-take, All, All-append, Bool-cases, none, some, Bool,
}
use sdk_linux.Prelude.Int.{ℤ}
use sdk_linux.Prelude.Bytes.{Bytes}
use sdk_linux.Http.State.{
  jnhe_http, jnhe_ok, jnhe_read, shorter, Call, Run, returned, pending, undefined, close_and_return,
  Clock, to_ms, Limits, Waited, stops, ready, wait_ready, Received, fails, got, Round, time_left,
}
use sdk_linux.Http.Body.{body_loop}
use sdk_linux.Http.Header.{
  Packet, reads_outside, no_response, body_at, keeps, put, read_packet, begin_body, head_loop,
}

-- A wait is not empty, and ends before both limits do.
abbrev pub InLimits : Limits → ℕ × ℕ → Type 0
InLimits l w =
    (0 < w.1)
    × (w.0 + w.1 ≤ l.start_dns + l.timeout_all_ms)
    × (w.0 + w.1 ≤ l.start_connect + l.timeout_after_dns_ms)

-- A call under way: its socket is open, and the body has room.
pub record Live (l : Limits) (cap : ℕ) (c : Call) : Type 0 where
  pub opened : c.opened ≡ 1
  pub closed : c.closed ≡ 0
  pub cap_kept : c.body_len ≡ cap
  pub room : length c.body ≤ cap
  pub in_limits : All (InLimits l) c.waits

-- A call that has returned has closed the socket that it opened; one that waits has it open. The
-- body has at most as many bytes as the caller has room for, and every wait is in the limits.
abbrev pub Safe : Limits → ℕ → Run → Type 0
Safe l cap (returned ret c) =
    (c.opened ≡ c.closed) × (length c.body ≤ cap) × All (InLimits l) c.waits
Safe l cap (pending c) =
    (c.opened ≡ 1) × (c.closed ≡ 0) × (length c.body ≤ cap) × All (InLimits l) c.waits
Safe l cap undefined = Unit

pub data PacketCase (p : Packet) : Type 0 where
  is_outside : p ≡ reads_outside → PacketCase p
  is_no_response : p ≡ no_response → PacketCase p
  is_body : (i : ℕ) (n : ℤ) → p ≡ body_at i n → PacketCase p
  is_kept : (kept : Bytes) (count : ℕ) (n : ℤ) → p ≡ keeps kept count n → PacketCase p

pub Packet-cases : (p : Packet) → PacketCase p
Packet-cases reads_outside = is_outside refl
Packet-cases no_response = is_no_response refl
Packet-cases (body_at i n) = is_body i n refl
Packet-cases (keeps kept count n) = is_kept kept count n refl

pub Received-cases : (x : Received) → (x ≡ fails) ⊎ ((bytes : Bytes) × (x ≡ got bytes))
Received-cases fails = inl refl
Received-cases (got bytes) = inr (bytes, refl)

pub Bytes-cases : (s : Bytes) → (s ≡ []) ⊎ ((b : ℕ) × (part : Bytes) × (s ≡ b ∷ part))
Bytes-cases [] = inl refl
Bytes-cases (b ∷ part) = inr (b, part, refl)

module _ (l : Limits) (cap : ℕ) where
  pub close-Safe :
      (ret : ℤ) (c : Call) (n : ℕ)
      → Live l cap c
      → Safe l cap (close_and_return ret (record c { body_len = n }))
  unfolding close_and_return
  close-Safe ret c n v = (ground (arith, v), v.room, v.in_limits)

  pub code-Live : (c : Call) (n : ℤ) → Live l cap c → Live l cap (record c { rsp_code = n })
  code-Live c n v = record {
    opened = v.opened;
    closed = v.closed;
    cap_kept = v.cap_kept;
    room = v.room;
    in_limits = v.in_limits;
  }

  body-Live :
      (c : Call) (b : Bytes) → length b ≤ cap → Live l cap c → Live l cap (record c { body = b })
  body-Live c b h v = record {
    opened = v.opened;
    closed = v.closed;
    cap_kept = v.cap_kept;
    room = h;
    in_limits = v.in_limits;
  }

  waits-Live :
      (c : Call) (w : ℕ × ℕ)
      → Live l cap c
      → InLimits l w
      → Live l cap (record c { waits = c.waits ++ w ∷ [] })
  waits-Live c w v i = record {
    opened = v.opened;
    closed = v.closed;
    cap_kept = v.cap_kept;
    room = v.room;
    in_limits = All-append (InLimits l) c.waits (w ∷ []) v.in_limits (i, tt);
  }

  abbrev pub LiveWaited : Call → Waited → Type 0
  LiveWaited c (stops ret d) = Live l cap d
  LiveWaited c (ready d) = Live l cap d × (d ≡ record c { waits = d.waits })

  wait_ready-LiveWaited :
      (clock : Clock) (selected : Bool) (c : Call)
      → Live l cap c
      → LiveWaited c (wait_ready l clock selected c)
  unfolding wait_ready time_left
  wait_ready-LiveWaited none selected c v = v
  wait_ready-LiveWaited (some (sec, nsec)) selected c v = ground (
    arith,
    v,
    waits-Live c
        (
          to_ms sec nsec,
          shorter (time_left l.timeout_all_ms l.start_dns (to_ms sec nsec))
              (time_left l.timeout_after_dns_ms l.start_connect (to_ms sec nsec)),
        )
        v,
  )

  -- Behind a wait the call is under way, with what it had received.
  pub wait_cases :
      (clock : Clock) (selected : Bool) (c : Call)
      → Live l cap c
      → ((ret : ℤ) × (d : Call) × (wait_ready l clock selected c ≡ stops ret d) × Live l cap d)
        ⊎ ((d : Call) × (wait_ready l clock selected c ≡ ready d)
            × Live l cap d
            × (d ≡ record c { waits = d.waits }))
  wait_cases clock selected c v =
      go (wait_ready l clock selected c) (wait_ready-LiveWaited clock selected c v)
    where
      go :
          (w : Waited)
          → LiveWaited c w
          → ((ret : ℤ) × (d : Call) × (w ≡ stops ret d) × Live l cap d)
            ⊎ ((d : Call) × (w ≡ ready d) × Live l cap d × (d ≡ record c { waits = d.waits }))
      go (stops ret d) k = inl (ret, d, refl, k)
      go (ready d) k = inr (d, refl, k.0, k.1)

  pub body_loop-Safe : (rs : List Round) (c : Call) → Live l cap c → Safe l cap (body_loop l rs c)
  unfolding body_loop
  body_loop-Safe [] c v = (v.opened, v.closed, v.room, v.in_limits)
  body_loop-Safe (r ∷ rs) c v = elim (wait_cases r.clock r.selected c v) [
    | inl (ret, d, e, u) ↦ rw (body_loop, e) (close-Safe ret d d.body_len u)
    | inr (d, e, u, same) ↦ elim (Received-cases r.received) [
      | inl f ↦ rw (body_loop, e, f) (close-Safe jnhe_read d d.body_len u)
      | inr (bytes, f) ↦ elim (Bytes-cases (take (d.body_len - length d.body) bytes)) [
        | inl g ↦ rw (body_loop, e, f, g) (close-Safe jnhe_ok d (length d.body) u)
        | inr (b, part, g) ↦
            let taken = length-take (d.body_len - length d.body) bytes in
            let fits : length (d.body ++ b ∷ part) ≤ cap =
              omega
                (arith, length-append d.body (b ∷ part), ap length g, taken, u.cap_kept, u.room) in
            rw (body_loop, e, f, g)
              (body_loop-Safe rs (record d { body = d.body ++ b ∷ part }) (body-Live d _ fits u))
      ]
    ]
  ]

  begin_body-Safe :
      (rs : List Round) (buf : Bytes) (i rd : ℕ) (c : Call)
      → Live l cap c
      → Safe l cap (begin_body l rs buf i rd c)
  unfolding begin_body
  begin_body-Safe rs buf i rd c v = elim (Bool-cases (ltb rd (i + 3))) [
    | inl a ↦ rw (begin_body, a) tt
    | inr a ↦ elim (Bool-cases (leb c.body_len (rd - (i + 3)))) [
      | inl b ↦
          rw (begin_body, a, b)
            (close-Safe jnhe_ok _ c.body_len (
              body-Live c (take c.body_len (drop (i + 3) buf))
                (omega (arith, length-take c.body_len (drop (i + 3) buf), v.cap_kept)) v))
      | inr b ↦ elim (Bool-cases ((rd - (i + 3)) == 0)) [
        | inl e ↦ rw (begin_body, a, b, e) (close-Safe jnhe_ok _ 0 (body-Live c [] (omega arith) v))
        | inr e ↦
            rw (begin_body, a, b, e)
              (body_loop-Safe rs _ (
                body-Live c (take (rd - (i + 3)) (drop (i + 3) buf))
                  (ground (arith, b, v, length-take (rd - (i + 3)) (drop (i + 3) buf))) v))
      ]
    ]
  ]

  pub head_loop-Safe :
      (rs : List Round) (buf : Bytes) (idx : ℕ) (c : Call)
      → Live l cap c
      → Safe l cap (head_loop l rs buf idx c)
  unfolding head_loop
  head_loop-Safe [] buf idx c v = (v.opened, v.closed, v.room, v.in_limits)
  head_loop-Safe (r ∷ rs) buf idx c v = elim (wait_cases r.clock r.selected c v) [
    | inl (ret, d, e, u) ↦ rw (head_loop, e) (close-Safe ret d d.body_len u)
    | inr (d, e, u, same) ↦ elim (Received-cases r.received) [
      | inl f ↦ rw (head_loop, e, f) (close-Safe jnhe_read d d.body_len u)
      | inr (bytes, f) ↦ elim (Bool-cases (length (take (128 - idx) bytes) == 0)) [
        | inl g ↦ rw (head_loop, e, f, g) (close-Safe jnhe_read d d.body_len u)
        | inr g ↦
            let filled = put idx (take (128 - idx) bytes) buf in
            elim (Packet-cases
              (read_packet filled (idx + length (take (128 - idx) bytes)) d.rsp_code)) [
                | is_outside h ↦ rw (head_loop, e, f, g, h) tt
                | is_no_response h ↦
                    rw (head_loop, e, f, g, h) (close-Safe jnhe_http d d.body_len u)
                | is_body i n h ↦
                    rw (head_loop, e, f, g, h)
                      (begin_body-Safe rs filled i _ (record d { rsp_code = n }) (code-Live d n u))
                | is_kept kept count n h ↦
                    rw (head_loop, e, f, g, h)
                      (head_loop-Safe rs kept count (record d { rsp_code = n }) (code-Live d n u))
              ]
      ]
    ]
  ]
