-- ===== src/Http/Outcome.antt =====
-- Every way in which a whole request can end.
use sdk_linux.Prelude.{
  ℕ, ◌+◌, ◌≡◌, refl, arith, ◌⊎◌, inl, inr, List, [], ◌∷◌, ◌++◌, take, Bool-cases, Option-cases,
  Option, none, some, leb,
}
use sdk_linux.Prelude.Int.{ℤ, neg}
use sdk_linux.Prelude.Bytes.{Bytes}
use sdk_linux.Http.State.{
  jnhe_dns, jnhe_timeout, jnhe_clock, jnhe_write, jnhe_connect, Call, Clock, to_ms, Limits, Round,
}
use sdk_linux.Http.Header.{before_body_line}
use sdk_linux.Http.Request.{
  Answers, Connect, connected, in_progress, refused, write_parts, exchange, make_connection,
  look_up, request_parts, fresh, jnh_get,
}
use sdk_linux.Http.Safety.{Live, Safe, close-Safe, code-Live, head_loop-Safe, wait_cases}

abbrev pub time_of : Clock → ℕ
time_of none = 0
time_of (some (sec, nsec)) = to_ms sec nsec

-- The limits of a request, which count from the times that it read.
abbrev pub limits_of : ℕ → ℕ → Answers → Limits
limits_of all after_dns a = record {
  timeout_all_ms = all;
  timeout_after_dns_ms = after_dns;
  start_dns = time_of a.clock_dns;
  start_connect = time_of a.clock_connect;
}

sent-Live :
    (l : Limits) (cap : ℕ) (c : Call) (s : Bytes)
    → Live l cap c
    → Live l cap (record c { sent = s })
sent-Live l cap c s v = record {
  opened = v.opened;
  closed = v.closed;
  cap_kept = v.cap_kept;
  room = v.room;
  in_limits = v.in_limits;
}

write_parts-Live :
    (l : Limits) (cap : ℕ) (write : ℕ → Option ℕ) (k : ℕ) (parts : List Bytes) (c : Call)
    → Live l cap c
    → Live l cap (write_parts write k parts c).0
unfolding write_parts
write_parts-Live l cap write k [] c v = v
write_parts-Live l cap write k (part ∷ parts) c v = elim (Option-cases (write k)) [
  | inl e ↦ rw (write_parts, e) v
  | inr (n, e) ↦
      rw (write_parts, e)
        (write_parts-Live l cap write (k + 1) parts _ (sent-Live l cap c (c.sent ++ take n part) v))
]

module _ (l : Limits) (cap : ℕ) (a : Answers) (parts : List Bytes) (rs : List Round) where
  exchange-Safe : (c : Call) → Live l cap c → Safe l cap (exchange l a parts rs c)
  unfolding exchange
  exchange-Safe c v =
      let u = write_parts-Live l cap a.write 0 parts c v in
      elim (Bool-cases (write_parts a.write 0 parts c).1) [
        | inl e ↦
            rw (exchange, e)
              (head_loop-Safe l cap rs before_body_line 0 _
                (code-Live l cap (write_parts a.write 0 parts c).0 (neg 1) u))
        | inr e ↦
            rw (exchange, e)
              (close-Safe l cap jnhe_write _ (write_parts a.write 0 parts c).0.body_len u)
      ]

  make_connection-Safe : (c : Call) → Live l cap c → Safe l cap (make_connection l a parts rs c)
  unfolding make_connection
  make_connection-Safe c v = elim (Connect-cases a.connect) [
    | inl e ↦ simp (make_connection, e) (exchange-Safe c v)
    | inr (inl e) ↦ simp (make_connection, e) (close-Safe l cap jnhe_connect c c.body_len v)
    | inr (inr e) ↦ elim (wait_cases l cap a.clock_select a.selected c v) [
      | inl (ret, d, f, u) ↦ simp (make_connection, e, f) (close-Safe l cap ret d d.body_len u)
      | inr (d, f, u, same) ↦ elim (Bool-cases a.so_error) [
        | inl g ↦ simp (make_connection, e, f, g) (close-Safe l cap jnhe_connect d d.body_len u)
        | inr g ↦ simp (make_connection, e, f, g) (exchange-Safe d u)
      ]
    ]
  ]
    where
      Connect-cases : (x : Connect) → (x ≡ connected) ⊎ ((x ≡ refused) ⊎ (x ≡ in_progress))
      Connect-cases connected = inl refl
      Connect-cases refused = inr (inl refl)
      Connect-cases in_progress = inr (inr refl)

look_up-Safe :
    (all after_dns : ℕ) (a : Answers) (parts : List Bytes) (rs : List Round) (cap : ℕ) (c : Call)
    → Live (limits_of all after_dns a) cap c
    → Safe
        (limits_of all after_dns a)
        cap
        (look_up all after_dns a (time_of a.clock_dns) parts rs c)
unfolding look_up
look_up-Safe all after_dns a parts rs cap c v =
    let l = limits_of all after_dns a in
    elim (Option-cases a.clock_connect) [
      | inl e ↦ simp (look_up, e) (close-Safe _ cap jnhe_clock c c.body_len (simp e at v))
      | inr ((sec, nsec), e) ↦
          elim (Bool-cases (leb (time_of a.clock_dns + all) (to_ms sec nsec))) [
            | inl f ↦
                simp (look_up, e, f) (close-Safe _ cap jnhe_timeout c c.body_len (simp e at v))
            | inr f ↦ elim (Bool-cases a.host_found) [
              | inr g ↦
                  simp (look_up, e, f, g) (close-Safe _ cap jnhe_dns c c.body_len (simp e at v))
              | inl g ↦
                  simp (look_up, e, f, g) (make_connection-Safe _ cap a parts rs c (simp e at v))
            ]
          ]
    ]

-- Whatever the clock, the socket, the name service and the server do, as long as the call does nothing
-- undefined: a request that returns has closed the socket that it opened, once, and one that has not
-- returned has it open; the body has never more bytes than the caller has room for; and each wait that
-- was begun was for some time, and for no longer than both limits leave.
pub jnh_get-Safe :
    (host port path : Bytes) (all after_dns : ℕ) (a : Answers) (rs : List Round) (rsp_code : ℤ)
    (cap : ℕ)
    → Safe (limits_of all after_dns a) cap (jnh_get host port path all after_dns a rs rsp_code cap)
unfolding jnh_get
jnh_get-Safe host port path all after_dns a rs rsp_code cap = elim (Option-cases a.clock_dns) [
  | inl e ↦ simp (jnh_get, e) (refl, omega arith, tt)
  | inr ((sec, nsec), e) ↦ elim (Bool-cases a.socket_ok) [
    | inr f ↦ simp (jnh_get, e, f) (refl, omega arith, tt)
    | inl f ↦
        simp (jnh_get, e, f)
          let begun : Live (limits_of all after_dns a) cap
                (record (fresh rsp_code cap) { opened = 1 }) =
              record {
                opened = refl;
                closed = refl;
                cap_kept = refl;
                room = omega arith;
                in_limits = tt;
              } in
            simp e at (look_up-Safe all after_dns a (request_parts host port path) rs cap _ begun)
  ]
]
