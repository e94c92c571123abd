-- ===== src/Http/Deadline.antt =====
-- When a request ends: a round behind a limit, or one in which the clock cannot be read.
use sdk_linux.Prelude.{
  false, true, ℕ, ◌+◌, ◌-◌, ◌≤◌, ◌≡◌, refl, arith, ◌⊎◌, inl, inr, List, [], ◌∷◌, ◌++◌, take, length,
  Bool, Bool-cases, Option-cases, some, none, ltb, leb, ◌==◌,
}
use sdk_linux.Prelude.Int.{ℤ}
use sdk_linux.Prelude.Bytes.{Bytes}
use sdk_linux.Http.State.{
  jnhe_timeout, close_and_return, Call, Run, returned, pending, undefined, Clock, to_ms, Limits,
  Waited, stops, ready, wait_ready, Round, time_left,
}
use sdk_linux.Http.Body.{body_loop}
use sdk_linux.Http.Header.{head_loop, begin_body, read_packet, put, before_body_line}
use sdk_linux.Http.Safety.{
  Packet-cases, is_outside, is_no_response, is_body, is_kept, Received-cases, Bytes-cases,
}
use sdk_linux.Http.Request.{
  Connect, connected, refused, in_progress, write_parts, fresh, Answers, jnh_get, look_up,
  make_connection, exchange, request_parts,
}
use sdk_linux.Http.Outcome.{limits_of}
use sdk_linux.Http.Safety.{Bytes-cases, Received-cases}

-- The clock cannot be read, or it says that a limit is reached.
abbrev pub IsLate : Limits → Clock → Type 0
IsLate l none = Unit
IsLate l (some (sec, nsec)) =
    (l.start_dns + l.timeout_all_ms ≤ to_ms sec nsec)
    ⊎ (l.start_connect + l.timeout_after_dns_ms ≤ to_ms sec nsec)

-- The first run is the second, and does not wait for more.
abbrev pub EndsAs : Run → Run → Type 0
EndsAs x (returned ret c) = x ≡ returned ret c
EndsAs x (pending c) = true ≡ false
EndsAs x undefined = x ≡ undefined

late-stops :
    (l : Limits) (clock : Clock) (selected : Bool) (c : Call)
    → IsLate l clock
    → (ret : ℤ) × (d : Call) × (wait_ready l clock selected c ≡ stops ret d)
unfolding wait_ready time_left
late-stops l none selected c late = (_, _, refl)
late-stops l (some (sec, nsec)) selected c late =
    elim (Bool-cases (leb (time_left l.timeout_all_ms l.start_dns (to_ms sec nsec)) 0)) [
      | inl e ↦ (jnhe_timeout, c, ground (arith, e))
      | inr e ↦ (jnhe_timeout, c, ground (arith, e, late))
    ]

Waited-cases :
    (w : Waited) → ((ret : ℤ) × (d : Call) × (w ≡ stops ret d)) ⊎ ((d : Call) × (w ≡ ready d))
Waited-cases (stops ret d) = inl (ret, d, refl)
Waited-cases (ready d) = inr (d, refl)

Connect-cases : (x : Connect) → (x ≡ connected) ⊎ ((x ≡ refused) ⊎ (x ≡ in_progress))
Connect-cases connected = inl refl
Connect-cases refused = inr (inl refl)
Connect-cases in_progress = inr (inr refl)

module _ (l : Limits) (r : Round) (late : IsLate l r.clock) (after : List Round) where
  body_loop-EndsAs :
      (before : List Round) (c : Call)
      → EndsAs (body_loop l (before ++ r ∷ after) c) (body_loop l (before ++ r ∷ []) c)
  unfolding body_loop close_and_return
  body_loop-EndsAs [] c =
      let (ret, d, e) = late-stops l r.clock r.selected c late in rw (body_loop, e) refl
  body_loop-EndsAs (q ∷ before) c = elim (Waited-cases (wait_ready l q.clock q.selected c)) [
    | inl (ret, d, e) ↦ rw (body_loop, e) refl
    | inr (d, e) ↦ elim (Received-cases q.received) [
      | inl f ↦ rw (body_loop, e, f) refl
      | inr (bytes, f) ↦ elim (Bytes-cases (take (d.body_len - length d.body) bytes)) [
        | inl g ↦ rw (body_loop, e, f, g) refl
        | inr (b, part, g) ↦
            rw (body_loop, e, f, g)
              (body_loop-EndsAs before (record d { body = d.body ++ b ∷ part }))
      ]
    ]
  ]

  begin_body-EndsAs :
      (before : List Round) (buf : Bytes) (i rd : ℕ) (c : Call)
      → EndsAs
          (begin_body l (before ++ r ∷ after) buf i rd c)
          (begin_body l (before ++ r ∷ []) buf i rd c)
  unfolding begin_body close_and_return
  begin_body-EndsAs before buf i rd c = elim (Bool-cases (ltb rd (i + 3))) [
    | inl a ↦ rw (begin_body, a) refl
    | inr a ↦ elim (Bool-cases (leb c.body_len (rd - (i + 3)))) [
      | inl b ↦ rw (begin_body, a, b) refl
      | inr b ↦ elim (Bool-cases ((rd - (i + 3)) == 0)) [
        | inl e ↦ rw (begin_body, a, b, e) refl
        | inr e ↦ rw (begin_body, a, b, e) (body_loop-EndsAs before _)
      ]
    ]
  ]

  head_loop-EndsAs :
      (before : List Round) (buf : Bytes) (idx : ℕ) (c : Call)
      → EndsAs
          (head_loop l (before ++ r ∷ after) buf idx c)
          (head_loop l (before ++ r ∷ []) buf idx c)
  unfolding head_loop close_and_return
  head_loop-EndsAs [] buf idx c =
      let (ret, d, e) = late-stops l r.clock r.selected c late in rw (head_loop, e) refl
  head_loop-EndsAs (q ∷ before) buf idx c =
      elim (Waited-cases (wait_ready l q.clock q.selected c)) [
        | inl (ret, d, e) ↦ rw (head_loop, e) refl
        | inr (d, e) ↦ elim (Received-cases q.received) [
          | inl f ↦ rw (head_loop, e, f) refl
          | inr (bytes, f) ↦ elim (Bool-cases (length (take (128 - idx) bytes) == 0)) [
            | inl g ↦ rw (head_loop, e, f, g) refl
            | inr g ↦
                let filled = put idx (take (128 - idx) bytes) buf in
                elim (Packet-cases
                  (read_packet filled (idx + length (take (128 - idx) bytes)) d.rsp_code)) [
                    | is_outside h ↦ rw (head_loop, e, f, g, h) refl
                    | is_no_response h ↦ rw (head_loop, e, f, g, h) refl
                    | is_body i n h ↦
                        rw (head_loop, e, f, g, h)
                          (begin_body-EndsAs before filled i _ (record d { rsp_code = n }))
                    | is_kept kept count n h ↦
                        rw (head_loop, e, f, g, h)
                          (head_loop-EndsAs before kept count (record d { rsp_code = n }))
                  ]
          ]
        ]
      ]

  module _ (a : Answers) (parts : List Bytes) (before : List Round) where
    exchange-EndsAs :
        (c : Call)
        → EndsAs
            (exchange l a parts (before ++ r ∷ after) c)
            (exchange l a parts (before ++ r ∷ []) c)
    unfolding exchange close_and_return
    exchange-EndsAs c = elim (Bool-cases (write_parts a.write 0 parts c).1) [
      | inl e ↦ rw (exchange, e) (head_loop-EndsAs before before_body_line 0 _)
      | inr e ↦ rw (exchange, e) refl
    ]

    make_connection-EndsAs :
        (c : Call)
        → EndsAs
            (make_connection l a parts (before ++ r ∷ after) c)
            (make_connection l a parts (before ++ r ∷ []) c)
    unfolding make_connection close_and_return
    make_connection-EndsAs c = elim (Connect-cases a.connect) [
      | inl e ↦ simp (make_connection, e) (exchange-EndsAs c)
      | inr (inl e) ↦ simp (make_connection, e) refl
      | inr (inr e) ↦ elim (Waited-cases (wait_ready l a.clock_select a.selected c)) [
        | inl (ret, d, f) ↦ simp (make_connection, e, f) refl
        | inr (d, f) ↦ elim (Bool-cases a.so_error) [
          | inl g ↦ simp (make_connection, e, f, g) refl
          | inr g ↦ simp (make_connection, e, f, g) (exchange-EndsAs d)
        ]
      ]
    ]

-- A request ends at the latest in the first round in which the clock cannot be read or shows that one
-- of the two limits is reached: it has returned there, or has done something undefined, whatever comes
-- behind that round.
pub jnh_get-EndsAs :
    (host port path : Bytes) (all after_dns : ℕ) (a : Answers) (before after : List Round)
    (r : Round) (code : ℤ) (cap : ℕ)
    → IsLate (limits_of all after_dns a) r.clock
    → EndsAs
        (jnh_get host port path all after_dns a (before ++ r ∷ after) code cap)
        (jnh_get host port path all after_dns a (before ++ r ∷ []) code cap)
unfolding jnh_get look_up close_and_return
jnh_get-EndsAs host port path all after_dns a before after r code cap late =
    elim (Option-cases a.clock_dns) [
      | inl e ↦ simp (jnh_get, e) refl
      | inr ((sec, nsec), e) ↦ elim (Bool-cases a.socket_ok) [
        | inr f ↦ simp (jnh_get, e, f) refl
        | inl f ↦ elim (Option-cases a.clock_connect) [
          | inl g ↦ simp (jnh_get, look_up, e, f, g) refl
          | inr ((sec', nsec'), g) ↦
              elim (Bool-cases (leb (to_ms sec nsec + all) (to_ms sec' nsec'))) [
                | inl h ↦ simp (jnh_get, look_up, e, f, g, h) refl
                | inr h ↦ elim (Bool-cases a.host_found) [
                  | inr k ↦ simp (jnh_get, look_up, e, f, g, h, k) refl
                  | inl k ↦
                      simp (jnh_get, look_up, e, f, g, h, k)
                        (simp (e, g) at
                          (make_connection-EndsAs (limits_of all after_dns a) r late after a
                            (request_parts host port path) before
                            (record (fresh code cap) { opened = 1 })))
                ]
              ]
        ]
      ]
    ]
