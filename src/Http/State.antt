-- ===== src/Http/State.antt =====
-- What `jnh_get` keeps and what it meets: the socket, the clock, the answers of `select` and `recv`.
use sdk_linux.Prelude.{
  ℕ, ◌+◌, ◌-◌, ◌*◌, ◌/◌, Bool, List, [], ◌∷◌, ◌++◌, leb, ltb, if◌then◌else◌, Option, none, some,
}
use sdk_linux.Prelude.Int.{ℤ, pos, neg}
use sdk_linux.Prelude.Bytes.{Bytes}

-- `JNHE_OK` and the error codes.
abbrev pub jnhe_ok : ℤ
jnhe_ok = pos 0

abbrev pub jnhe_fd_fail : ℤ
jnhe_fd_fail = neg 100

abbrev pub jnhe_dns : ℤ
jnhe_dns = neg 200

abbrev pub jnhe_clock : ℤ
jnhe_clock = neg 300

abbrev pub jnhe_timeout : ℤ
jnhe_timeout = neg 400

abbrev pub jnhe_connect : ℤ
jnhe_connect = neg 500

abbrev pub jnhe_write : ℤ
jnhe_write = neg 600

abbrev pub jnhe_read : ℤ
jnhe_read = neg 700

abbrev pub jnhe_http : ℤ
jnhe_http = neg 800

-- The sockets opened and closed, the bytes written to the socket, the waits begun (the time, and
-- how long), and what stands in `*rspCode`, `body` and `*bodyLen`.
pub record Call : Type 0 where
  pub opened : ℕ
  pub closed : ℕ
  pub sent : Bytes
  pub waits : List (ℕ × ℕ)
  pub rsp_code : ℤ
  pub body : Bytes
  pub body_len : ℕ

-- How far a call has come: it has returned, it waits for more, or it has done what C leaves undefined.
pub data Run : Type 0 where
  returned : ℤ → Call → Run
  pending : Call → Run
  undefined : Run

-- `ERROR(n)`.
unfoldable pub close_and_return : ℤ → Call → Run
close_and_return ret c = returned ret (record c { closed = c.closed + 1 })

-- What `clock_gettime` gives: a failure, or seconds and nanoseconds.
abbrev pub Clock : Type 0
Clock = Option (ℕ × ℕ)

-- `time.tv_sec * 1000 + time.tv_nsec / 1000000`.
unfoldable pub to_ms : ℕ → ℕ → ℕ
to_ms sec nsec = sec * 1000 + nsec / 1000000

-- The two limits in milliseconds, and the times at which they begin to count.
pub record Limits : Type 0 where
  pub timeout_all_ms : ℕ
  pub timeout_after_dns_ms : ℕ
  pub start_dns : ℕ
  pub start_connect : ℕ

-- `timeout - (now - start)`, which is positive exactly if it is here.
unfoldable pub time_left : ℕ → ℕ → ℕ → ℕ
time_left timeout start now = timeout + start - now

abbrev pub shorter : ℕ → ℕ → ℕ
shorter a b = if ltb a b then a else b

-- A wait comes to an error, or the socket is ready.
pub data Waited : Type 0 where
  stops : ℤ → Call → Waited
  ready : Call → Waited

-- The clock is read, both limits are tested, and `select` waits for what is left of the shorter
-- one; `selected` says whether it returned a positive number.
unfoldable pub wait_ready : Limits → Clock → Bool → Call → Waited
unfolding time_left to_ms
wait_ready l none selected c = stops jnhe_clock c
wait_ready l (some (sec, nsec)) selected c =
    let now = to_ms sec nsec in
    let timeout1 = time_left l.timeout_all_ms l.start_dns now in
    let timeout2 = time_left l.timeout_after_dns_ms l.start_connect now in
    let waited = record c { waits = c.waits ++ (now, shorter timeout1 timeout2) ∷ [] } in
    if leb timeout1 0
    then stops jnhe_timeout c
    else if leb timeout2 0
    then stops jnhe_timeout c
    else if selected
    then ready waited
    else stops jnhe_timeout waited

-- What `recv` has for a caller with room enough: an error, or bytes, none of them at the end.
pub data Received : Type 0 where
  fails : Received
  got : Bytes → Received

-- A round of one of the two loops.
pub record Round : Type 0 where
  pub clock : Clock
  pub selected : Bool
  pub received : Received
