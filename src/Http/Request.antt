-- ===== src/Http/Request.antt =====
-- `jnh_get` up to the response: the socket, the name, the connection and the text of the request.
use sdk_linux.Prelude.{
  ℕ, ◌+◌, List, [], ◌∷◌, ◌++◌, take, Bool, true, false, not, leb, if◌then◌else◌, Option, none, some,
}
use sdk_linux.Prelude.Int.{ℤ, neg}
use sdk_linux.Prelude.Bytes.{Bytes, codes}
use sdk_linux.Http.State.{
  Call, Run, returned, close_and_return, jnhe_clock, jnhe_fd_fail, jnhe_timeout, jnhe_dns,
  jnhe_connect, jnhe_write, Clock, to_ms, Limits, stops, ready, wait_ready, Round,
}
use sdk_linux.Http.Header.{before_body_line, head_loop}

-- What `connect` comes to: it is made, it goes on (EINPROGRESS), or it fails.
pub data Connect : Type 0 where
  connected in_progress refused : Connect

-- The answers that a call meets before the response: the clock, `socket`, the clock behind
-- `gethostbyname` and whether that found the host, `connect`, the clock and `select` for a connection
-- that goes on and whether SO_ERROR is set then, and what each `write` takes (none is an error).
pub record Answers : Type 0 where
  pub clock_dns : Clock
  pub socket_ok : Bool
  pub clock_connect : Clock
  pub host_found : Bool
  pub connect : Connect
  pub clock_select : Clock
  pub selected : Bool
  pub so_error : Bool
  pub write : ℕ → Option ℕ

-- `sprintf(portnoBuf, ":%d", portno)` is an argument, as its text.
unfoldable pub request_parts : Bytes → Bytes → Bytes → List Bytes
request_parts host port path =
    codes "GET "
    ∷ path
    ∷ codes " HTTP/1.1\r\n"
    ∷ codes "Host: "
    ∷ host
    ∷ (b':' ∷ port)
    ∷ codes "\r\nConnection: close"
    ∷ codes "\r\n\r\n"
    ∷ []

-- The writes from number `k` on. A short write is not noticed.
unfoldable pub write_parts : (ℕ → Option ℕ) → ℕ → List Bytes → Call → Call × Bool
write_parts write k [] c = (c, true)
write_parts write k (part ∷ parts) c = elim (write k) [
  | none ↦ (c, false)
  | some n ↦ write_parts write (k + 1) parts (record c { sent = c.sent ++ take n part })
]

-- The request is written, and the response read into a fresh `beforeBodyLine`.
unfoldable pub exchange : Limits → Answers → List Bytes → List Round → Call → Run
exchange l a parts rs c =
    let (d, ok) = write_parts a.write 0 parts c in
    if ok
    then head_loop l rs before_body_line 0 (record d { rsp_code = neg 1 })
    else close_and_return jnhe_write d

-- `connect`, and the wait for it.
unfoldable pub make_connection : Limits → Answers → List Bytes → List Round → Call → Run
make_connection l a parts rs c = elim a.connect [
  | refused ↦ close_and_return jnhe_connect c
  | connected ↦ exchange l a parts rs c
  | in_progress ↦ elim (wait_ready l a.clock_select a.selected c) [
    | stops ret d ↦ close_and_return ret d
    | ready d ↦ if a.so_error then close_and_return jnhe_connect d else exchange l a parts rs d
  ]
]

-- The call with the socket open; `start` is the time before the name was looked up.
unfoldable pub look_up : ℕ → ℕ → Answers → ℕ → List Bytes → List Round → Call → Run
look_up all after_dns a start parts rs c = elim a.clock_connect [
  | none ↦ close_and_return jnhe_clock c
  | some (sec, nsec) ↦
      let now = to_ms sec nsec in
      let l : Limits = record {
        timeout_all_ms = all;
        timeout_after_dns_ms = after_dns;
        start_dns = start;
        start_connect = now;
      } in
      if leb (start + all) now
      then close_and_return jnhe_timeout c
      else if not a.host_found
      then close_and_return jnhe_dns c
      else make_connection l a parts rs c
]

-- The caller's variables: `*rspCode` as it was, no byte in `body`, and the size of `body`.
abbrev pub fresh : ℤ → ℕ → Call
fresh rsp_code body_len = record {
  opened = 0;
  closed = 0;
  sent = [];
  waits = [];
  rsp_code = rsp_code;
  body = [];
  body_len = body_len;
}

-- `jnh_get`; the two limits are not negative.
unfoldable pub jnh_get : Bytes → Bytes → Bytes → ℕ → ℕ → Answers → List Round → ℤ → ℕ → Run
jnh_get host port path all after_dns a rs rsp_code body_len = elim a.clock_dns [
  | none ↦ returned jnhe_clock (fresh rsp_code body_len)
  | some (sec, nsec) ↦
      if not a.socket_ok
      then returned jnhe_fd_fail (fresh rsp_code body_len)
      else look_up all after_dns a (to_ms sec nsec) (request_parts host port path) rs
          (record (fresh rsp_code body_len) { opened = 1 })
]
