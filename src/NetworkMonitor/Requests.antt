-- ===== src/NetworkMonitor/Requests.antt =====
-- The two requests of NetworkMonitor.cpp, made by `jnh_get`.
use mathlib.Core.Option
use sdk_linux.Prelude.{
  ℕ, ◌+◌, ◌<◌, ◌≡◌, ap, arith, Bool, false, ◌==◌, if◌then◌else◌, Option, none, some, List, ◌∷◌,
  ◌++◌, take, drop, length,
}
use sdk_linux.Prelude.Int.{ℤ}
use sdk_linux.Prelude.Bytes.{Bytes, codes, c_str}
use sdk_linux.Ipc.Text.{atoi}
use sdk_linux.Http.State.{Run, returned, pending, undefined, Round, got, jnhe_ok}
use sdk_linux.Http.Request.{Answers, jnh_get, request_parts}
use sdk_linux.Http.Response.{IsFirst, IsTimely, Ends, Gives}
use sdk_linux.Http.Outcome.{limits_of}
use sdk_linux.Http.Exchange.{IsAnswered, jnh_get-Gives, request_text}
use sdk_linux.NetworkMonitor.{HttpResult, is_number, fetch_and_set_time, test_connection}

abbrev pub host : Bytes
host = codes "easybox.iflyos.cn"

abbrev pub port : Bytes
port = codes "80"

abbrev pub time_path : Bytes
time_path = codes "/time_now"

abbrev pub stub_path : Bytes
stub_path = codes "/wifistub"

-- `ret`, `code` and `body`, which is full of NULs before the call; `none` if `jnh_get` has not
-- returned, or did what C leaves undefined.
unfoldable pub result_of : Run → Option HttpResult
result_of (returned ret c) = some (record { ret = ret; code = c.rsp_code; body = c_str c.body })
result_of (pending c) = none
result_of undefined = none

-- `fetchAndSetTime` with its request; `code` is what stands in the variable before.
unfoldable pub fetch_time : (Bytes → ℕ) → ℕ → Answers → List Round → ℤ → Option Bool
fetch_time system timeout a rs code =
    Option.map (fetch_and_set_time system)
      (result_of (jnh_get host port time_path timeout timeout a rs code 127))

-- `testConnection` with its request.
unfoldable pub check_connection : ℕ → Answers → List Round → ℤ → Option Bool
check_connection timeout a rs code =
    Option.map test_connection (result_of (jnh_get host port stub_path timeout timeout a rs code 0))

result-Gives :
    (cap : ℕ) (code : ℤ) (sent text : Bytes) (x : Run)
    → Gives cap code sent text x
    → result_of x ≡ some (record { ret = jnhe_ok; code = code; body = c_str (take cap text) })
unfolding result_of
result-Gives cap code sent text (returned ret c) g = ground (arith, g)
result-Gives cap code sent text (pending c) g = cc
result-Gives cap code sent text undefined g = cc

-- The request goes out whole and the response arrives in time, its header and some of its body in
-- the first packet, which has at most 128 bytes. Then `testConnection` succeeds exactly if the code is 200, and
-- `fetchAndSetTime` succeeds exactly if the code is 200 and the command `date` with the first 127
-- bytes of the body behind it, up to a NUL, exits with 0.
pub requests-answered :
    (system : Bytes → ℕ) (timeout : ℕ) (a : Answers) (r : Round) (rs : List Round) (code : ℤ)
    (i : ℕ) (first text : Bytes)
    → IsAnswered (limits_of timeout timeout a) (request_parts host port time_path) a
    → IsAnswered (limits_of timeout timeout a) (request_parts host port stub_path) a
    → IsTimely (limits_of timeout timeout a) r.clock r.selected
    → r.received ≡ got first
    → IsFirst i first
    → i + 3 < length first
    → Ends (limits_of timeout timeout a) rs text
    → let answer = atoi (drop 9 first) in
      let body = drop (i + 3) first ++ text in
      (check_connection timeout a (r ∷ rs) code ≡ some (is_number 200 answer))
      × (fetch_time system timeout a (r ∷ rs) code
          ≡ some (
              if is_number 200 answer
              then system (codes "date +%s -s @" ++ c_str (take 127 body)) == 0
              else false))
unfolding check_connection fetch_time fetch_and_set_time test_connection
requests-answered system timeout a r rs code i first text v w t e f begun ends = (
  ap (Option.map test_connection) (
      result-Gives 0 (atoi (drop 9 first)) (request_text host port stub_path)
        (drop (i + 3) first ++ text) _
        (jnh_get-Gives host port stub_path timeout timeout a r rs code 0 i first text w t e f begun
          ends)),
  ap (Option.map (fetch_and_set_time system)) (
      result-Gives 127 (atoi (drop 9 first)) (request_text host port time_path)
        (drop (i + 3) first ++ text) _
        (jnh_get-Gives host port time_path timeout timeout a r rs code 127 i first text v t e f
          begun ends)),
)
