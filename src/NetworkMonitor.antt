-- ===== src/NetworkMonitor.antt =====
-- MicAgent/NetworkMonitor.h and MicAgent/NetworkMonitor.cpp: a thread that sets the clock and then
-- checks the connection again and again, and reports each change to its observers. What an HTTP
-- request gave is an argument of the round that makes it; `Requests` makes the requests.
pub mod Clock
pub mod Status
pub mod Requests
mod Tests
use sdk_linux.Prelude.{
  is_member, ◌||◌, ℕ, suc, ◌+◌, Bool, true, false, not, ◌&&◌, List, [], ◌∷◌, ◌++◌, leb, ◌==◌,
  if◌then◌else◌,
}
use sdk_linux.Prelude.Int.{ℤ, pos, negsuc}
use sdk_linux.Prelude.Bytes.{Bytes, codes}

pub data NetworkStatus : Type 0 where
  network_fail https_ok : NetworkStatus

abbrev pub is_fail : NetworkStatus → Bool
is_fail network_fail = true
is_fail https_ok = false

-- What `jnh_get` returns and leaves in `code` and `body`.
pub record HttpResult : Type 0 where
  pub ret : ℤ
  pub code : ℤ
  pub body : Bytes

abbrev pub is_number : ℕ → ℤ → Bool
is_number k (pos n) = n == k
is_number k (negsuc n) = false

-- `ret == JNHE_OK && code == 200`.
unfoldable pub is_success : HttpResult → Bool
is_success r = is_number 0 r.ret && is_number 200 r.code

-- The command line of `fetchAndSetTime`, with the body of the response as it came.
unfoldable pub date_command : HttpResult → Bytes
date_command r = codes "date +%s -s @" ++ r.body

-- `fetchAndSetTime`; `system` gives the exit status of a command.
unfoldable pub fetch_and_set_time : (Bytes → ℕ) → HttpResult → Bool
unfolding is_success date_command
fetch_and_set_time system r = if is_success r then system (date_command r) == 0 else false

-- `testConnection`.
unfoldable pub test_connection : HttpResult → Bool
unfolding is_success
test_connection r = is_success r

-- `NetworkMonitor::trySetTimeOneTime`: it returns true, whatever `fetchAndSetTime` gave.
unfoldable pub try_set_time_one_time : (Bytes → ℕ) → HttpResult → Bool
try_set_time_one_time system r = let ret = fetch_and_set_time system r in true

-- The fields of the class, the thread's local `failTimes`, the requests for the time so far, and the
-- reports made to all observers that were there, the oldest first.
pub record Monitor : Type 0 where
  pub status : NetworkStatus
  pub time_set : Bool
  pub quit : Bool
  pub fail_times : ℕ
  pub fetches : ℕ
  pub reports : List NetworkStatus
  pub observers : List ℕ

-- The constructor.
abbrev pub new : Monitor
new = record {
  status = network_fail;
  time_set = false;
  quit = false;
  fail_times = 0;
  fetches = 0;
  reports = [];
  observers = [];
}

-- The first loop of the thread, over what `fetchAndSetTime` returns in its rounds.
unfoldable pub time_loop : Monitor → List Bool → Monitor
time_loop m [] = m
time_loop m (fetched ∷ results) =
    let asked = record m { fetches = m.fetches + 1 } in
    let rest = time_loop (if fetched then asked else record asked { time_set = true }) results in
    if not m.quit && not m.time_set then rest else m

-- `m_status = status`, and a call of each observer with it.
unfoldable pub report : NetworkStatus → Monitor → Monitor
report status m = record m { status = status; reports = m.reports ++ status ∷ [] }

-- The two tests under the lock, one after the other.
unfoldable pub notice_fail : Bool → Monitor → Monitor
unfolding report
notice_fail ret m =
    if not ret && (leb 2 m.fail_times && not (is_fail m.status)) then report network_fail m else m

unfoldable pub notice_ok : Bool → Monitor → Monitor
unfolding report
notice_ok ret m = if ret && is_fail m.status then report https_ok m else m

-- A round of the second loop, where `testConnection` returned `ret`.
unfoldable pub check_round : Bool → Monitor → Monitor
unfolding notice_fail notice_ok
check_round ret m =
    let noticed = notice_ok ret (notice_fail ret m) in
    record noticed { fail_times = if ret then 0 else noticed.fail_times + 1 }

-- `sleep(…)` at the end of a round: the interval given, or `LOSE_CHECK`.
unfoldable pub pause : Bool → ℕ → ℕ
pause ret check_interval = if ret then check_interval else 10

-- The second loop; a round is made only while `m_quit` is not set.
unfoldable pub check_loop : Monitor → List Bool → Monitor
check_loop m [] = m
check_loop m (ret ∷ results) = if m.quit then m else check_loop (check_round ret m) results

-- `reset`, and the destructor's `m_quit = true`.
unfoldable pub reset : Monitor → Monitor
reset m = record m { status = network_fail }

unfoldable pub destroy : Monitor → Monitor
destroy m = record m { quit = true }

-- `addObserver`: a set has each observer once.
unfoldable pub add_observer : ℕ → Monitor → Monitor
add_observer o m =
    if is_member o m.observers then m else record m { observers = m.observers ++ o ∷ [] }
