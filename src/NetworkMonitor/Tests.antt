-- ===== src/NetworkMonitor/Tests.antt =====
-- The monitor at concrete histories.
use sdk_linux.Prelude.{
  get_elem?, Option, inl, arith, none, ◌≡◌, refl, true, false, some, List, [], ◌∷◌, Bool,
}
use sdk_linux.NetworkMonitor.{
  add_observer, ℕ, pos, network_fail, https_ok, new, check_loop, check_round, reset, time_loop,
}
use sdk_linux.Prelude.Bytes.{Bytes, codes}
use sdk_linux.Ipc.Text.{atoi, skip_space, is_space}
use sdk_linux.Http.State.{Round, got, to_ms}
use sdk_linux.Http.Request.{Answers, request_parts, connected}
use sdk_linux.Http.Header.{strstr, crlf, empty_line, reads_past}
use sdk_linux.Http.Response.{IsFirst, IsTimely, piece, closes}
use sdk_linux.Http.Outcome.{limits_of}
use sdk_linux.Http.Exchange.{IsAnswered}
use sdk_linux.NetworkMonitor.Requests.{
  host, port, time_path, stub_path, check_connection, fetch_time, requests-answered,
}
use sdk_linux.NetworkMonitor.Clock.{time_loop-ends_on_failure}
use sdk_linux.NetworkMonitor.Status.{status_of, follow, check_loop-status, reset-reports}

time_set_behind_failure :
    (time_loop new (true ∷ true ∷ []) ≡ record new { fetches = 2 })
    × (time_loop new (true ∷ true ∷ false ∷ true ∷ [])
        ≡ record new { fetches = 3; time_set = true })
time_set_behind_failure = time_loop-ends_on_failure 2 (true ∷ []) new refl refl

abbrev history : List Bool
history = false ∷ true ∷ false ∷ false ∷ true ∷ false ∷ false ∷ false ∷ []

-- Two failures in a row are passed over, the third is reported.
reported : (check_loop new history).reports ≡ https_ok ∷ network_fail ∷ []
unfolding check_loop check_round
reported = refl

check_loop-status_example :
    ((check_loop new history).status ≡ status_of history)
    × (follow network_fail (check_loop new history).reports ≡ some (status_of history))
check_loop-status_example = check_loop-status history

reset-reports_example :
    ((check_loop (reset new) (false ∷ false ∷ [])).reports ≡ [])
    × ((check_loop (reset new) (false ∷ false ∷ true ∷ [])).reports ≡ https_ok ∷ [])
reset-reports_example = reset-reports new 2 refl

-- A server that gives the time.
abbrev takes : ℕ → Option ℕ
takes k = get_elem? {A = ℕ} (4 ∷ 9 ∷ 11 ∷ 6 ∷ 17 ∷ 3 ∷ 19 ∷ 4 ∷ []) k

abbrev answers : Answers
answers = record {
  clock_dns = some (1, 0);
  socket_ok = true;
  clock_connect = some (1, 2000000);
  host_found = true;
  connect = connected;
  clock_select = none;
  selected = false;
  so_error = false;
  write = takes;
}

abbrev sends : Bytes → Round
sends bytes = record { clock = some (1, 9000000); selected = true; received = got bytes }

abbrev first : Bytes
first = codes "HTTP/1.1 200 OK\r\n\r\n15"

abbrev rounds : List Round
rounds = sends (codes "43") ∷ sends [] ∷ []

abbrev answered_time :
    IsAnswered (limits_of 900 900 answers) (request_parts host port time_path) answers
unfolding request_parts to_ms
answered_time = record {
  sec = 1;
  nsec = 0;
  sec_connect = 1;
  nsec_connect = 2000000;
  clock_dns = refl;
  clock_connect = refl;
  socket_ok = refl;
  in_time = omega arith;
  host_found = refl;
  connects = inl refl;
  writes = (refl, (refl, (refl, (refl, (refl, (refl, (refl, (refl, tt))))))));
}

abbrev answered_stub :
    IsAnswered (limits_of 900 900 answers) (request_parts host port stub_path) answers
unfolding request_parts to_ms
answered_stub = record {
  sec = 1;
  nsec = 0;
  sec_connect = 1;
  nsec_connect = 2000000;
  clock_dns = refl;
  clock_connect = refl;
  socket_ok = refl;
  in_time = omega arith;
  host_found = refl;
  connects = inl refl;
  writes = (refl, (refl, (refl, (refl, (refl, (refl, (refl, (refl, tt))))))));
}

abbrev timely : IsTimely (limits_of 900 900 answers) (some (1, 9000000)) true
unfolding to_ms
timely = record {
  sec = 1;
  nsec = 9000000;
  read = refl;
  in_all = omega arith;
  after_dns = omega arith;
  woken = refl;
}

abbrev first-IsFirst : IsFirst 16 first
unfolding strstr crlf empty_line reads_past skip_space is_space
first-IsFirst = record {
  line_at = 15;
  fits = omega arith;
  line = refl;
  header = refl;
  number = refl;
}

-- The command `date` fails.
abbrev refuses : Bytes → ℕ
refuses command = 1

requests-answered_example :
    (check_connection 900 answers (sends first ∷ rounds) (pos 7) ≡ some true)
    × (fetch_time refuses 900 answers (sends first ∷ rounds) (pos 7) ≡ some false)
unfolding atoi
requests-answered_example =
    requests-answered refuses 900 answers (sends first) rounds (pos 7) 16 first (codes "43")
      answered_time answered_stub timely refl first-IsFirst (omega arith)
      (piece timely refl (closes timely refl))

-- An observer that is added twice is there once.
added_twice : (add_observer 4 (add_observer 3 (add_observer 4 new))).observers ≡ 4 ∷ 3 ∷ []
unfolding add_observer
added_twice = refl
