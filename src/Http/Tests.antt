-- ===== src/Http/Tests.antt =====
-- Requests against small servers.
use sdk_linux.Prelude.{
  inl, replicate, get_elem?, ℕ, ◌≡◌, refl, arith, List, [], ◌∷◌, ◌++◌, Option, none, some, true,
  false, drop, inr,
}
use sdk_linux.Prelude.Int.{ℤ, pos, neg}
use sdk_linux.Prelude.Bytes.{Bytes, codes}
use sdk_linux.Http.State.{
  close_and_return, time_left, wait_ready, got, to_ms, Run, returned, pending, undefined, Round,
}
use sdk_linux.Http.Request.{
  write_parts, exchange, make_connection, look_up, request_parts, Answers, jnh_get, in_progress,
}
use sdk_linux.Http.Response.{IsFirst, closes, piece, IsTimely, Gives}
use sdk_linux.Http.Header.{
  all_digits, starts, before_body_line, begin_body, breaks_back, keep_tail, find_body, read_code,
  read_packet, head_loop, reads_past, empty_line, crlf, strstr,
}
use sdk_linux.Ipc.Text.{is_space, skip_space, atoi}
use sdk_linux.Http.Safety.{Safe}
use sdk_linux.Http.Outcome.{jnh_get-Safe, limits_of}
use sdk_linux.Http.Exchange.{jnh_get-Gives, jnh_get-alone, request_text, IsAnswered}
use sdk_linux.Http.Deadline.{EndsAs, jnh_get-EndsAs}
use sdk_linux.Http.LongHeader.{jnh_get-long_header}

abbrev path : Bytes
path = codes "/time"

abbrev host : Bytes
host = codes "a.b"

abbrev port : Bytes
port = codes "80"

-- Each write takes all of its part, in the order of the parts.
abbrev takes : ℕ → Option ℕ
takes k = get_elem? {A = ℕ} (4 ∷ 5 ∷ 11 ∷ 6 ∷ 3 ∷ 3 ∷ 19 ∷ 4 ∷ []) k

abbrev answers : Answers
answers = record {
  clock_dns = some (1, 0);
  socket_ok = true;
  clock_connect = some (1, 2000000);
  host_found = true;
  connect = in_progress;
  clock_select = some (1, 3000000);
  selected = true;
  so_error = false;
  write = takes;
}

abbrev sends : Bytes → Round
sends bytes = record { clock = some (1, 9000000); selected = true; received = got bytes }

abbrev first : Bytes
first = codes "HTTP/1.1 200 OK\r\n\r\n15"

abbrev header : Bytes
header = codes "HTTP/1.1 404 No\r\n\r\n"

abbrev rounds : List Round
rounds = sends (codes "43") ∷ sends [] ∷ []

jnh_get-Safe_example :
    Safe
      (limits_of 500 300 answers)
      8
      (jnh_get host port path 500 300 answers (sends first ∷ rounds) (pos 7) 8)
jnh_get-Safe_example = jnh_get-Safe host port path 500 300 answers (sends first ∷ rounds) (pos 7) 8

abbrev answered : IsAnswered (limits_of 500 300 answers) (request_parts host port path) answers
unfolding request_parts to_ms
answered = record {
  sec = 1;
  nsec = 0;
  sec_connect = 1;
  nsec_connect = 2000000;
  clock_dns = refl;
  clock_connect = refl;
  socket_ok = refl;
  in_time = omega arith;
  host_found = refl;
  connects = inr (
    refl,
    record {
      sec = 1;
      nsec = 3000000;
      read = refl;
      in_all = omega arith;
      after_dns = omega arith;
      woken = refl;
    },
    refl,
  );
  writes = (refl, (refl, (refl, (refl, (refl, (refl, (refl, (refl, tt))))))));
}

abbrev timely : IsTimely (limits_of 500 300 answers) (some (1, 9000000)) true
unfolding to_ms
timely = record {
  sec = 1;
  nsec = 9000000;
  read = refl;
  in_all = omega arith;
  after_dns = omega arith;
  woken = refl;
}

abbrev first-IsFirst : IsFirst 16 first
unfolding strstr crlf empty_line reads_past skip_space is_space
first-IsFirst = record {
  line_at = 15;
  fits = omega arith;
  line = refl;
  header = refl;
  number = refl;
}

abbrev header-IsFirst : IsFirst 16 header
unfolding strstr crlf empty_line reads_past skip_space is_space
header-IsFirst = record {
  line_at = 15;
  fits = omega arith;
  line = refl;
  header = refl;
  number = refl;
}

jnh_get-Gives_example :
    Gives 8
      (atoi (drop 9 first))
      (request_text host port path)
      (codes "1543")
      (jnh_get host port path 500 300 answers (sends first ∷ rounds) (pos 7) 8)
jnh_get-Gives_example =
    jnh_get-Gives host port path 500 300 answers (sends first) rounds (pos 7) 8 16 first
      (codes "43") answered timely refl first-IsFirst (omega arith)
      (piece timely refl (closes timely refl))

jnh_get-alone_example :
    Gives 8
      (atoi (drop 9 header))
      (request_text host port path)
      []
      (jnh_get host port path 500 300 answers (sends header ∷ rounds) (pos 7) 8)
jnh_get-alone_example =
    jnh_get-alone host port path 500 300 answers (sends header) rounds (pos 7) 8 16 header answered
      timely refl header-IsFirst refl

code_of_first : atoi (drop 9 first) ≡ pos 200
unfolding atoi
code_of_first = refl

-- The empty line in two packets: it is not seen, and the request fails when the server closes.
abbrev split : List Round
split = sends (codes "HTTP/1.1 200 OK\r\n") ∷ sends (codes "\r\n15") ∷ sends [] ∷ []

abbrev ended : Run → Option ℤ
ended (returned ret c) = some ret
ended (pending c) = none
ended undefined = none

split_fails : ended (jnh_get host port path 500 300 answers split (pos 7) 8) ≡ some (neg 700)
unfolding jnh_get look_up make_connection exchange write_parts request_parts wait_ready time_left
    to_ms head_loop read_packet read_code find_body keep_tail breaks_back strstr crlf empty_line
    reads_past skip_space is_space begin_body close_and_return before_body_line starts all_digits
    atoi
split_fails = refl

-- A status line and a header with a long value.
abbrev long_first : Bytes
long_first = codes "HTTP/1.1 200 OK\r\nServer: " ++ replicate 120 b'x'

jnh_get-long_header_example :
    jnh_get host port path 500 300 answers (sends long_first ∷ []) (pos 7) 8 ≡ undefined
unfolding strstr starts empty_line
jnh_get-long_header_example =
    jnh_get-long_header host port path 500 300 answers (sends long_first) [] (pos 7) 8 long_first
      answered timely refl (omega arith) (ground arith) (λ i e. cc)

-- A server that sends a byte in each round, until the time is up.
abbrev too_late : Round
too_late = record { clock = some (1, 500000000); selected = true; received = got (codes "x") }

jnh_get-EndsAs_example :
    EndsAs
      (jnh_get host port path 500 300 answers (sends first ∷ too_late ∷ rounds) (pos 7) 8)
      (jnh_get host port path 500 300 answers (sends first ∷ too_late ∷ []) (pos 7) 8)
unfolding to_ms
jnh_get-EndsAs_example =
    jnh_get-EndsAs host port path 500 300 answers (sends first ∷ []) rounds too_late (pos 7) 8
      (inl (omega arith))
