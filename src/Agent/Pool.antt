-- ===== src/Agent/Pool.antt =====
-- MicAgent.cpp with `executor`, its pool of one thread, in full.
use sdk_linux.Prelude.{
  ◌≡◌, refl, Bool, true, false, Option, none, some, List, [], ◌∷◌, ◌++◌, append-nil, arith,
}
use sdk_linux.Prelude.Int.{ℤ}
use sdk_linux.Prelude.Bytes.{Bytes}
use sdk_linux.Ipc.State.{Ipc}
use sdk_linux.Ipc.Worker.{Round, receive}
use sdk_linux.NetworkMonitor.{NetworkStatus, network_fail, https_ok}
use sdk_linux.SysKey.{SysKeyValue}
use sdk_linux.Agent.State.{Agent, Task, close_mic, dialog_again, start_forward, sleep}
use sdk_linux.Ipc.Text.{get_lines}
use sdk_linux.Agent.Main.{
  stop_capture_handler, on_thinking_handler, on_speaking_handler, iflyos_app_exited_handler,
  play_auth_code_handler, auth_ok_handler, auth_error_handler, vol_changed_handler,
  token_expired_handler, revoke_auth_handler, sw_update_handler, sw_update_check_handler,
  set_wakeword_handler, factory_reset_handler, reboot_handler, Handler, Texts, receive_round,
  call_handler,
}
use sdk_linux.Agent.Events.{
  stop_capture, on_thinking, on_speaking, iflyos_app_exited, play_auth_code, auth_ok, auth_error,
  vol_changed, token_expired, revoke_auth, sw_update, sw_update_check, set_wakeword, factory_reset,
  reboot, play_volume, answer_wakeword, on_network_status_changed,
}
use sdk_linux.Agent.AuthCode.{auth_code_round}
use sdk_linux.Agent.KeyLoop.{on_key, wait_iflyos}
use sdk_linux.Agent.Dialog.{run_task, run_front, on_audio, on_wake_word}
use sdk_linux.Agent.Steps.{
  Step, receives, wakes, speaks_code, hears, network, keys, runs, polls, step, steps,
}
use sdk_linux.ThreadPool.Executor.{
  does, Act, act, Client, Enqueues, Move, does_in, finishes, Machine, begin, moves, held, seen,
  view,
}
use sdk_linux.ThreadPool.Turns.{Program, Turn, without_locks, to_moves, steps-refine}

pub run_task-enqueues :
    (fd : ℤ) (t : Task) (q : List Task) (s : Agent)
    → run_task fd t (record s { queue = q }) ≡ record (run_task fd t (record s { queue = [] })) {
      queue = q ++ (run_task fd t (record s { queue = [] })).queue;
    }
unfolding run_task
run_task-enqueues fd close_mic q s = ground (arith, append-nil q)
run_task-enqueues fd dialog_again q s = ground (arith, append-nil q)
run_task-enqueues fd start_forward q s = ground (arith, append-nil q)

abbrev pub executor : Client Agent Task ℤ
executor = record {
  queue = λ s. s.queue;
  set_queue = λ q s. record s { queue = q };
  run = λ fd t s. run_task fd t s;
  queue-set_queue = λ q s. refl;
  set_queue_twice = λ p q s. refl;
  set_queue_same = λ s. refl;
  run-enqueues = run_task-enqueues;
}

pub wakes-Enqueues : Enqueues executor (λ s. some (on_wake_word s))
unfolding on_wake_word
wakes-Enqueues q s = ground (arith, append-nil q)

pub code-Enqueues : Enqueues executor (λ s. some (auth_code_round s))
unfolding auth_code_round
code-Enqueues q s = ground (arith, append-nil q)

pub hears-Enqueues :
    (sound : Bytes) (origin : Bool) → Enqueues executor (λ s. some (on_audio sound origin s))
unfolding on_audio
hears-Enqueues sound origin q s = ground (arith, append-nil q)

pub network-Enqueues :
    (status : NetworkStatus) → Enqueues executor (λ s. some (on_network_status_changed status s))
unfolding on_network_status_changed
network-Enqueues network_fail q s = ground (arith, append-nil q)
network-Enqueues https_ok q s = ground (arith, append-nil q)

pub keys-Enqueues : (k : SysKeyValue) → Enqueues executor (λ s. some (on_key k s).0)
unfolding on_key
keys-Enqueues k q s = ground (arith, append-nil q)

pub polls-Enqueues : (ps : List Bool) → Enqueues executor (wait_iflyos ps)
unfolding wait_iflyos
polls-Enqueues [] q s = refl
polls-Enqueues (true ∷ ps) q s = ground (arith, append-nil q)
polls-Enqueues (false ∷ ps) q s =
    polls-Enqueues ps q (record s { in_thinking = false; effects = s.effects ++ sleep 1 ∷ [] })

volume-Enqueues :
    (lines : Option (List Bytes)) → Enqueues executor (λ s. some (play_volume lines s))
unfolding play_volume
volume-Enqueues none q s = ground (arith, append-nil q)
volume-Enqueues (some []) q s = ground (arith, append-nil q)
volume-Enqueues (some (a ∷ [])) q s = ground (arith, append-nil q)
volume-Enqueues (some (a ∷ b ∷ [])) q s = ground (arith, append-nil q)
volume-Enqueues (some (a ∷ b ∷ c ∷ ls)) q s = ground (arith, append-nil q)

wakeword-Enqueues :
    (failure : Bytes) (lines : Option (List Bytes))
    → Enqueues executor (answer_wakeword failure lines)
unfolding answer_wakeword
wakeword-Enqueues failure none q s = refl
wakeword-Enqueues failure (some []) q s = refl
wakeword-Enqueues failure (some (a ∷ [])) q s = refl
wakeword-Enqueues failure (some (a ∷ b ∷ ls)) q s = ground (arith, append-nil q)

handler-Enqueues :
    (t : Texts) (h : Handler) (msg : Bytes) → Enqueues executor (call_handler t h msg)
unfolding call_handler stop_capture on_thinking on_speaking iflyos_app_exited play_auth_code auth_ok
    auth_error vol_changed token_expired revoke_auth sw_update sw_update_check set_wakeword
    factory_reset reboot
handler-Enqueues t stop_capture_handler msg q s = ground (arith, append-nil q)
handler-Enqueues t on_thinking_handler msg q s = ground (arith, append-nil q)
handler-Enqueues t on_speaking_handler msg q s = ground (arith, append-nil q)
handler-Enqueues t iflyos_app_exited_handler msg q s = ground (arith, append-nil q)
handler-Enqueues t play_auth_code_handler msg q s = ground (arith, append-nil q)
handler-Enqueues t auth_ok_handler msg q s = ground (arith, append-nil q)
handler-Enqueues t auth_error_handler msg q s = ground (arith, append-nil q)
handler-Enqueues t vol_changed_handler msg q s = volume-Enqueues (get_lines msg) q s
handler-Enqueues t token_expired_handler msg q s = ground (arith, append-nil q)
handler-Enqueues t revoke_auth_handler msg q s = ground (arith, append-nil q)
handler-Enqueues t sw_update_handler msg q s = ground (arith, append-nil q)
handler-Enqueues t sw_update_check_handler msg q s = ground (arith, append-nil q)
handler-Enqueues t set_wakeword_handler msg q s =
    wakeword-Enqueues t.wakeword_failure (get_lines msg) q s
handler-Enqueues t factory_reset_handler msg q s = ground (arith, append-nil q)
handler-Enqueues t reboot_handler msg q s = ground (arith, append-nil q)

round-Enqueues :
    (t : Texts) (r : Round Handler)
    → Enqueues executor (λ s. elim r [
      | Round.stop ↦ some s
      | Round.next ↦ some s
      | Round.call h evt msg ↦ call_handler t h msg s
    ])
round-Enqueues t Round.stop q s = ground (arith, append-nil q)
round-Enqueues t Round.next q s = ground (arith, append-nil q)
round-Enqueues t (Round.call h evt msg) q s = handler-Enqueues t h msg q s

module _ (texts : Texts) (ipc : Ipc Handler) where
  pub receive-Enqueues : (buf : Option Bytes) → Enqueues executor (receive_round texts ipc buf)
  unfolding receive_round
  receive-Enqueues buf q s = round-Enqueues texts (receive ipc buf) q s

  unfoldable pub to_move : Step → Move executor
  to_move (receives buf) = does_in (receive_round texts ipc buf) (receive-Enqueues buf)
  to_move wakes = does_in (λ s. some (on_wake_word s)) wakes-Enqueues
  to_move speaks_code = does_in (λ s. some (auth_code_round s)) code-Enqueues
  to_move (hears sound origin) =
      does_in (λ s. some (on_audio sound origin s)) (hears-Enqueues sound origin)
  to_move (network status) =
      does_in (λ s. some (on_network_status_changed status s)) (network-Enqueues status)
  to_move (keys k) = does_in (λ s. some (on_key k s).0) (keys-Enqueues k)
  to_move (runs fd) = finishes fd
  to_move (polls ps) = does_in (wait_iflyos ps) (polls-Enqueues ps)

  abbrev pub to_act : Step → Act executor
  to_act (receives buf) = does (receive_round texts ipc buf) (receive-Enqueues buf)
  to_act wakes = does (λ s. some (on_wake_word s)) wakes-Enqueues
  to_act speaks_code = does (λ s. some (auth_code_round s)) code-Enqueues
  to_act (hears sound origin) =
      does (λ s. some (on_audio sound origin s)) (hears-Enqueues sound origin)
  to_act (network status) =
      does (λ s. some (on_network_status_changed status s)) (network-Enqueues status)
  to_act (keys k) = does (λ s. some (on_key k s).0) (keys-Enqueues k)
  to_act (runs fd) = Act.runs fd
  to_act (polls ps) = does (wait_iflyos ps) (polls-Enqueues ps)

  pub steps_next :
      (s : Agent) (a : Step) (as' : List Step)
      → steps texts ipc s (a ∷ as')
        ≡ elim (act executor s (to_act a)) [ none ↦ none | some t ↦ steps texts ipc t as' ]
  unfolding steps step act run_front
  steps_next s (receives buf) as' = refl
  steps_next s wakes as' = refl
  steps_next s speaks_code as' = refl
  steps_next s (hears sound origin) as' = refl
  steps_next s (network status) as' = refl
  steps_next s (keys k) as' = refl
  steps_next s (runs fd) as' = refl
  steps_next s (polls ps) as' = refl

  pub steps_none : (s : Agent) → steps texts ipc s [] ≡ some s
  unfolding steps
  steps_none s = refl

  pub seen_as :
      (a : Step) (ms : List (Move executor))
      → seen executor (to_move a ∷ ms) ≡ to_act a ∷ seen executor ms
  unfolding to_move
  seen_as (receives buf) ms = refl
  seen_as wakes ms = refl
  seen_as speaks_code ms = refl
  seen_as (hears sound origin) ms = refl
  seen_as (network status) ms = refl
  seen_as (keys k) ms = refl
  seen_as (runs fd) ms = refl
  seen_as (polls ps) ms = refl

  abbrev pub program : Program executor Step
  program = record {
    to_move = to_move;
    to_act = to_act;
    steps = steps texts ipc;
    steps_none = steps_none;
    steps_next = steps_next;
    seen_as = seen_as;
  }

-- With the pool of one thread, with its lock and the worker's steps, the process does what it does
-- with a queue: from a state in which nothing is queued, along every schedule of its threads, the
-- state is the one behind the same steps without those of the lock, and the tasks that run or wait
-- in the pool are the queue.
pub executor-refines :
    (texts : Texts) (ipc : Ipc Handler) (s : Agent) (turns : List (Turn Step))
    (n : Machine executor)
    → s.queue ≡ []
    → moves executor (begin executor s) (to_moves executor (program texts ipc) turns) ≡ some n
    → steps texts ipc s (without_locks turns)
      ≡ some (record n.client { queue = held executor n.pool.workers ++ n.pool.tasks })
unfolding view
executor-refines texts ipc s turns n none_yet h =
    steps-refine executor (program texts ipc) s turns n none_yet h
