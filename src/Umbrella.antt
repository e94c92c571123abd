-- ===== src/Umbrella.antt =====
-- IFLYOSUmbrella/IFLYOSUmbrella.cpp: the process that routes the messages and starts and stops the
-- iFLYOS process. `exector` has one thread, so its tasks run one at a time in their order
-- (ThreadPool/Order.antt); `queue` holds those that have not run.
pub mod Process
pub mod Pool
pub mod Startup
pub mod Handlers
pub mod Table
pub mod Delivery
pub mod Subscribers
mod Tests
mod DeliveryTests
use sdk_linux.Prelude.{
  ℕ, suc, ◌+◌, Bool, true, false, not, ◌||◌, Option, none, some, List, [], ◌∷◌, ◌++◌, ◌==◌,
  if◌then◌else◌,
}
use sdk_linux.Prelude.Int.{ℤ, pos, negsuc}
use sdk_linux.Prelude.Bytes.{Bytes, codes}
use sdk_linux.Ipc.Names.{evt_stopped, do_clear_data_then_quit, do_custom_context, do_custom_event}
use sdk_linux.Ipc.State.{Sendto, Ipc}
use sdk_linux.Ipc.Send.{umbrella_send_event, umbrella_send_action}
use sdk_linux.Ipc.Register.{registeration, is_current}
use sdk_linux.Ipc.Worker.{Round, umbrella_receive}

-- The functions that the process registers as handlers.
pub data Handler : Type 0 where
  registeration_handler do_start_handler do_stop_handler custom_directive_handler : Handler

-- The closures that `onIFLYOS_DoStart`, `onIFLYOS_DoStop` and the monitor thread enqueue.
pub data Task : Type 0 where
  start_task stop_task exited_task : Task

-- `children` counts the processes forked that run, `zombies` those that ended and are not waited
-- for, `monitors` the detached threads that have not returned from `wait`. `signals` records the
-- calls `kill(pid, SIGTERM)`.
pub record Umbrella : Type 0 where
  pub ipc : Ipc Handler
  pub ipc_version : ℤ
  pub iflyos_pid : ℤ
  pub queue : List Task
  pub monitors : ℕ
  pub children : ℕ
  pub zombies : ℕ
  pub signals : List ℤ

abbrev pub is_set : ℤ → Bool
is_set (pos n) = not (n == 0)
is_set (negsuc n) = true

-- The parent's part of `fork`: a process runs if the result is positive.
abbrev pub forked : ℤ → ℕ
forked (pos n) = if n == 0 then 0 else 1
forked (negsuc n) = 0

-- `onIFLYOS_DoStart` and `onIFLYOS_DoStop`.
unfoldable pub on_do_start : Umbrella → Umbrella
on_do_start s = record s { queue = s.queue ++ start_task ∷ [] }

unfoldable pub on_do_stop : Umbrella → Umbrella
on_do_stop s = record s { queue = s.queue ++ stop_task ∷ [] }

-- The closure of `onIFLYOS_DoStart` in the parent, where `fork` returns `pid`.
unfoldable pub run_start : ℤ → Umbrella → Umbrella
run_start pid s =
    if is_set s.iflyos_pid
    then s
    else if is_current s.ipc_version
    then record s {
      iflyos_pid = pid;
      monitors = s.monitors + 1;
      children = s.children + forked pid;
    }
    else s

-- The closure of `onIFLYOS_DoStop`.
unfoldable pub run_stop : Umbrella → Umbrella
run_stop s =
    if is_set s.iflyos_pid then record s { signals = s.signals ++ s.iflyos_pid ∷ [] } else s

-- The closure that the monitor thread enqueues when `wait` has returned.
unfoldable pub run_exited : Sendto → Umbrella → Umbrella
run_exited kernel s = record s {
  iflyos_pid = pos 0;
  ipc = (umbrella_send_event kernel s.ipc evt_stopped []).0;
}

unfoldable pub run_task : Sendto → ℤ → Task → Umbrella → Umbrella
unfolding run_start run_stop run_exited
run_task kernel pid start_task s = run_start pid s
run_task kernel pid stop_task s = run_stop s
run_task kernel pid exited_task s = run_exited kernel s

-- The executor's thread takes the task at the front, and `pid` is what a call of `fork` in it returns.
unfoldable pub run_front : Sendto → ℤ → Umbrella → Option Umbrella
unfolding run_task
run_front kernel pid s = elim s.queue [
  | [] ↦ none
  | task ∷ rest ↦ some (run_task kernel pid task (record s { queue = rest }))
]

-- A monitor's `wait(nullptr)` returns when a child has ended, or at once when there is no child.
unfoldable pub wait_returns : Umbrella → Option Umbrella
wait_returns s = elim s.monitors [
  | ℕ.zero ↦ none
  | ℕ.suc monitors ↦
      let reported = record s { monitors = monitors; queue = s.queue ++ exited_task ∷ [] } in
      elim s.zombies [
        | ℕ.suc zombies ↦ some (record reported { zombies = zombies })
        | ℕ.zero ↦ if s.children == 0 then some reported else none
      ]
]

-- The iFLYOS process ends.
unfoldable pub child_ends : Umbrella → Option Umbrella
child_ends s = elim s.children [
  | ℕ.zero ↦ none
  | ℕ.suc children ↦ some (record s { children = children; zombies = s.zombies + 1 })
]

-- The receiver thread's call of a handler.
unfoldable pub handle : Handler → Bytes → Umbrella → Umbrella
unfolding on_do_start on_do_stop
handle registeration_handler msg s = record s { ipc = registeration s.ipc msg }
handle do_start_handler msg s = on_do_start s
handle do_stop_handler msg s = on_do_stop s
handle custom_directive_handler msg s = s

after_round : Ipc Handler × Round Handler → Umbrella → Umbrella
unfolding handle
after_round (ipc, Round.stop) s = record s { ipc = ipc }
after_round (ipc, Round.next) s = record s { ipc = ipc }
after_round (ipc, Round.call h evt msg) s = handle h msg (record s { ipc = ipc })

-- A round of the receiver thread in this process, on at most the 4095 bytes that `recvfrom` reads.
unfoldable pub receive_round : Sendto → Option Bytes → Umbrella → Umbrella
unfolding after_round
receive_round kernel buf s = after_round (umbrella_receive kernel s.ipc buf) s

abbrev pub custom_context : Bytes → Bytes
custom_context text = codes "{\"name\": \"" ++ text ++ codes "\"}"

-- A round of the loop of `main` on the character `c`; the Boolean says whether the loop goes on.
-- `context` and `event` are the two Chinese texts of the messages, in their bytes.
unfoldable pub command : Sendto → Bytes → Bytes → ℕ → Umbrella → Umbrella × Bool
unfolding on_do_start on_do_stop
command kernel context event c s =
    if c == b'\n'
    then (s, true)
    else if c == b'\r'
    then (s, true)
    else if c == b'q'
    then (s, false)
    else if c == b's'
    then (on_do_start s, true)
    else if c == b't'
    then (on_do_stop s, true)
    else if c == b'r'
    then (record s { ipc = (umbrella_send_action kernel s.ipc do_clear_data_then_quit []).0 }, true)
    else if c == b'c'
    then (
      record s {
        ipc = (umbrella_send_action kernel s.ipc do_custom_context (custom_context context)).0;
      },
      true,
    )
    else if c == b'e'
    then (
      record s {
        ipc = (umbrella_send_action kernel s.ipc do_custom_event (custom_context event)).0;
      },
      true,
    )
    else (s, true)
