-- ===== src/Agent/DialogTests.antt =====
-- Dialogs of the process that listens for the wake word.
use sdk_linux.Prelude.{
  inl, arith, length, ◌⊎◌, not, ◌*◌, ◌++◌, ◌==◌, ◌/◌, ◌≤◌, Bool, ℕ, List, [], ◌∷◌, ◌≡◌, refl, none,
  some, true, false,
}
use sdk_linux.Prelude.Int.{pos}
use sdk_linux.Agent.State.{started, Agent, initial}
use sdk_linux.Agent.Events.{stop_capture}
use sdk_linux.Agent.Sounds.{Dialog, IsReady, all_steps, all_calls}
use sdk_linux.Agent.Session.{dialogs_forward}
use sdk_linux.Ipc.Names.{evt_dialog_end}
use sdk_linux.Agent.Main.{stop_capture_handler}
use sdk_linux.Agent.Pool.{executor, program, executor-refines}
use sdk_linux.ThreadPool.Turns.{Turn, locks, steps_by, to_moves, without_locks}
use sdk_linux.ThreadPool.Executor.{Machine, moves, begin, held}
use sdk_linux.Agent.Sounds.{end_message}
use sdk_linux.Agent.Steps.{receives}
use sdk_linux.Agent.Main.{Handler, Texts, receive_round, call_handler}
use sdk_linux.Agent.Steps
use sdk_linux.Agent.Steps.{polls, hears, Step}
use sdk_linux.Ipc.State.{Datagram, Ipc, Sendto}
use sdk_linux.Ipc.Worker.{Round, umbrella_receive}
use sdk_linux.Prelude.Bytes.{set_has, codes, Bytes}
use sdk_linux.Agent.Dialog.{on_audio, run_front, on_wake_word}
use sdk_linux.Ipc.Send.{message}
use sdk_linux.Prelude.Dict.{lookup}

-- Two dialogs with sound at every time.
abbrev at_home : Agent
at_home = record initial { first_dialog_state = started; has_network = true }

abbrev listening : Ipc Handler
listening = record sdk_linux.Ipc.State.initial {
  handlers = (evt_dialog_end, stop_capture_handler) ∷ [];
}

abbrev talks : List Dialog
talks =
    record {
      fd = 7;
      before = (1 ∷ []) ∷ [];
      early = (2 ∷ []) ∷ [];
      during = (3 ∷ 4 ∷ []) ∷ (5 ∷ []) ∷ [];
      late = (6 ∷ []) ∷ [];
    }
    ∷ record { fd = 8; before = []; early = []; during = (9 ∷ []) ∷ []; late = [] }
    ∷ []

abbrev chinese : Texts
chinese = record { version = []; update_failure = []; wakeword_failure = [] }

ends_handled : lookup evt_dialog_end listening.handlers ≡ some stop_capture_handler
unfolding lookup sdk_linux.Prelude.Bytes.str_eq
ends_handled = refl

at_home-IsReady : IsReady at_home
at_home-IsReady = record {
  idle = refl;
  closed = refl;
  online = refl;
  on = refl;
  welcome = refl;
  empty = refl;
}

dialogs_forward_example :
    (t : Agent) × (sdk_linux.Agent.Steps.steps chinese listening at_home (all_steps talks) ≡ some t)
    × IsReady t
    × (t.effects ≡ at_home.effects ++ all_calls talks)
dialogs_forward_example =
    dialogs_forward chinese listening talks at_home ends_handled at_home-IsReady

-- A dialog with the pool: the wake word comes while the worker waits, and the end while it opens.
abbrev turns : List (Turn Step)
turns =
    steps_by Step.wakes
    ∷ locks
    ∷ steps_by (receives (some end_message))
    ∷ steps_by (Step.runs (pos 7))
    ∷ locks
    ∷ steps_by (Step.runs (pos 0))
    ∷ []

pooled : Machine executor
pooled =
    elim (moves executor (begin executor at_home)
      (to_moves executor (program chinese listening) turns)) [
        | none ↦ begin executor at_home
        | some n ↦ n
      ]

pool_runs :
    moves executor (begin executor at_home) (to_moves executor (program chinese listening) turns)
    ≡ some pooled
unfolding pooled moves to_moves sdk_linux.ThreadPool.Executor.move sdk_linux.Agent.Pool.to_move
    sdk_linux.ThreadPool.Executor.enqueue_all sdk_linux.ThreadPool.Executor.hand_over
    sdk_linux.ThreadPool.Executor.finish on_wake_word sdk_linux.ThreadPool.enqueue
    sdk_linux.ThreadPool.create sdk_linux.ThreadPool.wake_worker sdk_linux.ThreadPool.finish_task
    receive_round sdk_linux.Ipc.Worker.receive message sdk_linux.Ipc.Worker.split_message
    sdk_linux.Prelude.Bytes.find sdk_linux.Prelude.Bytes.c_str lookup sdk_linux.Prelude.Bytes.str_eq
    call_handler stop_capture sdk_linux.Agent.Dialog.run_task sdk_linux.ThreadPool.notify_one
pool_runs = refl

executor_pool :
    sdk_linux.Agent.Steps.steps chinese listening at_home (without_locks turns)
    ≡ some (record pooled.client { queue = held executor pooled.pool.workers ++ pooled.pool.tasks })
executor_pool = executor-refines chinese listening at_home turns pooled refl pool_runs
