-- ===== src/Umbrella/Tests.antt =====
-- Runs of the umbrella process.
use mathlib.Core.Option
use sdk_linux.Prelude.{
  false, ◌+◌, ◌≤◌, ◌≡◌, ◌≢◌, ◌⊎◌, refl, Option, none, some, List, [], ◌∷◌, if◌then◌else◌,
}
use sdk_linux.Prelude.Int.{pos, neg}
use sdk_linux.Prelude.Bytes.{Bytes, codes, str_eq}
use sdk_linux.Ipc.Names.{evt_stopped}
use sdk_linux.Ipc.State.{Sendto, initial}
use sdk_linux.Ipc.Init.{Os}
use sdk_linux.Ipc.Send.{umbrella_send_event}
use sdk_linux.Umbrella.{receive_round, Umbrella, start_task, stop_task, on_do_start, run_front}
use sdk_linux.Umbrella.Startup.{Config, read_config, boot}
use sdk_linux.Umbrella.Process.{
  ends, fork_ok, fork_failed, Step, runs, waits, starts, step, steps, one_child, stop_after_start,
  restart_after_end,
}
use sdk_linux.Ipc.Text.{atoi}
use sdk_linux.ThreadPool.{running, create, wake_worker, finish_task, enqueue}
use sdk_linux.ThreadPool.Executor.{Machine, begin, moves, move, hand_over, enqueue_all, finish}
use sdk_linux.Umbrella.Pool.{exector, program, to_move, pool-refines}
use sdk_linux.ThreadPool.Turns.{locks, steps_by, to_moves, without_locks}

abbrev pub taking : Sendto
taking sends d = record { wr = pos 1; errno = 0 }

abbrev pub binding : Os
binding = record { socket_ret = pos 5; bind_ret = pos 0 }

-- The environment that patchFiles/start.sh sets.
abbrev environment : Bytes → Option Bytes
environment name =
    if str_eq name (codes "IFLYOS_ENV_IPC_VERSION")
    then some (codes "1")
    else if str_eq name (codes "IFLYOS_ENV_LOG_LEVEL")
    then some (codes "DEBUG2")
    else some (codes "/home")

abbrev pub config : Config
config = record {
  ipc_version = pos 1;
  log_level = codes "DEBUG2";
  exe_path = codes "/home";
  config_path = codes "/home";
  mic_fifo_path = codes "/home";
}

config_read : read_config environment ≡ some config
unfolding read_config str_eq atoi
config_read = refl

unfoldable pub booted : Umbrella
booted = elim (boot taking binding config) [
  | none ↦ record {
    ipc = initial;
    ipc_version = pos 1;
    iflyos_pid = pos 0;
    queue = [];
    monitors = 0;
    children = 0;
    zombies = 0;
    signals = [];
  }
  | some s ↦ s
]

pub boots : boot taking binding config ≡ some booted
unfolding booted boot
boots = refl

abbrev twice : List Step
twice = starts ∷ starts ∷ runs (fork_ok 41) ∷ runs (fork_ok 42) ∷ []

abbrev pub started : Umbrella
started = record booted { iflyos_pid = pos 42; monitors = 1; children = 1 }

started_twice : steps taking booted twice ≡ some started
unfolding steps step booted boot run_front on_do_start
started_twice = refl

one_child_example :
    (started.children + started.zombies ≤ 1)
    × ((started.iflyos_pid ≢ pos 0) ⊎ (started.children + started.zombies ≡ 0))
one_child_example = one_child taking binding config booted started twice boots started_twice

abbrev queued : Umbrella
queued = record {
  ipc = initial;
  ipc_version = pos 1;
  iflyos_pid = pos 0;
  queue = start_task ∷ stop_task ∷ [];
  monitors = 0;
  children = 0;
  zombies = 0;
  signals = [];
}

stopped_after_start :
    Option.map (λ t. t.signals) (steps taking queued (runs fork_failed ∷ runs fork_failed ∷ []))
    ≡ some (neg 1 ∷ [])
stopped_after_start = stop_after_start taking fork_failed fork_failed queued [] refl refl refl

abbrev ended : Umbrella
ended = record {
  ipc = initial;
  ipc_version = pos 1;
  iflyos_pid = pos 42;
  queue = [];
  monitors = 1;
  children = 0;
  zombies = 1;
  signals = [];
}

ended_restarts :
    steps taking ended (waits ∷ runs fork_failed ∷ starts ∷ runs (fork_ok 50) ∷ [])
    ≡ some (record ended {
      ipc = (umbrella_send_event taking initial evt_stopped []).0;
      iflyos_pid = pos 51;
      queue = [];
      monitors = 1;
      children = 1;
      zombies = 0;
    })
ended_restarts = restart_after_end taking fork_failed 50 ended refl refl refl refl refl

-- A start that is enqueued while another is taken, with the lock before each.
abbrev turns : List (sdk_linux.ThreadPool.Turns.Turn Step)
turns =
    steps_by starts
    ∷ locks
    ∷ steps_by starts
    ∷ steps_by (runs (fork_ok 41))
    ∷ locks
    ∷ steps_by ends
    ∷ []

abbrev pooled : Machine (exector taking)
pooled = record {
  pool = record { tasks = []; quit = false; workers = running start_task ∷ [] };
  client = record booted { iflyos_pid = pos 42; monitors = 1; zombies = 1 };
}

pool_runs :
    moves
      (exector taking)
      (begin (exector taking) booted)
      (to_moves (exector taking) (program taking) turns)
    ≡ some pooled
unfolding moves move to_moves hand_over enqueue_all finish booted boot on_do_start enqueue create
    wake_worker finish_task sdk_linux.Umbrella.run_task sdk_linux.Umbrella.child_ends to_move
    sdk_linux.ThreadPool.notify_one
pool_runs = refl

pool-refines_example :
    (steps taking booted (starts ∷ starts ∷ runs (fork_ok 41) ∷ ends ∷ [])
      ≡ some (record pooled.client { queue = start_task ∷ [] }))
    × (pooled.client.children + pooled.client.zombies ≤ 1)
    × ((pooled.client.iflyos_pid ≢ pos 0) ⊎ (pooled.client.children + pooled.client.zombies ≡ 0))
unfolding without_locks
pool-refines_example = pool-refines taking binding config booted turns pooled boots pool_runs
