-- ===== src/System/Tests.antt =====
-- The keys and the network at both processes.
use sdk_linux.Ipc.Init.{Os}
use sdk_linux.Umbrella.Startup.{Config, boot}
use sdk_linux.NetworkMonitor.{new, check_loop, https_ok, network_fail}
use mathlib.Core.List.{map}
use sdk_linux.Umbrella.Delivery.{acts, to_step, registers}
use sdk_linux.Umbrella.Subscribers.{receive_all, addressed_to}
use sdk_linux.Agent.Registration.{event_of}
use sdk_linux.Agent.Main.{
  Texts, mic_addr, on_thinking_handler, vol_changed_handler, on_speaking_handler,
  stop_capture_handler,
}
use sdk_linux.Agent.Main
use sdk_linux.Ipc.Names.{umbrella_recv_addr}
use sdk_linux.Umbrella.Process.{step}
use sdk_linux.System.Told.{Told, IsTold, names, event, buffers, tell_all, read_all, handle_all}
use sdk_linux.System.Events.{asks_stop, events_handled}
use sdk_linux.Prelude.{
  ◌⊎◌, All, arith, ℕ, ◌+◌, Bool, true, false, none, List, ◌≡◌, ◌++◌, [], ◌∷◌, some, refl, inr,
}
use sdk_linux.Prelude.Int.{pos}
use sdk_linux.Ipc.State.{Sendto, Ipc, initial}
use sdk_linux.Agent.State
use sdk_linux.Agent.KeyLoop.{on_key, wait_start}
use sdk_linux.SysKey.{key_net_config}
use sdk_linux.Umbrella.{do_stop_handler, do_start_handler, Handler, Umbrella}
use sdk_linux.Umbrella.Process.{fork_ok, fork_failed, steps, receives, runs, waits, ends}
use sdk_linux.System.{sent}
use sdk_linux.System.Restart.{
  Turn, stop_comes, start_comes, process_ends, wait_is_over, task_runs, IsEnding, IsOver,
  start_is_lost,
}
use sdk_linux.System.Keys.{IsRunning, stop_message, start_message, ended_by_stop, restart-needs_end}
use sdk_linux.Ipc.Names.{do_stop, do_start}
use sdk_linux.Prelude.Dict.{lookup}
use sdk_linux.Agent.State.{not_start}
use sdk_linux.Prelude.Bytes.{codes, str_eq}

abbrev taking : Sendto
taking sends d = record { wr = pos 1; errno = 0 }

abbrev registered : Ipc Handler
registered = record initial {
  handlers = (do_start, do_start_handler) ∷ (do_stop, do_stop_handler) ∷ [];
}

abbrev running : Umbrella
running = record {
  ipc = registered;
  ipc_version = pos 1;
  iflyos_pid = pos 42;
  queue = [];
  monitors = 1;
  children = 1;
  zombies = 0;
  signals = [];
}

running-IsRunning : IsRunning 41 running
unfolding lookup str_eq
running-IsRunning = record {
  pid = refl;
  watched = refl;
  alive = refl;
  ended = refl;
  idle = refl;
  version = refl;
  starts = refl;
  stops = refl;
}

restart_run :
    let s = sdk_linux.Agent.State.initial in
    (sent (on_key key_net_config s).0.effects ≡ sent s.effects ++ stop_message ∷ start_message ∷ [])
    × ((on_key key_net_config s).0.first_dialog_state ≡ not_start)
    × ((on_key key_net_config s).1 ≡ wait_start)
    × (steps taking running (
          receives (some stop_message)
          ∷ receives (some start_message)
          ∷ runs fork_failed
          ∷ runs fork_failed
          ∷ ends
          ∷ waits
          ∷ runs fork_failed
          ∷ [])
        ≡ some (ended_by_stop taking 41 running))
    × (steps taking running (
          receives (some stop_message)
          ∷ runs fork_failed
          ∷ ends
          ∷ waits
          ∷ receives (some start_message)
          ∷ runs fork_failed
          ∷ runs (fork_ok 50)
          ∷ [])
        ≡ some (record (ended_by_stop taking 41 running) {
          iflyos_pid = pos 51;
          monitors = 1;
          children = 1;
        }))
restart_run =
    restart-needs_end taking 41 50 key_net_config sdk_linux.Agent.State.initial running fork_failed
      fork_failed fork_failed (inr refl) running-IsRunning

abbrev binding : Os
binding = record { socket_ret = pos 5; bind_ret = pos 0 }

abbrev config : Config
config = record {
  ipc_version = pos 1;
  log_level = [];
  exe_path = [];
  config_path = [];
  mic_fifo_path = [];
}

booted : Umbrella
booted = elim (boot taking binding config) [ none ↦ running | some s ↦ s ]

boots : boot taking binding config ≡ some booted
unfolding booted boot
boots = refl

-- The network comes, is lost, and comes again.
abbrev history : List Bool
history = true ∷ false ∷ false ∷ false ∷ true ∷ []

abbrev pids : ℕ → ℕ
pids i = i + 41

-- MicAgent has registered and asked for a stop, which has been done.
settled : Umbrella
settled =
    elim (steps taking booted
      (map to_step (registers mic_addr names ∷ asks_stop ∷ acts (runs fork_failed) ∷ []))) [
        | none ↦ booted
        | some s ↦ s
      ]

goes_online : (check_loop new history).reports ≡ https_ok ∷ network_fail ∷ https_ok ∷ []
unfolding check_loop sdk_linux.NetworkMonitor.check_round
goes_online = refl

-- MicAgent registers, and iFLYOS speaks in a dialog.
joined : Umbrella
joined = elim (steps taking booted (map to_step (registers mic_addr names ∷ asks_stop ∷ []))) [
  | none ↦ booted
  | some s ↦ s
]

joined_after :
    steps taking booted (map to_step (registers mic_addr names ∷ asks_stop ∷ [])) ≡ some joined
unfolding joined steps step to_step
joined_after = refl

abbrev told : List Told
told =
    (on_thinking_handler, [])
    ∷ (vol_changed_handler, codes "50")
    ∷ (on_speaking_handler, [])
    ∷ (stop_capture_handler, [])
    ∷ []

told-IsTold : All IsTold told
unfolding event_of
told-IsTold = ground arith

abbrev texts : Texts
texts = record { version = []; update_failure = []; wakeword_failure = [] }

events_handled_example :
    (map (λ d. receives (some d.content)) (sdk_linux.Agent.Main.boot taking binding).0.sends
      ≡ map to_step (registers mic_addr names ∷ asks_stop ∷ []))
    × (addressed_to umbrella_recv_addr (tell_all taking told registered).sends
        ≡ addressed_to umbrella_recv_addr registered.sends ++ buffers told)
    × (addressed_to mic_addr (receive_all taking (map event told) joined).ipc.sends
        ≡ addressed_to mic_addr joined.ipc.sends ++ buffers told)
    × (read_all texts
          (sdk_linux.Agent.Main.boot taking binding).0
          (buffers told)
          sdk_linux.Agent.State.initial
        ≡ handle_all texts told sdk_linux.Agent.State.initial)
unfolding sdk_linux.Ipc.Init.interface_init sdk_linux.Agent.Main.evt_reg
    sdk_linux.Ipc.Send.send_event
events_handled_example =
    events_handled taking taking taking binding binding config registered booted joined [] texts
      told sdk_linux.Agent.State.initial boots refl refl refl tt joined_after told-IsTold

-- Both messages come, and both tasks run, before the process ends.
abbrev before : List Turn
before =
    stop_comes ∷ task_runs fork_failed ∷ start_comes ∷ task_runs (fork_ok 50) ∷ process_ends ∷ []

abbrev behind : List Turn
behind = wait_is_over ∷ task_runs fork_failed ∷ []

lost_runs :
    steps taking running (map sdk_linux.System.Restart.to_step (before ++ behind))
    ≡ some (ended_by_stop taking 41 running)
unfolding steps step sdk_linux.Umbrella.run_front sdk_linux.Umbrella.receive_round
    sdk_linux.Ipc.Worker.umbrella_receive sdk_linux.Ipc.Send.message
    sdk_linux.Ipc.Worker.split_message sdk_linux.Prelude.Bytes.find sdk_linux.Prelude.Bytes.c_str
    lookup str_eq sdk_linux.Umbrella.child_ends sdk_linux.Umbrella.wait_returns
lost_runs = refl

start_is_lost_example :
    let s = sdk_linux.Agent.State.initial in
    (sent (on_key key_net_config s).0.effects ≡ sent s.effects ++ stop_message ∷ start_message ∷ [])
    × (IsEnding 41 (ended_by_stop taking 41 running) ⊎ IsOver (ended_by_stop taking 41 running))
start_is_lost_example =
    start_is_lost taking 41 key_net_config sdk_linux.Agent.State.initial running
      (ended_by_stop taking 41 running) before behind (inr refl) running-IsRunning (ground arith)
      (ground arith) lost_runs
