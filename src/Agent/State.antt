-- ===== src/Agent/State.antt =====
-- The static variables of MicAgent.cpp, and the calls by which the process acts on the outside.
use Prim.Native.String.{String}
use sdk_linux.Prelude.{ℕ, Bool, true, false, List, [], ◌∷◌, ◌++◌}
use sdk_linux.Prelude.Int.{ℤ, neg}
use sdk_linux.Prelude.Bytes.{Bytes}
use sdk_linux.Recorder.{Format}

pub data IflyosReadyState : Type 0 where
  not_start started : IflyosReadyState

abbrev pub is_started : IflyosReadyState → Bool
is_started not_start = false
is_started started = true

-- `IFLYOS_InterfaceSendEvent`, `std::system`, `sleep`, a byte written to the descriptor `restartChannel`,
-- `pcmPlayer->play`, `close`, `open(FIFO_PATH, O_WRONLY)`, sound written to a descriptor,
-- `recorder->stop()`, `SysKey_Init`, the calls that prepare the recorder, `pipe`, the new PCMPlayer,
-- and the calls at the end of `main`.
pub data Effect : Type 0 where
  send : String → Bytes → Effect
  system : String → Effect
  sleep : ℕ → Effect
  write_restart : ℤ → ℕ → Effect
  play : String → ℤ → Effect
  close_fd : ℤ → Effect
  open_fifo : Effect
  write_audio : ℤ → Bytes → Effect
  recorder_stop : Effect
  sys_key_init : Effect
  recorder_set_format : Format → Effect
  recorder_add_observer make_restart_channel recorder_start : Effect
  make_player : List String → Effect
  executor_join interface_deinit delete_player : Effect

-- The closures that the executor is given: in `stopCapture` and `iflyosAppExited`, and the two in
-- `onWakeWord`, for a dialog that goes on and for a new one.
pub data Task : Type 0 where
  close_mic dialog_again start_forward : Task

-- `queue` holds the executor's tasks that have not run; `effects` the calls made, the oldest first.
pub record Agent : Type 0 where
  pub forwarding : Bool
  pub fd_audio : ℤ
  pub restart_channel : ℤ
  pub has_network : Bool
  pub mic_on : Bool
  pub in_thinking : Bool
  pub first_dialog_state : IflyosReadyState
  pub stop_auth_code_player : Bool
  pub auth_code_players : ℕ
  pub sw_update_flag : Bool
  pub sw_check_flag : Bool
  pub wakeword_flag : Bool
  pub debug_acc : ℕ
  pub queue : List Task
  pub effects : List Effect

abbrev pub initial : Agent
initial = record {
  forwarding = false;
  fd_audio = neg 1;
  restart_channel = neg 1;
  has_network = false;
  mic_on = true;
  in_thinking = false;
  first_dialog_state = not_start;
  stop_auth_code_player = false;
  auth_code_players = 0;
  sw_update_flag = false;
  sw_check_flag = false;
  wakeword_flag = false;
  debug_acc = 0;
  queue = [];
  effects = [];
}

abbrev pub does : List Effect → Agent → Agent
does es s = record s { effects = s.effects ++ es }

abbrev pub enqueue : Task → Agent → Agent
enqueue t s = record s { queue = s.queue ++ t ∷ [] }
