-- ===== src/Agent/Steps.antt =====
-- The steps of the whole process, one for each of its threads' doings.
use sdk_linux.Prelude.{Bool, Option, none, some, List, [], ◌∷◌}
use sdk_linux.Prelude.Int.{ℤ}
use sdk_linux.Prelude.Bytes.{Bytes}
use sdk_linux.Agent.State.{Agent}
use sdk_linux.Agent.Main.{Handler, Texts, receive_round}
use sdk_linux.Agent.KeyLoop.{on_key, wait_iflyos}
use sdk_linux.NetworkMonitor.{NetworkStatus}
use sdk_linux.SysKey.{SysKeyValue}
use sdk_linux.Ipc.State.{Ipc}
use sdk_linux.Agent.Dialog.{run_front, on_audio, on_wake_word}
use sdk_linux.Agent.AuthCode.{auth_code_round}
use sdk_linux.Agent.Events.{on_network_status_changed}

-- The receiver thread reads a datagram, a wake word or sound comes from the recorder, the network
-- changes, a key is read, the executor runs a task in which `open` returns as given, the thread of the
-- spoken code makes a round, or `main` waits at `WAIT_START` with what its polls see.
pub data Step : Type 0 where
  receives : Option Bytes → Step
  wakes speaks_code : Step
  hears : Bytes → Bool → Step
  network : NetworkStatus → Step
  keys : SysKeyValue → Step
  runs : ℤ → Step
  polls : List Bool → Step

unfoldable pub step : Texts → Ipc Handler → Agent → Step → Option Agent
step t ipc s (receives buf) = receive_round t ipc buf s
step t ipc s wakes = some (on_wake_word s)
step t ipc s speaks_code = some (auth_code_round s)
step t ipc s (hears sound origin) = some (on_audio sound origin s)
step t ipc s (network status) = some (on_network_status_changed status s)
step t ipc s (keys k) = some (on_key k s).0
step t ipc s (runs fd) = run_front fd s
step t ipc s (polls seen) = wait_iflyos seen s

unfoldable pub steps : Texts → Ipc Handler → Agent → List Step → Option Agent
steps t ipc s [] = some s
steps t ipc s (a ∷ acts) = elim (step t ipc s a) [ none ↦ none | some q ↦ steps t ipc q acts ]
