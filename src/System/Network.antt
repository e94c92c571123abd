-- ===== src/System/Network.antt =====
-- The network monitor, its observer in MicAgent.cpp and the umbrella process of IFLYOSUmbrella.cpp in
-- one line: what the checks come to for the iFLYOS process.
use sdk_linux.Prelude.{ℕ, suc, List, [], ◌∷◌, ◌++◌, ◌≡◌, ap, ◌∙◌, some, none, true}
use sdk_linux.Prelude.Int.{pos}
use sdk_linux.Prelude.Bytes.{Bytes}
use sdk_linux.Prelude.Dict.{lookup}
use sdk_linux.Ipc.Names.{do_start, do_stop}
use sdk_linux.Ipc.State.{Sendto}
use sdk_linux.Ipc.Init.{Os}
use sdk_linux.Ipc.Register.{is_current}
use sdk_linux.Agent.State.{Agent}
use sdk_linux.NetworkMonitor.{NetworkStatus, network_fail, https_ok}
use sdk_linux.Umbrella.{Umbrella, do_start_handler, do_stop_handler}
use sdk_linux.Umbrella.Startup.{Config, boot}
use sdk_linux.Umbrella.Process.{Step, fork_ok, receives, runs, waits, ends, starts, stops}
use sdk_linux.Umbrella.Handlers.{boot_tables, boot_rest}
use sdk_linux.Umbrella.Table.{own_starts, own_stops}
use sdk_linux.System.Keys.{stop_message, start_message, IsRunning}

-- What the umbrella process and the iFLYOS process do with the message of one report, until nothing
-- is left to do; `m` is for the process number that `fork` returns.
abbrev pub settling : ℕ → NetworkStatus → List Step
settling m https_ok = receives (some start_message) ∷ runs (fork_ok m) ∷ []
settling m network_fail =
    receives (some stop_message) ∷ runs (fork_ok m) ∷ ends ∷ waits ∷ runs (fork_ok m) ∷ []

-- Each message is dealt with before the next one comes.
unfoldable pub settlings : (ℕ → ℕ) → List NetworkStatus → List Step
settlings pids [] = []
settlings pids (r ∷ rs) = settling (pids 0) r ++ settlings (λ i. pids (suc i)) rs

-- The datagrams that come to the umbrella process.
unfoldable pub received : List Step → List Bytes
received [] = []
received (receives (some buf) ∷ acts) = buf ∷ received acts
received (receives none ∷ acts) = received acts
received (runs f ∷ acts) = received acts
received (waits ∷ acts) = received acts
received (ends ∷ acts) = received acts
received (starts ∷ acts) = received acts
received (stops ∷ acts) = received acts

-- No iFLYOS process is there, and nothing is queued.
pub record IsStopped (u : Umbrella) : Type 0 where
  pub pid : u.iflyos_pid ≡ pos 0
  pub unwatched : u.monitors ≡ 0
  pub gone : u.children ≡ 0
  pub ended : u.zombies ≡ 0
  pub idle : u.queue ≡ []
  pub version : is_current u.ipc_version ≡ true
  pub starts : lookup do_start u.ipc.handlers ≡ some do_start_handler
  pub stops : lookup do_stop u.ipc.handlers ≡ some do_stop_handler

-- The process that a status asks for.
abbrev pub IsSettled : NetworkStatus → Umbrella → Type 0
IsSettled network_fail u = IsStopped u
IsSettled https_ok u = (n : ℕ) × IsRunning n u

-- So the process starts.
pub boot-IsStopped :
    (kernel : Sendto) (os : Os) (c : Config) (u : Umbrella)
    → boot kernel os c ≡ some u
    → is_current c.ipc_version ≡ true
    → IsStopped u
boot-IsStopped kernel os c u h v =
    let (own, none_yet) = boot_tables kernel os c u h in
    let e = boot_rest kernel os c u h in
    record {
      pid = ap (λ s. s.iflyos_pid) e;
      unwatched = ap (λ s. s.monitors) e;
      gone = ap (λ s. s.children) e;
      ended = ap (λ s. s.zombies) e;
      idle = ap (λ s. s.queue) e;
      version = ap (λ s. is_current s.ipc_version) e ∙ v;
      starts = ap (lookup do_start) own ∙ own_starts;
      stops = ap (lookup do_stop) own ∙ own_stops;
    }
