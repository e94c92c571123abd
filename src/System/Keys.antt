-- ===== src/System/Keys.antt =====
-- The keys that stop and start iFLYOS, from MicAgent to the process itself.
use sdk_linux.Prelude.{
  ℕ, suc, List, [], ◌∷◌, ◌++◌, ◌≡◌, refl, sym, ap, ◌∙◌, append_assoc, ◌⊎◌, inl, inr, arith, some,
  true,
}
use sdk_linux.Prelude.Int.{pos}
use sdk_linux.Prelude.Bytes.{Bytes}
use sdk_linux.Prelude.Dict.{lookup}
use sdk_linux.Ipc.Names.{evt_stopped, do_start, do_stop}
use sdk_linux.Ipc.Send.{umbrella_send_event, message}
use sdk_linux.Ipc.State.{Sendto}
use sdk_linux.Ipc.Register.{is_current}
use sdk_linux.SysKey.{SysKeyValue, key_restart_iflyos, key_net_config}
use sdk_linux.Agent.State.{Agent, Effect, not_start}
use sdk_linux.Agent.KeyLoop.{wait_start, on_key}
use sdk_linux.Umbrella.{
  exited_task, child_ends, wait_returns, run_task, handle, Umbrella, do_start_handler,
  do_stop_handler, receive_round, on_do_start, on_do_stop, run_front,
}
use sdk_linux.Umbrella.Process.{step, Fork, fork_ok, steps, receives, runs, waits, ends}
use sdk_linux.System.{message_of, sent}
use sdk_linux.Ipc.RoundTrip.{split_message_lem, umbrella_receive_split}

abbrev pub stop_message : Bytes
stop_message = message do_stop []

abbrev pub start_message : Bytes
start_message = message do_start []

pub sent-append : (es fs : List Effect) → sent (es ++ fs) ≡ sent es ++ sent fs
unfolding sent
sent-append [] fs = refl
sent-append (e ∷ es) fs =
    ap (◌++◌ (message_of e)) (sent-append es fs)
    ∙ sym (append_assoc (message_of e) (sent es) (sent fs))

after_two :
    (es fs gs hs : List Effect)
    → sent (((es ++ fs) ++ gs) ++ hs) ≡ sent es ++ (sent fs ++ (sent gs ++ sent hs))
after_two es fs gs hs = ground (
  arith,
  sent-append ((es ++ fs) ++ gs) hs,
  sent-append (es ++ fs) gs,
  sent-append es fs,
  append_assoc (sent es ++ sent fs) (sent gs) (sent hs),
  append_assoc (sent es) (sent fs) (sent gs ++ sent hs),
)

-- Both keys send a stop and then a start.
pub key-sends :
    (k : SysKeyValue) (s : Agent)
    → (k ≡ key_restart_iflyos) ⊎ (k ≡ key_net_config)
    → sent (on_key k s).0.effects ≡ sent s.effects ++ stop_message ∷ start_message ∷ []
unfolding on_key sent
key-sends k s (inl e) = rw e (sent-append s.effects _)
key-sends k s (inr e) = rw e (after_two s.effects _ _ _)

-- The umbrella process has started iFLYOS, which runs, and nothing is queued.
pub record IsRunning (n : ℕ) (u : Umbrella) : Type 0 where
  pub pid : u.iflyos_pid ≡ pos (suc n)
  pub watched : u.monitors ≡ 1
  pub alive : u.children ≡ 1
  pub ended : u.zombies ≡ 0
  pub idle : u.queue ≡ []
  pub version : is_current u.ipc_version ≡ true
  pub starts : lookup do_start u.ipc.handlers ≡ some do_start_handler
  pub stops : lookup do_stop u.ipc.handlers ≡ some do_stop_handler

-- The datagrams reach the handlers.
pub receive_stop :
    (kernel : Sendto) (u : Umbrella)
    → lookup do_stop u.ipc.handlers ≡ some do_stop_handler
    → receive_round kernel (some stop_message) u ≡ on_do_stop u
unfolding receive_round handle
receive_stop kernel u h =
    rw
      (umbrella_receive_split u.ipc kernel stop_message do_stop []
        (split_message_lem do_stop [] (ground arith) (ground arith) tt))
      (rw h refl)

pub receive_start :
    (kernel : Sendto) (u : Umbrella)
    → lookup do_start u.ipc.handlers ≡ some do_start_handler
    → receive_round kernel (some start_message) u ≡ on_do_start u
unfolding receive_round handle
receive_start kernel u h =
    rw
      (umbrella_receive_split u.ipc kernel start_message do_start []
        (split_message_lem do_start [] (ground arith) (ground arith) tt))
      (rw h refl)

-- The state behind the end of the process, its signal sent.
abbrev pub ended_by_stop : Sendto → ℕ → Umbrella → Umbrella
ended_by_stop kernel n u = record u {
  ipc = (umbrella_send_event kernel u.ipc evt_stopped []).0;
  iflyos_pid = pos 0;
  monitors = 0;
  children = 0;
  signals = u.signals ++ pos (suc n) ∷ [];
}

-- The state in which the end of the process is reported, and its task queued.
reported : ℕ → Umbrella → Umbrella
reported n u = record u {
  queue = exited_task ∷ [];
  monitors = 0;
  children = 0;
  signals = u.signals ++ pos (suc n) ∷ [];
}

module _ (kernel : Sendto) (n : ℕ) (u : Umbrella) (v : IsRunning n u) where
  start_before_end :
      (f g h : Fork)
      → steps kernel u (
          receives (some stop_message)
          ∷ receives (some start_message)
          ∷ runs f
          ∷ runs g
          ∷ ends
          ∷ waits
          ∷ runs h
          ∷ [])
        ≡ some (ended_by_stop kernel n u)
  unfolding steps step on_do_start on_do_stop run_front run_task wait_returns child_ends
  start_before_end f g h =
      ground (arith, receive_stop kernel u v.stops, receive_start kernel (on_do_stop u) v.starts, v)

  start_behind_end :
      (f g : Fork) (m : ℕ)
      → steps kernel u (
          receives (some stop_message)
          ∷ runs f
          ∷ ends
          ∷ waits
          ∷ receives (some start_message)
          ∷ runs g
          ∷ runs (fork_ok m)
          ∷ [])
        ≡ some (record (ended_by_stop kernel n u) {
          iflyos_pid = pos (suc m);
          monitors = 1;
          children = 1;
        })
  unfolding steps step on_do_start on_do_stop run_front run_task wait_returns child_ends reported
  start_behind_end f g m =
      ground (arith, receive_stop kernel u v.stops, receive_start kernel (reported n u) v.starts, v)

-- The key for a restart and the one for the network configuration both send a stop and then a start,
-- and MicAgent goes back to wait for iFLYOS. Two schedules of the umbrella process follow: in the one
-- both messages come before iFLYOS ends, and no process is left; in the other the start comes behind
-- the report of the end, and a new process is started.
pub restart-needs_end :
    (kernel : Sendto) (n m : ℕ) (k : SysKeyValue) (s : Agent) (u : Umbrella) (f g h : Fork)
    → (k ≡ key_restart_iflyos) ⊎ (k ≡ key_net_config)
    → IsRunning n u
    → (sent (on_key k s).0.effects ≡ sent s.effects ++ stop_message ∷ start_message ∷ [])
      × ((on_key k s).0.first_dialog_state ≡ not_start)
      × ((on_key k s).1 ≡ wait_start)
      × (steps kernel u (
            receives (some stop_message)
            ∷ receives (some start_message)
            ∷ runs f
            ∷ runs g
            ∷ ends
            ∷ waits
            ∷ runs h
            ∷ [])
          ≡ some (ended_by_stop kernel n u))
      × (steps kernel u (
            receives (some stop_message)
            ∷ runs f
            ∷ ends
            ∷ waits
            ∷ receives (some start_message)
            ∷ runs g
            ∷ runs (fork_ok m)
            ∷ [])
          ≡ some (record (ended_by_stop kernel n u) {
            iflyos_pid = pos (suc m);
            monitors = 1;
            children = 1;
          }))
unfolding on_key
restart-needs_end kernel n m k s u f g h which v = (
  key-sends k s which,
  ground (arith, which),
  ground (arith, which),
  start_before_end kernel n u v f g h,
  start_behind_end kernel n u v f g m,
)
