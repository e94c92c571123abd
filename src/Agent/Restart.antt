-- ===== src/Agent/Restart.antt =====
-- What the keys for a restart and for the network configuration do to the recorder for good.
use sdk_linux.Prelude.{
  true, false, some, List, [], ◌∷◌, ◌≡◌, refl, ◌⊎◌, inl, inr, arith, Option-cases,
}
use sdk_linux.Agent.Steps.{
  Step, step, steps, receives, wakes, speaks_code, hears, network, keys, runs, polls,
}
use sdk_linux.Agent.State.{Agent}
use sdk_linux.Agent.Main.{Handler, Texts, receive_round, prepare}
use sdk_linux.Ipc.Worker.{receive}
use sdk_linux.Agent.KeyLoop.{on_key}
use sdk_linux.SysKey.{SysKeyValue, key_restart_iflyos, key_net_config}
use sdk_linux.Ipc.State.{Ipc}
use sdk_linux.Agent.Recording.{
  wait-IsOff, front-IsOff, key-IsOff, network-IsOff, audio-IsOff, code-IsOff, wake-IsOff,
  round-IsOff, recording_from, is_recording, recording_from-append,
}
use sdk_linux.Prelude.Int.{ℤ}

prepare_on : (fd : ℤ) (s : Agent) → is_recording (prepare fd s) ≡ true
unfolding prepare is_recording recording_from
prepare_on fd s = grind (arith, recording_from-append)

restart-off :
    (k : SysKeyValue) (s : Agent)
    → (k ≡ key_restart_iflyos) ⊎ (k ≡ key_net_config)
    → is_recording (on_key k s).0 ≡ false
unfolding on_key is_recording recording_from
restart-off k s which = grind (arith, recording_from-append)

step-IsOff :
    (t : Texts) (ipc : Ipc Handler) (s q : Agent) (a : Step)
    → step t ipc s a ≡ some q
    → is_recording s ≡ false
    → is_recording q ≡ false
unfolding step receive_round
step-IsOff t ipc s q (receives buf) h off = round-IsOff t (receive ipc buf) s q h off
step-IsOff t ipc s q wakes h off = ground (arith, h, wake-IsOff s off)
step-IsOff t ipc s q speaks_code h off = ground (arith, h, code-IsOff s off)
step-IsOff t ipc s q (hears sound origin) h off = ground (arith, h, audio-IsOff sound origin s off)
step-IsOff t ipc s q (network status) h off = ground (arith, h, network-IsOff status s off)
step-IsOff t ipc s q (keys k) h off = ground (arith, h, key-IsOff k s off)
step-IsOff t ipc s q (runs fd) h off = front-IsOff fd s q s.queue refl h off
step-IsOff t ipc s q (polls seen) h off = wait-IsOff seen s q h off

steps-IsOff :
    (t : Texts) (ipc : Ipc Handler) (s q : Agent) (acts : List Step)
    → steps t ipc s acts ≡ some q
    → is_recording s ≡ false
    → is_recording q ≡ false
unfolding steps
steps-IsOff t ipc s q [] h off = ground (arith, h, off)
steps-IsOff t ipc s q (a ∷ acts) h off = elim (Option-cases (step t ipc s a)) [
  | inl e ↦ ground (arith, h, e)
  | inr (u, e) ↦ steps-IsOff t ipc u q acts (rw (e, steps) at h) (step-IsOff t ipc s u a e off)
]

-- `main` has started the recorder when it comes to `WAIT_START`. But once the loop has read the key
-- for a restart or the one for the network configuration, the recorder is off, and stays off along
-- every schedule of the steps of this process.
pub restart-ends_recording :
    (t : Texts) (ipc : Ipc Handler) (s q : Agent) (k : SysKeyValue) (acts : List Step) (fd : ℤ)
    → (k ≡ key_restart_iflyos) ⊎ (k ≡ key_net_config)
    → steps t ipc s (keys k ∷ acts) ≡ some q
    → (is_recording (prepare fd s) ≡ true) × (is_recording q ≡ false)
unfolding steps step
restart-ends_recording t ipc s q k acts fd which h =
    (prepare_on fd s, steps-IsOff t ipc (on_key k s).0 q acts h (restart-off k s which))
