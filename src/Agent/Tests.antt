-- ===== src/Agent/Tests.antt =====
-- Runs of the process that listens for the wake word.
use mathlib.Core.Option
use sdk_linux.SysKey.{key_restart_iflyos, key_net_config}
use sdk_linux.Prelude.{
  ◌<◌, inl, arith, length, ◌⊎◌, not, ◌*◌, ◌++◌, ◌==◌, ◌/◌, ◌≤◌, Bool, ℕ, List, [], ◌∷◌, ◌≡◌, refl,
  none, some, true, false,
}
use sdk_linux.Prelude.Int.{pos, neg}
use sdk_linux.Agent.State.{play, close_mic, started, Agent, initial}
use sdk_linux.Agent.Events.{
  vol_changed, factory_reset, auth_error, token_expired, iflyos_app_exited, on_speaking,
  on_thinking, revoke_auth, on_network_status_changed, stop_capture,
}
use sdk_linux.Agent.Forwarding.{
  app_exits, speaks, thinks, records, wake_behind_close, network, sound_path,
  forwarding_tells_descriptor, dialog_ends, Event, Inv, IsCalm, done, more, step, steps, wakes,
  runs,
}
use sdk_linux.Agent.Steps.{receives}
use sdk_linux.Agent.Channel.{pending-handlers, no_pipe-handlers, pending}
use sdk_linux.Agent.Network.{observe-check_loop, asked, observe}
use sdk_linux.Agent.Main.{
  Handler, Texts, boot, prepare, evt_reg, mic_addr, receive_round, call_handler,
  vol_changed_handler,
}
use sdk_linux.Agent.Messages.{event-call_handler}
use sdk_linux.Agent.Registration.{event_of}
use sdk_linux.Agent.Restart.{restart-ends_recording}
use sdk_linux.Agent.Recording.{is_recording}
use sdk_linux.Agent.Steps
use sdk_linux.Agent.Steps.{polls, hears, Step}
use sdk_linux.Ipc.State.{Datagram, Ipc, Sendto}
use sdk_linux.Ipc.Worker.{Round, umbrella_receive}
use sdk_linux.Agent.AuthCode.{sonic_speak_lem, spoken, digit_len, sonic_speak}
use sdk_linux.Agent.KeyLoop.{wait_iflyos}
use sdk_linux.Prelude.Bytes.{set_has, codes, Bytes}
use sdk_linux.NetworkMonitor.{is_fail, https_ok, new, check_loop}
use sdk_linux.Agent.Dialog.{on_audio, run_front, on_wake_word}
use sdk_linux.Agent.Boot.{wait_network_ends, wait_network}
use sdk_linux.NetworkMonitor.Status.{status_of}
use sdk_linux.Ipc.Register.{registeration}
use sdk_linux.Ipc.Handlers.{registration}
use sdk_linux.Ipc.Text.{atoi, get_lines}
use sdk_linux.Ipc.Send.{message}
use sdk_linux.Ipc.Routing.{datagrams}
use sdk_linux.Prelude.Dict.{lookup}

-- The welcome, the network, two dialogs and the recorded sound.
abbrev dialogs : List Event
dialogs =
    dialog_ends
    ∷ network https_ok
    ∷ wakes
    ∷ runs (pos 7)
    ∷ records (1 ∷ 2 ∷ [])
    ∷ thinks
    ∷ speaks
    ∷ wakes
    ∷ runs (pos 0)
    ∷ dialog_ends
    ∷ app_exits
    ∷ runs (pos 0)
    ∷ runs (pos 0)
    ∷ wakes
    ∷ runs (neg 1)
    ∷ []

dialogs-IsCalm : IsCalm initial dialogs
unfolding step stop_capture on_network_status_changed on_wake_word run_front on_audio on_thinking
    on_speaking iflyos_app_exited
dialogs-IsCalm = more tt refl (
    more tt refl (
      more refl refl (
        more tt refl (
          more tt refl (
            more tt refl (
              more tt refl (
                more refl refl (
                  more tt refl (
                    more tt refl (
                      more tt refl
                        (more tt refl (more tt refl (more refl refl (more tt refl done))))))))))))))

abbrev spoken_to : Agent
spoken_to = elim (steps initial dialogs) [ none ↦ initial | some s ↦ s ]

dialogs_run : steps initial dialogs ≡ some spoken_to
unfolding steps step stop_capture on_network_status_changed on_wake_word run_front on_audio
    on_thinking on_speaking iflyos_app_exited
dialogs_run = refl

forwarding_tells_descriptor_example : Inv spoken_to
forwarding_tells_descriptor_example =
    forwarding_tells_descriptor dialogs spoken_to dialogs-IsCalm dialogs_run

-- The dialog ended twice, and its first close has run.
abbrev closing_twice : Agent
closing_twice = record initial {
  first_dialog_state = started;
  has_network = true;
  queue = close_mic ∷ [];
}

wake_behind :
    sound_path (steps closing_twice (wakes ∷ runs (pos 0) ∷ runs (pos 8) ∷ []))
    ≡ some (false, pos 8)
wake_behind = wake_behind_close closing_twice (pos 0) 8 refl refl refl refl refl

network_followed :
    ((observe (check_loop new (false ∷ true ∷ [])).reports initial).has_network
      ≡ not (is_fail (status_of (false ∷ true ∷ []))))
    × ((observe (check_loop new (false ∷ true ∷ [])).reports initial).effects
        ≡ initial.effects ++ asked (check_loop new (false ∷ true ∷ [])).reports)
network_followed = observe-check_loop (false ∷ true ∷ []) initial refl

-- The agent with its pipe.
abbrev piped : Agent
piped = record initial { restart_channel = pos 9 }

pending-handlers_example :
    (pending (pos 1) (revoke_auth piped) ≡ pending (pos 1) piped ++ key_restart_iflyos ∷ [])
    × (pending (pos 1) (token_expired piped) ≡ pending (pos 1) piped ++ key_net_config ∷ [])
    × (pending (pos 1) (auth_error piped) ≡ pending (pos 1) piped ++ key_net_config ∷ [])
    × (pending (pos 1) (factory_reset piped) ≡ pending (pos 1) piped ++ key_net_config ∷ [])
pending-handlers_example = pending-handlers piped (pos 1) refl

lost_byte : pending (pos 1) (revoke_auth initial) ≡ pending (pos 1) initial
lost_byte = (no_pipe-handlers initial (pos 1) refl).0

-- A leading sound of two bytes, and a code with a blank in it.
abbrev numbers : ℕ → ℕ
numbers i = i / digit_len

sonic_speak_lem_example : sonic_speak (9 ∷ 9 ∷ []) numbers (codes "4 2") ≡ (
  (9 ∷ 9 ∷ []) ++ spoken numbers (codes "4 2"),
  length ((9 ∷ 9 ∷ []) ++ spoken numbers (codes "4 2")),
)
sonic_speak_lem_example = sonic_speak_lem (9 ∷ 9 ∷ []) numbers (codes "4 2")

abbrev at_third : ℕ → Bool
at_third k = k == 2

wait_network_ends_example :
    ((k : ℕ) × (k ≤ 12)
      × (at_third k ≡ true)
      × ((j : ℕ) → j < k → at_third j ≡ false)
      × (wait_network 13 at_third 0 0 ≡ some (5 * k, false)))
    ⊎ (((j : ℕ) → j ≤ 12 → at_third j ≡ false) × (wait_network 13 at_third 0 0 ≡ some (65, true)))
wait_network_ends_example = wait_network_ends at_third 13 (omega arith)

abbrev taking : Sendto
taking sends d = record { wr = pos 1; errno = 0 }

abbrev texts : Texts
texts = record { version = codes "1"; update_failure = codes "no"; wakeword_failure = codes "no" }

-- The handlers of the process behind its start.
abbrev mic : Ipc Handler
mic = (boot taking (record { socket_ret = pos 3; bind_ret = pos 0 })).0

volume_told :
    let u : Ipc ℕ = sdk_linux.Ipc.State.initial in
    let u' = registeration u (registration mic_addr evt_reg) in
    let sent = message (event_of vol_changed_handler) (codes "40\nfalse") in
    ((addrs : List Bytes) × (set_has mic_addr addrs ≡ true)
      × (umbrella_receive taking u' (some sent)
          ≡ (record u' { sends = u'.sends ++ datagrams sent addrs }, Round.next)))
    × (receive_round texts mic (some sent) initial
        ≡ call_handler texts vol_changed_handler (codes "40\nfalse") initial)
unfolding event_of lookup
volume_told =
    event-call_handler {G = ℕ} taking (record { socket_ret = pos 3; bind_ret = pos 0 })
      sdk_linux.Ipc.State.initial texts vol_changed_handler (codes "40\nfalse") initial refl refl
      refl (ground arith) (omega arith)

volume_played :
    Option.map (λ s. s.effects) (call_handler texts vol_changed_handler (codes "40\nfalse") initial)
    ≡ some (play "/home/pi/ivs/sound_effect/plastic-soda-pop.wav" (pos 40) ∷ [])
unfolding call_handler vol_changed get_lines atoi
volume_played = refl

-- The key for a restart, a new welcome, a wake word, and sound.
abbrev after_restart : List Step
after_restart = polls (false ∷ true ∷ []) ∷ sdk_linux.Agent.Steps.wakes ∷ hears (1 ∷ []) true ∷ []

abbrev restarted : Agent
restarted =
    elim (sdk_linux.Agent.Steps.steps texts mic (prepare (pos 9) initial)
      (sdk_linux.Agent.Steps.keys key_restart_iflyos ∷ after_restart)) [
        | none ↦ initial
        | some s ↦ s
      ]

restarted_runs :
    sdk_linux.Agent.Steps.steps texts mic
      (prepare (pos 9) initial)
      (sdk_linux.Agent.Steps.keys key_restart_iflyos ∷ after_restart)
    ≡ some restarted
unfolding sdk_linux.Agent.Steps.steps sdk_linux.Agent.Steps.step wait_iflyos
restarted_runs = refl

restart-ends_recording_example :
    (is_recording (prepare (pos 9) (prepare (pos 9) initial)) ≡ true)
    × (is_recording restarted ≡ false)
restart-ends_recording_example =
    restart-ends_recording texts mic (prepare (pos 9) initial) restarted key_restart_iflyos
      after_restart (pos 9) (inl refl) restarted_runs
