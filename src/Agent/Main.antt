-- ===== src/Agent/Main.antt =====
-- `main` of MicAgent.cpp: the handlers that it registers, and its way up to `WAIT_START` and out.
use sdk_linux.Prelude.{Option, some, List, [], ◌∷◌, ◌⊎◌, inl, inr, if◌then◌else◌}
use sdk_linux.Prelude.Int.{ℤ, neg}
use sdk_linux.Prelude.Bytes.{Bytes, codes}
use sdk_linux.Ipc.State.{Ipc, Sendto}
use sdk_linux.Ipc.Names.{
  evt_factory_reset, evt_reboot, evt_sw_update, evt_sw_update_check, evt_revoke_authorization,
  evt_set_wakeword, evt_auth_required, evt_auth_token_expired, evt_auth_ok, evt_auth_server_error,
  evt_dialog_thinking, evt_dialog_speaking, evt_dialog_end, evt_vol_changed, evt_stopped,
}
use sdk_linux.Ipc.Send.{send_event}
use sdk_linux.Ipc.Names.{do_stop}
use sdk_linux.Ipc.Init.{Os, interface_init, is_zero}
use sdk_linux.Ipc.Worker.{Round, receive}
use sdk_linux.Recorder.{origin_output}
use sdk_linux.Agent.State.{
  Agent, initial, does, send, close_fd, recorder_stop, recorder_set_format, recorder_add_observer,
  make_restart_channel, recorder_start, make_player, executor_join, interface_deinit, delete_player,
}
use sdk_linux.Agent.Events.{
  stop_capture, on_thinking, on_speaking, iflyos_app_exited, play_auth_code, auth_ok, auth_error,
  vol_changed, token_expired, revoke_auth, sw_update, sw_update_check, set_wakeword, factory_reset,
  reboot,
}

-- The functions and closures that `main` registers.
pub data Handler : Type 0 where
  stop_capture_handler on_thinking_handler on_speaking_handler iflyos_app_exited_handler
        play_auth_code_handler auth_ok_handler auth_error_handler vol_changed_handler
        token_expired_handler revoke_auth_handler sw_update_handler sw_update_check_handler
        set_wakeword_handler factory_reset_handler reboot_handler :
      Handler

-- `evtReg`, in the order of the calls of `push_back`.
unfoldable pub evt_reg : List (Bytes × Option Handler)
evt_reg =
    (evt_dialog_end, some stop_capture_handler)
    ∷ (evt_dialog_thinking, some on_thinking_handler)
    ∷ (evt_dialog_speaking, some on_speaking_handler)
    ∷ (evt_stopped, some iflyos_app_exited_handler)
    ∷ (evt_auth_required, some play_auth_code_handler)
    ∷ (evt_auth_ok, some auth_ok_handler)
    ∷ (evt_auth_server_error, some auth_error_handler)
    ∷ (evt_vol_changed, some vol_changed_handler)
    ∷ (evt_auth_token_expired, some token_expired_handler)
    ∷ (evt_revoke_authorization, some revoke_auth_handler)
    ∷ (evt_sw_update, some sw_update_handler)
    ∷ (evt_sw_update_check, some sw_update_check_handler)
    ∷ (evt_set_wakeword, some set_wakeword_handler)
    ∷ (evt_factory_reset, some factory_reset_handler)
    ∷ (evt_reboot, some reboot_handler)
    ∷ []

-- The Chinese texts of the closures, in their bytes: the version and its description, and the two
-- messages of a failure.
pub record Texts : Type 0 where
  pub version : Bytes
  pub update_failure : Bytes
  pub wakeword_failure : Bytes

-- A call of a handler with the text of a message; `none` where C++ leaves it undefined.
unfoldable pub call_handler : Texts → Handler → Bytes → Agent → Option Agent
call_handler t stop_capture_handler msg s = some (stop_capture s)
call_handler t on_thinking_handler msg s = some (on_thinking s)
call_handler t on_speaking_handler msg s = some (on_speaking s)
call_handler t iflyos_app_exited_handler msg s = some (iflyos_app_exited s)
call_handler t play_auth_code_handler msg s = some (play_auth_code s)
call_handler t auth_ok_handler msg s = some (auth_ok s)
call_handler t auth_error_handler msg s = some (auth_error s)
call_handler t vol_changed_handler msg s = some (vol_changed msg s)
call_handler t token_expired_handler msg s = some (token_expired s)
call_handler t revoke_auth_handler msg s = some (revoke_auth s)
call_handler t sw_update_handler msg s = some (sw_update t.version t.update_failure s)
call_handler t sw_update_check_handler msg s = some (sw_update_check t.version s)
call_handler t set_wakeword_handler msg s = set_wakeword t.wakeword_failure msg s
call_handler t factory_reset_handler msg s = some (factory_reset s)
call_handler t reboot_handler msg s = some (reboot s)

-- A round of the receiver thread in this process.
unfoldable pub receive_round : Texts → Ipc Handler → Option Bytes → Agent → Option Agent
receive_round t ipc buf s = elim (receive ipc buf) [
  | Round.stop ↦ some s
  | Round.next ↦ some s
  | Round.call h evt msg ↦ call_handler t h msg s
]

abbrev pub mic_addr : Bytes
mic_addr = codes "IFLYOS_INTERFACE_MIC"

-- `main` up to the first message: the result of `IFLYOS_InterfaceInit`, if that is not 0, or the
-- process behind it, which has asked for a stop of iFLYOS.
unfoldable pub boot : Sendto → Os → Ipc Handler × (ℤ ⊎ Agent)
boot kernel os =
    let (ipc, ret) = interface_init kernel os (sdk_linux.Ipc.State.initial) mic_addr evt_reg in
    (
      if is_zero ret then (send_event kernel ipc do_stop []).0 else ipc,
      if is_zero ret then inr (does (send "DO_STOP" [] ∷ []) initial) else inl ret,
    )

-- The calls between the wait for the network and `WAIT_START`, where `pipe` gives the descriptor `fd`
-- for writing.
unfoldable pub prepare : ℤ → Agent → Agent
prepare fd s =
    does
      (recorder_set_format origin_output
        ∷ recorder_add_observer
        ∷ make_restart_channel
        ∷ make_player (
            "/home/pi/ivs/sound_effect/here.wav" ∷ "/home/pi/ivs/sound_effect/plastic-soda-pop.wav"
            ∷ [])
        ∷ recorder_start
        ∷ [])
      (record s { restart_channel = fd })

-- The end of `main`, if `join` returns.
unfoldable pub finish : Agent → Agent
finish s =
    let joined = does (recorder_stop ∷ executor_join ∷ interface_deinit ∷ []) s in
    let closed =
      if s.forwarding
      then does (close_fd s.fd_audio ∷ []) (record joined { fd_audio = neg 1 })
      else joined in
    does (delete_player ∷ []) closed
