-- ===== src/Agent/Events.antt =====
-- The handlers that `main` of MicAgent.cpp registers, and its observer of the network.
use sdk_linux.Prelude.{
  ℕ, ◌+◌, true, false, not, Option, none, some, List, [], ◌∷◌, ◌++◌, if◌then◌else◌,
}
use sdk_linux.Prelude.Bytes.{Bytes, codes}
use sdk_linux.Ipc.Text.{get_lines, atoi}
use sdk_linux.NetworkMonitor.{NetworkStatus, network_fail, https_ok}
use sdk_linux.Agent.State.{
  Agent, not_start, started, send, system, sleep, write_restart, play, close_mic, does, enqueue,
}

-- `NET_CONFIG` and `NO_NET_CONFIG`.
abbrev pub net_config : ℕ
net_config = 1

abbrev pub no_net_config : ℕ
no_net_config = 0

-- `setNetwork`.
unfoldable pub set_network : Agent → Agent
set_network s = does (system "rm -rf /home/pi/ivs/*.db" ∷ []) s

unfoldable pub on_speaking : Agent → Agent
on_speaking s = record s { in_thinking = false }

unfoldable pub on_thinking : Agent → Agent
on_thinking s = record s { in_thinking = true }

-- `stopCapture`: the first end of a dialog only welcomes the user.
unfoldable pub stop_capture : Agent → Agent
stop_capture s =
    let idle = record s { in_thinking = false } in
    elim s.first_dialog_state [
      | not_start ↦
          does
            (system "/home/pi/ivs/SampleAppCtrl.sh play /home/pi/ivs/sound_effect/connected.mp3 0.5"
              ∷ [])
            (record idle { first_dialog_state = started })
      | started ↦ enqueue close_mic (does (system "echo 3 > /home/pi/ivs/ledfile" ∷ []) idle)
    ]

unfoldable pub iflyos_app_exited : Agent → Agent
iflyos_app_exited s = enqueue close_mic s

-- The lines of a volume message: anything but two is passed over.
unfoldable pub play_volume : Option (List Bytes) → Agent → Agent
play_volume (some (volume ∷ muted ∷ [])) s =
    does (play "/home/pi/ivs/sound_effect/plastic-soda-pop.wav" (atoi volume) ∷ []) s
play_volume _ s = s

unfoldable pub vol_changed : Bytes → Agent → Agent
unfolding play_volume
vol_changed msg s = play_volume (get_lines msg) s

unfoldable pub revoke_auth : Agent → Agent
revoke_auth s = does (write_restart s.restart_channel no_net_config ∷ []) s

unfoldable pub token_expired : Agent → Agent
token_expired s =
    does
      (system "/home/pi/ivs/SampleAppCtrl.sh play /home/pi/ivs/sound_effect/expired.mp3 0.5"
        ∷ sleep 1
        ∷ write_restart s.restart_channel net_config
        ∷ [])
      (record s { first_dialog_state = started })

-- `playAuthCode`, behind `sonic_speak` (Agent/AuthCode.antt): one more detached thread.
unfoldable pub play_auth_code : Agent → Agent
play_auth_code s = record s {
  stop_auth_code_player = false;
  auth_code_players = s.auth_code_players + 1;
}

unfoldable pub auth_ok : Agent → Agent
auth_ok s = record s { stop_auth_code_player = true }

unfoldable pub auth_error : Agent → Agent
auth_error s =
    does
      (send "DO_STOP" []
        ∷ system
            "/home/pi/ivs/SampleAppCtrl.sh play /home/pi/ivs/sound_effect/config_wifi_fail.mp3 0.5"
        ∷ write_restart s.restart_channel net_config
        ∷ [])
      (record s { stop_auth_code_player = true })

-- `NetworkStatusMonitor::onNetworkStatusChanged`.
unfoldable pub on_network_status_changed : NetworkStatus → Agent → Agent
on_network_status_changed network_fail s =
    does (send "DO_STOP" [] ∷ []) (record s { has_network = false })
on_network_status_changed https_ok s =
    does (sleep 2 ∷ send "DO_START" [] ∷ []) (record s { has_network = true })

-- The three handlers with a static flag that turns at each call. `version`, `description` and
-- `failure` are the Chinese texts of the source, in their bytes; `failure` has its line feed.
unfoldable pub sw_update : Bytes → Bytes → Agent → Agent
sw_update version failure s =
    let turned = record s { sw_update_flag = not s.sw_update_flag } in
    if s.sw_update_flag
    then does
        (send "DO_REPORT_SW_UPDATE_START" version ∷ send "DO_REPORT_SW_UPDATE_SUCCESS" version ∷ [])
        turned
    else does
        (send "DO_REPORT_SW_UPDATE_START" version ∷ send "DO_REPORT_SW_UPDATE_FAIL" failure ∷ [])
        turned

unfoldable pub sw_update_check : Bytes → Agent → Agent
sw_update_check version s =
    let turned = record s { sw_check_flag = not s.sw_check_flag } in
    if s.sw_check_flag
    then does (send "DO_REPORT_SW_UPDATE_CHECK_SUCCESS" (codes "true" ++ b'\n' ∷ version) ∷ [])
        turned
    else does (send "DO_REPORT_SW_UPDATE_CHECK_FAIL" [] ∷ []) turned

-- `lines[1]` of a message with fewer lines is undefined in C++: `none`.
unfoldable pub answer_wakeword : Bytes → Option (List Bytes) → Agent → Option Agent
answer_wakeword failure (some (url ∷ key ∷ rest)) s =
    let turned = record s { wakeword_flag = not s.wakeword_flag } in
    some (
      if s.wakeword_flag
      then does (send "DO_REPORT_SET_WW_SUCCESS" key ∷ []) turned
      else does (send "DO_REPORT_SET_WW_FAIL" (key ++ failure) ∷ []) turned)
answer_wakeword failure _ s = none

unfoldable pub set_wakeword : Bytes → Bytes → Agent → Option Agent
unfolding answer_wakeword
set_wakeword failure msg s = answer_wakeword failure (get_lines msg) s

unfoldable pub factory_reset : Agent → Agent
factory_reset s =
    does
      (send "DO_CLEAR_DATA_THEN_QUIT" []
        ∷ sleep 5
        ∷ write_restart s.restart_channel net_config
        ∷ [])
      s

unfoldable pub reboot : Agent → Agent
reboot s = s
