-- ===== src/Agent/KeyLoop.antt =====
-- The loop of `main` that handles the keys, and its restart at `WAIT_START`.
use sdk_linux.Prelude.{Bool, true, false, Option, none, some, List, [], ◌∷◌, if◌then◌else◌}
use sdk_linux.Prelude.Bytes.{codes}
use sdk_linux.SysKey.{
  SysKeyValue, key_vol_down, key_vol_up, key_play_pause, key_mic_mute, key_vol_down_long_press,
  key_vol_up_long_press, key_play_pause_long_press, key_net_config, key_restart_iflyos,
  key_set_dnd_on, key_set_dnd_off, key_none, key_error,
}
use sdk_linux.Agent.State.{Agent, not_start, send, system, sleep, recorder_stop, sys_key_init, does}
use sdk_linux.Agent.Events.{set_network}

-- Where `main` stands: at `WAIT_START`, or in the loop that reads the keys.
pub data Phase : Type 0 where
  wait_start read_keys : Phase

-- `case KEY_RESTART_IFLYOS`.
unfoldable pub restart : Agent → Agent
restart s =
    does (recorder_stop ∷ send "DO_STOP" [] ∷ sleep 5 ∷ send "DO_START" [] ∷ [])
      (record s { first_dialog_state = not_start })

-- `case KEY_NET_CONFIG`.
unfoldable pub configure : Agent → Agent
unfolding set_network
configure s = does (send "DO_START" [] ∷ []) (
    set_network
      (does (recorder_stop ∷ send "DO_STOP" [] ∷ []) (record s { first_dialog_state = not_start })))

-- `case KEY_MIC_MUTE`.
unfoldable pub toggle_mic : Agent → Agent
toggle_mic s =
    if s.mic_on
    then does
        (system
            "/home/pi/ivs/SampleAppCtrl.sh play /home/pi/ivs/sound_effect/disable-microphone.mp3 0.5"
          ∷ system "echo 2 > /home/pi/ivs/ledfile"
          ∷ [])
        (record s { mic_on = false })
    else does
        (system
            "/home/pi/ivs/SampleAppCtrl.sh play /home/pi/ivs/sound_effect/enable-microphone.mp3 0.5"
          ∷ system "echo 3 > /home/pi/ivs/ledfile"
          ∷ [])
        (record s { mic_on = true })

-- The `switch` on a key that `SYSKey_getKeyVaule` returned.
unfoldable pub on_key : SysKeyValue → Agent → Agent × Phase
unfolding restart configure toggle_mic
on_key key_set_dnd_on s = (does (send "DO_SET_DND" (codes "true") ∷ []) s, read_keys)
on_key key_set_dnd_off s = (does (send "DO_SET_DND" (codes "false") ∷ []) s, read_keys)
on_key key_restart_iflyos s = (restart s, wait_start)
on_key key_net_config s = (configure s, wait_start)
on_key key_vol_down s = (does (send "DO_KEYPRESS_VOL_DOWN" [] ∷ []) s, read_keys)
on_key key_vol_up s = (does (send "DO_KEYPRESS_VOL_UP" [] ∷ []) s, read_keys)
on_key key_play_pause s = (does (send "DO_KEYPRESS_PLAY_PAUSE" [] ∷ []) s, read_keys)
on_key key_mic_mute s = (toggle_mic s, read_keys)
on_key key_vol_down_long_press s = (s, read_keys)
on_key key_vol_up_long_press s = (s, read_keys)
on_key key_play_pause_long_press s = (s, read_keys)
on_key key_none s = (s, read_keys)
on_key key_error s = (s, read_keys)

-- `WAIT_START`: the thought is forgotten, and `main` polls until iFLYOS reported idle once. The
-- argument holds the states that the polls saw; `none` if none of them was the started one.
unfoldable pub wait_iflyos : List Bool → Agent → Option Agent
wait_iflyos [] s = none
wait_iflyos (ready ∷ polls) s =
    let rest = wait_iflyos polls (does (sleep 1 ∷ []) (record s { in_thinking = false })) in
    if ready then some (does (sys_key_init ∷ []) (record s { in_thinking = false })) else rest
