-- ===== src/Agent/Recording.antt =====
-- Whether the microphone is recorded, along the steps of the whole process.
use sdk_linux.Prelude.{Bool, true, false, Option, none, some, List, [], ◌∷◌, ◌++◌, ◌≡◌, refl, arith}
use sdk_linux.Prelude.Int.{ℤ}
use sdk_linux.Prelude.Bytes.{Bytes}
use sdk_linux.Agent.State.{
  Task, close_mic, dialog_again, start_forward, Agent, Effect, sleep, recorder_stop, recorder_start,
  does,
}
use sdk_linux.Agent.Main.{
  stop_capture_handler, on_thinking_handler, on_speaking_handler, iflyos_app_exited_handler,
  play_auth_code_handler, auth_ok_handler, auth_error_handler, vol_changed_handler,
  token_expired_handler, revoke_auth_handler, sw_update_handler, sw_update_check_handler,
  set_wakeword_handler, factory_reset_handler, reboot_handler, Handler, Texts, call_handler,
}
use sdk_linux.Ipc.Worker.{Round}
use sdk_linux.Agent.KeyLoop.{on_key, wait_iflyos}
use sdk_linux.NetworkMonitor.{network_fail, https_ok, NetworkStatus}
use sdk_linux.SysKey.{SysKeyValue}
use sdk_linux.Agent.Dialog.{run_front, on_audio, on_wake_word}
use sdk_linux.Agent.AuthCode.{auth_code_round}
use sdk_linux.Agent.Events.{
  reboot, factory_reset, set_wakeword, sw_update_check, sw_update, revoke_auth, token_expired,
  vol_changed, auth_error, auth_ok, play_auth_code, iflyos_app_exited, on_speaking, on_thinking,
  play_volume, stop_capture, answer_wakeword, on_network_status_changed,
}
use sdk_linux.Ipc.Text.{get_lines}

-- `recorder->start()` and `recorder->stop()`.
abbrev pub turned : Bool → Effect → Bool
turned on recorder_start = true
turned on recorder_stop = false
turned on _ = on

-- From the oldest effect on, so that the last of these calls decides.
unfoldable pub recording_from : Bool → List Effect → Bool
recording_from on [] = on
recording_from on (e ∷ es) = recording_from (turned on e) es

unfoldable pub is_recording : Agent → Bool
is_recording s = recording_from false s.effects

pub recording_from-append :
    (on : Bool) (es fs : List Effect)
    → recording_from on (es ++ fs) ≡ recording_from (recording_from on es) fs
unfolding recording_from
recording_from-append on [] fs = refl
recording_from-append on (e ∷ es) fs = recording_from-append (turned on e) es fs

pub wake-IsOff : (s : Agent) → is_recording s ≡ false → is_recording (on_wake_word s) ≡ false
unfolding on_wake_word is_recording recording_from
wake-IsOff s off = grind (arith, recording_from-append)

play_volume-IsOff :
    (lines : Option (List Bytes)) (s : Agent)
    → is_recording s ≡ false
    → is_recording (play_volume lines s) ≡ false
unfolding play_volume is_recording recording_from
play_volume-IsOff none s off = off
play_volume-IsOff (some []) s off = off
play_volume-IsOff (some (a ∷ [])) s off = off
play_volume-IsOff (some (a ∷ b ∷ [])) s off = grind (arith, recording_from-append)
play_volume-IsOff (some (a ∷ b ∷ c ∷ rest)) s off = off

answer_wakeword-IsOff :
    (failure : Bytes) (lines : Option (List Bytes)) (s q : Agent)
    → answer_wakeword failure lines s ≡ some q
    → is_recording s ≡ false
    → is_recording q ≡ false
unfolding answer_wakeword is_recording recording_from
answer_wakeword-IsOff failure none s q h off = cc
answer_wakeword-IsOff failure (some []) s q h off = cc
answer_wakeword-IsOff failure (some (a ∷ [])) s q h off = cc
answer_wakeword-IsOff failure (some (a ∷ b ∷ rest)) s q h off = grind (arith, recording_from-append)

-- No handler starts the recorder.
call_handler-IsOff :
    (t : Texts) (h : Handler) (msg : Bytes) (s q : Agent)
    → call_handler t h msg s ≡ some q
    → is_recording s ≡ false
    → is_recording q ≡ false
unfolding call_handler is_recording recording_from stop_capture on_thinking on_speaking
    iflyos_app_exited play_auth_code auth_ok auth_error vol_changed token_expired revoke_auth
    sw_update sw_update_check set_wakeword factory_reset reboot
call_handler-IsOff t stop_capture_handler msg s q h off = grind (arith, recording_from-append)
call_handler-IsOff t on_thinking_handler msg s q h off = ground arith
call_handler-IsOff t on_speaking_handler msg s q h off = ground arith
call_handler-IsOff t iflyos_app_exited_handler msg s q h off = ground arith
call_handler-IsOff t play_auth_code_handler msg s q h off = ground arith
call_handler-IsOff t auth_ok_handler msg s q h off = ground arith
call_handler-IsOff t auth_error_handler msg s q h off = grind (arith, recording_from-append)
call_handler-IsOff t vol_changed_handler msg s q h off =
    ground (arith, play_volume-IsOff (get_lines msg) s off)
call_handler-IsOff t token_expired_handler msg s q h off = grind (arith, recording_from-append)
call_handler-IsOff t revoke_auth_handler msg s q h off = grind (arith, recording_from-append)
call_handler-IsOff t sw_update_handler msg s q h off = grind (arith, recording_from-append)
call_handler-IsOff t sw_update_check_handler msg s q h off = grind (arith, recording_from-append)
call_handler-IsOff t set_wakeword_handler msg s q h off =
    answer_wakeword-IsOff t.wakeword_failure (get_lines msg) s q h off
call_handler-IsOff t factory_reset_handler msg s q h off = grind (arith, recording_from-append)
call_handler-IsOff t reboot_handler msg s q h off = ground arith

pub code-IsOff : (s : Agent) → is_recording s ≡ false → is_recording (auth_code_round s) ≡ false
unfolding auth_code_round is_recording recording_from
code-IsOff s off = grind (arith, recording_from-append)

pub audio-IsOff :
    (sound : Bytes) (origin : Bool) (s : Agent)
    → is_recording s ≡ false
    → is_recording (on_audio sound origin s) ≡ false
unfolding on_audio is_recording recording_from
audio-IsOff sound origin s off = grind (arith, recording_from-append)

pub network-IsOff :
    (status : NetworkStatus) (s : Agent)
    → is_recording s ≡ false
    → is_recording (on_network_status_changed status s) ≡ false
unfolding on_network_status_changed is_recording recording_from
network-IsOff network_fail s off = grind (arith, recording_from-append)
network-IsOff https_ok s off = grind (arith, recording_from-append)

pub round-IsOff :
    (t : Texts) (r : Round Handler) (s q : Agent)
    → elim r [
      | Round.stop ↦ some s
      | Round.next ↦ some s
      | Round.call h evt msg ↦ call_handler t h msg s
    ]
      ≡ some q
    → is_recording s ≡ false
    → is_recording q ≡ false
round-IsOff t Round.stop s q e off = ground (arith, e, off)
round-IsOff t Round.next s q e off = ground (arith, e, off)
round-IsOff t (Round.call h evt msg) s q e off = call_handler-IsOff t h msg s q e off

pub front-IsOff :
    (fd : ℤ) (s q : Agent) (tasks : List Task)
    → s.queue ≡ tasks
    → run_front fd s ≡ some q
    → is_recording s ≡ false
    → is_recording q ≡ false
unfolding run_front is_recording recording_from
front-IsOff fd s q [] e h off = ground arith
front-IsOff fd s q (close_mic ∷ tasks) e h off = grind (arith, recording_from-append)
front-IsOff fd s q (dialog_again ∷ tasks) e h off = grind (arith, recording_from-append)
front-IsOff fd s q (start_forward ∷ tasks) e h off = grind (arith, recording_from-append)

pub wait-IsOff :
    (seen : List Bool) (s q : Agent)
    → wait_iflyos seen s ≡ some q
    → is_recording s ≡ false
    → is_recording q ≡ false
unfolding wait_iflyos is_recording recording_from
wait-IsOff [] s q h off = cc
wait-IsOff (true ∷ seen) s q h off = grind (arith, recording_from-append)
wait-IsOff (false ∷ seen) s q h off =
    wait-IsOff seen (does (sleep 1 ∷ []) (record s { in_thinking = false })) q h
      (grind (arith, recording_from-append))

-- No key starts the recorder.
pub key-IsOff :
    (k : SysKeyValue) (s : Agent) → is_recording s ≡ false → is_recording (on_key k s).0 ≡ false
unfolding on_key is_recording recording_from
key-IsOff k s off = grind (arith, recording_from-append)
