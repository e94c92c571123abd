-- ===== src/Agent/Dialog.antt =====
-- `OrgAudioObserver` of MicAgent.cpp, and the closures that the executor runs.
use sdk_linux.Prelude.{
  ◌+◌, Bool, true, false, not, ◌&&◌, Option, none, some, [], ◌∷◌, if◌then◌else◌, length,
}
use sdk_linux.Prelude.Int.{ℤ, pos, neg, is_neg}
use sdk_linux.Prelude.Bytes.{Bytes, codes}
use sdk_linux.Agent.State.{
  Agent, is_started, send, system, play, close_fd, open_fifo, write_audio, Task, close_mic,
  dialog_again, start_forward, does, enqueue,
}

abbrev pub fifo_path : Bytes
fifo_path = codes "/tmp/iflyos_inputaudio"

-- The closure of `stopCapture` and of `iflyosAppExited`.
unfoldable pub run_close : Agent → Agent
run_close s =
    if s.forwarding
    then does (close_fd s.fd_audio ∷ []) (record s { forwarding = false; fd_audio = neg 1 })
    else s

-- The closure for a wake word in a dialog that goes on.
unfoldable pub run_again : Agent → Agent
run_again s =
    does (send "DO_DIALOG_START" fifo_path ∷ system "echo 0 > /home/pi/ivs/ledfile" ∷ []) s

-- The closure for a new dialog, where `open` returns `fd`; the volume of `play` is 100.
unfoldable pub run_start : ℤ → Agent → Agent
run_start fd s =
    let opened =
      does
        (send "DO_DIALOG_START" fifo_path
          ∷ system "echo 0 > /home/pi/ivs/ledfile"
          ∷ play "/home/pi/ivs/sound_effect/here.wav" (pos 100)
          ∷ open_fifo
          ∷ [])
        (record s { fd_audio = fd }) in
    if is_neg fd then record opened { forwarding = false } else opened

unfoldable pub run_task : ℤ → Task → Agent → Agent
unfolding run_close run_again run_start
run_task fd close_mic s = run_close s
run_task fd dialog_again s = run_again s
run_task fd start_forward s = run_start fd s

-- The executor's one thread takes the task at the front; `fd` is what a call of `open` in it returns.
unfoldable pub run_front : ℤ → Agent → Option Agent
unfolding run_task
run_front fd s = elim s.queue [
  | [] ↦ none
  | task ∷ rest ↦ some (run_task fd task (record s { queue = rest }))
]

-- `onAudio`; `origin` says that the format is `ORIGIN_OUTPUT`.
unfoldable pub on_audio : Bytes → Bool → Agent → Agent
on_audio sound origin s =
    let counted = record s { debug_acc = s.debug_acc + length sound } in
    if s.forwarding && origin then does (write_audio s.fd_audio sound ∷ []) counted else counted

-- `onWakeWord`: the early returns, then a dialog that goes on or a new one.
unfoldable pub on_wake_word : Agent → Agent
on_wake_word s =
    if not (is_started s.first_dialog_state)
    then s
    else if not s.mic_on
    then s
    else if not s.has_network
    then does
        (system
            "/home/pi/ivs/SampleAppCtrl.sh play /home/pi/ivs/sound_effect/disconnected.mp3 0.5 &"
          ∷ [])
        s
    else if s.forwarding
    then (if s.in_thinking then s else enqueue dialog_again s)
    else enqueue start_forward (record s { forwarding = true })
