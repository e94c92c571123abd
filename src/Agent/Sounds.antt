-- ===== src/Agent/Sounds.antt =====
-- The sounds, steps and calls of a dialog: `OrgAudioObserver`, `stopCapture` and the executor's closures
-- of MicAgent.cpp.
use sdk_linux.Prelude.{
  ℕ, ◌+◌, ◌≡◌, refl, ap, ◌∙◌, inl, inr, true, false, some, List, [], ◌∷◌, ◌++◌, append-nil,
  append_assoc, arith, length, Option-cases,
}
use sdk_linux.Prelude.Int.{ℤ, pos, neg}
use sdk_linux.Prelude.Bytes.{Bytes}
use sdk_linux.Ipc.Names.{evt_dialog_end}
use sdk_linux.Ipc.State.{Ipc}
use sdk_linux.Ipc.Send.{message}
use sdk_linux.Agent.State.{
  Agent, Effect, started, send, system, play, open_fifo, write_audio, close_fd,
}
use sdk_linux.Agent.Dialog.{fifo_path, on_audio}
use sdk_linux.Agent.Main.{Handler, Texts}
use sdk_linux.Agent.Steps.{Step, receives, wakes, hears, runs, step, steps}

-- The sounds of a dialog in the format of the speech service: those before the wake word, those
-- behind it until the FIFO is open, those until the message of the dialog's end, and those until the
-- FIFO is closed. `fd` is what `open` returns.
pub record Dialog : Type 0 where
  pub fd : ℕ
  pub before : List Bytes
  pub early : List Bytes
  pub during : List Bytes
  pub late : List Bytes

abbrev pub heard : List Bytes → List Step
heard [] = []
heard (sound ∷ sounds) = hears sound true ∷ heard sounds

abbrev pub end_message : Bytes
end_message = message evt_dialog_end []

-- The steps from the end of the dialog on, from the open FIFO on, and from the wake word on.
abbrev pub last_steps : Dialog → List Step
last_steps d = heard d.late ++ runs (pos d.fd) ∷ []

abbrev pub open_steps : Dialog → List Step
open_steps d = heard d.during ++ receives (some end_message) ∷ last_steps d

abbrev pub woken_steps : Dialog → List Step
woken_steps d = heard d.early ++ runs (pos d.fd) ∷ open_steps d

abbrev pub steps_of : Dialog → List Step
steps_of d = heard d.before ++ wakes ∷ woken_steps d

abbrev pub writes : ℤ → List Bytes → List Effect
writes fd [] = []
writes fd (sound ∷ sounds) = write_audio fd sound ∷ writes fd sounds

abbrev pub last_calls : Dialog → List Effect
last_calls d = writes (pos d.fd) d.late ++ close_fd (pos d.fd) ∷ []

abbrev pub open_calls : Dialog → List Effect
open_calls d = writes (pos d.fd) d.during ++ system "echo 3 > /home/pi/ivs/ledfile" ∷ last_calls d

abbrev pub begin_calls : List Effect
begin_calls =
    send "DO_DIALOG_START" fifo_path
    ∷ system "echo 0 > /home/pi/ivs/ledfile"
    ∷ play "/home/pi/ivs/sound_effect/here.wav" (pos 100)
    ∷ open_fifo
    ∷ []

abbrev pub calls_of : Dialog → List Effect
calls_of d = writes (neg 1) d.early ++ begin_calls ++ open_calls d

unfoldable pub all_steps : List Dialog → List Step
all_steps [] = []
all_steps (d ∷ ds) = steps_of d ++ all_steps ds

unfoldable pub all_calls : List Dialog → List Effect
all_calls [] = []
all_calls (d ∷ ds) = calls_of d ++ all_calls ds

-- No dialog is going on, and a wake word begins one.
pub record IsReady (s : Agent) : Type 0 where
  pub idle : s.forwarding ≡ false
  pub closed : s.fd_audio ≡ neg 1
  pub online : s.has_network ≡ true
  pub on : s.mic_on ≡ true
  pub welcome : s.first_dialog_state ≡ started
  pub empty : s.queue ≡ []

audio_idle :
    (sound : Bytes) (s : Agent)
    → s.forwarding ≡ false
    → on_audio sound true s ≡ record s { debug_acc = s.debug_acc + length sound }
unfolding on_audio
audio_idle sound s off = ground arith

audio_forwarding :
    (sound : Bytes) (s : Agent)
    → s.forwarding ≡ true
    → on_audio sound true s ≡ record s {
      debug_acc = s.debug_acc + length sound;
      effects = s.effects ++ write_audio s.fd_audio sound ∷ [];
    }
unfolding on_audio
audio_forwarding sound s on = ground arith

module _ (texts : Texts) (ipc : Ipc Handler) where
  pub steps-append :
      (as' bs : List Step) (s t : Agent)
      → steps texts ipc s as' ≡ some t
      → steps texts ipc s (as' ++ bs) ≡ steps texts ipc t bs
  unfolding steps
  steps-append [] bs s t h = ground (arith, h)
  steps-append (a ∷ as') bs s t h = elim (Option-cases (step texts ipc s a)) [
    | inl e ↦ ground (arith, h, e)
    | inr (u, e) ↦ rw (steps, e) (steps-append as' bs u t (rw (e, steps) at h))
  ]

  -- Sound while nothing is forwarded changes a count only.
  pub heard_idle :
      (sounds : List Bytes) (s : Agent)
      → s.forwarding ≡ false
      → (n : ℕ) × (steps texts ipc s (heard sounds) ≡ some (record s { debug_acc = n }))
  unfolding steps step
  heard_idle [] s off = (s.debug_acc, refl)
  heard_idle (sound ∷ sounds) s off =
      let (n, h) = heard_idle sounds (record s { debug_acc = s.debug_acc + length sound }) off in
      (n, ap (λ q. steps texts ipc q (heard sounds)) (audio_idle sound s off) ∙ h)

  -- Sound that is forwarded is written to the descriptor, whole and in order.
  pub heard_forwarding :
      (sounds : List Bytes) (s : Agent)
      → s.forwarding ≡ true
      → (n : ℕ) × (steps texts ipc s (heard sounds)
          ≡ some (record s { debug_acc = n; effects = s.effects ++ writes s.fd_audio sounds }))
  unfolding steps step
  heard_forwarding [] s on = (s.debug_acc, rw append-nil refl)
  heard_forwarding (sound ∷ sounds) s on =
      let t = record s {
        debug_acc = s.debug_acc + length sound;
        effects = s.effects ++ write_audio s.fd_audio sound ∷ [];
      } in
      let (n, h) = heard_forwarding sounds t on in
      (
        n,
        ap (λ q. steps texts ipc q (heard sounds)) (audio_forwarding sound s on)
            ∙ h
            ∙ ap (λ es. some (record s { debug_acc = n; effects = es }))
                (append_assoc s.effects (write_audio s.fd_audio sound ∷ [])
                  (writes s.fd_audio sounds)),
      )
