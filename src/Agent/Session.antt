-- ===== src/Agent/Session.antt =====
-- Dialogs one after the other, from the wake word to the close of the FIFO: `OrgAudioObserver`,
-- `stopCapture` and the executor's closures of MicAgent.cpp along the steps of a process.
use sdk_linux.Prelude.{
  ℕ, ◌≡◌, refl, sym, ap, ◌∙◌, true, false, some, List, [], ◌∷◌, ◌++◌, append-nil, append_assoc,
  arith,
}
use sdk_linux.Prelude.Int.{ℤ, pos, neg}
use sdk_linux.Prelude.Bytes.{Bytes}
use sdk_linux.Prelude.Dict.{lookup}
use sdk_linux.Ipc.Names.{evt_dialog_end}
use sdk_linux.Ipc.State.{Ipc}
use sdk_linux.Ipc.RoundTrip.{split_message_lem, receive_split}
use sdk_linux.Agent.State.{Task, Agent, Effect, started, close_mic, start_forward, system}
use sdk_linux.Agent.Events.{stop_capture}
use sdk_linux.Agent.Dialog.{run_task, run_front, on_wake_word}
use sdk_linux.Agent.Main.{Handler, call_handler, stop_capture_handler, Texts, receive_round}
use sdk_linux.Agent.Steps.{Step, receives, wakes, runs, step, steps}
use sdk_linux.Agent.Sounds.{
  Dialog, heard, end_message, last_steps, open_steps, woken_steps, steps_of, writes, last_calls,
  open_calls, begin_calls, calls_of, all_steps, all_calls, IsReady, steps-append, heard_idle,
  heard_forwarding,
}

abbrev ready : Agent → Agent
ready s = record s {
  forwarding = false;
  fd_audio = neg 1;
  has_network = true;
  mic_on = true;
  first_dialog_state = started;
  queue = [];
}

ready_lem : (s : Agent) → IsReady s → s ≡ ready s
ready_lem s v = ground (arith, v)

-- While sound is forwarded to `fd`.
abbrev talking : Agent → ℤ → List Task → ℕ → List Effect → Agent
talking s fd q n es = record (ready s) {
  forwarding = true;
  fd_audio = fd;
  debug_acc = n;
  queue = q;
  effects = es;
}

abbrev calm : Agent → Agent
calm s = record s { in_thinking = false }

module _ (texts : Texts) (ipc : Ipc Handler) where
  then_heard_idle :
      (sounds : List Bytes) (rest : List Step) (s : Agent)
      → s.forwarding ≡ false
      → (n : ℕ) × (steps texts ipc s (heard sounds ++ rest)
          ≡ steps texts ipc (record s { debug_acc = n }) rest)
  then_heard_idle sounds rest s off =
      let (n, h) = heard_idle texts ipc sounds s off in
      (n, steps-append texts ipc (heard sounds) rest s (record s { debug_acc = n }) h)

  then_heard :
      (sounds : List Bytes) (rest : List Step) (s : Agent)
      → s.forwarding ≡ true
      → (n : ℕ) × (steps texts ipc s (heard sounds ++ rest)
          ≡ steps texts ipc
              (record s { debug_acc = n; effects = s.effects ++ writes s.fd_audio sounds })
              rest)
  then_heard sounds rest s on =
      let (n, h) = heard_forwarding texts ipc sounds s on in
      (
        n,
        steps-append texts ipc (heard sounds) rest s
            (record s { debug_acc = n; effects = s.effects ++ writes s.fd_audio sounds }) h,
      )

  receive_end :
      (s : Agent)
      → lookup evt_dialog_end ipc.handlers ≡ some stop_capture_handler
      → receive_round texts ipc (some end_message) s ≡ some (stop_capture s)
  unfolding receive_round call_handler
  receive_end s h =
      let called =
        receive_split ipc end_message evt_dialog_end []
          (split_message_lem evt_dialog_end [] (ground arith) (ground arith) tt) in
      rw (receive_round, called, h) refl

  last_lem :
      (d : Dialog) (s : Agent) (n : ℕ) (es : List Effect)
      → (n' : ℕ) × (steps texts ipc (talking s (pos d.fd) (close_mic ∷ []) n es) (last_steps d)
          ≡ some (record (ready s) { debug_acc = n'; effects = es ++ last_calls d }))
  unfolding steps step run_front run_task
  last_lem d s n es =
      let (n', h) =
        then_heard d.late (runs (pos d.fd) ∷ []) (talking s (pos d.fd) (close_mic ∷ []) n es)
          refl in
      (
        n',
        h
            ∙ ap (λ fs. some (record (ready s) { debug_acc = n'; effects = fs }))
                (append_assoc es (writes (pos d.fd) d.late) _),
      )

  at_end :
      (s : Agent) (fd : ℤ) (n : ℕ) (es : List Effect) (rest : List Step)
      → lookup evt_dialog_end ipc.handlers ≡ some stop_capture_handler
      → steps texts ipc (talking s fd [] n es) (receives (some end_message) ∷ rest)
        ≡ steps texts ipc
            (talking
              (calm s)
              fd
              (close_mic ∷ [])
              n
              (es ++ system "echo 3 > /home/pi/ivs/ledfile" ∷ []))
            rest
  unfolding steps step stop_capture
  at_end s fd n es rest found = rw (steps, receive_end (talking s fd [] n es) found) refl

  open_lem :
      (d : Dialog) (s : Agent) (n : ℕ) (es : List Effect)
      → lookup evt_dialog_end ipc.handlers ≡ some stop_capture_handler
      → (n' : ℕ) × (steps texts ipc (talking s (pos d.fd) [] n es) (open_steps d)
          ≡ some (record (ready (calm s)) { debug_acc = n'; effects = es ++ open_calls d }))
  open_lem d s n es found =
      let (n', h) =
        then_heard d.during (receives (some end_message) ∷ last_steps d)
          (talking s (pos d.fd) [] n es) refl in
      let fs = es ++ writes (pos d.fd) d.during in
      let (n'', k) = last_lem d (calm s) n' (fs ++ system "echo 3 > /home/pi/ivs/ledfile" ∷ []) in
      (
        n'',
        h
            ∙ at_end s (pos d.fd) n' fs (last_steps d) found
            ∙ k
            ∙ ap (λ gs. some (record (ready (calm s)) { debug_acc = n''; effects = gs }))
                (simp append_assoc refl),
      )

  at_open :
      (s : Agent) (fd n : ℕ) (es : List Effect) (rest : List Step)
      → steps texts ipc (talking s (neg 1) (start_forward ∷ []) n es) (runs (pos fd) ∷ rest)
        ≡ steps texts ipc (talking s (pos fd) [] n (es ++ begin_calls)) rest
  unfolding steps step run_front run_task
  at_open s fd n es rest = refl

  woken_lem :
      (d : Dialog) (s : Agent) (n : ℕ) (es : List Effect)
      → lookup evt_dialog_end ipc.handlers ≡ some stop_capture_handler
      → (n' : ℕ) × (steps texts ipc (talking s (neg 1) (start_forward ∷ []) n es) (woken_steps d)
          ≡ some (record (ready (calm s)) { debug_acc = n'; effects = es ++ calls_of d }))
  woken_lem d s n es found =
      let (n', h) =
        then_heard d.early (runs (pos d.fd) ∷ open_steps d)
          (talking s (neg 1) (start_forward ∷ []) n es) refl in
      let fs = es ++ writes (neg 1) d.early in
      let (n'', k) = open_lem d s n' (fs ++ begin_calls) found in
      (
        n'',
        h
            ∙ at_open s d.fd n' fs (open_steps d)
            ∙ k
            ∙ ap (λ gs. some (record (ready (calm s)) { debug_acc = n''; effects = gs }))
                (simp append_assoc refl),
      )

  at_wake :
      (s : Agent) (rest : List Step)
      → steps texts ipc (ready s) (wakes ∷ rest)
        ≡ steps texts ipc (talking s (neg 1) (start_forward ∷ []) s.debug_acc s.effects) rest
  unfolding steps step on_wake_word
  at_wake s rest = refl

  one_dialog :
      (d : Dialog) (s : Agent)
      → lookup evt_dialog_end ipc.handlers ≡ some stop_capture_handler
      → (n : ℕ) × (steps texts ipc (ready s) (steps_of d)
          ≡ some (record (ready (calm s)) { debug_acc = n; effects = s.effects ++ calls_of d }))
  one_dialog d s found =
      let (n, h) = then_heard_idle d.before (wakes ∷ woken_steps d) (ready s) refl in
      let (n', k) = woken_lem d s n s.effects found in
      (n', h ∙ at_wake (record s { debug_acc = n }) (woken_steps d) ∙ k)

-- From a state in which a wake word begins a dialog, with the handler for the end of a dialog in
-- its table, dialogs follow one another, each from the wake word over the open FIFO and the message
-- of its end to the close, with sound in every state. Each ends in such a state again. The sounds
-- from the open to the close are written to the descriptor that was opened for the dialog, each
-- once, whole and in order, and that descriptor is closed behind them; those between the wake word
-- and the open are written to the descriptor -1, and those outside a dialog nowhere. Beside these
-- only the calls of the wake word and of the dialog's end are made.
pub dialogs_forward :
    (texts : Texts) (ipc : Ipc Handler) (ds : List Dialog) (s : Agent)
    → lookup evt_dialog_end ipc.handlers ≡ some stop_capture_handler
    → IsReady s
    → (t : Agent) × (steps texts ipc s (all_steps ds) ≡ some t)
      × IsReady t
      × (t.effects ≡ s.effects ++ all_calls ds)
unfolding all_steps all_calls steps
dialogs_forward texts ipc [] s found v = (s, refl, v, sym (append-nil s.effects))
dialogs_forward texts ipc (d ∷ ds) s found v =
    let (n, h) = one_dialog texts ipc d s found in
    let u = record (ready (calm s)) { debug_acc = n; effects = s.effects ++ calls_of d } in
    let (t, rest, w, es) = dialogs_forward texts ipc ds u found (record {
      idle = refl;
      closed = refl;
      online = refl;
      on = refl;
      welcome = refl;
      empty = refl;
    }) in
    (
      t,
      ap (λ q. steps texts ipc q (steps_of d ++ all_steps ds)) (ready_lem s v)
          ∙ steps-append texts ipc (steps_of d) (all_steps ds) (ready s) u h
          ∙ rest,
      w,
      es ∙ append_assoc s.effects (calls_of d) (all_calls ds),
    )
