-- ===== src/Recorder/Rounds.antt =====
-- The rounds of `readAudio`, and the end of them.
use native.Mathlib.Decide.{dec_lt}
use sdk_linux.Prelude.{
  inl, inr, ◌⊎◌, ◌≢◌, ℕ, ◌+◌, ◌-◌, ◌≤◌, ◌≡◌, refl, arith, Bool, true, false, List, [], ◌∷◌, Option,
  none, some, Option-cases,
}
use sdk_linux.Prelude.Int.{ℤ, pos}
use sdk_linux.Prelude.Bytes.{Bytes}
use sdk_linux.Capture.{alsa_tdmin_init, PcmContainer, alsa_tdmin_uninit, HwResults}
use sdk_linux.Capture.Life.{IsOpen}
use sdk_linux.Recorder.{
  uninit_if_open, end_stop, start, Recorder, Executor, Format, begin_read, end_read, begin_stop,
  set_format, add_observer, cb_ivw, cb_audio,
}

-- A step of the worker, a call of `stop` up to its `join`, or another call of the recorder.
pub data Step : Type 0 where
  begins stops : Step
  ends : ℤ → ℤ → Bytes → List ℤ → Step
  formats : Format → Step
  observes : ℕ → Step
  wakes : ℤ → ℤ → ℤ → Step
  hears : Bytes → Step

unfoldable pub step : Recorder → Step → Option Recorder
step r begins = begin_read r
step r (ends ret detected sound beyond) = end_read ret detected sound beyond r
step r stops = some (begin_stop r)
step r (formats f) = some (set_format f r)
step r (observes o) = some (add_observer o r)
step r (wakes angle score beam) = some (cb_ivw angle score beam r)
step r (hears sound) = some (cb_audio sound r)

unfoldable pub steps : Recorder → List Step → Option Recorder
steps r [] = some r
steps r (a ∷ acts) = elim (step r a) [ none ↦ none | some q ↦ steps q acts ]

-- One run of `readAudio` is queued or reading before the stop, and at most one behind it.
abbrev pub Reads : Bool → Option Executor → Type 0
Reads quit none = Unit {0}
Reads true (some e) = (e.closing ≡ true) × (e.queued + e.reading ≤ 1)
Reads false (some e) = (e.closing ≡ false) × (e.queued + e.reading ≡ 1)

step-Reads :
    (r q : Recorder) (a : Step)
    → step r a ≡ some q
    → Reads r.quit r.executor
    → Reads q.quit q.executor
unfolding step begin_read end_read begin_stop set_format add_observer cb_ivw cb_audio
step-Reads r q begins h v = ground (arith, v, h)
step-Reads r q stops h v = ground (arith, v, h)
step-Reads r q (ends ret detected sound beyond) h v = ground (arith, v, h)
step-Reads r q (formats f) h v = ground (arith, v, h)
step-Reads r q (observes o) h v = ground (arith, v, h)
step-Reads r q (wakes angle score beam) h v = ground (arith, v, h)
step-Reads r q (hears sound) h v = ground (arith, v, h)

steps-Reads :
    (r q : Recorder) (acts : List Step)
    → steps r acts ≡ some q
    → Reads r.quit r.executor
    → Reads q.quit q.executor
unfolding steps
steps-Reads r q [] h v = ground (arith, h, v)
steps-Reads r q (a ∷ acts) h v = elim (Option-cases (step r a)) [
  | inl e ↦ ground (arith, h, e)
  | inr (p, e) ↦ steps-Reads p q acts (rw (steps, e) at h) (step-Reads r p a e v)
]

-- The executor is there, with its run of `readAudio`.
abbrev pub Reading : Recorder → Type 0
Reading r = (e : Executor) × (r.executor ≡ some e) × Reads r.quit (some e)

kept :
    (r q : Recorder) (a : Step) (e : Executor)
    → step r a ≡ some q
    → r.executor ≡ some e
    → q.executor ≢ none
unfolding step begin_read end_read begin_stop set_format add_observer cb_ivw cb_audio
kept r q begins e h f = ground (arith, h, f)
kept r q stops e h f = ground (arith, h, f)
kept r q (ends ret detected sound beyond) e h f = ground (arith, h, f)
kept r q (formats x) e h f = ground (arith, h, f)
kept r q (observes o) e h f = ground (arith, h, f)
kept r q (wakes angle score beam) e h f = ground (arith, h, f)
kept r q (hears sound) e h f = ground (arith, h, f)

step-Reading : (r q : Recorder) (a : Step) → step r a ≡ some q → Reading r → Reading q
step-Reading r q a h (e, f, v) = elim (Option-cases q.executor) [
  | inl gone ↦ absurd (kept r q a e h f gone)
  | inr (x, g) ↦ (x, g, rw g at (step-Reads r q a h (rw f v)))
]

steps-Reading : (r q : Recorder) (acts : List Step) → steps r acts ≡ some q → Reading r → Reading q
unfolding steps
steps-Reading r q [] h v = let same : r ≡ q = ground (arith, h) in rw same at v
steps-Reading r q (a ∷ acts) h v = elim (Option-cases (step r a)) [
  | inl e ↦ ground (arith, h, e)
  | inr (p, e) ↦ steps-Reading p q acts (rw (steps, e) at h) (step-Reading r p a e v)
]

-- Where `alsa_tdmin_init` succeeds, so does `start`, and makes the executor with its run.
pub start-Reading :
    (opened : Bool) (hw : HwResults) (r : Recorder) (p : PcmContainer)
    → alsa_tdmin_init opened hw (record r.pcm_params { channels = 1 }) ≡ some (p, pos 0)
    → (s : Recorder) × (start opened hw r ≡ some s) × Reading s
unfolding start
start-Reading opened hw r p init = (
  record r {
    pcm_params = p;
    quit = false;
    executor = some (record { closing = false; queued = 1; reading = 0 });
  },
  rw (start, init) refl,
  (record { closing = false; queued = 1; reading = 0 }, refl, (refl, refl)),
)

-- Where `alsa_tdmin_init` succeeds, `start` makes the executor. Along every schedule of the worker's
-- steps, calls of `stop` up to their `join`, and the other calls, the executor stays, and exactly one
-- run of `readAudio` is queued or reading as long as no `stop` has begun, and at most one behind that.
pub one_read :
    (opened : Bool) (hw : HwResults) (r s q : Recorder) (p : PcmContainer) (acts : List Step)
    → alsa_tdmin_init opened hw (record r.pcm_params { channels = 1 }) ≡ some (p, pos 0)
    → start opened hw r ≡ some s
    → steps s acts ≡ some q
    → Reading q
one_read opened hw r s q p acts init begun h =
    let (u, same, v) = start-Reading opened hw r p init in
    let one : u ≡ s = ground (arith, same, begun) in steps-Reading s q acts h (rw one at v)

-- `stop` has come back, with no executor and the device closed.
abbrev pub Stopped : Option Recorder → Type 0
Stopped none = true ≡ false
Stopped (some s) = (s.executor ≡ none) × (s.pcm_params.handle ≡ false)

abbrev pub is_own : Step → Bool
is_own begins = true
is_own (ends ret detected sound beyond) = true
is_own _ = false

idle-Stopped :
    (n : ℕ) (q : Recorder) (e : Executor)
    → q.executor ≡ some e
    → e.queued + e.reading ≡ 0
    → IsOpen n q.pcm_params
    → Stopped (end_stop q)
unfolding end_stop alsa_tdmin_uninit uninit_if_open
idle-Stopped n q e f idle o = ground (arith, f, idle, o)

gone-Stopped :
    (n : ℕ) (q : Recorder) → q.executor ≡ none → IsOpen n q.pcm_params → Stopped (end_stop q)
unfolding end_stop alsa_tdmin_uninit uninit_if_open
gone-Stopped n q f o = ground (arith, f, o)

Reads-at_most_one : (quit : Bool) (e : Executor) → Reads quit (some e) → e.queued + e.reading ≤ 1
Reads-at_most_one true e v = v.1
Reads-at_most_one false e v = omega (arith, v.1)

stop_moves :
    (r : Recorder) (e : Executor)
    → r.executor ≡ some e
    → (e.queued + e.reading ≡ 0) ⊎ ((a : Step) × (is_own a ≡ true) × (step (begin_stop r) a ≢ none))
unfolding step begin_stop begin_read end_read
stop_moves r e f = elim (dec_lt 0 e.queued) [
  | yes some_queued ↦ inr (begins, refl, ground (arith, f, some_queued))
  | no none_queued ↦ elim (dec_lt 0 e.reading) [
    | yes some_read ↦ inr (ends (pos 0) (pos 0) [] [], refl, ground (arith, f, some_read))
    | no none_read ↦ inl (omega arith)
  ]
]

own-none :
    (r : Recorder) (a : Step) → r.executor ≡ none → is_own a ≡ true → step (begin_stop r) a ≡ none
unfolding step begin_stop begin_read end_read
own-none r begins f own = ground (arith, f)
own-none r (ends ret detected sound beyond) f own = ground (arith, f)
own-none r stops f own = ground (arith, own)
own-none r (formats x) f own = ground (arith, own)
own-none r (observes x) f own = ground (arith, own)
own-none r (wakes x y z) f own = ground (arith, own)
own-none r (hears x) f own = ground (arith, own)

own-idle :
    (r q : Recorder) (a : Step) (e : Executor)
    → r.executor ≡ some e
    → e.queued + e.reading ≤ 1
    → is_own a ≡ true
    → step (begin_stop r) a ≡ some q
    → (x : Executor) × (q.executor ≡ some x)
      × (x.queued + x.reading ≡ 0)
      × (q.pcm_params ≡ r.pcm_params)
unfolding step begin_stop begin_read end_read
own-idle r q begins e f few own h = (
  record { closing = true; queued = e.queued - 1; reading = e.reading },
  ground (arith, f, h),
  ground (arith, f, h, few),
  ground (arith, f, h),
)
own-idle r q (ends ret detected sound beyond) e f few own h = (
  record { closing = true; queued = e.queued; reading = e.reading - 1 },
  ground (arith, f, h),
  ground (arith, f, h, few),
  ground (arith, f, h),
)
own-idle r q stops e f few own h = ground (arith, own)
own-idle r q (formats x) e f few own h = ground (arith, own)
own-idle r q (observes x) e f few own h = ground (arith, own)
own-idle r q (wakes x y z) e f few own h = ground (arith, own)
own-idle r q (hears x) e f few own h = ground (arith, own)

-- A stop of a recorder with an open device comes back at once, with no executor and the device
-- closed, or the worker can make a step.
pub stop_or_step :
    (n : ℕ) (r : Recorder)
    → IsOpen n r.pcm_params
    → Stopped (end_stop (begin_stop r))
      ⊎ ((a : Step) × (is_own a ≡ true) × (step (begin_stop r) a ≢ none))
unfolding begin_stop
stop_or_step n r o = elim (Option-cases r.executor) [
  | inl f ↦ inl (gone-Stopped n (begin_stop r) (ground (arith, f)) o)
  | inr (e, f) ↦ elim (stop_moves r e f) [
    | inl idle ↦
        inl (idle-Stopped n (begin_stop r) (record e { closing = true }) (ground (arith, f)) idle o)
    | inr move ↦ inr move
  ]
]

-- Where at most one run of `readAudio` is queued or reading, as it always is, a stop of a recorder
-- with an open device comes back behind any one step of the worker, with no executor and the device
-- closed.
pub stop_returns :
    (n : ℕ) (r q : Recorder) (a : Step)
    → Reads r.quit r.executor
    → IsOpen n r.pcm_params
    → is_own a ≡ true
    → step (begin_stop r) a ≡ some q
    → Stopped (end_stop q)
stop_returns n r q a v o own h = elim (Option-cases r.executor) [
  | inl f ↦ ground (arith, own-none r a f own, h)
  | inr (e, f) ↦
      let (x, held, idle, pcm) =
        own-idle r q a e f (Reads-at_most_one r.quit e (rw f at v)) own h in
      idle-Stopped n q x held idle (rw pcm o)
]
