-- ===== src/Agent/Forwarding.antt =====
-- The FIFO's descriptor against the flag `forwarding`, on the schedules of the threads.
use sdk_linux.Prelude.{
  ℕ, suc, ◌+◌, ◌≡◌, refl, ◌⊎◌, inl, inr, Bool, true, false, Option, none, some, List, [], ◌∷◌, ◌++◌,
  arith, if◌then◌else◌, Bool-cases,
}
use sdk_linux.Prelude.Int.{ℤ, pos, neg, is_neg}
use sdk_linux.Prelude.Bytes.{Bytes}
use sdk_linux.NetworkMonitor.{NetworkStatus}
use sdk_linux.Agent.State.{Agent, started, initial, Task, close_mic, dialog_again, start_forward}
use sdk_linux.Agent.Events.{
  on_speaking, on_thinking, stop_capture, iflyos_app_exited, token_expired,
  on_network_status_changed,
}
use sdk_linux.Agent.Dialog.{run_front, on_audio, on_wake_word}
use sdk_linux.Agent.KeyLoop.{on_key}
use sdk_linux.SysKey.{SysKeyValue}

abbrev pub closing : List Task → ℕ
closing [] = 0
closing (close_mic ∷ q) = suc (closing q)
closing (dialog_again ∷ q) = closing q
closing (start_forward ∷ q) = closing q

abbrev pub starting : List Task → ℕ
starting [] = 0
starting (start_forward ∷ q) = suc (starting q)
starting (dialog_again ∷ q) = starting q
starting (close_mic ∷ q) = starting q

-- No new dialog waits behind a close.
abbrev pub IsOrdered : List Task → Type 0
IsOrdered [] = Unit {0}
IsOrdered (close_mic ∷ q) = (starting q ≡ 0) × IsOrdered q
IsOrdered (dialog_again ∷ q) = IsOrdered q
IsOrdered (start_forward ∷ q) = IsOrdered q

closing-append : (p q : List Task) → closing (p ++ q) ≡ closing p + closing q
closing-append [] q = omega arith
closing-append (close_mic ∷ p) q = omega (arith, closing-append p q)
closing-append (dialog_again ∷ p) q = closing-append p q
closing-append (start_forward ∷ p) q = closing-append p q

starting-append : (p q : List Task) → starting (p ++ q) ≡ starting p + starting q
starting-append [] q = omega arith
starting-append (start_forward ∷ p) q = omega (arith, starting-append p q)
starting-append (dialog_again ∷ p) q = starting-append p q
starting-append (close_mic ∷ p) q = starting-append p q

-- A task at the end keeps the order if it starts nothing, or if nothing is to be closed.
IsOrdered-append :
    (p : List Task) (t : Task)
    → IsOrdered p
    → (starting (t ∷ []) ≡ 0) ⊎ (closing p ≡ 0)
    → IsOrdered (p ++ t ∷ [])
IsOrdered-append [] close_mic o h = (refl, tt)
IsOrdered-append [] dialog_again o h = tt
IsOrdered-append [] start_forward o h = tt
IsOrdered-append (close_mic ∷ p) t o (inl h) =
    (omega (arith, starting-append p (t ∷ []), o.0), IsOrdered-append p t o.1 (inl h))
IsOrdered-append (close_mic ∷ p) t o (inr h) = absurd (omega arith)
IsOrdered-append (dialog_again ∷ p) t o h = IsOrdered-append p t o h
IsOrdered-append (start_forward ∷ p) t o h = IsOrdered-append p t o h

abbrev pub is_open : ℤ → ℕ
is_open fd = if is_neg fd then 0 else 1

-- While sound is forwarded, the descriptor is open or its opening is queued, and not both; otherwise
-- neither.
pub record Inv (s : Agent) : Type 0 where
  pub ordered : IsOrdered s.queue
  pub balance : starting s.queue + is_open s.fd_audio ≡ (if s.forwarding then 1 else 0)

-- A wake word, a message of the dialog, a change of the network, a key, recorded sound, or a task of
-- the executor in which `open` returns as given.
pub data Event : Type 0 where
  wakes dialog_ends app_exits thinks speaks token_expires : Event
  network : NetworkStatus → Event
  keys : SysKeyValue → Event
  records : Bytes → Event
  runs : ℤ → Event

unfoldable pub step : Agent → Event → Option Agent
step s wakes = some (on_wake_word s)
step s dialog_ends = some (stop_capture s)
step s app_exits = some (iflyos_app_exited s)
step s thinks = some (on_thinking s)
step s speaks = some (on_speaking s)
step s token_expires = some (token_expired s)
step s (network status) = some (on_network_status_changed status s)
step s (keys k) = some (on_key k s).0
step s (records sound) = some (on_audio sound true s)
step s (runs fd) = run_front fd s

unfoldable pub steps : Agent → List Event → Option Agent
steps s [] = some s
steps s (e ∷ es) = elim (step s e) [ none ↦ none | some t ↦ steps t es ]

-- The schedule has no wake word while a close is queued.
abbrev pub IsCalmAt : Agent → Event → Type 0
IsCalmAt s wakes = closing s.queue ≡ 0
IsCalmAt s _ = Unit {0}

pub data IsCalm : Agent → List Event → Type 0 where
  done : {s : Agent} → IsCalm s []
  more :
      {s t : Agent} {e : Event} {es : List Event}
      → IsCalmAt s e
      → step s e ≡ some t
      → IsCalm t es
      → IsCalm s (e ∷ es)

wake-Inv : (s : Agent) → closing s.queue ≡ 0 → Inv s → Inv (on_wake_word s)
unfolding on_wake_word
wake-Inv s calm v = ground (
  arith,
  starting-append s.queue (start_forward ∷ []),
  starting-append s.queue (dialog_again ∷ []),
  IsOrdered-append s.queue start_forward v.ordered (inr calm),
  IsOrdered-append s.queue dialog_again v.ordered (inl refl),
)

ends-Inv : (s : Agent) → Inv s → Inv (stop_capture s)
unfolding stop_capture
ends-Inv s v = ground (
  arith,
  starting-append s.queue (close_mic ∷ []),
  IsOrdered-append s.queue close_mic v.ordered (inl refl),
)

exits-Inv : (s : Agent) → Inv s → Inv (iflyos_app_exited s)
unfolding iflyos_app_exited
exits-Inv s v = ground (
  arith,
  starting-append s.queue (close_mic ∷ []),
  IsOrdered-append s.queue close_mic v.ordered (inl refl),
)

key-Inv : (k : SysKeyValue) (s : Agent) → Inv s → Inv (on_key k s).0
unfolding on_key
key-Inv k s v = ground arith

front_at :
    (fd : ℤ) (s t : Agent) (q : List Task) → s.queue ≡ q → run_front fd s ≡ some t → Inv s → Inv t
unfolding run_front
front_at fd s t [] e h v = ground arith
front_at fd s t (close_mic ∷ q) e h v = ground arith
front_at fd s t (dialog_again ∷ q) e h v = ground arith
front_at fd s t (start_forward ∷ q) e h v = ground arith

step-Inv : (s t : Agent) (e : Event) → IsCalmAt s e → step s e ≡ some t → Inv s → Inv t
unfolding step on_thinking on_speaking token_expired on_network_status_changed on_audio
step-Inv s t wakes calm h v = ground (arith, wake-Inv s calm v)
step-Inv s t dialog_ends calm h v = ground (arith, ends-Inv s v)
step-Inv s t app_exits calm h v = ground (arith, exits-Inv s v)
step-Inv s t thinks calm h v = ground arith
step-Inv s t speaks calm h v = ground arith
step-Inv s t token_expires calm h v = ground arith
step-Inv s t (network status) calm h v = ground arith
step-Inv s t (keys k) calm h v = ground (arith, key-Inv k s v)
step-Inv s t (records sound) calm h v = ground arith
step-Inv s t (runs fd) calm h v = front_at fd s t s.queue refl h v

steps-Inv :
    {s : Agent} {es : List Event} (t : Agent) → IsCalm s es → steps s es ≡ some t → Inv s → Inv t
unfolding steps
steps-Inv t done h v = ground (arith, h, v)
steps-Inv t (more {s = s} {t = u} {e = e} {es = es} calm one rest) h v =
    steps-Inv t rest (rw (steps, one) at h) (step-Inv s u e calm one v)

-- From the start, along every schedule of the threads' steps in which no wake word comes while a
-- close is queued, the flag `forwarding` tells the descriptor: while it is set, the descriptor is
-- open or one task that opens it is queued, and not both; while it is not set, neither. And no task
-- that opens the descriptor waits behind one that closes it.
pub forwarding_tells_descriptor :
    (es : List Event) (t : Agent) → IsCalm initial es → steps initial es ≡ some t → Inv t
forwarding_tells_descriptor es t calm h =
    steps-Inv t calm h (record { ordered = tt; balance = refl })

abbrev pub sound_path : Option Agent → Option (Bool × ℤ)
sound_path none = none
sound_path (some t) = some (t.forwarding, t.fd_audio)

-- A wake word that comes while a close is queued loses its dialog: behind the two tasks nothing is
-- forwarded. If nothing was forwarded before, then the FIFO was opened for this and stays open.
pub wake_behind_close :
    (s : Agent) (fd : ℤ) (n : ℕ)
    → s.first_dialog_state ≡ started
    → s.mic_on ≡ true
    → s.has_network ≡ true
    → s.in_thinking ≡ false
    → s.queue ≡ close_mic ∷ []
    → sound_path (steps s (wakes ∷ runs fd ∷ runs (pos n) ∷ []))
      ≡ some (false, (if s.forwarding then neg 1 else pos n))
unfolding steps step on_wake_word run_front
wake_behind_close s fd n ready on net idle e = elim (Bool-cases s.forwarding) [
  | inl f ↦ ground (arith, ready, on, net, idle, e, f)
  | inr f ↦ ground (arith, ready, on, net, idle, e, f)
]
