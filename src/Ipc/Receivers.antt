-- ===== src/Ipc/Receivers.antt =====
-- What a registration does at the umbrella process: its words, and the receivers of each event.
use mathlib.Core.List.{map}
use sdk_linux.Prelude.{
  length, length-append, take_all, take-length-append, ◌-◌, ◌≤◌, ℕ, ◌≡◌, ◌≢◌, refl, ap, ◌∙◌, false,
  ◌&&◌, ◌||◌, Option, List, [], ◌∷◌, ◌++◌, append-nil, append_assoc, arith, if◌then◌else◌, All,
}
use sdk_linux.Prelude.Bytes.{
  Bytes, Lacks, str_eq, str_eq_iff, set_has, set_insert, set_has-set_insert, find, find-append,
}
use sdk_linux.Prelude.Dict.{Dict, insert, lookup-insert}
use sdk_linux.Ipc.Text.{is_space, words, words_from, skip_space, atoi}
use sdk_linux.Ipc.Register.{
  receivers_of, add_receiver, register_message, register_address, bind_message,
}
use sdk_linux.Ipc.Init.{events_text}
use sdk_linux.Ipc.RoundTrip.{drop_past}

-- Event names are words: not empty, with no white space in them.
abbrev pub IsWord : Bytes → Type 0
IsWord w = (w ≢ []) × All (λ c. is_space c ≡ false) w

words_from-append :
    (w cur rest : Bytes)
    → All (λ c. is_space c ≡ false) w
    → words_from cur (w ++ rest) ≡ words_from (cur ++ w) rest
unfolding words_from
words_from-append [] cur rest h = rw append-nil
words_from-append (c ∷ w) cur rest h =
    ground (arith, words_from-append w (cur ++ c ∷ []) rest h.1, append_assoc cur (c ∷ []) w)

-- A blank ends a word.
words_from-blank :
    (c : ℕ) (w rest : Bytes) → words_from (c ∷ w) (b' ' ∷ rest) ≡ (c ∷ w) ∷ words_from [] rest
unfolding words_from is_space
words_from-blank c w rest = refl

words-events_text {ℓ} :
    {H : Type ℓ} (regs : List (Bytes × Option H)) (c : ℕ) (w : Bytes)
    → All (λ r. IsWord r.0) regs
    → words_from (c ∷ w) (events_text regs) ≡ (c ∷ w) ∷ map (λ r. r.0) regs
unfolding words_from events_text is_space
words-events_text [] c w h = refl
words-events_text (([], k) ∷ regs) c w h = absurd (h.0.0 refl)
words-events_text ((d ∷ v, k) ∷ regs) c w h =
    ap (◌∷◌ (c ∷ w))
      (words_from-append (d ∷ v) [] (events_text regs) h.0.1 ∙ words-events_text regs d v h.1)

-- The words of the events' text, with its first blank taken away, are the events.
pub words_of_events {ℓ} :
    {H : Type ℓ} (regs : List (Bytes × Option H))
    → All (λ r. IsWord r.0) regs
    → words (skip_space (events_text regs)) ≡ map (λ r. r.0) regs
unfolding words skip_space events_text is_space
words_of_events [] h = refl
words_of_events (([], k) ∷ regs) h = absurd (h.0.0 refl)
words_of_events ((d ∷ v, k) ∷ regs) h =
    rw (skip_word)
      (words_from-append (d ∷ v) [] (events_text regs) h.0.1 ∙ words-events_text regs d v h.1)
  where
    skip_word : skip_space ((d ∷ v) ++ events_text regs) ≡ (d ∷ v) ++ events_text regs
    skip_word = ground (arith, h.0.1.0)

pub receivers_of-insert :
    (k j : Bytes) (v : List Bytes) (m : Dict (List Bytes))
    → receivers_of j (insert k v m) ≡ (if str_eq k j then v else receivers_of j m)
unfolding receivers_of
receivers_of-insert k j v m = ground (arith, lookup-insert k j v m)

-- After the loop an address stands in an event's set if it stood there before, or is the one that
-- registers and the event is one of those named.
pub set_has-add_receiver :
    (b e addr : Bytes) (events : List Bytes) (m : Dict (List Bytes))
    → set_has b (receivers_of e (add_receiver addr events m))
      ≡ ((set_has e events && str_eq b addr) || set_has b (receivers_of e m))
unfolding add_receiver set_has
set_has-add_receiver b e addr [] m = refl
set_has-add_receiver b e addr (event ∷ events) m = ground (
  arith,
  set_has-add_receiver b e addr events (insert event (set_insert addr (receivers_of event m)) m),
  receivers_of-insert event e (set_insert addr (receivers_of event m)) m,
  set_has-set_insert b addr (receivers_of event m),
  str_eq_iff e event,
  str_eq_iff event e,
)

register_address_lem :
    (addr events : Bytes) (m : Dict (List Bytes))
    → Lacks b' ' addr
    → register_address (addr ++ b' ' ∷ events) m ≡ add_receiver addr (words events) m
unfolding register_address
register_address_lem addr events m h =
    let enough : length events ≤ length (addr ++ b' ' ∷ events) - length addr =
      omega (arith, length-append addr (b' ' ∷ events)) in
    ground (
      arith,
      find-append b' ' addr events h,
      take-length-append addr (b' ' ∷ events),
      drop_past addr events b' ',
      take_all (length (addr ++ b' ' ∷ events) - length addr) events enough,
    )

-- The umbrella process reads a registration of the current version back.
pub register-bind_message :
    (addr events : Bytes) (m : Dict (List Bytes))
    → Lacks b' ' addr
    → register_message (bind_message addr events) m ≡ add_receiver addr (words events) m
unfolding register_message bind_message find atoi
register-bind_message addr events m h = register_address_lem addr events m h
