-- ===== src/Ipc/Subscriptions.antt =====
-- The table `receivers` of IFLYOSInterface.cpp as what it stands for: who gets which event. In what
-- order the registrations came, and how often, is forgotten.
use mathlib.Core.Quot
use mathlib.Core.Quot.{Quot, Quot-set}
use mathlib.Core.Bool.{Bool-set}
use sdk_linux.Prelude.{
  ◌≡◌, ◌↔◌, refl, ap, sym, ◌∙◌, Bool, false, ◌&&◌, ◌||◌, List, [], ◌∷◌, arith, All,
}
use sdk_linux.Prelude.Bytes.{Bytes, Lacks, str_eq, set_has}
use sdk_linux.Prelude.Dict.{lookup, Dict}
use sdk_linux.Ipc.Text.{words}
use sdk_linux.Ipc.State.{Ipc}
use sdk_linux.Ipc.Register.{receivers_of, add_receiver, registeration, bind_message}
use sdk_linux.Ipc.Receivers.{set_has-add_receiver, register-bind_message}

-- Each event goes to the same addresses.
abbrev pub SameReceivers : Dict (List Bytes) → Dict (List Bytes) → Type 0
SameReceivers m n = (b e : Bytes) → set_has b (receivers_of e m) ≡ set_has b (receivers_of e n)

abbrev pub Subscriptions : Type 0
Subscriptions = Quot SameReceivers

unfoldable pub subscriptions {ℓ} : {H : Type ℓ} → Ipc H → Subscriptions
subscriptions u = Quot.mk u.receivers

-- Whether an address gets an event.
unfoldable pub gets : Bytes → Bytes → Subscriptions → Bool
gets b e = Quot.lift Bool-set (λ m. set_has b (receivers_of e m)) (λ m n h. h b e)

pub SameReceivers-add_receiver :
    (address : Bytes) (events : List Bytes) (m n : Dict (List Bytes))
    → SameReceivers m n
    → SameReceivers (add_receiver address events m) (add_receiver address events n)
SameReceivers-add_receiver address events m n h b e = ground (
  arith,
  h b e,
  set_has-add_receiver b e address events m,
  set_has-add_receiver b e address events n,
)

-- One more registration.
unfoldable pub subscribe : Bytes → List Bytes → Subscriptions → Subscriptions
subscribe address events =
    Quot.lift Quot-set (λ m. Quot.mk (add_receiver address events m))
      (λ m n h. Quot.sound (SameReceivers-add_receiver address events m n h))

pub gets-subscribe :
    (b e address : Bytes) (events : List Bytes) (t : Subscriptions)
    → gets b e (subscribe address events t) ≡ ((set_has e events && str_eq b address) || gets b e t)
unfolding gets subscribe
gets-subscribe b e address events =
    Quot.ind (λ t. Bool-set _ _) (λ m. set_has-add_receiver b e address events m)

Subscriptions-set : IsSet Subscriptions
Subscriptions-set = Quot-set

-- Who gets what is all there is.
pub Subscriptions-ext : (t u : Subscriptions) → ((b e : Bytes) → gets b e t ≡ gets b e u) → t ≡ u
unfolding gets
Subscriptions-ext =
    Quot.ind (λ t. hlevel (Subscriptions-set))
      (λ m. Quot.ind (λ u. hlevel (Subscriptions-set)) (λ n h. Quot.sound h))

-- A text of IFLYOS_InterfaceBindEvents: the address, and the events with blanks between them.
pub record Registration : Type 0 where
  pub address : Bytes
  pub events : Bytes

-- The umbrella process handles the registrations one after the other.
unfoldable pub register_each {ℓ} : {H : Type ℓ} → List Registration → Ipc H → Ipc H
register_each [] u = u
register_each (r ∷ rs) u = register_each rs (registeration u (bind_message r.address r.events))

-- A process with that address asks for that event.
unfoldable pub asks : Bytes → Bytes → List Registration → Bool
asks b e [] = false
asks b e (r ∷ rs) = (set_has e (words r.events) && str_eq b r.address) || asks b e rs

register-subscribe {ℓ} :
    {H : Type ℓ} (u : Ipc H) (r : Registration)
    → Lacks b' ' r.address
    → subscriptions (registeration u (bind_message r.address r.events))
      ≡ subscribe r.address (words r.events) (subscriptions u)
unfolding subscriptions subscribe registeration
register-subscribe u r v =
    ap (λ m. Quot.mk m) (register-bind_message r.address r.events u.receivers v)

gets-register_each {ℓ} :
    {H : Type ℓ} (b e : Bytes) (rs : List Registration) (u : Ipc H)
    → All (λ r. Lacks b' ' r.address) rs
    → gets b e (subscriptions (register_each rs u)) ≡ (asks b e rs || gets b e (subscriptions u))
unfolding register_each asks
gets-register_each b e [] u v = refl
gets-register_each b e (r ∷ rs) u v = ground (
  arith,
  gets-register_each b e rs (registeration u (bind_message r.address r.events)) v.1,
  ap (gets b e) (register-subscribe u r v.0),
  gets-subscribe b e r.address (words r.events) (subscriptions u),
)

gets_none {ℓ} :
    {H : Type ℓ} (b e : Bytes) (u : Ipc H) → u.receivers ≡ [] → gets b e (subscriptions u) ≡ false
unfolding gets subscriptions receivers_of lookup set_has
gets_none b e u none_yet = rw none_yet refl

gets-asks {ℓ} :
    {H : Type ℓ} (b e : Bytes) (rs : List Registration) (u : Ipc H)
    → u.receivers ≡ []
    → All (λ r. Lacks b' ' r.address) rs
    → gets b e (subscriptions (register_each rs u)) ≡ asks b e rs
gets-asks b e rs u none_yet v =
    ground (arith, gets-register_each b e rs u v, gets_none b e u none_yet)

-- Two sequences of registrations, from addresses with no blank, at a table with no receivers: the
-- table stands for the same subscriptions behind both exactly if the same processes asked for the
-- same events in them. The order of the registrations does not matter, nor in how many of them an
-- event is asked for, nor how often.
pub same_subscriptions {ℓ} :
    {H : Type ℓ} (u : Ipc H) (rs ss : List Registration)
    → u.receivers ≡ []
    → All (λ r. Lacks b' ' r.address) rs
    → All (λ r. Lacks b' ' r.address) ss
    → (subscriptions (register_each rs u) ≡ subscriptions (register_each ss u))
      ↔ ((b e : Bytes) → asks b e rs ≡ asks b e ss)
same_subscriptions u rs ss none_yet v w = (
  λ same b e.
      sym (gets-asks b e rs u none_yet v) ∙ ap (gets b e) same ∙ gets-asks b e ss u none_yet w,
  λ same.
      Subscriptions-ext _ _
        (λ b e. gets-asks b e rs u none_yet v ∙ same b e ∙ sym (gets-asks b e ss u none_yet w)),
)
