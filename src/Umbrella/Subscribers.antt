-- ===== src/Umbrella/Subscribers.antt =====
-- The events that a process gets from IFLYOS_InterfaceUmbrellaSendEvent, in their order.
use mathlib.Core.List.{map}
use sdk_linux.Prelude.{
  ℕ, ◌≤◌, ◌≡◌, refl, ap, sym, ◌∙◌, inl, inr, Bool, true, false, none, some, List, [], ◌∷◌, ◌++◌,
  append_assoc, append-nil, arith, if◌then◌else◌, Bool-cases, All, length,
}
use sdk_linux.Prelude.Bytes.{Bytes, Lacks, str_eq}
use sdk_linux.Prelude.Sets.{times, times-IsSet_list}
use sdk_linux.Prelude.Dict.{lookup}
use sdk_linux.Ipc.State.{Sendto, Datagram}
use sdk_linux.Ipc.Init.{Os}
use sdk_linux.Ipc.Send.{message}
use sdk_linux.Ipc.Register.{receivers_of}
use sdk_linux.Ipc.Routing.{datagrams}
use sdk_linux.Umbrella.{Umbrella, receive_round}
use sdk_linux.Umbrella.Startup.{Config, boot}
use sdk_linux.Umbrella.Process.{steps}
use sdk_linux.Umbrella.Handlers.{own_table, boot_tables}
use sdk_linux.Umbrella.Delivery.{
  below_limit, Turn, to_step, IsTurn, subscribed, Tells, turns-Tells, receive_event, empty-IsTable,
  empty_subscribed,
}
use sdk_linux.Ipc.RoundTrip.{receive_size}

-- An event of iFLYOS, with a name and a text.
pub record Event : Type 0 where
  pub name : Bytes
  pub text : Bytes

abbrev pub buffer : Event → Bytes
buffer e = message e.name e.text

-- A name that begins with `E`, for which the process has no handler, and a message that is not cut.
pub record IsEvent (e : Event) : Type 0 where
  pub rest : Bytes
  pub starts : e.name ≡ b'E' ∷ rest
  pub blank : Lacks b' ' (b'E' ∷ rest)
  pub nul : Lacks 0 (b'E' ∷ rest)
  pub text_nul : Lacks 0 e.text
  pub unhandled : lookup (b'E' ∷ rest) own_table ≡ none
  pub whole : length (message (b'E' ∷ rest) e.text) ≤ receive_size

-- The receiver thread reads the events one after the other.
unfoldable pub receive_all : Sendto → List Event → Umbrella → Umbrella
receive_all kernel [] s = s
receive_all kernel (e ∷ es) s = receive_all kernel es (receive_round kernel (some (buffer e)) s)

-- What is sent to one address.
unfoldable pub addressed_to : Bytes → List Datagram → List Bytes
addressed_to b [] = []
addressed_to b (d ∷ ds) =
    if str_eq b d.address then d.content ∷ addressed_to b ds else addressed_to b ds

-- The events that an address has registered for.
unfoldable pub meant_for : Bytes → List Turn → List Event → List Bytes
meant_for b ts [] = []
meant_for b ts (e ∷ es) =
    if subscribed b e.name ts then buffer e ∷ meant_for b ts es else meant_for b ts es

pub addressed_to-append :
    (b : Bytes) (ds es : List Datagram)
    → addressed_to b (ds ++ es) ≡ addressed_to b ds ++ addressed_to b es
unfolding addressed_to
addressed_to-append b [] es = refl
addressed_to-append b (d ∷ ds) es = ground (arith, addressed_to-append b ds es)

abbrev copies : ℕ → Bytes → List Bytes
copies ℕ.zero m = []
copies (ℕ.suc n) m = m ∷ copies n m

addressed_to-datagrams :
    (b content : Bytes) (addrs : List Bytes)
    → addressed_to b (datagrams content addrs) ≡ copies (times b addrs) content
unfolding addressed_to times
addressed_to-datagrams b content [] = refl
addressed_to-datagrams b content (a ∷ addrs) = elim (Bool-cases (str_eq b a)) [
  | inl e ↦ rw e (ap (◌∷◌ content) (addressed_to-datagrams b content addrs))
  | inr e ↦ rw e (addressed_to-datagrams b content addrs)
]

module _ (kernel : Sendto) (s : Umbrella) (ts : List Turn) (none_yet : s.ipc.receivers ≡ []) where
  one_event :
      (e : Event) (t : Umbrella)
      → Tells s t ts
      → IsEvent e
      → (addrs : List Bytes) × (receive_round kernel (some (buffer e)) t
          ≡ record t { ipc = record t.ipc { sends = t.ipc.sends ++ datagrams (buffer e) addrs } })
        × ((b : Bytes) → times b addrs ≡ (if subscribed b e.name ts then 1 else 0))
  one_event e t v w = (
    receivers_of e.name t.ipc.receivers,
    rw w.starts (
        receive_event kernel t w.rest e.text w.blank w.nul w.text_nul (rw v.handlers w.unhandled)
          (below_limit (b'E' ∷ w.rest) e.text w.whole)),
    λ b.
        times-IsSet_list b (receivers_of e.name t.ipc.receivers) (v.table e.name)
        ∙ ap (λ (has : Bool). if has then 1 else 0)
            (v.tells b e.name ∙ empty_subscribed b e.name s.ipc.receivers ts none_yet),
  )

  one_meant :
      (e : Event) (t : Umbrella) (b : Bytes)
      → Tells s t ts
      → IsEvent e
      → let t' = receive_round kernel (some (buffer e)) t in
        (addressed_to b t'.ipc.sends ≡ addressed_to b t.ipc.sends ++ meant_for b ts (e ∷ []))
        × Tells s t' ts
  unfolding meant_for
  one_meant e t b v w =
      let (addrs, h, once) = one_event e t v w in
      let there : addressed_to b (datagrams (buffer e) addrs) ≡ meant_for b ts (e ∷ []) =
        addressed_to-datagrams b (buffer e) addrs
        ∙ ap (λ n. copies n (buffer e)) (once b)
        ∙ by_cases (subscribed b e.name ts) (buffer e) in
      (
        ap (λ u. addressed_to b u.ipc.sends) h
            ∙ addressed_to-append b t.ipc.sends (datagrams (buffer e) addrs)
            ∙ ap (◌++◌ (addressed_to b t.ipc.sends)) there,
        rw h (record { handlers = v.handlers; table = v.table; tells = v.tells }),
      )
    where
      by_cases : (c : Bool) (m : Bytes) → copies (if c then 1 else 0) m ≡ (if c then m ∷ [] else [])
      by_cases true m = refl
      by_cases false m = refl

  sends-meant_for :
      (es : List Event) (t : Umbrella) (b : Bytes)
      → Tells s t ts
      → All IsEvent es
      → addressed_to b (receive_all kernel es t).ipc.sends
        ≡ addressed_to b t.ipc.sends ++ meant_for b ts es
  unfolding receive_all meant_for
  sends-meant_for [] t b v w = sym (append-nil (addressed_to b t.ipc.sends))
  sends-meant_for (e ∷ es) t b v w =
      let (one, v') = one_meant e t b v w.0 in
      sends-meant_for es (receive_round kernel (some (buffer e)) t) b v' w.1
      ∙ ap (λ ms. ms ++ meant_for b ts es) one
      ∙ ground (
        arith,
        append_assoc (addressed_to b t.ipc.sends) (meant_for b ts (e ∷ [])) (meant_for b ts es),
      )

-- From the start of the umbrella process, along every schedule of its threads in which processes
-- register events, each a word, under addresses with no blank and with no NUL, and nothing that it
-- receives, the registrations included, has more than the 4095 bytes that it reads, comes a sequence
-- of events for which the process has no handler itself. Their names begin with `E` and have no
-- blank, neither they nor the texts have a NUL, and each, with the blank between the two, has at most
-- 4095 bytes. Then each address is sent those of them that it has registered for, each once and
-- unchanged, in the order in which they came, and nothing else.
pub events_in_order :
    (kernel : Sendto) (os : Os) (c : Config) (s t : Umbrella) (ts : List Turn) (es : List Event)
    (b : Bytes)
    → boot kernel os c ≡ some s
    → All IsTurn ts
    → steps kernel s (map to_step ts) ≡ some t
    → All IsEvent es
    → addressed_to b (receive_all kernel es t).ipc.sends
      ≡ addressed_to b t.ipc.sends ++ meant_for b ts es
events_in_order kernel os c s t ts es b booted valid ran named =
    let (own, none_yet) = boot_tables kernel os c s booted in
    let v = turns-Tells kernel ts s t ran valid own (empty-IsTable s.ipc.receivers none_yet) in
    sends-meant_for kernel s ts none_yet es t b v named
