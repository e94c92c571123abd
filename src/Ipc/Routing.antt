-- ===== src/Ipc/Routing.antt =====
-- Where the umbrella process sends what it does not handle itself, and what the senders return.
use sdk_linux.Prelude.{
  ◌∙◌, ◌≢◌, none, ℕ, ◌+◌, ◌≤◌, ◌≡◌, ◌↔◌, inl, inr, Bool, true, false, ◌&&◌, some, List, [], ◌∷◌,
  ◌++◌, append-nil, append_assoc, arith, if◌then◌else◌, length, Option-cases,
}
use sdk_linux.Prelude.Int.{pos, is_pos}
use sdk_linux.Prelude.Bytes.{Lacks, Bytes}
use sdk_linux.Prelude.Dict.{lookup}
use sdk_linux.Ipc.State.{Datagram, Sendto, Ipc}
use sdk_linux.Ipc.Send.{umbrella_send_action, message, too_long, send_all, umbrella_send_event}
use sdk_linux.Ipc.Worker.{receive, Round, umbrella_receive, forward}
use sdk_linux.Ipc.RoundTrip.{receive_split, split_message_lem, umbrella_receive_split}
use sdk_linux.Ipc.Names.{event_recv_addr}

-- One datagram for each address, in their order.
abbrev pub datagrams : Bytes → List Bytes → List Datagram
datagrams content [] = []
datagrams content (a ∷ addrs) = record { address = a; content = content } ∷ datagrams content addrs

-- The kernel takes every one of the datagrams, each asked for after those before it.
unfoldable pub takes_all : Sendto → List Datagram → List Datagram → Bool
takes_all kernel sends [] = true
takes_all kernel sends (d ∷ ds) =
    is_pos (kernel sends d).wr && takes_all kernel (sends ++ d ∷ []) ds

module _ {ℓ} {H : Type ℓ} (kernel : Sendto) where
  send_all_lem :
      (s : Ipc H) (addrs : List Bytes) (content : Bytes) (ok : Bool)
      → send_all kernel s addrs content ok ≡ (
        record s { sends = s.sends ++ datagrams content addrs },
        ok && takes_all kernel s.sends (datagrams content addrs),
      )
  unfolding send_all takes_all
  send_all_lem s [] content ok = ground (arith, append-nil s.sends)
  send_all_lem s (a ∷ addrs) content ok =
      let d : Datagram = record { address = a; content = content } in
      ground (
        arith,
        send_all_lem (record s { sends = s.sends ++ d ∷ [] }) addrs content
            (if is_pos (kernel s.sends d).wr then ok else false),
        append_assoc s.sends (d ∷ []) (datagrams content addrs),
      )

  -- A message that is short enough goes to each address registered for its event once, in order,
  -- also after a failed `sendto`.
  pub umbrella_send_event-datagrams :
      (s : Ipc H) (evt msg : Bytes) (addrs : List Bytes)
      → lookup evt s.receivers ≡ some addrs
      → length evt + length msg ≤ 4096
      → (umbrella_send_event kernel s evt msg).0
        ≡ record s { sends = s.sends ++ datagrams (message evt msg) addrs }
  unfolding umbrella_send_event too_long
  umbrella_send_event-datagrams s evt msg addrs found short =
      ground (arith, send_all_lem s addrs (message evt msg) true)

  -- The result of `IFLYOS_InterfaceUmbrellaSendEvent` is 0 exactly when the event has an entry among
  -- the receivers, the message is short enough and the kernel takes every datagram of it.
  pub umbrella_send_event_result :
      (s : Ipc H) (evt msg : Bytes)
      → ((umbrella_send_event kernel s evt msg).1 ≡ pos 0) ↔ (
          (addrs : List Bytes) × (lookup evt s.receivers ≡ some addrs)
          × (length evt + length msg ≤ 4096)
          × (takes_all kernel s.sends (datagrams (message evt msg) addrs) ≡ true))
  unfolding umbrella_send_event too_long
  umbrella_send_event_result s evt msg = (
    λ ok. elim (Option-cases (lookup evt s.receivers)) [
      | inl e ↦ ground arith
      | inr (addrs, e) ↦
          (addrs, e, ground arith, ground (arith, send_all_lem s addrs (message evt msg) true))
    ],
    λ (addrs, e, short, took). ground (arith, send_all_lem s addrs (message evt msg) true),
  )

  module _ (t : Ipc H) (c : ℕ) (name msg : Bytes) (blank : Lacks b' ' (c ∷ name))
      (nul : Lacks 0 (c ∷ name)) (nul' : Lacks 0 msg)
      (unhandled : lookup (c ∷ name) t.handlers ≡ none)
      (short : length (c ∷ name) + length msg ≤ 4096) where
    pub umbrella_receive-forward :
        umbrella_receive kernel t (some (message (c ∷ name) msg))
        ≡ (forward kernel t (message (c ∷ name) msg) (c ∷ name) msg, Round.next)
    umbrella_receive-forward =
        rw
          (umbrella_receive_split t kernel _ (c ∷ name) msg
            (split_message_lem _ msg blank nul nul'))
          (rw unhandled)

    -- A whole message that the umbrella process has no handler for, whose event name begins with
    -- `E`, goes unchanged to each address registered for the event, and a process that reads it
    -- there and has a handler for the event calls that handler with the event and the text sent.
    pub forward_event {κ} :
        {G : Type κ} (p : Ipc G) (h : G) (addrs : List Bytes)
        → c ≡ b'E'
        → lookup (c ∷ name) t.receivers ≡ some addrs
        → lookup (c ∷ name) p.handlers ≡ some h
        → (umbrella_receive kernel t (some (message (c ∷ name) msg)) ≡ (
          record t { sends = t.sends ++ datagrams (message (c ∷ name) msg) addrs },
          Round.next,
        ))
          × (receive p (some (message (c ∷ name) msg)) ≡ Round.call h (c ∷ name) msg)
    unfolding forward message
    forward_event p h addrs isE found handled = (
      umbrella_receive-forward
          ∙ ground (arith, umbrella_send_event-datagrams t (c ∷ name) msg addrs found short),
      rw (receive_split p _ (c ∷ name) msg (split_message_lem _ msg blank nul nul')) (rw handled),
    )

    -- Any other message that it has no handler for goes unchanged to the iFLYOS process alone.
    pub forward_action :
        c ≢ b'E'
        → umbrella_receive kernel t (some (message (c ∷ name) msg)) ≡ (
          record t {
            sends =
                t.sends
                ++ record { address = event_recv_addr; content = message (c ∷ name) msg } ∷ [];
          },
          Round.next,
        )
    unfolding forward message umbrella_send_action
    forward_action other = umbrella_receive-forward ∙ ground arith
