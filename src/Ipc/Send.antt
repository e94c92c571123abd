-- ===== src/Ipc/Send.antt =====
-- The four senders of IFLYOSInterface.cpp. A `const char *` argument is the bytes before its NUL.
-- A method returns the new state and its `int` result.
use sdk_linux.Prelude.{
  ℕ, ◌+◌, Bool, true, false, none, some, List, [], ◌∷◌, ◌++◌, ltb, if◌then◌else◌, length,
}
use sdk_linux.Prelude.Int.{ℤ, pos, neg, is_pos}
use sdk_linux.Prelude.Bytes.{Bytes}
use sdk_linux.Prelude.Dict.{lookup}
use sdk_linux.Ipc.Names.{event_recv_addr, umbrella_recv_addr}
use sdk_linux.Ipc.State.{Datagram, Sendto, Ipc}

-- `std::string() + evt + " " + msg`; `sendto` is given all of it, `evtLen + msgLen + 1` bytes.
unfoldable pub message : Bytes → Bytes → Bytes
message evt msg = evt ++ b' ' ∷ msg

abbrev pub max_message : ℕ
max_message = 4096

unfoldable pub too_long : Bytes → Bytes → Bool
too_long evt msg = ltb max_message (length evt + length msg)

module _ {ℓ} {H : Type ℓ} (kernel : Sendto) where
  -- One call of `sendto`, and its result: 0, or `-errno` if `wr <= 0`.
  unfoldable pub send_datagram : Ipc H → Bytes → Bytes → Ipc H × ℤ
  send_datagram s address content =
      let d : Datagram = record { address = address; content = content } in
      let result = kernel s.sends d in
      (record s { sends = s.sends ++ d ∷ [] }, if is_pos result.wr then pos 0 else neg result.errno)

  -- `IFLYOS_InterfaceSendEvent`: to the umbrella process.
  unfoldable pub send_event : Ipc H → Bytes → Bytes → Ipc H × ℤ
  unfolding send_datagram too_long message
  send_event s evt msg =
      if too_long evt msg then (s, neg 1) else send_datagram s umbrella_recv_addr (message evt msg)

  -- `IFLYOS_InterfaceOSSendEvent`: the same, from the iFLYOS process.
  unfoldable pub os_send_event : Ipc H → Bytes → Bytes → Ipc H × ℤ
  unfolding send_datagram too_long message
  os_send_event s evt msg =
      if too_long evt msg then (s, neg 1) else send_datagram s umbrella_recv_addr (message evt msg)

  -- `IFLYOS_InterfaceUmbrellaSendAction`: from the umbrella to the iFLYOS process.
  unfoldable pub umbrella_send_action : Ipc H → Bytes → Bytes → Ipc H × ℤ
  unfolding send_datagram too_long message
  umbrella_send_action s evt msg =
      if too_long evt msg then (s, neg 1) else send_datagram s event_recv_addr (message evt msg)

  -- The loop over `addresses->second`; `ok` is `allOk`.
  unfoldable pub send_all : Ipc H → List Bytes → Bytes → Bool → Ipc H × Bool
  send_all s [] content ok = (s, ok)
  send_all s (address ∷ addresses) content ok =
      let d : Datagram = record { address = address; content = content } in
      let result = kernel s.sends d in
      send_all (record s { sends = s.sends ++ d ∷ [] }) addresses content
        (if is_pos result.wr then ok else false)

  -- `IFLYOS_InterfaceUmbrellaSendEvent`: to every process that registered for the event.
  unfoldable pub umbrella_send_event : Ipc H → Bytes → Bytes → Ipc H × ℤ
  unfolding send_all too_long message
  umbrella_send_event s evt msg = elim (lookup evt s.receivers) [
    | none ↦ (s, neg 1)
    | some addresses ↦
        if too_long evt msg
        then (s, neg 2)
        else let (s', ok) = send_all s addresses (message evt msg) true in
          (s', if ok then pos 0 else neg 1)
  ]
