-- ===== src/Ipc/Register.antt =====
-- `IFLYOS_InterfaceRegisteration`, `IFLYOS_InterfaceBindEvents` and
-- `IFLYOS_InterfaceRegisterHandler`.
use sdk_linux.Prelude.{
  ◌+◌, ◌-◌, Bool, false, Option, none, some, List, [], ◌∷◌, ◌++◌, ◌==◌, if◌then◌else◌, length,
}
use sdk_linux.Prelude.Int.{ℤ, pos, negsuc}
use sdk_linux.Prelude.Bytes.{Bytes, codes, find, substr, substr_from, set_insert}
use sdk_linux.Prelude.Dict.{Dict, lookup, insert, erase}
use sdk_linux.Ipc.Names.{interface_current_version, do_register_evt_receiver}
use sdk_linux.Ipc.Text.{words, atoi}
use sdk_linux.Ipc.State.{Sendto, Ipc}
use sdk_linux.Ipc.Send.{send_event}

-- `receivers[event]`: a missing entry is made, with the empty set.
unfoldable pub receivers_of : Bytes → Dict (List Bytes) → List Bytes
receivers_of event m = elim (lookup event m) [ none ↦ [] | some addresses ↦ addresses ]

-- The loop `receivers[event].insert(addr)` over the events.
unfoldable pub add_receiver : Bytes → List Bytes → Dict (List Bytes) → Dict (List Bytes)
unfolding receivers_of
add_receiver addr [] m = m
add_receiver addr (event ∷ events) m =
    add_receiver addr events (insert event (set_insert addr (receivers_of event m)) m)

abbrev pub is_current : ℤ → Bool
is_current (pos n) = n == interface_current_version
is_current (negsuc n) = false

-- Behind the version: the address, and the events.
unfoldable pub register_address : Bytes → Dict (List Bytes) → Dict (List Bytes)
register_address str m = elim (find b' ' str) [
  | none ↦ m
  | some split_pos ↦
      add_receiver (substr 0 split_pos str)
        (words (substr (split_pos + 1) (length str - split_pos) str)) m
]

unfoldable pub register_message : Bytes → Dict (List Bytes) → Dict (List Bytes)
unfolding register_address
register_message str m = elim (find b' ' str) [
  | none ↦ m
  | some split_pos ↦
      if is_current (atoi (substr 0 split_pos str))
      then register_address (substr_from (split_pos + 1) str) m
      else m
]

-- The version as `std::to_string` prints it.
abbrev pub version_text : Bytes
version_text = codes "1"

-- The message of `IFLYOS_InterfaceBindEvents`.
unfoldable pub bind_message : Bytes → Bytes → Bytes
bind_message address events = version_text ++ b' ' ∷ (address ++ b' ' ∷ events)

module _ {ℓ} {H : Type ℓ} where
  -- `IFLYOS_InterfaceRegisteration(evt, msg)`.
  unfoldable pub registeration : Ipc H → Bytes → Ipc H
  unfolding register_message
  registeration s msg = record s { receivers = register_message msg s.receivers }

  -- `IFLYOS_InterfaceRegisterHandler`; `none` is the `nullptr` handler.
  unfoldable pub register_handler : Ipc H → Option H → Bytes → Ipc H × ℤ
  register_handler s none evt = (record s { handlers = erase evt s.handlers }, pos 0)
  register_handler s (some h) evt = (record s { handlers = insert evt h s.handlers }, pos 0)

  unfoldable pub bind_events : Sendto → Ipc H → Bytes → Bytes → Ipc H × ℤ
  unfolding bind_message
  bind_events kernel s address events =
      send_event kernel s do_register_evt_receiver (bind_message address events)
