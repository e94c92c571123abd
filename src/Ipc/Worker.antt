-- ===== src/Ipc/Worker.antt =====
-- The two receiving loops. A call of `recvfrom` is an argument: `none` if it failed, or else the
-- bytes it put into `buf`.
use sdk_linux.Prelude.{◌+◌, Bool, false, Option, none, some, [], ◌∷◌, ◌==◌, if◌then◌else◌}
use sdk_linux.Prelude.Bytes.{Bytes, c_str, find, substr, substr_from}
use sdk_linux.Prelude.Dict.{lookup}
use sdk_linux.Ipc.State.{Sendto, Ipc}
use sdk_linux.Ipc.Send.{umbrella_send_event, umbrella_send_action}

-- `buf[rd] = 0`, `std::string(buf)`, and the split at the first blank into `evt` and `msg`.
unfoldable pub split_message : Bytes → Option (Bytes × Bytes)
split_message buf =
    let str = c_str buf in
    elim (find b' ' str) [
      | none ↦ none
      | some split_pos ↦ some (substr 0 split_pos str, substr_from (split_pos + 1) str)
    ]

-- What one round of a loop comes to: `break`, `continue`, or a call of a handler.
pub data Round {ℓ} (H : Type ℓ) : Type ℓ where
  stop : Round H
  next : Round H
  call : H → Bytes → Bytes → Round H

-- `buf[0] == 'E'`.
unfoldable pub is_event : Bytes → Bool
is_event [] = false
is_event (c ∷ buf) = c == b'E'

module _ {ℓ} {H : Type ℓ} where
  -- A round of `IFLYOS_InterfaceReceiverWorker`, on what `recvfrom` left in the array: at most 4095
  -- bytes.
  unfoldable pub receive : Ipc H → Option Bytes → Round H
  receive s none = stop
  receive s (some []) = stop
  receive s (some (c ∷ buf)) = elim (split_message (c ∷ buf)) [
    | none ↦ next
    | some (evt, msg) ↦ elim (lookup evt s.handlers) [ none ↦ next | some h ↦ call h evt msg ]
  ]

  -- `if not handled by umbrella, do forwarding`.
  unfoldable pub forward : Sendto → Ipc H → Bytes → Bytes → Bytes → Ipc H
  unfolding is_event
  forward kernel s buf evt msg =
      if is_event buf
      then (umbrella_send_event kernel s evt msg).0
      else (umbrella_send_action kernel s evt msg).0

  -- A round of `IFLYOS_InterfaceUmbrellaReceiverWorker`, on at most 4095 bytes as well.
  unfoldable pub umbrella_receive : Sendto → Ipc H → Option Bytes → Ipc H × Round H
  unfolding forward
  umbrella_receive kernel s none = (s, stop)
  umbrella_receive kernel s (some []) = (s, stop)
  umbrella_receive kernel s (some (c ∷ buf)) = elim (split_message (c ∷ buf)) [
    | none ↦ (s, next)
    | some (evt, msg) ↦ elim (lookup evt s.handlers) [
      | none ↦ (forward kernel s (c ∷ buf) evt msg, next)
      | some h ↦ (s, call h evt msg)
    ]
  ]
