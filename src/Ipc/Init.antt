-- ===== src/Ipc/Init.antt =====
-- The life cycle: `IFLYOS_InterfaceInit`, `IFLYOS_InterfaceOSInit`, `IFLYOS_InterfaceUmberllaInit`,
-- `IFLYOS_InterfaceDeinit` and `IFLYOS_InterfaceUmberllaClearForChild`. What `socket` and `bind`
-- return is an argument.
use mathlib.Core.Option
use sdk_linux.Prelude.{
  Bool, true, false, Option, none, some, List, [], ◌∷◌, ◌++◌, ◌==◌, if◌then◌else◌,
}
use sdk_linux.Prelude.Int.{ℤ, pos, negsuc, neg, is_neg}
use sdk_linux.Prelude.Bytes.{Bytes, str_eq}
use sdk_linux.Prelude.Dict.{insert}
use sdk_linux.Ipc.Names.{event_recv_addr, umbrella_recv_addr, do_register_evt_receiver}
use sdk_linux.Ipc.Text.{skip_space, is_space}
use sdk_linux.Ipc.State.{Sendto, Ipc, Mutex, Receiver}
use sdk_linux.Ipc.Register.{register_handler, bind_events}

abbrev pub is_zero : ℤ → Bool
is_zero (pos n) = n == 0
is_zero (negsuc n) = false

-- The results of `socket` and of `bind`.
pub record Os : Type 0 where
  pub socket_ret : ℤ
  pub bind_ret : ℤ

-- `eventsStr += " " + reg.first` for each registration.
unfoldable pub events_text {ℓ} : {H : Type ℓ} → List (Bytes × Option H) → Bytes
events_text [] = []
events_text ((evt, h) ∷ regs) = (b' ' ∷ evt) ++ events_text regs

module _ {ℓ} {H : Type ℓ} where
  -- The loop's calls of `IFLYOS_InterfaceRegisterHandler`.
  unfoldable pub register_all : Ipc H → List (Bytes × Option H) → Ipc H
  unfolding register_handler
  register_all s [] = s
  register_all s ((evt, h) ∷ regs) = register_all (register_handler s h evt).0 regs

  unfoldable pub start_receiver : Ipc H → Bytes → Ipc H
  start_receiver s address = record s {
    quit = false;
    receiver = if str_eq umbrella_recv_addr address then Receiver.umbrella else Receiver.plain;
  }

  -- `if(eventsRegistration.size() > 0)`: the events are registered here, and bound at the umbrella.
  unfoldable pub bind_registered : Sendto → Ipc H → Bytes → List (Bytes × Option H) → Ipc H × ℤ
  unfolding register_all events_text skip_space is_space bind_events
  bind_registered kernel s address [] = (s, pos 0)
  bind_registered kernel s address (r ∷ regs) =
      bind_events kernel (register_all s (r ∷ regs)) address (skip_space (events_text (r ∷ regs)))

  -- `IFLYOS_InterfaceInit`.
  unfoldable pub interface_init : Sendto → Os → Ipc H → Bytes → List (Bytes × Option H) → Ipc H × ℤ
  unfolding start_receiver bind_registered
  interface_init kernel os s address regs =
      let opened = record s { sock = os.socket_ret } in
      let named = record opened { handler_table_mutex = Mutex.live; local_addr = address } in
      if is_neg os.socket_ret
      then (opened, neg 1)
      else if is_zero os.bind_ret
      then bind_registered kernel (start_receiver named address) address regs
      else (named, neg 2)

  -- `IFLYOS_InterfaceOSInit`.
  unfoldable pub os_init : Sendto → Os → Ipc H → Ipc H × ℤ
  unfolding interface_init
  os_init kernel os s = interface_init kernel os s event_recv_addr []

  -- `IFLYOS_InterfaceUmberllaInit`; `h` is the handler `IFLYOS_InterfaceRegisteration`.
  unfoldable pub umbrella_init : Sendto → Os → H → Ipc H → Ipc H × ℤ
  unfolding interface_init
  umbrella_init kernel os h s =
      let (s', ret) = interface_init kernel os s umbrella_recv_addr [] in
      if is_zero ret
      then (record s' { handlers = insert do_register_evt_receiver h s'.handlers }, pos 0)
      else (s', ret)

  -- `delete handlerTableMutex`: none if it was deleted before, which is undefined in C++.
  unfoldable pub delete_mutex : Ipc H → Option (Ipc H)
  delete_mutex s = elim s.handler_table_mutex [
    | Mutex.deleted ↦ none
    | _ ↦ some (record s { handler_table_mutex = Mutex.deleted })
  ]

  -- `IFLYOS_InterfaceDeinit`: `shutdown` ends the receiver's `recvfrom`, so the join returns.
  unfoldable pub deinit : Ipc H → Option (Ipc H)
  unfolding delete_mutex
  deinit s =
      if is_neg s.sock
      then some s
      else Option.map
          (λ (t : Ipc H). record t { quit = true; receiver = Receiver.joined; handlers = [] })
          (delete_mutex s)

  -- `IFLYOS_InterfaceUmberllaClearForChild`: the socket is closed, and `sock` keeps its number.
  unfoldable pub clear_for_child : Ipc H → Option (Ipc H)
  unfolding delete_mutex
  clear_for_child s = if is_neg s.sock then some s else delete_mutex s
