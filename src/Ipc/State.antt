-- ===== src/Ipc/State.antt =====
-- The static variables of IFLYOSInterface.cpp, for a process whose handlers are of type `H`.
use sdk_linux.Prelude.{ℕ, Bool, false, List, []}
use sdk_linux.Prelude.Int.{ℤ, neg}
use sdk_linux.Prelude.Bytes.{Bytes}
use sdk_linux.Prelude.Dict.{Dict}

-- A call of `sendto`: the address, and the bytes handed over.
pub record Datagram : Type 0 where
  pub address : Bytes
  pub content : Bytes

-- What `sendto` returned, and `errno` behind it.
pub record SendResult : Type 0 where
  pub wr : ℤ
  pub errno : ℕ

-- The kernel's answer to a call of `sendto`, which may depend on the calls made before.
abbrev pub Sendto : Type 0
Sendto = List Datagram → Datagram → SendResult

-- `handlerTableMutex`: not made yet, made, or deleted.
pub data Mutex : Type 0 where
  unset live deleted : Mutex

-- The loop that the receiver thread runs, `IFLYOS_InterfaceReceiverWorker` or
-- `IFLYOS_InterfaceUmbrellaReceiverWorker`.
pub data Receiver : Type 0 where
  absent plain umbrella joined : Receiver

-- `sends` records the calls of `sendto`, the oldest first.
pub record Ipc {ℓ} (H : Type ℓ) : Type ℓ where
  pub sock : ℤ
  pub local_addr : Bytes
  pub handlers : Dict H
  pub receivers : Dict (List Bytes)
  pub receiver : Receiver
  pub quit : Bool
  pub handler_table_mutex : Mutex
  pub sends : List Datagram

-- The state before `main`.
abbrev pub initial {ℓ} : {H : Type ℓ} → Ipc H
initial = record {
  sock = neg 1;
  local_addr = [];
  handlers = [];
  receivers = [];
  receiver = Receiver.absent;
  quit = false;
  handler_table_mutex = Mutex.unset;
  sends = [];
}
