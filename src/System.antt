-- ===== src/System.antt =====
-- MicAgent/MicAgent.cpp and IFLYOSUmbrella/IFLYOSUmbrella.cpp together: what the first sends, the
-- second receives in the same order, as both have one datagram socket.
pub mod Keys
pub mod Network
pub mod Restart
pub mod Told
pub mod Events
mod Tests
use sdk_linux.Prelude.{List, [], ◌∷◌, ◌++◌}
use sdk_linux.Prelude.Bytes.{Bytes, codes}
use sdk_linux.Ipc.Send.{message}
use sdk_linux.Agent.State.{Effect, send}

abbrev pub message_of : Effect → List Bytes
message_of (send evt msg) = message (codes evt) msg ∷ []
message_of _ = []

-- The datagrams of the calls of `IFLYOS_InterfaceSendEvent`, the oldest first.
unfoldable pub sent : List Effect → List Bytes
sent [] = []
sent (e ∷ es) = message_of e ++ sent es
