-- ===== src/Ipc.antt =====
-- IFLYOSInterface/src/IFLYOSInterface.cpp: the messages between the processes. A process has one
-- datagram socket, a table of handlers, and (in the umbrella process) a table of receivers.
-- `Text` has the string routines, `State` the data, `Send` the four senders, `Register` the
-- registration of receivers, `Worker` the two receiving loops and `Init` the life cycle; the other
-- children prove.
pub mod Names
pub mod Text
pub mod State
pub mod Send
pub mod Register
pub mod Worker
pub mod Init
pub mod Lines
pub mod RoundTrip
pub mod Routing
pub mod Receivers
pub mod Subscriptions
pub mod Handlers
mod Tests
