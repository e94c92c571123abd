-- ===== src/Agent.antt =====
-- MicAgent/MicAgent.cpp: the process that listens for the wake word, forwards the recorded sound to
-- iFLYOS and follows the dialog. `State` has the static variables and what the process does to the
-- outside, `Events` the handlers of the messages, `Dialog` the wake word, the sound and the tasks of
-- the executor, `AuthCode` the spoken code, `KeyLoop` and `Boot` the two halves of `main`.
pub mod State
pub mod Events
pub mod Dialog
pub mod AuthCode
pub mod KeyLoop
pub mod Boot
pub mod Forwarding
pub mod Network
pub mod Channel
pub mod Main
pub mod Registration
pub mod Messages
pub mod Steps
pub mod Pool
pub mod Sounds
pub mod Session
pub mod Recording
pub mod Restart
mod Tests
mod DialogTests
