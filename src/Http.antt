-- ===== src/Http.antt =====
-- MicAgent/jnh.h: one HTTP request over a TCP socket that does not block, with two limits of time.
-- `Header` has the loop that looks for the body, `Body` the loop that fills it, `Request` the request
-- and the whole of `jnh_get`; the others prove.
pub mod State
pub mod Body
pub mod Header
pub mod Request
pub mod Safety
pub mod Outcome
pub mod Search
pub mod Response
pub mod FirstPacket
pub mod Deadline
pub mod Exchange
pub mod LongHeader
mod Tests
