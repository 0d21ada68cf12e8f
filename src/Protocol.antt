-- ===== src/Protocol.antt =====
-- protocol/mod.rs: message types, wire frames, the anti-replay filter and the transcript hash.
pub mod MessageType
pub mod Stream
pub mod Frame
pub mod Wire
pub mod Replay
pub mod Transcript
mod UnitTests
mod Tests
