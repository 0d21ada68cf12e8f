-- ===== src/Tunnel.antt =====
-- client.rs and server.rs together: what the two ends of one connection do to each other.
pub mod Toy
pub mod Binding
pub mod Refusal
pub mod Integrity
pub mod Agreement
pub mod Streams
mod Tests
pub mod Shaken
pub mod Halves
pub mod Message
pub mod Conversation
