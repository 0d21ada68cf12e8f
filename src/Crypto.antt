-- ===== src/Crypto.antt =====
-- crypto/mod.rs: keys, key derivation and the AEAD cipher state.
pub mod Primitives
pub mod Keys
pub mod Cipher
pub mod Toy
mod Tests
pub mod Derive
pub mod Debug
mod UnitTests
