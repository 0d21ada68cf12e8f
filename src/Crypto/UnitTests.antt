-- ===== src/Crypto/UnitTests.antt =====
-- crypto/mod.rs: its unit tests, each a function that fails where the test panics. Those that the
-- primitives decide are left out.
mod Keys
mod Ciphers
mod Hex
