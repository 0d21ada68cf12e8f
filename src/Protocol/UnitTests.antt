-- ===== src/Protocol/UnitTests.antt =====
-- protocol/mod.rs: its unit tests, each a function that fails where the test panics.
mod Frames
mod Types
mod Filters
mod Counts
