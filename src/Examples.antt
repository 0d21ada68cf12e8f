-- ===== src/Examples.antt =====
-- examples/: the programs that show the library, with the network and the generator's secrets as
-- arguments.
pub mod CustomPrologue
pub mod SecureChat
pub mod EchoServer
pub mod Benchmark
mod Tests
