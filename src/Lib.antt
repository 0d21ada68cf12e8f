-- ===== src/Lib.antt =====
-- Noise-Tunnel-RS: an encrypted TCP tunnel with a Noise_NK handshake, as executable definitions
-- with proofs. Paths below are from the repository's root.
--
-- The program. A client (src/client.rs) that knows the server's public key sends a HandshakeInit
-- frame, the server (src/server.rs) answers with HandshakeResp, and both derive two transport
-- keys. Frames (src/protocol/mod.rs) carry a type, a nonce and a payload behind a length, and go
-- over TCP. In transport each side seals messages with a counter as the nonce (src/crypto/mod.rs);
-- the server also passes the nonce of each frame to an anti-replay filter and counts traffic
-- (src/stats.rs).
--
-- The files.
--   Base, Base/*          numbers, bytes, bits and lists that all files share; the native numbers
--                         stand for u8, u32, u64 and u128, with the wrap-around written out.
--   Error, Action         errors as values, one per message of the source, and functions on a
--                         state that may fail (`&mut self` methods that return a `Result`). A state
--                         changed before an error stays changed.
--   Protocol/MessageType, Protocol/Frame, Protocol/Wire, Protocol/Replay, Protocol/Transcript
--                         src/protocol/mod.rs: `MessageType`, `WireFrame` with its two parsers,
--                         `read_from` and `write_to`, `ReplayFilter`, `hash_handshake_state`. The
--                         functions keep their names; `WireFrame::heartbeat` and `close` are
--                         `heartbeat_frame` and `close_frame`.
--   Protocol/Stream       a connection: the bytes that will still arrive, the bytes written, and the
--                         bytes it takes before it breaks.
--   Crypto/Keys, Crypto/Cipher
--                         src/crypto/mod.rs: keys and derivation, and `CipherState`.
--   Crypto/Primitives     the crates x25519-dalek, hkdf, sha2, chacha20poly1305 and hex as a record
--                         of functions that all definitions take, and what their documentation
--                         promises as hypotheses. Crypto/Toy is one instance that keeps them.
--   Client, Client/Handshake
--                         src/client.rs: `TunnelClient` and `perform_handshake`, in two functions
--                         that are cut where the client waits for the server.
--   Client/Message        src/client.rs: `perform_handshake` over a stream and `send_secure_message`,
--   Client/Interactive    and `start_interactive_session` on the typed lines.
--   Server                src/server.rs: `TunnelServer`; the accept loop of `run` and the handlers it
--                         spawns are a step relation, one atomic action a step, in any order.
--   Server/Handshake      `handle_client_with_prologue` up to its answer, Server/Session its loop,
--                         Server/Connection the two together and `handle_client`. The loop is a
--                         recursion on a bound of its rounds; one more than there are bytes to come
--                         is enough, since each round but the last reads a frame.
--   Tunnel/Agreement      both ends of a handshake together, when they are honest; Tunnel/Binding when
--                         the network may have changed the client's frame, Tunnel/Integrity with
--                         the client's messages that follow, and Tunnel/Refusal when their
--                         prologues or the server's key differ.
--   Tunnel/Streams        the same over the streams of the two; Tunnel/Halves and Tunnel/Message go on
--                         to a message and its answer, Tunnel/Conversation to an interactive session.
--   Stats                 src/stats.rs: `SessionMetrics`, with the clock as an argument.
--   Verify, TunnelError   src/verify.rs, where the live check takes its connection as an argument, and
--                         src/error.rs.
--   Main                  src/main.rs: `main` as a function from a subcommand with its options to
--                         what it starts; Main/Usage is about `keygen`, `server` and `client`.
--   Bench                 src/bench.rs: what the loops of `run_benchmark_suite` compute.
--   Examples              examples/: the `main` of each, with the network and the secrets as
--                         arguments.
--   */UnitTests           the unit tests inside the source's modules, each a function under its own
--                         name that fails where the test panics.
--
-- Conventions. Ephemeral secrets, which the source draws from the operating system, are arguments.
-- Counters that Rust increments without a check wrap, as in a release build. Slices and indices
-- that can panic are tests with an error `panicked` of their own.
--
-- Fuel. The loop of a server's session runs on a bound on its rounds, and gives `none` past it; as
-- many rounds as there are bytes to come are enough. The client's loop runs over the list of the
-- typed lines, and the digits of a number on 20, enough for 64 bits.
--
-- Hypotheses on the crates do not say that an AEAD cannot be forged or a hash cannot collide, which
-- no function satisfies. Where a result rests on that, it names the two strings that would have
-- one hash, or the box that would open under another hash, as the other way out.
--
-- Texts. `Display` of the message types, `summary` of a frame, `Display` of the filter, of the
-- metrics and of the public error type, and `Debug` of the types that hold keys are functions into
-- bytes, in Protocol/MessageType/Display, Protocol/Frame/Display, Protocol/Replay/Display,
-- Stats/Display, TunnelError and Crypto/Debug.
--
-- Not modelled: accessors that return a field, logging and what is only printed, numbers in
-- floating point (rates, `acceptance_rate`), the timers of tokio, zeroing of memory, the parser of
-- the command line, and the unit tests on rates, on random keys not being zero, on a private key's
-- digits not being in a text, and on a changed ciphertext, which the crates alone decide. The
-- integration tests run a client against a server over the network; what they check stands below
-- for all inputs.
pub mod Base
pub mod Error
pub mod Action
pub mod Crypto
pub mod Protocol
pub mod Client
pub mod Stats
pub mod Server
pub mod Tunnel
pub mod Main
pub mod Bench
pub mod Verify
pub mod TunnelError
pub mod Examples
