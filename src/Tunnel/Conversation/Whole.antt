-- ===== src/Tunnel/Conversation/Whole.antt =====
-- client.rs and server.rs: an interactive session between honest ends.
use noise_tunnel_rs.Base.Bytes.{Bytes}
use noise_tunnel_rs.Crypto.Primitives.{Primitives}
use noise_tunnel_rs.Protocol.Stream.{Stream}
use noise_tunnel_rs.Tunnel.Shaken.{Shaken}
