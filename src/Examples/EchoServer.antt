-- ===== src/Examples/EchoServer.antt =====
-- examples/echo_server.rs
use noise_tunnel_rs.Base.{ℕ, codes}
use noise_tunnel_rs.Base.Bytes.{Bytes}
use noise_tunnel_rs.Crypto.Primitives.{Primitives}
use noise_tunnel_rs.Crypto.Keys.{generate, public_key_hex}
use noise_tunnel_rs.Server.{TunnelServer, with_prologue_str, with_max_connections}
use noise_tunnel_rs.Server

-- The key that is printed for the clients, and the server that runs.
unfoldable pub echo_server : Primitives → Bytes → Bytes × TunnelServer
unfolding generate public_key_hex Server.new with_prologue_str with_max_connections
echo_server p server_secret =
    let server_keypair = generate p server_secret in
    let bind_addr : Bytes × ℕ = (codes "127.0.0.1", 8080) in
    let server = Server.new server_keypair bind_addr in
    let server = with_prologue_str (codes "Noise_Echo_Demo_v1") server in
    let server = with_max_connections 50 server in (public_key_hex p server_keypair, server)
