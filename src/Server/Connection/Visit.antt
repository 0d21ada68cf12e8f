-- ===== src/Server/Connection/Visit.antt =====
-- server.rs: a connection whose handshake and session are known.
use noise_tunnel_rs.Base.{ℕ, ◌≡◌, some, refl}
use noise_tunnel_rs.Base.Bytes.{Bytes}
use noise_tunnel_rs.Error.{ok}
use noise_tunnel_rs.Crypto.Primitives.{Primitives}
use noise_tunnel_rs.Crypto.Keys.{KeyPair}
use noise_tunnel_rs.Protocol.Stream.{Stream}
use noise_tunnel_rs.Server.Handshake.{Answer}
use noise_tunnel_rs.Server.Session.{Session, session_start, serve}
use noise_tunnel_rs.Server.Connection.{accept_handshake, handle_client_with_prologue}

-- A connection that is shaken hands with and then served.
pub handle_client_lem :
    (p : Primitives) (next_reading : ℕ → ℕ) (server_keys : KeyPair) (prologue secret : Bytes)
    (rounds now : ℕ) (start t : Stream) (answer : Answer) (s : Session)
    → accept_handshake p server_keys prologue secret start ≡ (t, ok answer)
    → serve p next_reading rounds (session_start answer t now) ≡ some (s, ok tt)
    → handle_client_with_prologue p next_reading server_keys prologue secret rounds now start
      ≡ some (s.stream, ok tt)
unfolding handle_client_with_prologue session_start
handle_client_lem p next_reading server_keys prologue secret rounds now start t answer s e e' =
    rw (e, e') refl
