-- ===== src/Tunnel/Refusal/Session.antt =====
-- client.rs and server.rs: a client that gets no answer, and a server that refuses its first frame.
use noise_tunnel_rs.Base.{ℕ, some, [], ◌≡◌, ◌-◌, ◌≤◌, length, refl, arith, append-nil, subst}
use noise_tunnel_rs.Base.Bytes.{Bytes}
use noise_tunnel_rs.Error.{ok, err, aead_decrypt_failed, unexpected_eof}
use noise_tunnel_rs.Crypto.Primitives.{Primitives}
use noise_tunnel_rs.Crypto.Keys.{KeyPair}
use noise_tunnel_rs.Protocol.Frame.{serialize}
use noise_tunnel_rs.Protocol.Frame.RoundTrip.{length-serialize}
use noise_tunnel_rs.Protocol.Stream.{connection, read_exact}
use noise_tunnel_rs.Protocol.Wire.{read_from}
use noise_tunnel_rs.Protocol.Wire.Exact.{write_to_lem}
use noise_tunnel_rs.Client.{TunnelClient}
use noise_tunnel_rs.Client.Handshake.{Hello, client_hello}
use noise_tunnel_rs.Client.Message.{perform_handshake, exchange}
use noise_tunnel_rs.Server.Handshake.{server_answer}
use noise_tunnel_rs.Server.Connection.{accept_handshake, handle_client_with_prologue}
use noise_tunnel_rs.Tunnel.Streams.{read_small}

module _ (p : Primitives) (self : TunnelClient) (server_keys : KeyPair)
    (prologue client_secret : Bytes) where
  perform_handshake-eof :
      (hello : Hello) (room : ℕ)
      → client_hello p self client_secret ≡ ok hello
      → length hello.frame.payload ≡ 69
      → 82 ≤ room
      → perform_handshake p self client_secret (connection [] [] room) ≡ (
        connection [] (serialize hello.frame) (room - length (serialize hello.frame)),
        err unexpected_eof,
      )
  unfolding perform_handshake read_from read_exact
  perform_handshake-eof hello room said size roomy =
      let written =
        write_to_lem hello.frame (connection [] [] room)
          (omega (arith, length-serialize hello.frame, size)) in
      rw (said, written) refl

  pub exchange-eof :
      (hello : Hello) (message : Bytes) (room : ℕ)
      → client_hello p self client_secret ≡ ok hello
      → length hello.frame.payload ≡ 69
      → 82 ≤ room
      → exchange p self client_secret message (connection [] [] room) ≡ (
        connection [] (serialize hello.frame) (room - length (serialize hello.frame)),
        err unexpected_eof,
      )
  unfolding exchange
  exchange-eof hello message room said size roomy =
      rw (perform_handshake-eof hello room said size roomy) refl

  pub handle_client-refused :
      (next_reading : ℕ → ℕ) (server_secret : Bytes) (hello : Hello) (rounds now room : ℕ)
      → server_answer p server_keys prologue server_secret hello.frame ≡ err aead_decrypt_failed
      → hello.frame.nonce ≡ 0
      → length hello.frame.payload ≡ 69
      → handle_client_with_prologue p next_reading server_keys prologue server_secret rounds now
          (connection (serialize hello.frame) [] room)
        ≡ some (connection [] [] room, err aead_decrypt_failed)
  unfolding handle_client_with_prologue accept_handshake
  handle_client-refused next_reading server_secret hello rounds now room refused zero_nonce size =
      let read =
        subst
          (λ (b : Bytes).
            read_from (connection b [] room) ≡ (connection [] [] room, ok hello.frame))
          (append-nil (serialize hello.frame))
          (read_small hello.frame [] [] room zero_nonce (omega (arith, size))) in
      rw (read, refused) refl
