-- ===== src/Tunnel/Message.antt =====
-- client.rs and server.rs: one message and its answer, from the first byte to the last.
use noise_tunnel_rs.Base.{ℕ, ◌+◌, ◌-◌, ◌≤◌, ◌≡◌, [], ◌++◌, some, length, codes}
use noise_tunnel_rs.Base.Bytes.{Bytes}
use noise_tunnel_rs.Base.Utf8.{from_utf8}
use noise_tunnel_rs.Error.{ok}
use noise_tunnel_rs.Crypto.Primitives.{Primitives}
use noise_tunnel_rs.Crypto.Keys.{KeyPair}
use noise_tunnel_rs.Protocol.Stream.{connection}
use noise_tunnel_rs.Server.Session.Text.{reply_to-from_utf8}
use noise_tunnel_rs.Client.{TunnelClient}
use noise_tunnel_rs.Client.Message.{exchange}
use noise_tunnel_rs.Server.Connection.{handle_client_with_prologue}
use noise_tunnel_rs.Tunnel.Agreement.{Honest, Promises, handshake_agrees}
use noise_tunnel_rs.Tunnel.Shaken.{Shaken}
use noise_tunnel_rs.Tunnel.Halves.{both_halves}

module _ (p : Primitives) (laws : Promises p) (self : TunnelClient) (server_keys : KeyPair)
    (prologue client_secret server_secret : Bytes)
    (honest : Honest p self server_keys prologue client_secret server_secret) where
  -- If the crates keep their promises, the ends are honest, the message is a text of at most 65496
  -- bytes, both connections have room and the bound on the server's rounds is at least 2, then
  -- there are bytes for each direction such that the client, given the server's bytes, sends the
  -- client's and returns the message behind the server's greeting, and the server, given the
  -- client's bytes, sends the server's and ends without an error; each reads all that the other
  -- sends.
  pub exchange-handle_client :
      (next_reading : ℕ → ℕ) (message : Bytes) (rounds now room : ℕ)
      → from_utf8 message ≡ some message
      → length message ≤ 65496
      → 2 ≤ rounds
      → 200 + length message ≤ room
      → (client_bytes server_bytes : Bytes) × (exchange p self client_secret message
            (connection server_bytes [] room)
          ≡ (
            connection [] client_bytes (room - length client_bytes),
            ok (codes "Server mottok: " ++ message),
          ))
        × (handle_client_with_prologue p next_reading server_keys prologue server_secret rounds now
              (connection client_bytes [] room)
            ≡ some (connection [] server_bytes (room - length server_bytes), ok tt))
  exchange-handle_client next_reading message rounds now room text small enough roomy =
      let (hello, answer, said, answered, finished, fresh_rx, fresh_tx, hello_size, answer_size) =
        handshake_agrees p laws self server_keys prologue client_secret server_secret honest in
      let shaken : Shaken p self server_keys prologue client_secret server_secret hello answer =
        record {
          said = said;
          answered = answered;
          finished = finished;
          fresh_rx = fresh_rx;
          fresh_tx = fresh_tx;
          hello_size = hello_size;
          answer_size = answer_size;
        } in
      let (greeted, reply_text) = reply_to-from_utf8 message text in
      both_halves p laws self server_keys prologue client_secret server_secret hello answer shaken
        message greeted small room roomy next_reading rounds now enough reply_text
