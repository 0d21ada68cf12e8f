-- ===== src/Server/Connection.antt =====
-- server.rs: `handle_client_with_prologue` from the first byte to the end of the session.
pub mod Total
pub mod Visit
use noise_tunnel_rs.Base.{ℕ, Option, none, some}
use noise_tunnel_rs.Base.Bytes.{Bytes}
use noise_tunnel_rs.Error.{Result, ok, err}
use noise_tunnel_rs.Action.{Action, ◌>>=◌, ◌>>◌, lift, pure}
use noise_tunnel_rs.Crypto.Primitives.{Primitives}
use noise_tunnel_rs.Crypto.Keys.{KeyPair}
use noise_tunnel_rs.Protocol.Stream.{Stream}
use noise_tunnel_rs.Protocol.Transcript.{protocol_name}
use noise_tunnel_rs.Protocol.Wire.{read_from, write_to}
use noise_tunnel_rs.Server.Handshake.{Answer, server_answer}
use noise_tunnel_rs.Server.Session.{Session, session_start, serve}

module _ (p : Primitives) (server_keys : KeyPair) (prologue secret : Bytes) where
  -- Steps 1 to 5: `secret` is the ephemeral key's.
  unfoldable pub accept_handshake : Action Stream Answer
  unfolding server_answer read_from write_to
  accept_handshake = do
    init_frame ← read_from
    answer ← lift (server_answer p server_keys prologue secret init_frame)
    write_to answer.frame
    pure answer

-- The stream and the result that a session ends with.
abbrev pub left_behind : Option (Session × Result (Unit {0})) → Option (Stream × Result (Unit {0}))
left_behind none = none
left_behind (some r) = some (r.0.stream, r.1)

module _ (p : Primitives) (next_reading : ℕ → ℕ) (server_keys : KeyPair)
    (prologue secret : Bytes) where
  abbrev pub go_on : ℕ → ℕ → Stream × Result Answer → Option (Stream × Result (Unit {0}))
  unfolding session_start
  go_on rounds now (t, err e) = some (t, err e)
  go_on rounds now (t, ok answer) =
      left_behind (serve p next_reading rounds (session_start answer t now))

  -- The whole connection, with a bound on the rounds of its loop.
  unfoldable pub handle_client_with_prologue : ℕ → ℕ → Stream → Option (Stream × Result (Unit {0}))
  unfolding accept_handshake go_on
  handle_client_with_prologue rounds now t =
      go_on rounds now (accept_handshake p server_keys prologue secret t)

-- `handle_client`.
unfoldable pub handle_client :
    Primitives → (ℕ → ℕ) → KeyPair → Bytes → ℕ → ℕ → Stream → Option (Stream × Result (Unit {0}))
unfolding handle_client_with_prologue
handle_client p next_reading server_keys secret =
    handle_client_with_prologue p next_reading server_keys protocol_name secret
