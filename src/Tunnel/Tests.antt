-- ===== src/Tunnel/Tests.antt =====
-- A handshake between honest ends with the toy primitives, and a message after it.
mod Binding
mod Refusal
use noise_tunnel_rs.Tunnel.Toy.{toy-Promises}
use noise_tunnel_rs.Base.{List}
use noise_tunnel_rs.Protocol.Stream.{Stream}
use noise_tunnel_rs.Client.Interactive.{is_quiet}
use noise_tunnel_rs.Tunnel.Conversation.Lines.{heard}
use noise_tunnel_rs.Tunnel.Streams.{IsJoined, handshake-IsJoined}
use noise_tunnel_rs.Base.{[], ◌∷◌, ◌≡◌, refl, length, replicate, codes, none, arith}
use noise_tunnel_rs.Base.Bytes.{Bytes}
use noise_tunnel_rs.Error.{ok}
use noise_tunnel_rs.Crypto.Toy.{toy, toy-AgreesOnSecrets, toy-ExpandsKeys, toy-SealsMessages}
use noise_tunnel_rs.Crypto.Keys.{KeyPair}
use noise_tunnel_rs.Client.{TunnelClient}
use noise_tunnel_rs.Client.Handshake.{Hello, client_hello, client_finish}
use noise_tunnel_rs.Server.Handshake.{Answer, server_answer}
use noise_tunnel_rs.Base.Utf8.{from_utf8}
use noise_tunnel_rs.Base.{ℕ, ◌+◌, ◌-◌, ◌++◌, some}
use noise_tunnel_rs.Protocol.Stream.{connection}
use noise_tunnel_rs.Client.Message.{exchange}
use noise_tunnel_rs.Server.Connection.{handle_client_with_prologue}
use noise_tunnel_rs.Tunnel.Message.{exchange-handle_client}
use noise_tunnel_rs.Tunnel.Agreement.{Promises, Honest, handshake_agrees}

abbrev pub server_keys : KeyPair
server_keys = record { private_key = replicate 32 3; public_key = replicate 32 3 }

abbrev pub prologue : Bytes
prologue = codes "Noise_NK_25519_ChaChaPoly_SHA256_v1"

abbrev pub client : TunnelClient
client = record {
  server_pubkey = replicate 32 3;
  target_addr = (codes "127.0.0.1", 9000);
  timeout = none;
  prologue = prologue;
}

ends-Honest : Honest toy client server_keys prologue (replicate 32 1) (replicate 32 2)
ends-Honest = record {
  own_key = refl;
  known_key = refl;
  same_prologue = refl;
  static_size = refl;
  client_size = refl;
  server_size = refl;
}

handshake_agrees_example :
    (hello : Hello) × (answer : Answer) × (client_hello toy client (replicate 32 1) ≡ ok hello)
    × (server_answer toy server_keys prologue (replicate 32 2) hello.frame ≡ ok answer)
    × (client_finish toy client hello answer.frame ≡ ok (answer.rx_cipher, answer.tx_cipher))
    × (answer.rx_cipher.nonce ≡ 0)
    × (answer.tx_cipher.nonce ≡ 0)
    × (length hello.frame.payload ≡ 69)
    × (length answer.frame.payload ≡ 70)
handshake_agrees_example =
    handshake_agrees toy toy-Promises client server_keys prologue (replicate 32 1) (replicate 32 2)
      ends-Honest

handshake-IsJoined_example :
    (hello : Hello) × (answer : Answer) × IsJoined toy client server_keys prologue
      (replicate 32 1)
      (replicate 32 2)
      (7 ∷ [])
      []
      []
      []
      82
      100
      hello
      answer
handshake-IsJoined_example =
    handshake-IsJoined toy toy-Promises client server_keys prologue (replicate 32 1)
      (replicate 32 2) ends-Honest (7 ∷ []) [] [] [] 82 100 (omega arith) (omega arith)

abbrev pub tick : ℕ → ℕ
tick now = now + 10

exchange-handle_client_example :
    (client_bytes server_bytes : Bytes) × (exchange toy client
        (replicate 32 1)
        (104 ∷ 105 ∷ [])
        (connection server_bytes [] 300)
      ≡ (
        connection [] client_bytes (300 - length client_bytes),
        ok (codes "Server mottok: " ++ 104 ∷ 105 ∷ []),
      ))
    × (handle_client_with_prologue toy tick server_keys prologue
          (replicate 32 2)
          2
          0
          (connection client_bytes [] 300)
        ≡ some (connection [] server_bytes (300 - length server_bytes), ok tt))
unfolding from_utf8
exchange-handle_client_example =
    exchange-handle_client toy toy-Promises client server_keys prologue (replicate 32 1)
      (replicate 32 2) ends-Honest tick (104 ∷ 105 ∷ []) 2 0 300 refl (omega arith) (omega arith)
      (omega arith)

abbrev lines : List Bytes
lines = codes "/help" ∷ codes "hi" ∷ codes "/ping" ∷ []

heard_runs : heard lines [] ≡ codes "PONG" ∷ codes "Server mottok: hi" ∷ []
unfolding is_quiet
heard_runs = refl
