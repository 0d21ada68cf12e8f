-- ===== src/Tunnel/Tests/Binding/Delivery.antt =====
-- A message after the handshake of Tunnel/Tests/Binding.
use noise_tunnel_rs.Base.{List, [], ◌∷◌, ◌≡◌, ◌⊎◌, refl, drop, codes, arith}
use noise_tunnel_rs.Base.Bytes.{Bytes}
use noise_tunnel_rs.Error.{ok}
use noise_tunnel_rs.Crypto.Toy.{toy, tag, toy-AgreesOnSecrets, toy-SealsMessages}
use noise_tunnel_rs.Crypto.Cipher.{CipherState, encrypt, build_nonce}
use noise_tunnel_rs.Protocol.MessageType.{data_payload}
use noise_tunnel_rs.Protocol.Frame.{WireFrame, serialize}
use noise_tunnel_rs.Protocol.Stream.{Stream, connection}
use noise_tunnel_rs.Protocol.Wire.{read_from}
use noise_tunnel_rs.Server.Session.{Session, again, session_start, serve_frame, tunnel_data}
use noise_tunnel_rs.Server.Session.Integrity
use noise_tunnel_rs.Server.Session.Integrity.{Answers}
use noise_tunnel_rs.Server.Session.Integrity.Sent.{Labelled, encrypt_each, Forged}
use noise_tunnel_rs.Tunnel.Binding.{Collides, Misopens}
use noise_tunnel_rs.Tunnel.Integrity.{Delivered, answers-Delivered}
use noise_tunnel_rs.Tunnel.Tests.{client, server_keys, prologue, tick}
use noise_tunnel_rs.Tunnel.Tests.Binding.{
  client_secret, server_secret, hello, answer, ciphers, said, answered, finished, ends-Keyed,
}

abbrev key : Bytes
key = ciphers.0.key

abbrev sealed_hi : Bytes
unfolding build_nonce
sealed_hi = 104 ∷ 105 ∷ tag key (build_nonce 0) tunnel_data

abbrev hi : WireFrame
unfolding sealed_hi
hi = record { msg_type = data_payload; nonce = 0; payload = sealed_hi }

abbrev stream : Stream
unfolding hi serialize
stream = connection (serialize hi) [] 1000

abbrev begun : Session
unfolding session_start stream
begun = session_start answer stream 0

abbrev read : Stream
read = connection [] [] 1000

abbrev greeted : Session
unfolding begun serve_frame
greeted = (serve_frame toy tick begun).0

hi-read : read_from begun.stream ≡ (read, ok hi)
unfolding begun stream hi serialize read_from session_start
hi-read = refl

hi-answered : serve_frame toy tick begun ≡ (greeted, ok again)
unfolding greeted begun serve_frame sealed_hi session_start stream hi
hi-answered = refl

abbrev boxes : List Labelled
unfolding sealed_hi
boxes = (tunnel_data, sealed_hi) ∷ []

abbrev messages : List Labelled
messages = (tunnel_data, codes "hi") ∷ []

abbrev tx : CipherState
tx = record { key = key; nonce = 1 }

one_answer : Answers toy tick begun boxes greeted
unfolding boxes hi
one_answer = Integrity.round hi-read hi-answered Integrity.here

started : Answers toy tick (session_start answer stream 0) boxes greeted
unfolding begun
started = one_answer

sealed_after : encrypt_each toy messages ciphers.0 ≡ (tx, ok (sealed_hi ∷ []))
unfolding encrypt sealed_hi
sealed_after = refl

answers-Delivered_example :
    Delivered toy client server_keys prologue client_secret server_secret hello.frame answer ciphers
      boxes messages
      (sealed_hi ∷ [])
    ⊎ (Collides toy client server_keys prologue client_secret server_secret hello.frame
        ⊎ (Misopens toy client server_keys prologue client_secret server_secret hello.frame
              (drop 32 answer.frame.payload)
            ⊎ Forged toy key 0 boxes messages (sealed_hi ∷ [])))
unfolding boxes
answers-Delivered_example =
    answers-Delivered toy toy-AgreesOnSecrets toy-SealsMessages client server_keys prologue
      client_secret server_secret ends-Keyed tick hello.frame hello answer ciphers messages boxes
      (sealed_hi ∷ []) tx stream 0 greeted said answered finished sealed_after started (omega arith)
