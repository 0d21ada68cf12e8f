-- ===== src/Tunnel/Shaken.antt =====
-- client.rs and server.rs: a completed handshake, and the first message and reply after it.
use noise_tunnel_rs.Base.{◌+◌, ◌≡◌, some, length}
use noise_tunnel_rs.Base.Bytes.{Bytes}
use noise_tunnel_rs.Error.{ok}
use noise_tunnel_rs.Crypto.Primitives.{Primitives}
use noise_tunnel_rs.Crypto.Keys.{KeyPair}
use noise_tunnel_rs.Crypto.Cipher.{build_nonce, encrypt}
use noise_tunnel_rs.Client.{TunnelClient}
use noise_tunnel_rs.Client.Message.{data_label}
use noise_tunnel_rs.Server.Session.{reply_to, tunnel_data}
use noise_tunnel_rs.Server.Handshake.{Answer, server_answer}
use noise_tunnel_rs.Client.Handshake.{Hello, client_hello, client_finish}

-- A handshake that both ends have completed.
pub record Shaken (p : Primitives) (self : TunnelClient) (server_keys : KeyPair)
    (prologue client_secret server_secret : Bytes) (hello : Hello) (answer : Answer) : Type 0 where
  pub said : client_hello p self client_secret ≡ ok hello
  pub answered : server_answer p server_keys prologue server_secret hello.frame ≡ ok answer
  pub finished : client_finish p self hello answer.frame ≡ ok (answer.rx_cipher, answer.tx_cipher)
  pub fresh_rx : answer.rx_cipher.nonce ≡ 0
  pub fresh_tx : answer.tx_cipher.nonce ≡ 0
  pub hello_size : length hello.frame.payload ≡ 69
  pub answer_size : length answer.frame.payload ≡ 70

-- A message and its echo, sealed under the first nonces of a handshake's ciphers.
pub record Sealed (p : Primitives) (answer : Answer) (message ct rct : Bytes) : Type 0 where
  pub encrypted :
      encrypt p message data_label answer.rx_cipher
      ≡ (record answer.rx_cipher { nonce = answer.rx_cipher.nonce + 1 }, ok ct)
  pub size : length ct ≡ length message + 16
  pub reply_sealed :
      p.aead_encrypt answer.tx_cipher.key
        (build_nonce answer.tx_cipher.nonce)
        tunnel_data
        (reply_to message)
      ≡ some rct
  pub reply_size : length rct ≡ length (reply_to message) + 16
