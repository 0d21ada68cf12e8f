-- ===== src/Tunnel/Binding.antt =====
-- client.rs and server.rs: what the two ends of a handshake hash, and what they can agree on.
pub mod Client
pub mod Server
pub mod Agrees
use noise_tunnel_rs.Base.{
  ◌≡◌, ◌≢◌, ◌⊎◌, inl, inr, ◌++◌, length, take, drop, some, refl, arith, sym, ap, ◌∙◌, length-append,
  take-append, drop-append, Bool-cases,
}
use noise_tunnel_rs.Base.Bytes.{Bytes, same_bytes, same_bytes→eq, same_bytes_refl}
use noise_tunnel_rs.Error.{ok}
use noise_tunnel_rs.Crypto.Primitives.{Primitives, AgreesOnSecrets}
use noise_tunnel_rs.Crypto.Keys.{KeyPair, derive_session_keys, generate_ephemeral}
use noise_tunnel_rs.Crypto.Cipher.{CipherState, build_nonce}
use noise_tunnel_rs.Crypto.Cipher
use noise_tunnel_rs.Protocol.Frame.{WireFrame}
use noise_tunnel_rs.Protocol.Transcript.{hash_handshake_state}
use noise_tunnel_rs.Client.{TunnelClient}
use noise_tunnel_rs.Client.Handshake.{Hello, client_hello, client_finish, ack_message}
use noise_tunnel_rs.Server.Handshake.{Answer, server_answer, ack_reply}

-- What Rust's types say of the ends' keys, and that the server's public key is its private key's.
pub record Keyed (p : Primitives) (self : TunnelClient) (server_keys : KeyPair)
    (client_secret server_secret : Bytes) : Type 0 where
  pub own_key : server_keys.public_key ≡ p.x25519_public server_keys.private_key
  pub expected_size : length self.server_pubkey ≡ 32
  pub static_size : length server_keys.private_key ≡ 32
  pub client_size : length client_secret ≡ 32
  pub server_size : length server_secret ≡ 32

module _ (p : Primitives) (self : TunnelClient) (server_keys : KeyPair)
    (prologue client_secret server_secret : Bytes) (init : WireFrame) where
  abbrev client_pub : Bytes
  client_pub = p.x25519_public client_secret

  abbrev seen_pub : Bytes
  seen_pub = take 32 init.payload

  abbrev server_pub : Bytes
  server_pub = p.x25519_public server_secret

  -- What the two ends hash, on a client that expects `self.server_pubkey` and on a server that read
  -- `init`.
  abbrev pub client_transcript : Bytes
  client_transcript = self.prologue ++ client_pub ++ self.server_pubkey ++ server_pub

  abbrev pub server_transcript : Bytes
  server_transcript = prologue ++ seen_pub ++ server_keys.public_key ++ server_pub

  -- The ends agree on the application, the server and the client's key, and each opens what the
  -- other seals.
  pub record Agreed (answer : Answer) (ciphers : CipherState × CipherState) : Type 0 where
    pub same_prologue : self.prologue ≡ prologue
    pub same_server : self.server_pubkey ≡ server_keys.public_key
    pub same_client : client_pub ≡ seen_pub
    pub mirrored : ciphers ≡ (answer.rx_cipher, answer.tx_cipher)

  -- Different transcripts with one hash.
  abbrev pub Collides : Type 0
  Collides =
      (client_transcript ≢ server_transcript)
      × (p.sha256 client_transcript ≡ p.sha256 server_transcript)

  -- The server's acknowledgement opens under another hash than it was sealed with, each end with
  -- the key that it derived from its own hash.
  abbrev pub Misopens : Bytes → Type 0
  Misopens box =
      (p.sha256 client_transcript ≢ p.sha256 server_transcript)
      × (k opening k' sealing : Bytes) × (derive_session_keys p (p.x25519 client_secret server_pub)
            (p.sha256 client_transcript)
          ≡ ok (k, opening))
      × (derive_session_keys p (p.x25519 server_secret seen_pub) (p.sha256 server_transcript)
          ≡ ok (k', sealing))
      × (p.aead_encrypt sealing (build_nonce 0) (p.sha256 server_transcript) ack_reply ≡ some box)
      × (p.aead_decrypt opening (build_nonce 0) (p.sha256 client_transcript) box ≡ some ack_message)
