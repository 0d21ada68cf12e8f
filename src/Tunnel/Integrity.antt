-- ===== src/Tunnel/Integrity.antt =====
-- client.rs and server.rs: what a server answers after a handshake over a network that may change
-- what the client sends.
use noise_tunnel_rs.Base.{ℕ, ◌^◌, ◌<◌, ◌≡◌, ◌⊎◌, inl, inr, List, drop, length, arith, ap}
use noise_tunnel_rs.Base.Bytes.{Bytes}
use noise_tunnel_rs.Error.{ok}
use noise_tunnel_rs.Crypto.Primitives.{Primitives, AgreesOnSecrets, SealsMessages}
use noise_tunnel_rs.Crypto.Keys.{KeyPair}
use noise_tunnel_rs.Crypto.Cipher.{CipherState}
use noise_tunnel_rs.Crypto.Cipher
use noise_tunnel_rs.Protocol.Frame.{WireFrame}
use noise_tunnel_rs.Protocol.Stream.{Stream}
use noise_tunnel_rs.Client.{TunnelClient}
use noise_tunnel_rs.Client.Handshake.{Hello, client_hello, client_finish}
use noise_tunnel_rs.Server.Handshake.{Answer, server_answer}
use noise_tunnel_rs.Server.Session.{Session, session_start}
use noise_tunnel_rs.Server.Session.Integrity.{Answers}
use noise_tunnel_rs.Server.Session.Integrity.Sent.{
  Labelled, encrypt_each, Follows, Forged, Answers-Follows,
}
use noise_tunnel_rs.Tunnel.Binding.{Keyed, Agreed, Collides, Misopens}
use noise_tunnel_rs.Tunnel.Binding.Agrees.{handshake-Agreed}

fresh_rx :
    (p : Primitives) (keys : KeyPair) (prologue secret : Bytes) (f : WireFrame) (answer : Answer)
    → server_answer p keys prologue secret f ≡ ok answer
    → answer.rx_cipher.nonce ≡ 0
unfolding server_answer Cipher.new
fresh_rx p keys prologue secret f answer e = ground arith

module _ (p : Primitives) (self : TunnelClient) (server_keys : KeyPair)
    (prologue client_secret server_secret : Bytes) where
  -- What became of the client's messages: the ends agree, and what the server answered are the first
  -- of them.
  pub record Delivered (init : WireFrame) (answer : Answer) (ciphers : CipherState × CipherState)
      (boxes messages : List Labelled) (cts : List Bytes) : Type 0 where
    pub agreed : Agreed p self server_keys prologue client_secret server_secret init answer ciphers
    pub follows : Follows p ciphers.0.key ciphers.0.nonce boxes messages cts

module _ (p : Primitives) (laws : AgreesOnSecrets p) (sealing : SealsMessages p)
    (self : TunnelClient) (server_keys : KeyPair) (prologue client_secret server_secret : Bytes)
    (keyed : Keyed p self server_keys client_secret server_secret) where
  -- Over a network that may replace the frame and all later bytes that the client sends, but hands
  -- the client the server's own answer to its handshake: if the exchange agrees on secrets and the AEAD
  -- opens what it sealed, the server's public key is its private key's and the keys and ephemeral
  -- secrets are 32 bytes, both halves of the handshake succeed, the client then seals messages, each
  -- with its label, and the server answers fewer than 2^64 boxes from whatever arrives, then both
  -- ends have one prologue, server key and client's ephemeral key, mirrored ciphers, and the boxes
  -- that the server answered are the first that the client sealed, in its order, and open to its
  -- messages; or else the two transcripts that the ends hashed are different and have one hash, or
  -- the server's acknowledgement has opened with another hash than it was sealed with, or a box that
  -- the client did not seal at its place has opened there.
  pub answers-Delivered :
      (next_reading : ℕ → ℕ) (init : WireFrame) (hello : Hello) (answer : Answer)
      (ciphers : CipherState × CipherState) (messages boxes : List Labelled) (cts : List Bytes)
      (tx : CipherState) (stream : Stream) (now : ℕ) (s : Session)
      → client_hello p self client_secret ≡ ok hello
      → server_answer p server_keys prologue server_secret init ≡ ok answer
      → client_finish p self hello answer.frame ≡ ok ciphers
      → encrypt_each p messages ciphers.0 ≡ (tx, ok cts)
      → Answers p next_reading (session_start answer stream now) boxes s
      → length boxes < 2 ^ 64
      → Delivered p self server_keys prologue client_secret server_secret init answer ciphers boxes
          messages cts
        ⊎ (Collides p self server_keys prologue client_secret server_secret init
            ⊎ (Misopens p self server_keys prologue client_secret server_secret init
                  (drop 32 answer.frame.payload)
                ⊎ Forged p ciphers.0.key ciphers.0.nonce boxes messages cts))
  unfolding session_start
  answers-Delivered next_reading init hello answer ciphers messages boxes cts tx stream now s said
        answered finished sealed answers few =
      elim (handshake-Agreed p laws self server_keys prologue client_secret server_secret keyed init
        hello answer ciphers said answered finished) [
          | inr (inl collides) ↦ inr (inl collides)
          | inr (inr misopens) ↦ inr (inr (inl misopens))
          | inl agreed ↦
              elim (Answers-Follows p next_reading sealing messages boxes cts ciphers.0 tx
                (session_start answer stream now) s
                (ap (λ (c : CipherState × CipherState). c.0) agreed.mirrored) sealed answers
                (omega (
                  arith,
                  few,
                  fresh_rx p server_keys prologue server_secret init answer answered,
                ))) [
                  | inl follows ↦ inl (record { agreed = agreed; follows = follows })
                  | inr forged ↦ inr (inr (inr forged))
                ]
        ]
