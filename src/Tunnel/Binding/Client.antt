-- ===== src/Tunnel/Binding/Client.antt =====
-- client.rs: what the client's half of a handshake that succeeded has computed.
use noise_tunnel_rs.Base.{◌∙◌, ap, true, some, ◌≡◌, ◌++◌, take, drop, refl, arith}
use noise_tunnel_rs.Base.Bytes.{Bytes, same_bytes, same_bytes→eq}
use noise_tunnel_rs.Error.{Result, ok, err, is_ok}
use noise_tunnel_rs.Crypto.Primitives.{Primitives}
use noise_tunnel_rs.Crypto.Keys.{
  derive_session_keys, generate_ephemeral, ephemeral_diffie_hellman, diffie_hellman,
}
use noise_tunnel_rs.Crypto.Cipher.{CipherState, build_nonce, encrypt, decrypt}
use noise_tunnel_rs.Crypto.Cipher
use noise_tunnel_rs.Protocol.Frame.{WireFrame}
use noise_tunnel_rs.Protocol.Transcript.{hash_handshake_state}
use noise_tunnel_rs.Client.{TunnelClient}
use noise_tunnel_rs.Client.Handshake.{Hello, client_hello, client_finish, ack_message}

pub is_ok→eq : {A : Type 0} (r : Result A) → is_ok r ≡ true → (a : A) × (r ≡ ok a)
is_ok→eq (ok a) e = (a, refl)
is_ok→eq (err x) e = cc

module _ (p : Primitives) where
  pub encrypt-aead_encrypt :
      (key ad msg c : Bytes)
      → (encrypt p msg ad (Cipher.new key)).1 ≡ ok c
      → p.aead_encrypt key (build_nonce 0) ad msg ≡ some c
  unfolding encrypt Cipher.new
  encrypt-aead_encrypt key ad msg c e = ground arith

  decrypt-aead_decrypt :
      (key ad c msg : Bytes)
      → (decrypt p c ad 0 (Cipher.new key)).1 ≡ ok msg
      → p.aead_decrypt key (build_nonce 0) ad c ≡ some msg
  unfolding decrypt Cipher.new
  decrypt-aead_decrypt key ad c msg e = ground arith

  pub client_hello-ephemeral :
      (self : TunnelClient) (secret : Bytes) (hello : Hello)
      → client_hello p self secret ≡ ok hello
      → (hello.ephemeral ≡ generate_ephemeral p secret)
        × (hello.dh_static ≡ p.x25519 secret self.server_pubkey)
  unfolding client_hello generate_ephemeral ephemeral_diffie_hellman
  client_hello-ephemeral self secret hello e = (ground arith, ground arith)

  -- What the client has done with the frame that it accepted.
  abbrev pub Finished : TunnelClient → Hello → WireFrame → CipherState × CipherState → Type 0
  Finished self hello resp ciphers =
      let server_ephemeral = take 32 resp.payload in
      let dh_ephem = p.x25519 hello.ephemeral.secret server_ephemeral in
      let h2 =
        hash_handshake_state p self.prologue hello.ephemeral.public_key self.server_pubkey
          (some server_ephemeral) in
      (other_key resp_key client_key server_key : Bytes) × (derive_session_keys p dh_ephem h2
        ≡ ok (other_key, resp_key))
      × (p.aead_decrypt resp_key (build_nonce 0) h2 (drop 32 resp.payload) ≡ some ack_message)
      × (derive_session_keys p (hello.dh_static ++ dh_ephem) h2 ≡ ok (client_key, server_key))
      × (ciphers ≡ (Cipher.new client_key, Cipher.new server_key))

  module _ (self : TunnelClient) (hello : Hello) (resp : WireFrame)
      (ciphers : CipherState × CipherState)
      (finished : client_finish p self hello resp ≡ ok ciphers) where
    abbrev dh_ephem : Bytes
    dh_ephem = p.x25519 hello.ephemeral.secret (take 32 resp.payload)

    abbrev h2 : Bytes
    h2 =
        hash_handshake_state p self.prologue hello.ephemeral.public_key self.server_pubkey
          (some (take 32 resp.payload))

    resp_key-ok : is_ok (derive_session_keys p dh_ephem h2) ≡ true
    unfolding client_finish ephemeral_diffie_hellman diffie_hellman
    resp_key-ok = ground (arith, finished)

    traffic_keys-ok : is_ok (derive_session_keys p (hello.dh_static ++ dh_ephem) h2) ≡ true
    unfolding client_finish ephemeral_diffie_hellman diffie_hellman
    traffic_keys-ok = ground (arith, finished)

    module _ {k k' : Bytes} (e : derive_session_keys p dh_ephem h2 ≡ ok (k, k')) where
      ack-is_ok : is_ok (decrypt p (drop 32 resp.payload) h2 0 (Cipher.new k')).1 ≡ true
      unfolding client_finish ephemeral_diffie_hellman diffie_hellman
      ack-is_ok = ground (arith, finished, e)

      ack-same_bytes :
          (msg : Bytes)
          → (decrypt p (drop 32 resp.payload) h2 0 (Cipher.new k')).1 ≡ ok msg
          → same_bytes msg ack_message ≡ true
      unfolding client_finish ephemeral_diffie_hellman diffie_hellman
      ack-same_bytes msg e1 = ground (arith, finished, e, e1)

      ack-opened : (decrypt p (drop 32 resp.payload) h2 0 (Cipher.new k')).1 ≡ ok ack_message
      ack-opened =
          let (msg, e1) = is_ok→eq _ ack-is_ok in
          e1 ∙ ap (λ (t : Bytes). ok t) (same_bytes→eq msg ack_message (ack-same_bytes msg e1))

    finished_ciphers :
        {c s : Bytes}
        → derive_session_keys p (hello.dh_static ++ dh_ephem) h2 ≡ ok (c, s)
        → ciphers ≡ (Cipher.new c, Cipher.new s)
    unfolding client_finish ephemeral_diffie_hellman diffie_hellman
    finished_ciphers e = ground (arith, finished, e)

    pub client_finish-Finished : Finished self hello resp ciphers
    client_finish-Finished =
        let ((k, k'), e) = is_ok→eq _ resp_key-ok in
        let ((c, s), e') = is_ok→eq _ traffic_keys-ok in
        (
          k,
          k',
          c,
          s,
          e,
          decrypt-aead_decrypt k' h2 (drop 32 resp.payload) ack_message (ack-opened e),
          e',
          finished_ciphers e',
        )
