-- ===== src/Tunnel/Binding/Server.antt =====
-- server.rs: what the server's half of a handshake that succeeded has computed.
use noise_tunnel_rs.Base.{
  true, some, ◌≡◌, ◌≤◌, ◌++◌, length-take, length, take, arith, ◌≤◌, length-take,
}
use noise_tunnel_rs.Base.Bytes.{Bytes}
use noise_tunnel_rs.Error.{ok, is_ok}
use noise_tunnel_rs.Crypto.Primitives.{Primitives}
use noise_tunnel_rs.Crypto.Keys.{
  KeyPair, derive_session_keys, generate_ephemeral, ephemeral_diffie_hellman, diffie_hellman,
}
use noise_tunnel_rs.Crypto.Cipher.{CipherState, build_nonce, encrypt, decrypt}
use noise_tunnel_rs.Crypto.Cipher
use noise_tunnel_rs.Protocol.Frame
use noise_tunnel_rs.Protocol.Frame.{WireFrame}
use noise_tunnel_rs.Protocol.Transcript.{hash_handshake_state}
use noise_tunnel_rs.Server.Handshake.{Answer, ack_reply}
use noise_tunnel_rs.Server.Handshake.{Answer, server_answer, ack_reply}
use noise_tunnel_rs.Tunnel.Binding.Client.{is_ok→eq, encrypt-aead_encrypt}

module _ (p : Primitives) where
  -- What the server has done with the frame that it answered.
  abbrev pub Answered : KeyPair → Bytes → Bytes → WireFrame → Answer → Type 0
  Answered keys prologue secret init answer =
      let client_ephemeral = take 32 init.payload in
      let server_ephemeral = p.x25519_public secret in
      let dh_static = p.x25519 keys.private_key client_ephemeral in
      let dh_ephem = p.x25519 secret client_ephemeral in
      let h2 =
        hash_handshake_state p prologue client_ephemeral keys.public_key (some server_ephemeral) in
      (other_key resp_key box client_key server_key : Bytes) × (derive_session_keys p dh_ephem h2
        ≡ ok (other_key, resp_key))
      × (p.aead_encrypt resp_key (build_nonce 0) h2 ack_reply ≡ some box)
      × (answer.frame.payload ≡ server_ephemeral ++ box)
      × (derive_session_keys p (dh_static ++ dh_ephem) h2 ≡ ok (client_key, server_key))
      × (answer.rx_cipher ≡ Cipher.new client_key)
      × (answer.tx_cipher ≡ Cipher.new server_key)
      × (length client_ephemeral ≡ 32)

  module _ (keys : KeyPair) (prologue secret : Bytes) (init : WireFrame) (answer : Answer)
      (answered : server_answer p keys prologue secret init ≡ ok answer) where
    abbrev client_ephemeral : Bytes
    client_ephemeral = take 32 init.payload

    abbrev dh_static : Bytes
    dh_static = p.x25519 keys.private_key client_ephemeral

    abbrev dh_ephem : Bytes
    dh_ephem = p.x25519 secret client_ephemeral

    abbrev h2 : Bytes
    h2 =
        hash_handshake_state p prologue client_ephemeral keys.public_key
          (some (p.x25519_public secret))

    long_enough : 48 ≤ length init.payload
    unfolding server_answer
    long_enough = ground (arith, answered)

    traffic_keys-ok : is_ok (derive_session_keys p (dh_static ++ dh_ephem) h2) ≡ true
    unfolding server_answer ephemeral_diffie_hellman diffie_hellman generate_ephemeral
    traffic_keys-ok = ground (arith, answered)

    resp_key-ok : is_ok (derive_session_keys p dh_ephem h2) ≡ true
    unfolding server_answer ephemeral_diffie_hellman diffie_hellman generate_ephemeral
    resp_key-ok = ground (arith, answered)

    module _ {k k' c s : Bytes} (e : derive_session_keys p dh_ephem h2 ≡ ok (k, k'))
        (e1 : derive_session_keys p (dh_static ++ dh_ephem) h2 ≡ ok (c, s)) where
      ack-is_ok : is_ok (encrypt p ack_reply h2 (Cipher.new k')).1 ≡ true
      unfolding server_answer ephemeral_diffie_hellman diffie_hellman generate_ephemeral
      ack-is_ok = ground (arith, answered, e, e1)

      answer_lem :
          (box : Bytes)
          → (encrypt p ack_reply h2 (Cipher.new k')).1 ≡ ok box
          → (answer.frame.payload ≡ p.x25519_public secret ++ box)
            × (answer.rx_cipher ≡ Cipher.new c)
            × (answer.tx_cipher ≡ Cipher.new s)
      unfolding server_answer ephemeral_diffie_hellman diffie_hellman generate_ephemeral Frame.new
      answer_lem box sealed = (
        ground (arith, answered, e, e1, sealed),
        ground (arith, answered, e, e1, sealed),
        ground (arith, answered, e, e1, sealed),
      )

    pub server_answer-Answered : Answered keys prologue secret init answer
    server_answer-Answered =
        let ((k, k'), e) = is_ok→eq _ resp_key-ok in
        let ((c, s), e1) = is_ok→eq _ traffic_keys-ok in
        let (box, sealed) = is_ok→eq _ (ack-is_ok e e1) in
        let (payload, rx, tx) = answer_lem e e1 box sealed in
        (
          k,
          k',
          box,
          c,
          s,
          e,
          encrypt-aead_encrypt p k' h2 ack_reply box sealed,
          payload,
          e1,
          rx,
          tx,
          omega (arith, length-take 32 init.payload, long_enough),
        )
