-- ===== src/Server/Handshake.antt =====
-- server.rs: `handle_client_with_prologue` from the HandshakeInit frame to the transport ciphers.
use noise_tunnel_rs.Base.{◌+◌, not, ◌++◌, length, take, drop, ltb, none, some, codes}
use noise_tunnel_rs.Base.Bytes.{Bytes}
use noise_tunnel_rs.Error.{
  Result, ok, reject_if, expected_handshake_init, bad_init_payload_size, ◌>>=◌, ◌>>◌,
}
use noise_tunnel_rs.Crypto.Primitives.{Primitives}
use noise_tunnel_rs.Crypto.Keys.{
  KeyPair, generate_ephemeral, ephemeral_diffie_hellman, diffie_hellman, derive_session_keys,
  key_len,
}
use noise_tunnel_rs.Crypto.Cipher.{CipherState, encrypt, decrypt}
use noise_tunnel_rs.Crypto.Cipher
use noise_tunnel_rs.Protocol.MessageType.{handshake_init, handshake_resp, same_type, as_u8}
use noise_tunnel_rs.Protocol.Frame.{WireFrame}
use noise_tunnel_rs.Protocol.Frame
use noise_tunnel_rs.Protocol.Transcript.{hash_handshake_state}

abbrev pub ack_reply : Bytes
ack_reply = codes "HANDSHAKE_COMPLETE_ACK"

-- The answer to send, and the ciphers for what comes after it.
pub record Answer : Type 0 where
  pub frame : WireFrame
  pub rx_cipher : CipherState
  pub tx_cipher : CipherState

-- Steps 1 to 6, from the ephemeral secret that the generator gave and the frame that came in.
unfoldable pub server_answer : Primitives → KeyPair → Bytes → Bytes → WireFrame → Result Answer
unfolding generate_ephemeral ephemeral_diffie_hellman diffie_hellman Frame.new as_u8
server_answer p server_keys prologue secret init_frame = do
  reject_if (not (same_type init_frame.msg_type handshake_init))
      (expected_handshake_init init_frame.msg_type)
  reject_if (ltb (length init_frame.payload) (key_len + 16)) bad_init_payload_size
  let client_ephemeral = take key_len init_frame.payload
  let init_ciphertext = drop key_len init_frame.payload
  let dh_static = diffie_hellman p server_keys.private_key client_ephemeral
  let h1 = hash_handshake_state p prologue client_ephemeral server_keys.public_key none
  (k_init_c, _) ← derive_session_keys p dh_static h1
  let init_cipher = Cipher.new k_init_c
  _ ← (decrypt p init_ciphertext h1 0 init_cipher).1
  let server_ephemeral = generate_ephemeral p secret
  let server_ephem_pub = server_ephemeral.public_key
  let dh_ephem = ephemeral_diffie_hellman p server_ephemeral client_ephemeral
  let combined_secret = dh_static ++ dh_ephem
  let h2 =
      hash_handshake_state p prologue client_ephemeral server_keys.public_key
        (some server_ephem_pub)
  (client_write_key, server_write_key) ← derive_session_keys p combined_secret h2
  (_, k_resp_s) ← derive_session_keys p dh_ephem h2
  let resp_cipher = Cipher.new k_resp_s
  resp_ciphertext ← (encrypt p ack_reply h2 resp_cipher).1
  let resp_payload = server_ephem_pub ++ resp_ciphertext
  let resp_frame = Frame.new handshake_resp 0 resp_payload
  ok (record {
    frame = resp_frame;
    rx_cipher = Cipher.new client_write_key;
    tx_cipher = Cipher.new server_write_key;
  })
