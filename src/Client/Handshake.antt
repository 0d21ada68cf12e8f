-- ===== src/Client/Handshake.antt =====
-- client.rs: `TunnelClient::perform_handshake`, cut where it waits for the server.
use noise_tunnel_rs.Base.{◌+◌, not, ◌++◌, length, take, drop, ltb, none, some, codes}
use noise_tunnel_rs.Base.Bytes.{Bytes, same_bytes}
use noise_tunnel_rs.Error.{
  Result, ok, reject_if, expected_handshake_resp, bad_resp_payload_size, bad_handshake_ack, ◌>>=◌,
  ◌>>◌,
}
use noise_tunnel_rs.Crypto.Primitives.{Primitives}
use noise_tunnel_rs.Crypto.Keys.{
  EphemeralKeyPair, generate_ephemeral, ephemeral_diffie_hellman, derive_session_keys, key_len,
}
use noise_tunnel_rs.Crypto.Cipher.{CipherState, encrypt, decrypt}
use noise_tunnel_rs.Crypto.Cipher
use noise_tunnel_rs.Protocol.MessageType.{handshake_init, handshake_resp, same_type, as_u8}
use noise_tunnel_rs.Protocol.Frame.{WireFrame}
use noise_tunnel_rs.Protocol.Frame
use noise_tunnel_rs.Protocol.Transcript.{hash_handshake_state}
use noise_tunnel_rs.Client.{TunnelClient}

abbrev pub init_message : Bytes
init_message = codes "HANDSHAKE_INIT_CLIENT"

abbrev pub ack_message : Bytes
ack_message = codes "HANDSHAKE_COMPLETE_ACK"

-- What the client keeps while it waits, and the frame that it sends.
pub record Hello : Type 0 where
  pub ephemeral : EphemeralKeyPair
  pub dh_static : Bytes
  pub frame : WireFrame

module _ (p : Primitives) (self : TunnelClient) where
  -- Steps 1 and 2, from the ephemeral secret that the generator gave.
  unfoldable pub client_hello : Bytes → Result Hello
  unfolding generate_ephemeral ephemeral_diffie_hellman Frame.new
  client_hello secret = do
    let client_ephemeral = generate_ephemeral p secret
    let client_ephem_pub = client_ephemeral.public_key
    let dh_static = ephemeral_diffie_hellman p client_ephemeral self.server_pubkey
    let h1 = hash_handshake_state p self.prologue client_ephem_pub self.server_pubkey none
    (k_init_c, _) ← derive_session_keys p dh_static h1
    let init_cipher = Cipher.new k_init_c
    init_ciphertext ← (encrypt p init_message h1 init_cipher).1
    let init_payload = client_ephem_pub ++ init_ciphertext
    let init_frame = Frame.new handshake_init 0 init_payload
    ok (record { ephemeral = client_ephemeral; dh_static = dh_static; frame = init_frame })

  -- Steps 3 to 5: the ciphers for sending and receiving.
  unfoldable pub client_finish : Hello → WireFrame → Result (CipherState × CipherState)
  unfolding ephemeral_diffie_hellman as_u8
  client_finish hello resp_frame = do
    reject_if (not (same_type resp_frame.msg_type handshake_resp))
        (expected_handshake_resp resp_frame.msg_type)
    reject_if (ltb (length resp_frame.payload) (key_len + 16)) bad_resp_payload_size
    let server_ephemeral_pub = take key_len resp_frame.payload
    let resp_ciphertext = drop key_len resp_frame.payload
    let dh_ephem = ephemeral_diffie_hellman p hello.ephemeral server_ephemeral_pub
    let h2 =
        hash_handshake_state p self.prologue hello.ephemeral.public_key self.server_pubkey
          (some server_ephemeral_pub)
    (_, k_resp_s) ← derive_session_keys p dh_ephem h2
    let resp_cipher = Cipher.new k_resp_s
    resp_ack ← (decrypt p resp_ciphertext h2 0 resp_cipher).1
    reject_if (not (same_bytes resp_ack ack_message)) bad_handshake_ack
    let combined_secret = hello.dh_static ++ dh_ephem
    (client_write_key, server_write_key) ← derive_session_keys p combined_secret h2
    let tx_cipher = Cipher.new client_write_key
    let rx_cipher = Cipher.new server_write_key
    ok (tx_cipher, rx_cipher)
