-- ===== src/Verify.antt =====
-- verify.rs: the self-checks on the cipher state and the replay filter.
pub mod Tampering
pub mod Passes
mod Tests
use Prim.Native.Nat.{bit_xor}
use noise_tunnel_rs.Base.{ℕ, ◌≡◌, not, [], ◌∷◌, ◌==◌, replicate, codes, arith, refl}
use noise_tunnel_rs.Base.Bytes.{Bytes}
use noise_tunnel_rs.Error.{
  Result, ok, err, is_ok, ◌>>=◌, ◌>>◌, reject_if, panicked, tampered_accepted, replay_accepted,
}
use noise_tunnel_rs.Base.{Option, Bool, true, false, ◌&&◌, ◌||◌}
use noise_tunnel_rs.Error.{wrong_reply}
use noise_tunnel_rs.Error.Assert.{assert_eq}
use noise_tunnel_rs.Base.Text.Search.{contains}
use noise_tunnel_rs.Crypto.Keys.{generate}
use noise_tunnel_rs.Protocol.Stream.{Stream}
use noise_tunnel_rs.Server.{TunnelServer}
use noise_tunnel_rs.Server
use noise_tunnel_rs.Client
use noise_tunnel_rs.Client.Message.{send_secure_message}
use noise_tunnel_rs.Crypto.Primitives.{Primitives, SealsMessages}
use noise_tunnel_rs.Crypto.Cipher.{CipherState, current_nonce, encrypt, decrypt}
use noise_tunnel_rs.Crypto.Cipher
use noise_tunnel_rs.Crypto.Cipher.Nonces.{encrypt_succeeds}
use noise_tunnel_rs.Protocol.Replay.{validate_and_record}
use noise_tunnel_rs.Protocol.Replay

-- `ciphertext[last_idx] ^= 0xFF`; an empty ciphertext panics.
unfoldable pub tamper_last : Bytes → Result Bytes
tamper_last [] = err panicked
tamper_last (b ∷ []) = ok (bit_xor b 0xff ∷ [])
tamper_last (b ∷ c ∷ bs) = do rest ← tamper_last (c ∷ bs); ok (b ∷ rest)

module _ (p : Primitives) where
  unfoldable pub test_packet_tampering_detection : Result (Unit {0})
  unfolding Cipher.new encrypt decrypt tamper_last
  test_packet_tampering_detection = do
    let key = replicate 32 0x99
    let sender = Cipher.new key
    let receiver = Cipher.new key
    let aad = codes "aad-metadata"
    ciphertext ← (encrypt p (codes "Viktig bankoverforing: 1 000 000 NOK") aad sender).1
    tampered ← tamper_last ciphertext
    reject_if (is_ok (decrypt p tampered aad 0 receiver).1) tampered_accepted
    ok tt

  unfoldable pub test_nonce_progression : Result (Unit {0})
  unfolding Cipher.new encrypt current_nonce
  test_nonce_progression = do
    let cipher = Cipher.new (replicate 32 0x33)
    assert_eq (current_nonce cipher) 0
    let first = encrypt p (codes "msg 1") [] cipher
    _ ← first.1
    assert_eq (current_nonce first.0) 1
    let second = encrypt p (codes "msg 2") [] first.0
    _ ← second.1
    assert_eq (current_nonce second.0) 2
    ok tt

unfoldable pub test_replay_attack_rejection : Result (Unit {0})
unfolding Replay.new validate_and_record
test_replay_attack_rejection = do
  let first = validate_and_record 100 Replay.new
  first.1
  let replay_attempt = validate_and_record 100 first.0
  reject_if (is_ok replay_attempt.1) replay_accepted
  ok tt

abbrev pub secret_test_message : Bytes
secret_test_message = codes "Testmelding med topphemmelig innhold 12345!"

-- `network` gives the client its connection once the server runs, and the two secrets are what the
-- generator gives for the server's key pair and for the client's handshake. The client has no
-- timeout.
module _ (p : Primitives) (server_secret client_secret : Bytes) (local_addr : Bytes × ℕ)
    (network : TunnelServer → Option Stream) where
  unfoldable pub test_live_tunnel_handshake : Result (Unit {0})
  unfolding generate Server.new Client.new send_secure_message
  test_live_tunnel_handshake = do
    let server_keypair = generate p server_secret
    let server_pubkey = server_keypair.public_key
    let server = Server.new server_keypair local_addr
    let client = Client.new server_pubkey local_addr
    response ← send_secure_message p client client_secret (network server) 0 secret_test_message
    reject_if (not (contains response secret_test_message)) wrong_reply
    ok tt

  unfoldable pub run_security_verification : Result (Unit {0})
  unfolding test_live_tunnel_handshake test_packet_tampering_detection test_replay_attack_rejection
      test_nonce_progression
  run_security_verification = do
    test_live_tunnel_handshake
    test_packet_tampering_detection p
    test_replay_attack_rejection
    test_nonce_progression p
    ok tt
