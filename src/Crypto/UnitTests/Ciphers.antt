-- ===== src/Crypto/UnitTests/Ciphers.antt =====
-- crypto/mod.rs: the unit tests on the cipher state pass.
use noise_tunnel_rs.Base.{ap, ◌≢◌, not, ◌-◌, ◌≡◌, codes, replicate, refl, arith, length}
use noise_tunnel_rs.Base.Bytes.{Bytes, u64_max, not_same_bytes}
use noise_tunnel_rs.Base.Text.Search.{contains}
use noise_tunnel_rs.Error.{Result, ok, ◌>>=◌, ◌>>◌}
use noise_tunnel_rs.Error.Assert.{unwrap, assert, assert_eq, assert_eq_bytes, assert_ne_bytes}
use noise_tunnel_rs.Crypto.Primitives.{Primitives, SealsMessages}
use noise_tunnel_rs.Crypto.Cipher.{
  CipherState, with_nonce, current_nonce, remaining_nonces, is_exhausted, is_near_exhaustion, rekey,
  reset_nonce, encrypt, decrypt,
}
use noise_tunnel_rs.Crypto.Cipher
use noise_tunnel_rs.Crypto.Cipher.Nonces.{encrypt_succeeds}
use noise_tunnel_rs.Crypto.Cipher.Channel.{decrypt_opens}
use noise_tunnel_rs.Crypto.Debug.{debug_cipher_state}

abbrev secret_msg : Bytes
secret_msg = codes "Topphemmelig melding over tunnelen!"

abbrev test_cipher_state_exhaustion_helpers : Result (Unit {0})
unfolding with_nonce current_nonce remaining_nonces is_exhausted is_near_exhaustion
test_cipher_state_exhaustion_helpers = do
  let key = replicate 32 0x99
  let cipher = with_nonce key 100
  assert_eq (current_nonce cipher) 100
  assert_eq (remaining_nonces cipher) (u64_max - 100)
  assert (not (is_exhausted cipher))
  assert (not (is_near_exhaustion cipher 1000))
  let near_exhausted = with_nonce key (u64_max - 5)
  assert_eq (remaining_nonces near_exhausted) 5
  assert (not (is_exhausted near_exhausted))
  assert (is_near_exhaustion near_exhausted 10)
  let fully_exhausted = with_nonce key u64_max
  assert_eq (remaining_nonces fully_exhausted) 0
  assert (is_exhausted fully_exhausted)
  assert (is_near_exhaustion fully_exhausted 1)
  ok tt

test_cipher_state_exhaustion_helpers-ok : test_cipher_state_exhaustion_helpers ≡ ok tt
unfolding test_cipher_state_exhaustion_helpers with_nonce current_nonce remaining_nonces
    is_exhausted is_near_exhaustion
test_cipher_state_exhaustion_helpers-ok = refl

module _ (p : Primitives) where
  abbrev test_aead_encryption_and_decryption : Result (Unit {0})
  unfolding Cipher.new encrypt decrypt
  test_aead_encryption_and_decryption = do
    let key = replicate 32 0x42
    let sender_cipher = Cipher.new key
    let receiver_cipher = Cipher.new key
    let aad = codes "header-metadata-v1"
    ciphertext ← unwrap (encrypt p secret_msg aad sender_cipher).1
    assert_ne_bytes ciphertext secret_msg
    decrypted ← unwrap (decrypt p ciphertext aad 0 receiver_cipher).1
    assert_eq_bytes decrypted secret_msg
    ok tt

  abbrev test_cipher_state_rekey_and_reset : Result (Unit {0})
  unfolding Cipher.new current_nonce encrypt reset_nonce rekey debug_cipher_state
  test_cipher_state_rekey_and_reset = do
    let cipher = Cipher.new (replicate 32 0x33)
    assert_eq (current_nonce cipher) 0
    let sealed = encrypt p (codes "msg 1") (codes "aad") cipher
    _ ← unwrap sealed.1
    assert_eq (current_nonce sealed.0) 1
    let cipher = reset_nonce sealed.0
    assert_eq (current_nonce cipher) 0
    let new_key = replicate 32 0x44
    let cipher = rekey new_key cipher
    assert_eq (current_nonce cipher) 0
    let debug_str = debug_cipher_state cipher
    assert (contains debug_str (codes "CipherState"))
    assert (contains debug_str (codes "[REDACTED]"))
    assert (contains debug_str (codes "nonce: 0"))
    ok tt

  module _ (sealing : SealsMessages p) where
    test_cipher_state_rekey_and_reset-ok : test_cipher_state_rekey_and_reset ≡ ok tt
    unfolding test_cipher_state_rekey_and_reset Cipher.new current_nonce reset_nonce rekey
        debug_cipher_state
    test_cipher_state_rekey_and_reset-ok =
        let (_, sealed, _, _) =
          encrypt_succeeds p (Cipher.new (replicate 32 0x33)) (codes "msg 1") (codes "aad") sealing
            (omega arith) (omega arith) in
        rw sealed refl

    test_aead_encryption_and_decryption-ok : test_aead_encryption_and_decryption ≡ ok tt
    unfolding test_aead_encryption_and_decryption Cipher.new
    test_aead_encryption_and_decryption-ok =
        let (ct, sealed, e, size) =
          encrypt_succeeds p (Cipher.new (replicate 32 0x42)) secret_msg
            (codes "header-metadata-v1") sealing (omega arith) (omega arith) in
        let opened =
          decrypt_opens p (Cipher.new (replicate 32 0x42)) secret_msg (codes "header-metadata-v1")
            ct sealing (omega arith) e in
        let longer : ct ≢ secret_msg =
          λ same. absurd (omega (arith, size, ap (λ (t : Bytes). length t) same)) in
        rw (sealed, opened, not_same_bytes ct secret_msg longer) refl
