-- ===== src/Crypto/Tests.antt =====
-- Two messages sealed and opened with the toy primitives, and a receiver at its last nonce.
use noise_tunnel_rs.Base.{ℕ, ◌≡◌, refl, List, [], ◌∷◌, some, replicate, arith, leb, ◌-◌}
use noise_tunnel_rs.Base.Bytes.{Bytes, u64_max}
use noise_tunnel_rs.Error.{ok, err, is_ok, bad_nonce_order, nonce_overflow}
use noise_tunnel_rs.Crypto.Toy.{toy, tag, toy-SealsMessages}
use noise_tunnel_rs.Crypto.Cipher.{CipherState, build_nonce, encrypt, decrypt, remaining_nonces}
use noise_tunnel_rs.Crypto.Cipher.Nonces.{
  Sealed, Unique, nonces_from, encrypt_all, encrypt_all-remaining_nonces, encrypt_all-Unique,
}
use noise_tunnel_rs.Crypto.Cipher.Channel.{decrypt_all, decrypt_all-encrypt_all, decrypt_wraps}

abbrev key : Bytes
key = replicate 32 4

abbrev ad : Bytes
ad = 1 ∷ []

abbrev at : ℕ → CipherState
at n = record { key = key; nonce = n }

abbrev messages : List Bytes
messages = (1 ∷ []) ∷ (2 ∷ 3 ∷ []) ∷ []

abbrev ciphertexts : List Bytes
unfolding build_nonce
ciphertexts = (1 ∷ tag key (build_nonce 5) ad) ∷ (2 ∷ 3 ∷ tag key (build_nonce 6) ad) ∷ []

seal_messages : encrypt_all toy ad messages (at 5) ≡ (at 7, ok ciphertexts)
unfolding encrypt ciphertexts
seal_messages = refl

decrypt_all-encrypt_all_example : decrypt_all toy ad 5 ciphertexts (at 5) ≡ (at 7, ok messages)
decrypt_all-encrypt_all_example =
    decrypt_all-encrypt_all toy ad messages ciphertexts (at 5) (at 7) (at 5) toy-SealsMessages
      (omega arith) refl seal_messages

encrypt_all-Unique_example : Sealed toy key ad 5 messages ciphertexts × Unique (nonces_from 2 5)
encrypt_all-Unique_example =
    encrypt_all-Unique toy ad messages ciphertexts (at 5) (at 7) (omega arith) seal_messages

encrypt_all-remaining_nonces_example :
    is_ok (encrypt_all toy ad messages (at (u64_max - 1))).1
    ≡ leb 2 (remaining_nonces (at (u64_max - 1)))
encrypt_all-remaining_nonces_example =
    encrypt_all-remaining_nonces toy ad messages (at (u64_max - 1)) toy-SealsMessages
      (omega arith, (omega arith, tt)) (omega arith)

seal_last : encrypt toy (1 ∷ []) ad (at u64_max) ≡ (at u64_max, err nonce_overflow)
unfolding encrypt
seal_last = refl

wrong_order : decrypt toy [] ad 6 (at 5) ≡ (at 5, err (bad_nonce_order 5 6))
unfolding decrypt
wrong_order = refl

abbrev last_sealed : Bytes
unfolding build_nonce
last_sealed = 9 ∷ tag key (build_nonce u64_max) ad

abbrev first_sealed : Bytes
unfolding build_nonce
first_sealed = 8 ∷ tag key (build_nonce 0) ad

last_opens : toy.aead_decrypt key (build_nonce u64_max) ad last_sealed ≡ some (9 ∷ [])
unfolding last_sealed
last_opens = refl

first_opens : toy.aead_decrypt key (build_nonce 0) ad first_sealed ≡ some (8 ∷ [])
unfolding first_sealed
first_opens = refl

decrypt_wraps_example :
    (decrypt toy last_sealed ad u64_max (at u64_max) ≡ (at 0, ok (9 ∷ [])))
    × (decrypt toy first_sealed ad 0 (at 0) ≡ (at 1, ok (8 ∷ [])))
decrypt_wraps_example =
    decrypt_wraps toy (at u64_max) ad (9 ∷ []) last_sealed first_sealed (8 ∷ []) refl last_opens
      first_opens
