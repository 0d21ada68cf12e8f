-- ===== src/Crypto/Cipher/Channel.antt =====
-- A sender and a receiver with one key: what is sent arrives, in order only; and what happens at
-- the last nonce.
use noise_tunnel_rs.Base.{ℕ, ◌+◌, ◌≡◌, List, [], ◌∷◌, length, ◌<◌, some, ◌≤◌, arith, ap, ◌∙◌}
use noise_tunnel_rs.Base.Bytes.{Bytes, u64_max}
use noise_tunnel_rs.Error.{ok, Result}
use noise_tunnel_rs.Action.{Action, pure, ◌>>=◌, and_then}
use noise_tunnel_rs.Crypto.Primitives.{Primitives, SealsMessages}
use noise_tunnel_rs.Crypto.Cipher.{CipherState, decrypt, build_nonce}
use noise_tunnel_rs.Crypto.Cipher.Nonces.{Sealed, encrypt_all, encrypt_all-Sealed}

module _ (p : Primitives) where
  -- The receiver decrypts each ciphertext with the counter that the sender's frame names.
  abbrev pub decrypt_all : Bytes → ℕ → List Bytes → Action CipherState (List Bytes)
  decrypt_all ad n [] = pure []
  decrypt_all ad n (ct ∷ cts) = do
    pt ← decrypt p ct ad n
    pts ← decrypt_all ad (n + 1) cts
    pure (pt ∷ pts)

  -- The receiver opens the next ciphertext.
  pub decrypt_opens :
      (r : CipherState) (pt ad ct : Bytes)
      → SealsMessages p
      → r.nonce < u64_max
      → p.aead_encrypt r.key (build_nonce r.nonce) ad pt ≡ some ct
      → decrypt p ct ad r.nonce r ≡ (record r { nonce = r.nonce + 1 }, ok pt)
  unfolding decrypt
  decrypt_opens r pt ad ct sealing fits e =
      ground (arith, sealing.opens r.key (build_nonce r.nonce) ad pt ct e)

  decrypt_all-Sealed :
      (ad : Bytes) (pts cts : List Bytes) (r : CipherState)
      → SealsMessages p
      → r.nonce + length pts ≤ u64_max
      → Sealed p r.key ad r.nonce pts cts
      → decrypt_all ad r.nonce cts r ≡ (record r { nonce = r.nonce + length pts }, ok pts)
  decrypt_all-Sealed ad [] [] r sealing fits h = ground arith
  decrypt_all-Sealed ad [] (ct ∷ cts) r sealing fits h = elim h [ ]
  decrypt_all-Sealed ad (pt ∷ pts) [] r sealing fits h = elim h [ ]
  decrypt_all-Sealed ad (pt ∷ pts) (ct ∷ cts) r sealing fits h =
      rw (decrypt_opens r pt ad ct sealing (omega arith) h.0) (
        ap (λ (t : CipherState × Result (List Bytes)). and_then t (λ pts. pure (pt ∷ pts)))
          (decrypt_all-Sealed ad pts cts (record r { nonce = r.nonce + 1 }) sealing (omega arith)
            h.1)
        ∙ ground arith)

  -- If the AEAD opens what it seals, all that a sender encrypted is decrypted, in that order, by a
  -- receiver that began in the same state, and both end in the same state.
  pub decrypt_all-encrypt_all :
      (ad : Bytes) (pts cts : List Bytes) (s s' r : CipherState)
      → SealsMessages p
      → s.nonce ≤ u64_max
      → r ≡ s
      → encrypt_all p ad pts s ≡ (s', ok cts)
      → decrypt_all ad s.nonce cts r ≡ (s', ok pts)
  decrypt_all-encrypt_all ad pts cts s s' r sealing fits same e =
      let (sealed, same_key, counter, bound) = encrypt_all-Sealed p ad pts cts s s' e in
      let end : record s { nonce = s.nonce + length pts } ≡ s' = ground arith in
      rw same (
        decrypt_all-Sealed ad pts cts s sealing (omega (arith, counter, bound fits)) sealed
        ∙ ap {B = CipherState × Result (List Bytes)} (λ (t : CipherState). (t, ok pts)) end)

  -- The receiver's counter is not guarded: once a ciphertext opens under the last nonce the counter
  -- is 0 again, and a ciphertext that opens under nonce 0 is then accepted.
  pub decrypt_wraps :
      (r : CipherState) (ad pt ct first pt0 : Bytes)
      → r.nonce ≡ u64_max
      → p.aead_decrypt r.key (build_nonce u64_max) ad ct ≡ some pt
      → p.aead_decrypt r.key (build_nonce 0) ad first ≡ some pt0
      → (decrypt p ct ad u64_max r ≡ (record r { nonce = 0 }, ok pt))
        × (decrypt p first ad 0 (record r { nonce = 0 }) ≡ (record r { nonce = 1 }, ok pt0))
  unfolding decrypt
  decrypt_wraps r ad pt ct first pt0 last e e0 = (ground arith, ground arith)
