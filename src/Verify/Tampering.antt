-- ===== src/Verify/Tampering.antt =====
-- verify.rs: a ciphertext with its last byte flipped does not open.
use noise_tunnel_rs.Base.{
  ℕ, suc, ◌+◌, ◌≡◌, ◌≢◌, [], ◌∷◌, ◌++◌, some, Option-cases, inl, inr, length, length-drop, take,
  drop, take-append-drop, replicate, codes, arith, refl, subst, sym, ap, ◌∙◌, false, get_or,
}
use noise_tunnel_rs.Base.Bytes.{Bytes}
use noise_tunnel_rs.Base.Bits.{flip-ne}
use noise_tunnel_rs.Error.{ok, is_ok}
use noise_tunnel_rs.Crypto.Primitives.{Primitives, SealsMessages, ComparesTags}
use noise_tunnel_rs.Crypto.Cipher.{CipherState, build_nonce, decrypt}
use noise_tunnel_rs.Crypto.Cipher
use noise_tunnel_rs.Crypto.Cipher.Nonces.{encrypt_succeeds}
use noise_tunnel_rs.Verify.{tamper_last, test_packet_tampering_detection, bit_xor}

-- Only the last part of a text is changed.
tamper_last-append :
    (front : Bytes) (b : ℕ) (bs changed : Bytes)
    → tamper_last (b ∷ bs) ≡ ok changed
    → tamper_last (front ++ b ∷ bs) ≡ ok (front ++ changed)
unfolding tamper_last
tamper_last-append [] b bs changed h = h
tamper_last-append (x ∷ []) b bs changed h = rw h refl
tamper_last-append (x ∷ y ∷ front) b bs changed h =
    rw (tamper_last-append (y ∷ front) b bs changed h) refl

-- It becomes another text of the same length.
tamper_last-ne :
    (b : ℕ) (bs : Bytes)
    → (changed : Bytes) × (tamper_last (b ∷ bs) ≡ ok changed)
      × (length changed ≡ suc (length bs))
      × (changed ≢ b ∷ bs)
unfolding tamper_last
tamper_last-ne b [] =
    (bit_xor b 255 ∷ [], refl, refl, λ e. flip-ne b (ap (λ (t : Bytes). get_or t 0 0) e))
tamper_last-ne b (c ∷ bs) =
    let (changed, e, size, differs) = tamper_last-ne c bs in
    (b ∷ changed, rw e refl, omega (arith, size), λ same. differs (ap (drop 1) same))

module _ (p : Primitives) (compares : ComparesTags p) where
  -- A tag that is not the right one is refused.
  decrypt_refuses :
      (c : CipherState) (aad front tag other m : Bytes)
      → length tag ≡ 16
      → length other ≡ 16
      → other ≢ tag
      → p.aead_decrypt c.key (build_nonce c.nonce) aad (front ++ tag) ≡ some m
      → is_ok (decrypt p (front ++ other) aad c.nonce c).1 ≡ false
  unfolding decrypt
  decrypt_refuses c aad front tag other m size other_size differs opens =
      elim (Option-cases (p.aead_decrypt c.key (build_nonce c.nonce) aad (front ++ other))) [
        | inl none_left ↦ ground (arith, none_left)
        | inr (m', wrongly) ↦ absurd (
            differs (
              sym (
                compares.tag_decides c.key (build_nonce c.nonce) aad front tag other m m' size
                  other_size opens wrongly)))
      ]

  -- What the flipped byte makes of a ciphertext that opens.
  abbrev Refused : CipherState → Bytes → Bytes → Type 0
  Refused c aad ct =
      (tampered : Bytes) × (tamper_last ct ≡ ok tampered)
      × (is_ok (decrypt p tampered aad c.nonce c).1 ≡ false)

  flipped_tag :
      (c : CipherState) (aad m front tag : Bytes)
      → length tag ≡ 16
      → p.aead_decrypt c.key (build_nonce c.nonce) aad (front ++ tag) ≡ some m
      → Refused c aad (front ++ tag)
  flipped_tag c aad m front [] size opens = absurd (omega (arith, size))
  flipped_tag c aad m front (b ∷ bs) size opens =
      let (changed, e, same_size, differs) = tamper_last-ne b bs in
      (
        front ++ changed,
        tamper_last-append front b bs changed e,
        decrypt_refuses c aad front (b ∷ bs) changed m size (omega (arith, same_size, size)) differs
            opens,
      )

  sealed-Refused :
      (c : CipherState) (aad pt ct : Bytes)
      → length ct ≡ length pt + 16
      → p.aead_decrypt c.key (build_nonce c.nonce) aad ct ≡ some pt
      → Refused c aad ct
  sealed-Refused c aad pt ct size opens =
      let joined = take-append-drop (length pt) ct in
      subst (Refused c aad) joined (
        flipped_tag c aad pt (take (length pt) ct) (drop (length pt) ct)
          (omega (arith, length-drop (length pt) ct, size))
          (ap (p.aead_decrypt c.key (build_nonce c.nonce) aad) joined ∙ opens))

  -- If the AEAD keeps its promises, the self-check of tampering passes.
  pub test_tampering-ok : SealsMessages p → test_packet_tampering_detection p ≡ ok tt
  unfolding test_packet_tampering_detection Cipher.new
  test_tampering-ok sealing =
      let fresh : CipherState = record { key = replicate 32 0x99; nonce = 0 } in
      let pt = codes "Viktig bankoverforing: 1 000 000 NOK" in
      let aad = codes "aad-metadata" in
      let (ct, encrypted, sealed, size) =
        encrypt_succeeds p fresh pt aad sealing (omega arith) (omega arith) in
      let opens = sealing.opens fresh.key (build_nonce 0) aad pt ct sealed in
      let (tampered, changed, refused) = sealed-Refused fresh aad pt ct size opens in
      rw (encrypted, changed, refused) refl
