-- ===== src/Crypto/UnitTests/Hex.antt =====
-- crypto/mod.rs: the unit tests on the texts of keys pass.
use noise_tunnel_rs.Base.{
  [], ◌++◌, true, ◌*◌, inl, inr, Option-cases, ◌≢◌, ◌≡◌, codes, refl, arith, length,
}
use noise_tunnel_rs.Base.Bytes.{Bytes, IsBytes, same_bytes_refl}
use noise_tunnel_rs.Base.Trim.{trim}
use noise_tunnel_rs.Base.Text.Search.{contains, contains-prepend, contains-append, contains-start}
use noise_tunnel_rs.Crypto.Debug.{debug_ephemeral_key_pair}
use noise_tunnel_rs.Error.{Result, ok, is_err, ◌>>=◌, ◌>>◌}
use noise_tunnel_rs.Error.Assert.{unwrap, assert, assert_eq, assert_eq_bytes}
use noise_tunnel_rs.Crypto.Primitives.{
  Primitives, AgreesOnSecrets, EncodesHex, SizesHex, KeysAreBytes,
}
use noise_tunnel_rs.Crypto.Keys.{
  EphemeralKeyPair, generate_ephemeral, key_len, generate, private_key_hex, public_key_hex,
  from_private_hex, parse_public_key_hex,
}
use noise_tunnel_rs.Crypto.Keys.Hex.{
  from_private_hex-private_key_hex, parse_public_key_hex-public_key_hex,
}

short_texts :
    (length (trim (codes "invalid-hex")) ≡ 11)
    × (length (trim (codes "aabbcc")) ≡ 6)
    × (length (trim (codes "1234")) ≡ 4)
unfolding trim
short_texts = (refl, refl, refl)

module _ (p : Primitives) where
  abbrev test_keypair_accessors_and_as_ref : Bytes → Result (Unit {0})
  unfolding generate
  test_keypair_accessors_and_as_ref secret = do
    let keypair = generate p secret
    assert_eq_bytes keypair.public_key keypair.public_key
    assert_eq_bytes keypair.private_key keypair.private_key
    assert_eq_bytes keypair.public_key keypair.public_key
    ok tt

  test_keypair_accessors_and_as_ref-ok :
      (secret : Bytes) → test_keypair_accessors_and_as_ref secret ≡ ok tt
  unfolding test_keypair_accessors_and_as_ref generate
  test_keypair_accessors_and_as_ref-ok secret =
      rw (same_bytes_refl secret, same_bytes_refl (p.x25519_public secret)) refl

  abbrev test_ephemeral_keypair_methods_and_debug : Bytes → Result (Unit {0})
  unfolding generate_ephemeral debug_ephemeral_key_pair
  test_ephemeral_keypair_methods_and_debug secret = do
    let ephem = generate_ephemeral p secret
    assert_eq_bytes ephem.public_key ephem.public_key
    assert_eq_bytes ephem.public_key ephem.public_key
    let debug_str = debug_ephemeral_key_pair p ephem
    assert (contains debug_str (codes "EphemeralKeyPair"))
    assert (contains debug_str (codes "[REDACTED]"))
    assert (contains debug_str (p.hex_encode ephem.public_key))
    ok tt

  debug_ephemeral-contains :
      (pair : EphemeralKeyPair)
      → contains (debug_ephemeral_key_pair p pair) (p.hex_encode pair.public_key) ≡ true
  unfolding debug_ephemeral_key_pair
  debug_ephemeral-contains pair =
      contains-prepend (codes "EphemeralKeyPair { secret: \"[REDACTED]\", public_key: \"") _
        (p.hex_encode pair.public_key)
        (contains-append (((p.hex_encode pair.public_key ++ codes "\"") ++ codes " ") ++ [])
          (codes "}") (p.hex_encode pair.public_key)
          (contains-append ((p.hex_encode pair.public_key ++ codes "\"") ++ codes " ") []
            (p.hex_encode pair.public_key)
            (contains-append (p.hex_encode pair.public_key ++ codes "\"") (codes " ")
              (p.hex_encode pair.public_key)
              (contains-start (p.hex_encode pair.public_key) (codes "\"")))))

  debug_ephemeral-redacts :
      (pair : EphemeralKeyPair)
      → (contains (debug_ephemeral_key_pair p pair) (codes "EphemeralKeyPair") ≡ true)
        × (contains (debug_ephemeral_key_pair p pair) (codes "[REDACTED]") ≡ true)
  unfolding debug_ephemeral_key_pair
  debug_ephemeral-redacts pair = (refl, refl)

  test_ephemeral_keypair_methods_and_debug-ok :
      (secret : Bytes) → test_ephemeral_keypair_methods_and_debug secret ≡ ok tt
  unfolding test_ephemeral_keypair_methods_and_debug generate_ephemeral
  test_ephemeral_keypair_methods_and_debug-ok secret =
      let redacts = debug_ephemeral-redacts (generate_ephemeral p secret) in
      ground (
        arith,
        same_bytes_refl (p.x25519_public secret),
        redacts.0,
        redacts.1,
        debug_ephemeral-contains (generate_ephemeral p secret),
      )

  abbrev test_keypair_hex_roundtrip_and_parsing : Bytes → Result (Unit {0})
  unfolding generate private_key_hex public_key_hex from_private_hex parse_public_key_hex
  test_keypair_hex_roundtrip_and_parsing secret = do
    let keypair = generate p secret
    let priv_hex = private_key_hex p keypair
    let pub_hex = public_key_hex p keypair
    assert_eq (length priv_hex) (key_len * 2)
    assert_eq (length pub_hex) (key_len * 2)
    restored ← unwrap (from_private_hex p priv_hex)
    assert_eq_bytes restored.public_key keypair.public_key
    assert_eq_bytes restored.private_key keypair.private_key
    parsed_pub ← unwrap (parse_public_key_hex p pub_hex)
    assert_eq_bytes parsed_pub keypair.public_key
    assert (is_err (from_private_hex p (codes "invalid-hex")))
    assert (is_err (from_private_hex p (codes "aabbcc")))
    assert (is_err (parse_public_key_hex p (codes "1234")))
    ok tt

  module _ (sizes : SizesHex p) where
    -- A text that has not 64 digits is no key.
    from_private_hex-IsErr :
        (text : Bytes) → length (trim text) ≢ 64 → is_err (from_private_hex p text) ≡ true
    unfolding from_private_hex
    from_private_hex-IsErr text wrong = elim (Option-cases (p.hex_decode (trim text))) [
      | inl e ↦ rw e refl
      | inr (bs, e) ↦ ground (arith, e, wrong, sizes.length-hex_decode (trim text) bs e)
    ]

    parse_public_key_hex-IsErr :
        (text : Bytes) → length (trim text) ≢ 64 → is_err (parse_public_key_hex p text) ≡ true
    unfolding parse_public_key_hex
    parse_public_key_hex-IsErr text wrong = elim (Option-cases (p.hex_decode (trim text))) [
      | inl e ↦ rw e refl
      | inr (bs, e) ↦ ground (arith, e, wrong, sizes.length-hex_decode (trim text) bs e)
    ]

    test_keypair_hex_roundtrip_and_parsing-ok :
        AgreesOnSecrets p
        → EncodesHex p
        → KeysAreBytes p
        → (secret : Bytes) → length secret ≡ 32
        → IsBytes secret
        → test_keypair_hex_roundtrip_and_parsing secret ≡ ok tt
    unfolding test_keypair_hex_roundtrip_and_parsing generate private_key_hex public_key_hex
    test_keypair_hex_roundtrip_and_parsing-ok agrees encodes keys secret size bytes =
        let pub_size = agrees.length-x25519_public secret size in
        let restored =
          from_private_hex-private_key_hex p encodes (generate p secret) size bytes refl in
        let parsed =
          parse_public_key_hex-public_key_hex p encodes (generate p secret) pub_size
            (keys.x25519_public-IsBytes secret bytes) in
        rw
          (
            restored,
            parsed,
            sizes.length-hex_encode secret,
            sizes.length-hex_encode (p.x25519_public secret),
            size,
            pub_size,
            same_bytes_refl secret,
            same_bytes_refl (p.x25519_public secret),
            from_private_hex-IsErr (codes "invalid-hex")
                (λ e. absurd (omega (arith, e, short_texts.0))),
            from_private_hex-IsErr (codes "aabbcc") (λ e. absurd (omega (arith, e, short_texts.1))),
            parse_public_key_hex-IsErr (codes "1234")
                (λ e. absurd (omega (arith, e, short_texts.2))),
          )
          refl
