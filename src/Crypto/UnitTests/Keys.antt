-- ===== src/Crypto/UnitTests/Keys.antt =====
-- crypto/mod.rs: the unit tests on keys pass.
use noise_tunnel_rs.Base.{◌≢◌, ◌&&◌, ◌≡◌, codes, replicate, refl, length}
use noise_tunnel_rs.Base.Bytes.{Bytes, same_bytes, same_bytes_refl, not_same_bytes}
use noise_tunnel_rs.Base.{Bool}
use noise_tunnel_rs.Base.Text.Search.{contains}
use noise_tunnel_rs.Error.{Result, ok, is_err, ◌>>=◌, ◌>>◌}
use noise_tunnel_rs.Error.Assert.{unwrap, assert, assert_eq, assert_eq_bytes, assert_ne_bytes}
use noise_tunnel_rs.Crypto.Primitives.{Primitives, AgreesOnSecrets}
use noise_tunnel_rs.Crypto.Keys.{
  SessionKeys, key_len, tag_len, new, from_slices, into_parts, swapped, keys_from_pair,
  pair_from_keys, generate, from_private_slice, diffie_hellman, derive_session_keys,
  derive_session_keypair,
}
use noise_tunnel_rs.Crypto.Debug.{debug_session_keys}

-- The derived `PartialEq` of `SessionKeys`.
abbrev same_keys : SessionKeys → SessionKeys → Bool
same_keys a b =
    same_bytes a.client_write_key b.client_write_key
    && same_bytes a.server_write_key b.server_write_key

abbrev test_session_keys_from_slices_and_conversions : Result (Unit {0})
unfolding from_slices keys_from_pair pair_from_keys
test_session_keys_from_slices_and_conversions = do
  let c = replicate key_len 0x11
  let s = replicate key_len 0x22
  keys ← unwrap (from_slices c s)
  assert_eq_bytes keys.client_write_key c
  assert_eq_bytes keys.server_write_key s
  assert (is_err (from_slices (replicate 10 0) s))
  assert (is_err (from_slices c (replicate 10 0)))
  let from_tuple = keys_from_pair (c, s)
  assert (same_keys from_tuple keys)
  let back_to_tuple = pair_from_keys from_tuple
  assert (same_bytes back_to_tuple.0 c && same_bytes back_to_tuple.1 s)
  ok tt

test_session_keys_from_slices_and_conversions-ok :
    test_session_keys_from_slices_and_conversions ≡ ok tt
unfolding test_session_keys_from_slices_and_conversions from_slices keys_from_pair pair_from_keys
test_session_keys_from_slices_and_conversions-ok = refl

abbrev test_session_keys_swapped : Result (Unit {0})
unfolding new swapped
test_session_keys_swapped = do
  let c = replicate key_len 0x11
  let s = replicate key_len 0x22
  let keys = new c s
  let turned = swapped keys
  assert_eq_bytes turned.client_write_key s
  assert_eq_bytes turned.server_write_key c
  assert (same_keys (swapped turned) keys)
  ok tt

test_session_keys_swapped-ok : test_session_keys_swapped ≡ ok tt
unfolding test_session_keys_swapped new swapped
test_session_keys_swapped-ok = refl

abbrev test_session_keys_as_slices_and_tag_len : Result (Unit {0})
unfolding new
test_session_keys_as_slices_and_tag_len = do
  assert_eq tag_len 16
  let c = replicate key_len 0x11
  let s = replicate key_len 0x22
  let keys = new c s
  assert_eq_bytes keys.client_write_key c
  assert_eq_bytes keys.server_write_key s
  ok tt

test_session_keys_as_slices_and_tag_len-ok : test_session_keys_as_slices_and_tag_len ≡ ok tt
unfolding test_session_keys_as_slices_and_tag_len new
test_session_keys_as_slices_and_tag_len-ok = refl

-- The secrets are what `KeyPair::generate` draws.
module _ (p : Primitives) where
  abbrev test_x25519_key_exchange_agreement : Bytes → Bytes → Result (Unit {0})
  unfolding generate diffie_hellman
  test_x25519_key_exchange_agreement alice_secret bob_secret = do
    let alice = generate p alice_secret
    let bob = generate p bob_secret
    let alice_shared = diffie_hellman p alice.private_key bob.public_key
    let bob_shared = diffie_hellman p bob.private_key alice.public_key
    assert_eq_bytes alice_shared bob_shared
    ok tt

  test_x25519_key_exchange_agreement-ok :
      AgreesOnSecrets p
      → (alice_secret bob_secret : Bytes) → length alice_secret ≡ 32
      → length bob_secret ≡ 32
      → test_x25519_key_exchange_agreement alice_secret bob_secret ≡ ok tt
  unfolding test_x25519_key_exchange_agreement generate diffie_hellman
  test_x25519_key_exchange_agreement-ok laws alice bob ha hb =
      rw (laws.exchange alice bob ha hb, same_bytes_refl (p.x25519 bob (p.x25519_public alice)))
        refl

  abbrev test_hkdf_session_key_derivation_deterministic : Result (Unit {0})
  unfolding derive_session_keys
  test_hkdf_session_key_derivation_deterministic = do
    let secret = replicate key_len 0x11
    let hash = replicate 32 0x22
    (c1, s1) ← unwrap (derive_session_keys p secret hash)
    (c2, s2) ← unwrap (derive_session_keys p secret hash)
    assert_eq_bytes c1 c2
    assert_eq_bytes s1 s2
    assert_ne_bytes c1 s1
    ok tt

  -- The last assertion is about the function HKDF.
  test_hkdf_session_key_derivation_deterministic-ok :
      (c s : Bytes)
      → derive_session_keys p (replicate key_len 0x11) (replicate 32 0x22) ≡ ok (c, s)
      → c ≢ s
      → test_hkdf_session_key_derivation_deterministic ≡ ok tt
  unfolding test_hkdf_session_key_derivation_deterministic
  test_hkdf_session_key_derivation_deterministic-ok c s e differ =
      rw (e, same_bytes_refl c, same_bytes_refl s, not_same_bytes c s differ) refl

  abbrev test_session_keys_struct_and_derivation : Result (Unit {0})
  unfolding derive_session_keypair into_parts new debug_session_keys
  test_session_keys_struct_and_derivation = do
    let secret = replicate key_len 0x77
    let hash = replicate 32 0x88
    session_keys ← unwrap (derive_session_keypair p secret hash)
    assert_eq_bytes session_keys.client_write_key session_keys.client_write_key
    assert_eq_bytes session_keys.server_write_key session_keys.server_write_key
    assert_ne_bytes session_keys.client_write_key session_keys.server_write_key
    let debug_str = debug_session_keys session_keys
    assert (contains debug_str (codes "SessionKeys"))
    assert (contains debug_str (codes "[REDACTED]"))
    let (c_key, s_key) = into_parts session_keys
    assert_eq_bytes c_key session_keys.client_write_key
    assert_eq_bytes s_key session_keys.server_write_key
    let manual_keys = new c_key s_key
    assert (same_keys manual_keys session_keys)
    ok tt

  test_session_keys_struct_and_derivation-ok :
      (keys : SessionKeys)
      → derive_session_keypair p (replicate key_len 0x77) (replicate 32 0x88) ≡ ok keys
      → keys.client_write_key ≢ keys.server_write_key
      → test_session_keys_struct_and_derivation ≡ ok tt
  unfolding test_session_keys_struct_and_derivation into_parts new debug_session_keys
  test_session_keys_struct_and_derivation-ok keys e differ =
      rw
        (
          e,
          same_bytes_refl keys.client_write_key,
          same_bytes_refl keys.server_write_key,
          not_same_bytes keys.client_write_key keys.server_write_key differ,
        )
        refl

  abbrev test_keypair_from_slice_and_slice_accessors : Bytes → Result (Unit {0})
  unfolding generate from_private_slice
  test_keypair_from_slice_and_slice_accessors secret = do
    let keypair = generate p secret
    from_slice ← unwrap (from_private_slice p keypair.private_key)
    assert_eq_bytes from_slice.public_key keypair.public_key
    assert_eq_bytes from_slice.private_key keypair.private_key
    assert_eq_bytes keypair.public_key keypair.public_key
    assert_eq_bytes keypair.private_key keypair.private_key
    assert (is_err (from_private_slice p (replicate 16 0)))
    assert (is_err (from_private_slice p (replicate 64 0)))
    ok tt

  test_keypair_from_slice_and_slice_accessors-ok :
      (secret : Bytes)
      → length secret ≡ 32
      → test_keypair_from_slice_and_slice_accessors secret ≡ ok tt
  unfolding test_keypair_from_slice_and_slice_accessors generate from_private_slice
  test_keypair_from_slice_and_slice_accessors-ok secret size =
      rw (size, same_bytes_refl secret, same_bytes_refl (p.x25519_public secret)) refl
