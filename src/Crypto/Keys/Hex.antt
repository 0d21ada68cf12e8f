-- ===== src/Crypto/Keys/Hex.antt =====
-- crypto/mod.rs: keys written as hexadecimal text and read back.
use noise_tunnel_rs.Base.{◌≡◌, All, [], ◌∷◌, length, arith, refl, inl, inr}
use noise_tunnel_rs.Base.Bytes.{Bytes, IsBytes}
use noise_tunnel_rs.Base.Trim.{trim}
use noise_tunnel_rs.Base.Trim.Plain.{IsVisible, trim_visible}
use noise_tunnel_rs.Error.{ok}
use noise_tunnel_rs.Crypto.Primitives.{Primitives, EncodesHex, IsHexDigit}
use noise_tunnel_rs.Crypto.Keys.{
  KeyPair, from_private_hex, parse_public_key_hex, from_private_bytes, public_key_hex,
  private_key_hex,
}

visible : (text : Bytes) → All IsHexDigit text → All IsVisible text
visible [] h = tt
visible (c ∷ cs) (inl d, h) = ((omega (arith, d.0), omega (arith, d.1)), visible cs h)
visible (c ∷ cs) (inr d, h) = ((omega (arith, d.0), omega (arith, d.1)), visible cs h)

module _ (p : Primitives) (encodes : EncodesHex p) where
  trim-hex_encode : (key : Bytes) → IsBytes key → trim (p.hex_encode key) ≡ p.hex_encode key
  trim-hex_encode key bytes =
      trim_visible (p.hex_encode key) (visible (p.hex_encode key) (encodes.digits key bytes))

  -- If the crate hex keeps its promise, a key pair of 32 secret bytes whose public key belongs to
  -- the secret is read back from the text of its private key.
  pub from_private_hex-private_key_hex :
      (pair : KeyPair)
      → length pair.private_key ≡ 32
      → IsBytes pair.private_key
      → pair.public_key ≡ p.x25519_public pair.private_key
      → from_private_hex p (private_key_hex p pair) ≡ ok pair
  unfolding from_private_hex private_key_hex from_private_bytes
  from_private_hex-private_key_hex pair size bytes own =
      rw (trim-hex_encode pair.private_key bytes, encodes.decodes pair.private_key bytes, size, own)
        refl

  pub parse_public_key_hex-public_key_hex :
      (pair : KeyPair)
      → length pair.public_key ≡ 32
      → IsBytes pair.public_key
      → parse_public_key_hex p (public_key_hex p pair) ≡ ok pair.public_key
  unfolding parse_public_key_hex public_key_hex
  parse_public_key_hex-public_key_hex pair size bytes =
      rw (trim-hex_encode pair.public_key bytes, encodes.decodes pair.public_key bytes, size) refl
