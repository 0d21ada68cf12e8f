-- ===== src/Crypto/Primitives.antt =====
-- The crates that the tunnel calls and does not implement (x25519-dalek, hkdf, sha2,
-- chacha20poly1305, hex) as a record of functions, and what their documentation promises.
use noise_tunnel_rs.Base.{All, ◌++◌, ℕ, ◌+◌, ◌*◌, ◌≤◌, ◌≡◌, ◌⊎◌, Option, some, length}
use noise_tunnel_rs.Base.Bytes.{Bytes, IsBytes}

pub record Primitives : Type 0 where
  -- `X25519PublicKey::from(&StaticSecret)` and `StaticSecret::diffie_hellman`.
  pub x25519_public : Bytes → Bytes
  pub x25519 : Bytes → Bytes → Bytes
  -- `Sha256` over the bytes of all `update` calls, in order.
  pub sha256 : Bytes → Bytes
  -- `Hkdf::<Sha256>::new(Some(salt), ikm).expand(info, okm)`: salt, ikm, info, length of okm.
  pub hkdf_expand : Bytes → Bytes → Bytes → ℕ → Option Bytes
  -- `ChaCha20Poly1305::new(key).encrypt(nonce, Payload { msg, aad })`: key, nonce, aad, msg.
  pub aead_encrypt : Bytes → Bytes → Bytes → Bytes → Option Bytes
  pub aead_decrypt : Bytes → Bytes → Bytes → Bytes → Option Bytes
  -- `hex::encode` and `hex::decode`, of a string's bytes.
  pub hex_encode : Bytes → Bytes
  pub hex_decode : Bytes → Option Bytes

-- RFC 7748: both sides of an exchange agree, and keys are 32 bytes.
pub record AgreesOnSecrets (p : Primitives) : Type 0 where
  pub exchange :
      (a b : Bytes)
      → length a ≡ 32
      → length b ≡ 32
      → p.x25519 a (p.x25519_public b) ≡ p.x25519 b (p.x25519_public a)
  pub length-x25519_public : (a : Bytes) → length a ≡ 32 → length (p.x25519_public a) ≡ 32

-- RFC 5869: at most 255 * 32 bytes can be expanded, and as many come out as were asked for.
pub record ExpandsKeys (p : Primitives) : Type 0 where
  pub expands :
      (salt ikm info : Bytes) (n : ℕ)
      → n ≤ 8160
      → (okm : Bytes) × (p.hkdf_expand salt ikm info n ≡ some okm) × (length okm ≡ n)

-- RFC 8439: a message below the 256 GB limit is sealed to its length and a 16-byte tag, and what
-- is sealed is opened under the same key, nonce and associated data.
pub record SealsMessages (p : Primitives) : Type 0 where
  pub seals :
      (key nonce aad msg : Bytes)
      → length msg ≤ 274877906880
      → (c : Bytes) × (p.aead_encrypt key nonce aad msg ≡ some c) × (length c ≡ length msg + 16)
  pub opens :
      (key nonce aad msg c : Bytes)
      → p.aead_encrypt key nonce aad msg ≡ some c
      → p.aead_decrypt key nonce aad c ≡ some msg

-- RFC 8439: the last 16 bytes of a ciphertext are a tag that is compared with the one computed from
-- the key, the nonce, the associated data and the bytes before it.
pub record ComparesTags (p : Primitives) : Type 0 where
  pub tag_decides :
      (key nonce aad front tag other m m' : Bytes)
      → length tag ≡ 16
      → length other ≡ 16
      → p.aead_decrypt key nonce aad (front ++ tag) ≡ some m
      → p.aead_decrypt key nonce aad (front ++ other) ≡ some m'
      → tag ≡ other

-- The digits that `hex::encode` writes.
abbrev pub IsHexDigit : ℕ → Type 0
IsHexDigit c = (48 ≤ c × c ≤ 57) ⊎ (97 ≤ c × c ≤ 102)

-- The crate hex: lower-case digits, which `hex::decode` reads back.
pub record EncodesHex (p : Primitives) : Type 0 where
  pub digits : (bytes : Bytes) → IsBytes bytes → All IsHexDigit (p.hex_encode bytes)
  pub decodes : (bytes : Bytes) → IsBytes bytes → p.hex_decode (p.hex_encode bytes) ≡ some bytes

-- The crate hex: two digits for a byte, and only such a text is decoded.
pub record SizesHex (p : Primitives) : Type 0 where
  pub length-hex_encode : (bytes : Bytes) → length (p.hex_encode bytes) ≡ 2 * length bytes
  pub length-hex_decode :
      (text bytes : Bytes) → p.hex_decode text ≡ some bytes → length text ≡ 2 * length bytes

-- `PublicKey` holds bytes.
pub record KeysAreBytes (p : Primitives) : Type 0 where
  pub x25519_public-IsBytes : (a : Bytes) → IsBytes a → IsBytes (p.x25519_public a)
