-- ===== src/Crypto/Toy.antt =====
-- A concrete set of primitives that keeps every promise, so that the theorems that rest on them
-- can be run. It is no cryptography.
use noise_tunnel_rs.Base.{
  sym, ◌∙◌, Bool-cases, Option-cases, length-append, drop-append, take-append, length-replicate,
  ◌<◌, ◌-◌, ◌*◌, ◌/◌, ltb, All, inl, inr, dec_lt, ℕ, ◌+◌, ◌≡◌, Option, none, some, [], ◌∷◌, ◌++◌,
  take, drop, replicate, if◌then◌else◌, arith, refl, ap, ◌%◌, length,
}
use noise_tunnel_rs.Base.Bytes.{IsBytes, Bytes, same_bytes, same_bytes_refl, same_bytes→eq}
use noise_tunnel_rs.Crypto.Primitives.{
  IsHexDigit, EncodesHex, SizesHex, KeysAreBytes, Primitives, AgreesOnSecrets, ExpandsKeys,
  SealsMessages, ComparesTags,
}

-- The sum of the bytes.
abbrev pub total : Bytes → ℕ
total [] = 0
total (b ∷ bs) = b + total bs

-- A public key has the secret's bytes, and an exchange adds both sides up.
abbrev pub tag : Bytes → Bytes → Bytes → Bytes
tag key nonce aad = replicate 16 ((total key + total nonce + total aad) % 256)

abbrev pub unseal : Bytes → Bytes → Option Bytes
unseal expected ct =
    let n = length ct - 16 in if same_bytes (drop n ct) expected then some (take n ct) else none

-- Two digits for a byte, and back.
abbrev pub digit : ℕ → ℕ
digit v = if ltb v 10 then 48 + v else 87 + v

abbrev pub value : ℕ → ℕ
value c = if ltb c 58 then c - 48 else c - 87

abbrev pub hex : Bytes → Bytes
hex [] = []
hex (b ∷ bs) = digit (b / 16) ∷ digit (b % 16) ∷ hex bs

abbrev pub unhex : Bytes → Option Bytes
unhex [] = some []
unhex (c ∷ []) = none
unhex (c ∷ d ∷ cs) = elim (unhex cs) [
  | none ↦ none
  | some bs ↦ some ((16 * value c + value d) ∷ bs)
]

abbrev pub toy : Primitives
toy = record {
  x25519_public = λ a. a;
  x25519 = λ a b. replicate 32 ((total a + total b) % 256);
  sha256 = λ m. replicate 32 (total m % 256);
  hkdf_expand = λ salt ikm info n. some (replicate n ((total salt + total ikm + total info) % 256));
  aead_encrypt = λ key nonce aad msg. some (msg ++ tag key nonce aad);
  aead_decrypt = λ key nonce aad ct. unseal (tag key nonce aad) ct;
  hex_encode = hex;
  hex_decode = unhex;
}

pub toy-AgreesOnSecrets : AgreesOnSecrets toy
toy-AgreesOnSecrets = record {
  exchange = λ a b _ _. ap (λ (t : ℕ). replicate 32 (t % 256)) (omega arith);
  length-x25519_public = λ a h. h;
}

pub toy-ExpandsKeys : ExpandsKeys toy
toy-ExpandsKeys = record { expands = λ salt ikm info n h. (_, refl, length-replicate n _) }

split_tag : (front tag : Bytes) → length tag ≡ 16 → length (front ++ tag) - 16 ≡ length front
split_tag front tag h = omega (arith, length-append front tag, h)

unseal_tag : (b : ℕ) (msg : Bytes) → unseal (replicate 16 b) (msg ++ replicate 16 b) ≡ some msg
unseal_tag b msg =
    rw
      (
        split_tag msg (replicate 16 b) refl,
        drop-append msg (replicate 16 b),
        take-append msg (replicate 16 b),
        same_bytes_refl (replicate 16 b),
      )
      refl

-- What is opened carries the expected tag.
unseal-tag :
    (expected front tag m : Bytes)
    → length tag ≡ 16
    → unseal expected (front ++ tag) ≡ some m
    → tag ≡ expected
unseal-tag expected front tag m h e = elim (Bool-cases (same_bytes tag expected)) [
  | inl same ↦ same_bytes→eq tag expected same
  | inr differs ↦ cc (rw (unseal, split_tag front tag h, drop-append front tag, differs) at e)
]

pub toy-SealsMessages : SealsMessages toy
toy-SealsMessages = record {
  seals = λ key nonce aad msg h.
      (msg ++ tag key nonce aad, refl, length-append msg (tag key nonce aad));
  opens =
      λ key nonce aad msg c e. cc (unseal_tag ((total key + total nonce + total aad) % 256) msg);
}

digit-IsHexDigit : (v : ℕ) → v < 16 → IsHexDigit (digit v)
digit-IsHexDigit v h = elim (dec_lt v 10) [
  | yes small ↦ inl (ground (arith, small), ground (arith, small))
  | no big ↦ inr (ground (arith, big), ground (arith, big, h))
]

hex-IsHexDigit : (bytes : Bytes) → IsBytes bytes → All IsHexDigit (hex bytes)
hex-IsHexDigit [] h = tt
hex-IsHexDigit (b ∷ bs) h = (
  digit-IsHexDigit (b / 16) (omega (arith, h.0)),
  (digit-IsHexDigit (b % 16) (omega arith), hex-IsHexDigit bs h.1),
)

digits_value : (b : ℕ) → b < 256 → 16 * value (digit (b / 16)) + value (digit (b % 16)) ≡ b
digits_value b h = ground arith

unhex-hex : (bytes : Bytes) → IsBytes bytes → unhex (hex bytes) ≡ some bytes
unhex-hex [] h = refl
unhex-hex (b ∷ bs) h = rw (unhex-hex bs h.1, digits_value b h.0) refl

pub toy-EncodesHex : EncodesHex toy
toy-EncodesHex = record { digits = hex-IsHexDigit; decodes = unhex-hex }

pub toy-KeysAreBytes : KeysAreBytes toy
toy-KeysAreBytes = record { x25519_public-IsBytes = λ a h. h }

pub toy-ComparesTags : ComparesTags toy
toy-ComparesTags = record {
  tag_decides = λ key nonce aad front t other m m' h h' e e'.
      unseal-tag (tag key nonce aad) front t m h e
      ∙ sym (unseal-tag (tag key nonce aad) front other m' h' e');
}

length-hex : (bytes : Bytes) → length (hex bytes) ≡ 2 * length bytes
length-hex [] = refl
length-hex (b ∷ bs) = omega (arith, length-hex bs)

size_of : Option Bytes → ℕ
size_of none = 0
size_of (some bs) = length bs

length-unhex : (text bytes : Bytes) → unhex text ≡ some bytes → length text ≡ 2 * length bytes
unfolding size_of
length-unhex [] bytes e = omega (arith, ap size_of e)
length-unhex (c ∷ []) bytes e = cc
length-unhex (c ∷ d ∷ cs) bytes e = elim (Option-cases (unhex cs)) [
  | inl nothing ↦ cc (rw nothing at e)
  | inr (bs, rest) ↦ omega (arith, length-unhex cs bs rest, ap size_of (rw rest at e))
]

pub toy-SizesHex : SizesHex toy
toy-SizesHex = record { length-hex_encode = length-hex; length-hex_decode = length-unhex }
