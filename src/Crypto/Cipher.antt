-- ===== src/Crypto/Cipher.antt =====
-- crypto/mod.rs: `CipherState`, the AEAD key with its nonce counter.
pub mod Nonces
pub mod Channel
use noise_tunnel_rs.Base.{
  ℕ, ◌+◌, ◌-◌, ◌^◌, Bool, not, Option, none, some, List, ◌++◌, ltb, ◌==◌, if◌then◌else◌, replicate,
}
use noise_tunnel_rs.Base.Bytes.{Bytes, to_le_bytes, u64_max, add_u64}
use noise_tunnel_rs.Error.{
  reject_if, or_fail, aead_encrypt_failed, aead_decrypt_failed, nonce_overflow, bad_nonce_order,
}
use noise_tunnel_rs.Action.{Action, ◌>>=◌, ◌>>◌, lift, pure, get_self, set_self}
use noise_tunnel_rs.Crypto.Primitives.{Primitives}

pub record CipherState : Type 0 where
  pub key : Bytes
  pub nonce : ℕ

unfoldable pub new : Bytes → CipherState
new key = record { key = key; nonce = 0 }

unfoldable pub with_nonce : Bytes → ℕ → CipherState
with_nonce key nonce = record { key = key; nonce = nonce }

unfoldable pub current_nonce : CipherState → ℕ
current_nonce c = c.nonce

-- `u64::MAX.saturating_sub(self.nonce)`.
unfoldable pub remaining_nonces : CipherState → ℕ
remaining_nonces c = u64_max - c.nonce

unfoldable pub is_exhausted : CipherState → Bool
is_exhausted c = c.nonce == u64_max

unfoldable pub is_near_exhaustion : CipherState → ℕ → Bool
unfolding remaining_nonces
is_near_exhaustion c threshold = ltb (remaining_nonces c) threshold

unfoldable pub rekey : Bytes → CipherState → CipherState
rekey new_key c = record c { key = new_key; nonce = 0 }

unfoldable pub reset_nonce : CipherState → CipherState
reset_nonce c = record c { nonce = 0 }

-- Eight little-endian bytes of the counter and four zeros.
unfoldable pub build_nonce : ℕ → Bytes
unfolding to_le_bytes
build_nonce counter = to_le_bytes 8 counter ++ replicate 4 0

-- `a.checked_add(b)` on u64.
abbrev checked_add : ℕ → ℕ → Option ℕ
checked_add a b = if ltb (a + b) (2 ^ 64) then some (a + b) else none

module _ (p : Primitives) where
  unfoldable pub encrypt : Bytes → Bytes → Action CipherState Bytes
  unfolding build_nonce
  encrypt plaintext associated_data = do
    self ← get_self
    ciphertext ← lift (
        or_fail (p.aead_encrypt self.key (build_nonce self.nonce) associated_data plaintext)
          aead_encrypt_failed)
    nonce ← lift (or_fail (checked_add self.nonce 1) nonce_overflow)
    set_self (record self { nonce = nonce })
    pure ciphertext

  -- `self.nonce += 1` wraps in a release build.
  unfoldable pub decrypt : Bytes → Bytes → ℕ → Action CipherState Bytes
  unfolding build_nonce
  decrypt ciphertext associated_data expected_nonce = do
    self ← get_self
    lift
        (reject_if (not (expected_nonce == self.nonce)) (bad_nonce_order self.nonce expected_nonce))
    plaintext ← lift (
        or_fail (p.aead_decrypt self.key (build_nonce expected_nonce) associated_data ciphertext)
          aead_decrypt_failed)
    set_self (record self { nonce = add_u64 self.nonce 1 })
    pure plaintext
