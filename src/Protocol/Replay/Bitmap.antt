-- ===== src/Protocol/Replay/Bitmap.antt =====
-- How each branch of `validate_and_record` moves the bits of the window.
use noise_tunnel_rs.Base.{
  ℕ, ◌-◌, ◌≤◌, ◌<◌, ◌≡◌, ◌^◌, Bool, true, false, not, bit_or, bit_and, ltb, ◌==◌, if◌then◌else◌,
  arith,
}
use noise_tunnel_rs.Base.Bits.{bit, bit-bit_or, bit-two_pow, bit-shift, bit_and-two_pow_test}
use noise_tunnel_rs.Protocol.Replay.{shl_u128}
use native.Mathlib.Nat.{pow-le-pow_right}

-- Bit `i` is set.
abbrev pub has_bit : ℕ → ℕ → Bool
has_bit bitmap i = not (bit bitmap i == 0)

pub shl_u128-one : (d : ℕ) → d < 128 → shl_u128 1 d ≡ 2 ^ d
shl_u128-one d h =
    let p : 2 ^ d ≤ 2 ^ 127 = pow-le-pow_right (omega arith) {j = 127} (omega arith) in
    omega (arith, p)

-- `(bitmap & (1u128 << d)) != 0` reads bit `d`.
pub bit_and-shl_u128 :
    (bitmap d : ℕ) → d < 128 → not (bit_and bitmap (shl_u128 1 d) == 0) ≡ has_bit bitmap d
bit_and-shl_u128 bitmap d h = rw (shl_u128-one d h, bit_and-two_pow_test d bitmap)

-- `bitmap |= 1u128 << d` sets bit `d`.
pub has_bit-set :
    (bitmap d i : ℕ)
    → d < 128
    → has_bit (bit_or bitmap (shl_u128 1 d)) i ≡ (if i == d then true else has_bit bitmap i)
has_bit-set bitmap d i h =
    rw (shl_u128-one d h) (ground (arith, bit-bit_or i bitmap (2 ^ d), bit-two_pow i d))

-- `bitmap <<= d; bitmap |= 1` moves bit `i - d` to `i` and sets bit 0.
pub has_bit-shift :
    (bitmap d i : ℕ)
    → 0 < d
    → i < 128
    → has_bit (bit_or (shl_u128 bitmap d) 1) i
      ≡ (if i == 0 then true else if ltb i d then false else has_bit bitmap (i - d))
has_bit-shift bitmap d i pos h =
    ground (arith, bit-bit_or i (shl_u128 bitmap d) 1, bit-two_pow i 0, bit-shift 128 d i bitmap h)

pub has_bit-one : (i : ℕ) → has_bit 1 i ≡ (i == 0)
has_bit-one i = ground (arith, bit-two_pow i 0)
