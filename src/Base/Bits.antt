-- ===== src/Base/Bits.antt =====
-- Single bits of a number, and what `|`, `&` and `<<` do to them.
use Prim.Native.Nat.{
  ℕ, zero, suc, ◌+◌, ◌-◌, ◌*◌, ◌/◌, ◌%◌, ◌^◌, ◌≤◌, ◌<◌, min, max, bit_and, bit_or, digits, bitwise,
  bit_and-bitwise, bit_or-bitwise, bit_xor, bit_xor-bitwise, differ,
}
use mathlib.Core.Path.{◌≡◌, refl, sym, ap, ◌∙◌}
use native.Mathlib.Nat.{
  le_refl, pow-suc, one-le-pow, div-add-mod, mod-lt, add-mul-mod_self_left, mod-eq_of_lt,
}
use mathlib.Core.Logic.{◌≢◌}
use native.Mathlib.Decide.{dec_lt}
use native.Mathlib.Omega.{arith}
use noise_tunnel_rs.Base.Tests.{◌==◌, ltb, if◌then◌else◌}

-- Bit `i` of `x`, as 0 or 1.
abbrev pub bit : ℕ → ℕ → ℕ
bit x zero = x % 2
bit x (suc i) = bit (x / 2) i

pub bit-lt : (i x : ℕ) → bit x i < 2
bit-lt zero x = omega arith
bit-lt (suc i) x = bit-lt i (x / 2)

-- `digits` gives the same for every fuel that is large enough.
module _ (rest : ℕ → ℕ) (op : ℕ → ℕ → ℕ) where
  no_digits : (fuel y : ℕ) → digits rest op fuel zero y ≡ rest y
  no_digits zero y = refl
  no_digits (suc fuel) y = refl

  enough_fuel : (y x k l : ℕ) → x ≤ k → x ≤ l → digits rest op k x y ≡ digits rest op l x y
  enough_fuel y zero k l lk ll = no_digits k y ∙ sym (no_digits l y)
  enough_fuel y (suc x) zero l lk ll = absurd (omega arith)
  enough_fuel y (suc x) (suc k) zero lk ll = absurd (omega arith)
  enough_fuel y (suc x) (suc k) (suc l) lk ll =
      let halves = enough_fuel (y / 2) (suc x / 2) k l (omega arith) (omega arith) in rw halves

  bitwise-halves :
      (x y : ℕ)
      → bitwise rest op (suc x) y ≡ op (suc x % 2) (y % 2) + 2 * bitwise rest op (suc x / 2) (y / 2)
  bitwise-halves x y =
      let same = enough_fuel (y / 2) (suc x / 2) x (suc x / 2) (omega arith) (le_refl _) in
      omega (arith, same)

pub bit_or-halves : (x y : ℕ) → bit_or x y ≡ max (x % 2) (y % 2) + 2 * bit_or (x / 2) (y / 2)
bit_or-halves zero y = simp bit_or-bitwise (omega arith)
bit_or-halves (suc x) y = simp bit_or-bitwise (bitwise-halves (λ t. t) max x y)

pub bit_and-halves : (x y : ℕ) → bit_and x y ≡ min (x % 2) (y % 2) + 2 * bit_and (x / 2) (y / 2)
bit_and-halves zero y = simp bit_and-bitwise (omega arith)
bit_and-halves (suc x) y = simp bit_and-bitwise (bitwise-halves (λ t. 0) min x y)

bit_xor-halves :
    (x y : ℕ) → bit_xor (suc x) y ≡ differ (suc x % 2) (y % 2) + 2 * bit_xor (suc x / 2) (y / 2)
bit_xor-halves x y = simp bit_xor-bitwise (bitwise-halves (λ t. t) differ x y)

-- Flipping the bits of a byte changes its lowest bit.
pub flip-ne : (b : ℕ) → bit_xor b 255 ≢ b
flip-ne zero = λ e. absurd (omega (arith, e))
flip-ne (suc x) = λ e. absurd (elim (dec_lt (suc x % 2) 1) [
  | yes low ↦
      let even : suc x % 2 ≡ 0 = omega (arith, low) in
      let d : differ (suc x % 2) 1 ≡ 1 = ap (λ (t : ℕ). differ t 1) even in
      omega (arith, bit_xor-halves x 255, d, e)
  | no high ↦
      let odd : suc x % 2 ≡ 1 = omega (arith, high) in
      let d : differ (suc x % 2) 1 ≡ 0 = ap (λ (t : ℕ). differ t 1) odd in
      omega (arith, bit_xor-halves x 255, d, e)
])

no_bits : (b : ℕ) → b < 1 → bit_or 0 b ≡ 0
no_bits b h = simp bit_or-bitwise (omega arith)

half_step : (q b : ℕ) → b < 2 → (b + 2 * q) / 2 ≡ q
half_step q b h = omega arith

max-bit-lt : (a b : ℕ) → max (a % 2) (b % 2) < 2
max-bit-lt a b = omega arith

min-bit-lt : (a b : ℕ) → min (a % 2) (b % 2) < 2
min-bit-lt a b = omega arith

half-bit_or : (a b : ℕ) → bit_or a b / 2 ≡ bit_or (a / 2) (b / 2)
half-bit_or a b = ap (λ (t : ℕ). t / 2) (bit_or-halves a b) ∙ half_step _ _ (max-bit-lt a b)

-- `|` works bit by bit.
pub bit-bit_or : (i a b : ℕ) → bit (bit_or a b) i ≡ max (bit a i) (bit b i)
bit-bit_or zero a b = omega (arith, bit_or-halves a b)
bit-bit_or (suc i) a b = ap (λ (t : ℕ). bit t i) (half-bit_or a b) ∙ bit-bit_or i (a / 2) (b / 2)

bit-zero : (i : ℕ) → bit 0 i ≡ 0
bit-zero zero = refl
bit-zero (suc i) = bit-zero i

half-two_pow : (d : ℕ) → 2 ^ suc d / 2 ≡ 2 ^ d
half-two_pow d = omega (arith, pow-suc 2 d)

-- `1 << d` has bit `d` alone.
pub bit-two_pow : (i d : ℕ) → bit (2 ^ d) i ≡ (if i == d then 1 else 0)
bit-two_pow zero zero = refl
bit-two_pow (suc i) zero = bit-zero i ∙ ground arith
bit-two_pow zero (suc d) = ground (arith, pow-suc 2 d)
bit-two_pow (suc i) (suc d) =
    ap (λ (t : ℕ). bit t i) (half-two_pow d) ∙ bit-two_pow i d ∙ ground arith

bit_and-no_bits : (x bound : ℕ) → x ≤ bound → bit_and x 0 ≡ 0
bit_and-no_bits zero bound h = simp bit_and-bitwise refl
bit_and-no_bits (suc x) zero h = absurd (omega arith)
bit_and-no_bits (suc x) (suc bound) h =
    omega (arith, bit_and-no_bits (suc x / 2) bound (omega arith), bit_and-halves (suc x) 0)

-- `x & (1 << d)` keeps bit `d` alone.
pub bit_and-two_pow : (d a : ℕ) → bit_and a (2 ^ d) ≡ bit a d * 2 ^ d
bit_and-two_pow zero a =
    omega (arith, bit_and-halves a 1, bit_and-no_bits (a / 2) (a / 2) (le_refl _))
bit_and-two_pow (suc d) a =
    bit_and-halves a (2 ^ suc d)
    ∙ ap (λ (t : ℕ). min (a % 2) (2 ^ suc d % 2) + 2 * bit_and (a / 2) t) (half-two_pow d)
    ∙ omega (
      arith,
      bit_and-two_pow d (a / 2),
      pow-suc 2 d,
      ap (λ (t : ℕ). bit (a / 2) d * t) (pow-suc 2 d),
    )

-- So the test `(x & (1 << d)) != 0` reads bit `d`.
pub bit_and-two_pow_test : (d a : ℕ) → (bit_and a (2 ^ d) == 0) ≡ (bit a d == 0)
bit_and-two_pow_test d a = ground (arith, bit_and-two_pow d a, bit-lt d a, one-le-pow d 2)

half-mod_two_pow : (w x : ℕ) → x % 2 ^ suc w / 2 ≡ x / 2 % 2 ^ w
half-mod_two_pow w x = ap (λ (t : ℕ). t / 2) whole ∙ half_step (x / 2 % 2 ^ w) (x % 2) (omega arith)
  where
    small : x / 2 % 2 ^ w < 2 ^ w
    small = mod-lt (x / 2) (one-le-pow w 2 (omega arith))

    split : x ≡ x % 2 + 2 * (x / 2 % 2 ^ w) + 2 ^ suc w * (x / 2 / 2 ^ w)
    split =
        omega
          (arith, div-add-mod (x / 2) (2 ^ w), ap (λ (t : ℕ). t * (x / 2 / 2 ^ w)) (pow-suc 2 w))

    whole : x % 2 ^ suc w ≡ x % 2 + 2 * (x / 2 % 2 ^ w)
    whole =
        ap (λ (t : ℕ). t % 2 ^ suc w) split
        ∙ add-mul-mod_self_left (x % 2 + 2 * (x / 2 % 2 ^ w)) (2 ^ suc w) (x / 2 / 2 ^ w)
        ∙ mod-eq_of_lt (omega (arith, small, pow-suc 2 w))

-- Cutting to `w` bits keeps the bits below `w`.
pub bit-mod_two_pow : (i w x : ℕ) → i < w → bit (x % 2 ^ w) i ≡ bit x i
bit-mod_two_pow i zero x h = absurd (omega arith)
bit-mod_two_pow zero (suc w) x h = omega (arith, low_bit)
  where
    low_bit : x % 2 ^ suc w % 2 ≡ x % 2
    low_bit =
        omega (arith, div-add-mod x (2 ^ suc w), ap (λ (t : ℕ). t * (x / 2 ^ suc w)) (pow-suc 2 w))
bit-mod_two_pow (suc i) (suc w) x h =
    ap (λ (t : ℕ). bit t i) (half-mod_two_pow w x) ∙ bit-mod_two_pow i w (x / 2) (omega arith)

half-mul_two_pow : (d x : ℕ) → x * 2 ^ suc d / 2 ≡ x * 2 ^ d
half-mul_two_pow d x = omega (arith, ap (λ (t : ℕ). x * t) (pow-suc 2 d))

bit-mul_two_pow : (d i x : ℕ) → bit (x * 2 ^ d) i ≡ (if ltb i d then 0 else bit x (i - d))
bit-mul_two_pow zero i x =
    let e : x * 1 ≡ x = omega arith in
    let k : i ≡ i - 0 = omega arith in
    ap (λ (t : ℕ). bit t i) e ∙ ap (λ (t : ℕ). bit x t) k ∙ ground arith
bit-mul_two_pow (suc d) zero x = ground (arith, ap (λ (t : ℕ). x * t) (pow-suc 2 d))
bit-mul_two_pow (suc d) (suc i) x =
    ap (λ (t : ℕ). bit t i) (half-mul_two_pow d x)
    ∙ bit-mul_two_pow d i x
    ∙ ground (arith, ap (λ (t : ℕ). bit x t) same)
  where
    same : suc i - suc d ≡ i - d
    same = omega arith

-- `x <<= d` on `w` bits moves bit `i - d` to `i`, and fills with zeros.
pub bit-shift :
    (w d i x : ℕ) → i < w → bit (x * 2 ^ d % 2 ^ w) i ≡ (if ltb i d then 0 else bit x (i - d))
bit-shift w d i x h = bit-mod_two_pow i w (x * 2 ^ d) h ∙ bit-mul_two_pow d i x

or_zero : (fuel x : ℕ) → x ≤ fuel → bit_or x 0 ≡ x
or_zero fuel zero h = no_bits 0 (omega arith)
or_zero zero (suc x) h = absurd (omega arith)
or_zero (suc fuel) (suc x) h =
    omega (arith, bit_or-halves (suc x) 0, or_zero fuel (suc x / 2) (omega arith))

-- `| 1` on an even number.
pub bit_or-one : (x : ℕ) → bit_or (2 * x) 1 ≡ 2 * x + 1
bit_or-one x =
    let half : 2 * x / 2 ≡ x = omega arith in
    let rest : bit_or (2 * x / 2) 0 ≡ x =
      ap (λ (t : ℕ). bit_or t 0) half ∙ or_zero x x (le_refl x) in
    omega (arith, bit_or-halves (2 * x) 1, rest)
