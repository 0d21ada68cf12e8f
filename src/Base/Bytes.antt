-- ===== src/Base/Bytes.antt =====
-- Bytes as numbers below 256, fixed-width words, and Rust's `to_be_bytes`, `to_le_bytes` and
-- `from_be_bytes`.
use Prim.Native.Nat.{ℕ, zero, suc, ◌+◌, ◌-◌, ◌*◌, ◌/◌, ◌%◌, ◌^◌, ◌≤◌, ◌<◌}
use mathlib.Core.Path.{◌≡◌, refl, ap, ◌∙◌}
use mathlib.Core.Bool.{Bool, true, false, ◌&&◌}
use mathlib.Core.Logic.{◌≢◌, ◌⊎◌, inl, inr}
use noise_tunnel_rs.Base.Tests.{◌==◌, Bool-cases}
use mathlib.Core.List.{List, [], ◌∷◌, ◌++◌}
use native.Mathlib.Omega.{arith}
use native.Mathlib.Nat.{pow-suc}
use noise_tunnel_rs.Base.Lists.{length, length-append, All}

abbrev pub Bytes : Type 0
Bytes = List ℕ

abbrev pub IsByte : ℕ → Type 0
IsByte b = b < 256

abbrev pub IsBytes : Bytes → Type 0
IsBytes = All IsByte

abbrev pub u64_max : ℕ
u64_max = 2 ^ 64 - 1

abbrev pub IsU64 : ℕ → Type 0
IsU64 n = n < 2 ^ 64

-- `self.x += n` on a u64 counter in a release build.
abbrev pub add_u64 : ℕ → ℕ → ℕ
add_u64 a b = (a + b) % 2 ^ 64

-- The `k` lowest bytes of `v`, most significant first.
unfoldable pub to_be_bytes : ℕ → ℕ → Bytes
to_be_bytes zero v = []
to_be_bytes (suc k) v = to_be_bytes k (v / 256) ++ v % 256 ∷ []

-- The `k` lowest bytes of `v`, least significant first.
unfoldable pub to_le_bytes : ℕ → ℕ → Bytes
to_le_bytes zero v = []
to_le_bytes (suc k) v = v % 256 ∷ to_le_bytes k (v / 256)

-- `acc` holds the bytes read so far.
unfoldable pub read_be : ℕ → Bytes → ℕ
read_be acc [] = acc
read_be acc (b ∷ bs) = read_be (acc * 256 + b) bs

unfoldable pub from_be_bytes : Bytes → ℕ
unfolding read_be
from_be_bytes bs = read_be 0 bs

pub length-to_be_bytes : (k v : ℕ) → length (to_be_bytes k v) ≡ k
unfolding to_be_bytes
length-to_be_bytes zero v = refl
length-to_be_bytes (suc k) v =
    omega (
      arith,
      length-append (to_be_bytes k (v / 256)) (v % 256 ∷ []),
      length-to_be_bytes k (v / 256),
    )

read_be-append : (acc : ℕ) (xs ys : Bytes) → read_be acc (xs ++ ys) ≡ read_be (read_be acc xs) ys
unfolding read_be
read_be-append acc [] ys = refl
read_be-append acc (x ∷ xs) ys = read_be-append (acc * 256 + x) xs ys

-- Writing a number that fits and reading it back gives the number.
pub from_be_bytes-to_be_bytes : (k v : ℕ) → v < 256 ^ k → from_be_bytes (to_be_bytes k v) ≡ v
unfolding from_be_bytes to_be_bytes
from_be_bytes-to_be_bytes zero v h = omega arith
from_be_bytes-to_be_bytes (suc k) v h =
    read_be-append 0 (to_be_bytes k (v / 256)) (v % 256 ∷ [])
    ∙ omega
        (arith, pow-suc 256 k, from_be_bytes-to_be_bytes k (v / 256) (omega (arith, pow-suc 256 k)))

-- Four bytes, or eight, are what writes their number.
pub to_be_bytes-from_be_bytes_four :
    (a b c d : ℕ)
    → IsBytes (a ∷ b ∷ c ∷ d ∷ [])
    → to_be_bytes 4 (from_be_bytes (a ∷ b ∷ c ∷ d ∷ [])) ≡ a ∷ b ∷ c ∷ d ∷ []
unfolding from_be_bytes to_be_bytes
to_be_bytes-from_be_bytes_four a b c d h = ground arith

-- The number that little-endian bytes stand for.
abbrev from_le_bytes : Bytes → ℕ
from_le_bytes [] = 0
from_le_bytes (b ∷ bs) = b + 256 * from_le_bytes bs

from_le_bytes-to_le_bytes : (k v : ℕ) → v < 256 ^ k → from_le_bytes (to_le_bytes k v) ≡ v
unfolding to_le_bytes
from_le_bytes-to_le_bytes zero v h = omega arith
from_le_bytes-to_le_bytes (suc k) v h =
    omega
      (arith, pow-suc 256 k, from_le_bytes-to_le_bytes k (v / 256) (omega (arith, pow-suc 256 k)))

-- Two numbers that fit are told apart by their bytes.
pub to_le_bytes-injective :
    (k : ℕ) {u v : ℕ} → u < 256 ^ k → v < 256 ^ k → to_le_bytes k u ≡ to_le_bytes k v → u ≡ v
to_le_bytes-injective k {u} {v} hu hv e =
    omega (
      arith,
      from_le_bytes-to_le_bytes k u hu,
      from_le_bytes-to_le_bytes k v hv,
      ap from_le_bytes e,
    )

pub to_be_bytes-from_be_bytes_eight :
    (a b c d e f g h : ℕ)
    → IsBytes (a ∷ b ∷ c ∷ d ∷ e ∷ f ∷ g ∷ h ∷ [])
    → to_be_bytes 8 (from_be_bytes (a ∷ b ∷ c ∷ d ∷ e ∷ f ∷ g ∷ h ∷ []))
      ≡ a ∷ b ∷ c ∷ d ∷ e ∷ f ∷ g ∷ h ∷ []
unfolding from_be_bytes to_be_bytes
to_be_bytes-from_be_bytes_eight a b c d e f g h k = ground arith

mul_mono_right : (x y p : ℕ) → x ≤ y → x * p ≤ y * p
mul_mono_right x y p h = grind arith

-- Bytes stand for a number that fits their count.
read_be-lt : (acc : ℕ) (bs : Bytes) → IsBytes bs → read_be acc bs < (acc + 1) * 256 ^ length bs
unfolding read_be
read_be-lt acc [] h = omega arith
read_be-lt acc (b ∷ bs) h = omega (
  arith,
  read_be-lt (acc * 256 + b) bs h.1,
  mul_mono_right (acc * 256 + b + 1) ((acc + 1) * 256) (256 ^ length bs) (omega arith),
  ap (λ (t : ℕ). (acc + 1) * t) (pow-suc 256 (length bs)),
)

pub from_be_bytes-lt : (bs : Bytes) → IsBytes bs → from_be_bytes bs < 256 ^ length bs
unfolding from_be_bytes
from_be_bytes-lt bs h = omega (arith, read_be-lt 0 bs h)

pub length-to_le_bytes : (k v : ℕ) → length (to_le_bytes k v) ≡ k
unfolding to_le_bytes
length-to_le_bytes zero v = refl
length-to_le_bytes (suc k) v = ap suc (length-to_le_bytes k (v / 256))

-- `a == b` on byte slices.
abbrev pub same_bytes : Bytes → Bytes → Bool
same_bytes [] [] = true
same_bytes [] (y ∷ ys) = false
same_bytes (x ∷ xs) [] = false
same_bytes (x ∷ xs) (y ∷ ys) = x == y && same_bytes xs ys

pub same_bytes_refl : (bs : Bytes) → same_bytes bs bs ≡ true
same_bytes_refl [] = refl
same_bytes_refl (b ∷ bs) = ground (arith, same_bytes_refl bs)

pub same_bytes→eq : (xs ys : Bytes) → same_bytes xs ys ≡ true → xs ≡ ys
same_bytes→eq [] [] h = refl
same_bytes→eq [] (y ∷ ys) h = cc
same_bytes→eq (x ∷ xs) [] h = cc
same_bytes→eq (x ∷ xs) (y ∷ ys) h = ground (arith, same_bytes→eq xs ys)

pub not_same_bytes : (xs ys : Bytes) → xs ≢ ys → same_bytes xs ys ≡ false
not_same_bytes xs ys differ = elim (Bool-cases (same_bytes xs ys)) [
  | inl same ↦ absurd (differ (same_bytes→eq xs ys same))
  | inr e ↦ e
]

pub same_bytes-cases : (xs ys : Bytes) → (xs ≡ ys) ⊎ (xs ≢ ys)
same_bytes-cases xs ys = elim (Bool-cases (same_bytes xs ys)) [
  | inl same ↦ inl (same_bytes→eq xs ys same)
  | inr differs ↦ inr (λ e. cc (differs, same_bytes_refl xs, e))
]
