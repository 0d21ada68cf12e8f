-- ===== src/Base/Trim.antt =====
-- `str::trim`, on a string's UTF-8 bytes: the characters of Unicode's White_Space are taken off
-- both ends.
pub mod Plain
use Prim.Native.Nat.{ℕ, zero, suc}
use mathlib.Core.Bool.{Bool, ◌&&◌, ◌||◌}
use mathlib.Core.Option.{Option, none, some}
use mathlib.Core.List.{[], ◌∷◌}
use noise_tunnel_rs.Base.Tests.{◌==◌, leb, if◌then◌else◌}
use noise_tunnel_rs.Base.Lists.{length}
use noise_tunnel_rs.Base.Bytes.{Bytes}

-- Tab to carriage return, and space.
abbrev is_space1 : ℕ → Bool
is_space1 b = (leb 9 b && leb b 13) || b == 32

-- U+0085 and U+00A0.
abbrev is_space2 : ℕ → ℕ → Bool
is_space2 a b = a == 0xc2 && (b == 0x85 || b == 0xa0)

-- U+1680, U+2000 to U+200A, U+2028, U+2029, U+202F, U+205F and U+3000.
abbrev is_space3 : ℕ → ℕ → ℕ → Bool
is_space3 a b c =
    (a == 0xe1 && b == 0x9a && c == 0x80)
    || (a == 0xe2
        && b == 0x80
        && ((leb 0x80 c && leb c 0x8a) || c == 0xa8 || c == 0xa9 || c == 0xaf))
    || (a == 0xe2 && b == 0x81 && c == 0x9f)
    || (a == 0xe3 && b == 0x80 && c == 0x80)

-- What is left after one such character at the front.
abbrev pub strip_first : Bytes → Option Bytes
strip_first (a ∷ b ∷ c ∷ rest) =
    if is_space1 a
    then some (b ∷ c ∷ rest)
    else if is_space2 a b
    then some (c ∷ rest)
    else if is_space3 a b c
    then some rest
    else none
strip_first (a ∷ b ∷ []) =
    if is_space1 a then some (b ∷ []) else if is_space2 a b then some [] else none
strip_first (a ∷ []) = if is_space1 a then some [] else none
strip_first [] = none

-- The same at the end, of the bytes in reverse.
abbrev pub strip_last : Bytes → Option Bytes
strip_last (c ∷ b ∷ a ∷ rest) =
    if is_space1 c
    then some (b ∷ a ∷ rest)
    else if is_space2 b c
    then some (a ∷ rest)
    else if is_space3 a b c
    then some rest
    else none
strip_last (b ∷ a ∷ []) =
    if is_space1 b then some (a ∷ []) else if is_space2 a b then some [] else none
strip_last (a ∷ []) = if is_space1 a then some [] else none
strip_last [] = none

-- As often as it can be done; each time takes at least one byte.
abbrev pub strip_all : ℕ → (Bytes → Option Bytes) → Bytes → Bytes
strip_all zero strip bytes = bytes
strip_all (suc n) strip bytes = elim (strip bytes) [
  | none ↦ bytes
  | some rest ↦ strip_all n strip rest
]

abbrev pub reversed : Bytes → Bytes → Bytes
reversed acc [] = acc
reversed acc (b ∷ bs) = reversed (b ∷ acc) bs

unfoldable pub trim : Bytes → Bytes
trim bytes =
    let front = strip_all (length bytes) strip_first bytes in
    reversed [] (strip_all (length front) strip_last (reversed [] front))
