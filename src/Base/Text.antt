-- ===== src/Base/Text.antt =====
-- String literals as the bytes that Rust gives them; every literal used here is ASCII.
pub mod Decimal
pub mod Search
use Prim.Native.Nat.{ℕ}
use Prim.Native.Char.{code}
use Prim.Native.String.{String}
use mathlib.Core.List.{List, [], ◌∷◌}

abbrev pub codes : String → List ℕ
codes String.[] = []
codes (String.◌∷◌ c s) = code c ∷ codes s
