-- ===== src/Base/Text/Search.antt =====
-- `str::starts_with` and `str::contains`, of a text's bytes.
use Prim.Native.Nat.{ℕ}
use mathlib.Core.Bool.{Bool, true, false, ◌&&◌, ◌||◌}
use mathlib.Core.List.{List, [], ◌∷◌, ◌++◌}
use mathlib.Core.Path.{◌≡◌, refl}
use native.Mathlib.Omega.{arith}
use mathlib.Core.Logic.{inl, inr}
use noise_tunnel_rs.Base.Tests.{◌==◌, Bool-cases}

abbrev pub starts_with : List ℕ → List ℕ → Bool
starts_with bytes [] = true
starts_with [] (n ∷ ns) = false
starts_with (b ∷ bs) (n ∷ ns) = b == n && starts_with bs ns

abbrev pub contains : List ℕ → List ℕ → Bool
contains [] needle = starts_with [] needle
contains (b ∷ bs) needle = starts_with (b ∷ bs) needle || contains bs needle

pub starts_with-append : (xs ys : List ℕ) → starts_with (xs ++ ys) xs ≡ true
starts_with-append [] ys = refl
starts_with-append (x ∷ xs) ys = ground (arith, starts_with-append xs ys)

starts_with-front :
    (xs ys needle : List ℕ) → starts_with xs needle ≡ true → starts_with (xs ++ ys) needle ≡ true
starts_with-front xs ys [] h = refl
starts_with-front [] ys (n ∷ ns) h = cc
starts_with-front (x ∷ xs) ys (n ∷ ns) h = ground (arith, h, starts_with-front xs ys ns)

starts_with-contains :
    (bytes needle : List ℕ) → starts_with bytes needle ≡ true → contains bytes needle ≡ true
starts_with-contains [] needle h = h
starts_with-contains (b ∷ bs) needle h = rw h refl

-- What a part contains the whole does.
pub contains-append :
    (xs ys needle : List ℕ) → contains xs needle ≡ true → contains (xs ++ ys) needle ≡ true
contains-append [] ys [] h = starts_with-contains ys [] refl
contains-append [] ys (n ∷ ns) h = cc
contains-append (x ∷ xs) ys needle h = elim (Bool-cases (starts_with (x ∷ xs) needle)) [
  | inl here ↦ rw (starts_with-front (x ∷ xs) ys needle here) refl
  | inr later ↦ ground (arith, later, h, contains-append xs ys needle)
]

pub contains-prepend :
    (xs ys needle : List ℕ) → contains ys needle ≡ true → contains (xs ++ ys) needle ≡ true
contains-prepend [] ys needle h = h
contains-prepend (x ∷ xs) ys needle h = ground (arith, contains-prepend xs ys needle h)

pub contains-start : (needle ys : List ℕ) → contains (needle ++ ys) needle ≡ true
contains-start needle ys = starts_with-contains (needle ++ ys) needle (starts_with-append needle ys)
