-- ===== src/Protocol/Replay/History.antt =====
-- What the window stands for: the sequence numbers accepted so far, newest first, and the rule by
-- which the next one is accepted.
use noise_tunnel_rs.Base.{
  ℕ, ◌-◌, ◌≤◌, ◌<◌, ◌≡◌, max, Bool, true, false, not, ◌&&◌, ◌||◌, List, [], ◌∷◌, ltb, ◌==◌,
  if◌then◌else◌, arith, refl,
}

abbrev pub contains : ℕ → List ℕ → Bool
contains x [] = false
contains x (y ∷ ys) = (x == y) || contains x ys

abbrev pub is_nil : List ℕ → Bool
is_nil [] = true
is_nil (x ∷ xs) = false

abbrev pub highest : List ℕ → ℕ
highest [] = 0
highest (x ∷ xs) = max x (highest xs)

-- The rule: the first number, any number above all others, or one within `window` of the highest
-- that was not accepted before.
abbrev pub admits : ℕ → List ℕ → ℕ → Bool
admits window seen seq =
    is_nil seen
    || ltb (highest seen) seq
    || (ltb (highest seen - seq) window && not (contains seq seen))

-- The history after `seq` arrives.
abbrev pub extended : ℕ → List ℕ → ℕ → List ℕ
extended window seen seq = if admits window seen seq then seq ∷ seen else seen

pub contains-le : (x : ℕ) (xs : List ℕ) → contains x xs ≡ true → x ≤ highest xs
contains-le x [] h = cc
contains-le x (y ∷ ys) h = ground (arith, contains-le x ys)

pub contains_above : (x : ℕ) (xs : List ℕ) → highest xs < x → contains x xs ≡ false
contains_above x [] h = refl
contains_above x (y ∷ ys) h = ground (arith, contains_above x ys)

pub contains-highest : (xs : List ℕ) → is_nil xs ≡ false → contains (highest xs) xs ≡ true
contains-highest [] h = cc
contains-highest (x ∷ []) h = ground arith
contains-highest (x ∷ y ∷ ys) h = ground (arith, contains-highest (y ∷ ys) refl)

-- What is admitted was not accepted before.
pub admits_fresh :
    (window : ℕ) (seen : List ℕ) (seq : ℕ)
    → admits window seen seq ≡ true
    → contains seq seen ≡ false
admits_fresh window [] seq h = refl
admits_fresh window (x ∷ xs) seq h = ground (arith, contains_above seq (x ∷ xs))
