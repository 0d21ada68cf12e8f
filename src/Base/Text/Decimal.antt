-- ===== src/Base/Text/Decimal.antt =====
-- `{}` of an unsigned integer of at most 64 bits, which has at most 20 digits.
use Prim.Native.Nat.{ℕ, zero, suc, ◌+◌, ◌-◌, ◌*◌, ◌/◌, ◌%◌, ◌^◌, ◌≤◌, ◌<◌}
use mathlib.Core.Path.{◌≡◌, sym, ap, ◌∙◌}
use mathlib.Core.Bool.{◌&&◌, false, Bool}
use mathlib.Core.List.{List, [], ◌∷◌, ◌++◌}
use native.Mathlib.Omega.{arith}
use native.Mathlib.Nat.{pow-suc}
use native.Mathlib.Decide.{dec_lt}
use noise_tunnel_rs.Base.Tests.{lt→ltb, not_lt→ltb, ltb, leb, if◌then◌else◌}
use noise_tunnel_rs.Base.Lists.{length, drop, drop-append, All}
use noise_tunnel_rs.Base.{refl}

-- The pieces of a `format!`, in order.
abbrev pub concat : List (List ℕ) → List ℕ
concat [] = []
concat (piece ∷ pieces) = piece ++ concat pieces

-- The digits before `acc`, the last ones first.
unfoldable pub digits_before : ℕ → ℕ → List ℕ → List ℕ
digits_before zero n acc = acc
digits_before (suc k) n acc =
    let digits = (48 + n % 10) ∷ acc in
    let more = digits_before k (n / 10) digits in if ltb n 10 then digits else more

unfoldable pub to_string : ℕ → List ℕ
unfolding digits_before
to_string n = digits_before 20 n []

abbrev IsDigit : ℕ → Type 0
IsDigit c = (48 ≤ c) × (c ≤ 57)

-- The number that digits stand for behind those of `n`.
abbrev read_digits : ℕ → List ℕ → ℕ
read_digits n [] = n
read_digits n (c ∷ cs) = read_digits (n * 10 + (c - 48)) cs

read_digits-digits_before :
    (k n : ℕ) (acc : List ℕ)
    → n < 10 ^ k
    → read_digits 0 (digits_before k n acc) ≡ read_digits n acc
unfolding digits_before
read_digits-digits_before zero n acc h = ap (λ (x : ℕ). read_digits x acc) (omega arith)
read_digits-digits_before (suc k) n acc h = elim (dec_lt n 10) [
  | yes small ↦ rw (lt→ltb n 10 small) (ap (λ (x : ℕ). read_digits x acc) (omega (arith, small)))
  | no big ↦ rw (not_lt→ltb n 10 big) (
      read_digits-digits_before k (n / 10) ((48 + n % 10) ∷ acc) (omega (arith, h, pow-suc 10 k))
      ∙ ap (λ (x : ℕ). read_digits x acc) (omega arith))
]

digits_before-IsDigit :
    (k n : ℕ) (acc : List ℕ) → All IsDigit acc → All IsDigit (digits_before k n acc)
unfolding digits_before
digits_before-IsDigit zero n acc h = h
digits_before-IsDigit (suc k) n acc h = elim (dec_lt n 10) [
  | yes small ↦ rw (lt→ltb n 10 small) ((omega arith, omega arith), h)
  | no big ↦
      rw (not_lt→ltb n 10 big)
        (digits_before-IsDigit k (n / 10) ((48 + n % 10) ∷ acc) ((omega arith, omega arith), h))
]

abbrev pub is_digit : ℕ → Bool
is_digit c = leb 48 c && leb c 57

-- The digits at the front, and what follows them.
abbrev split_digits : List ℕ → List ℕ × List ℕ
split_digits [] = ([], [])
split_digits (c ∷ cs) =
    let (digits, rest) = split_digits cs in if is_digit c then (c ∷ digits, rest) else ([], c ∷ cs)

split_digits-append :
    (digits : List ℕ) (c : ℕ) (rest : List ℕ)
    → All IsDigit digits
    → is_digit c ≡ false
    → split_digits (digits ++ c ∷ rest) ≡ (digits, c ∷ rest)
split_digits-append [] c rest h below = rw below refl
split_digits-append (d ∷ ds) c rest h below =
    ground (arith, h.0, split_digits-append ds c rest h.1 below)

pub cancel_front : (front xs ys : List ℕ) → front ++ xs ≡ front ++ ys → xs ≡ ys
cancel_front front xs ys e =
    sym (drop-append front xs) ∙ ap (drop (length front)) e ∙ drop-append front ys

-- A number and what follows it are told from a text in which no digit comes next.
pub to_string-injective :
    (m n c d : ℕ) (xs ys : List ℕ)
    → m < 2 ^ 64
    → n < 2 ^ 64
    → is_digit c ≡ false
    → is_digit d ≡ false
    → to_string m ++ c ∷ xs ≡ to_string n ++ d ∷ ys
    → (m ≡ n) × (c ∷ xs ≡ d ∷ ys)
unfolding to_string
to_string-injective m n c d xs ys hm hn hc hd e =
    let left = split_digits-append (to_string m) c xs (digits_before-IsDigit 20 m [] tt) hc in
    let right = split_digits-append (to_string n) d ys (digits_before-IsDigit 20 n [] tt) hd in
    let both : (to_string m, c ∷ xs) ≡ (to_string n, d ∷ ys) =
      sym left ∙ ap split_digits e ∙ right in
    let digits : to_string m ≡ to_string n = ap (λ (r : List ℕ × List ℕ). r.0) both in
    (
      sym (read_digits-digits_before 20 m [] (omega (arith, hm)))
          ∙ ap (read_digits 0) digits
          ∙ read_digits-digits_before 20 n [] (omega (arith, hn)),
      ap (λ (r : List ℕ × List ℕ). r.1) both,
    )
