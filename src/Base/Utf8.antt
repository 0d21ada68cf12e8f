-- ===== src/Base/Utf8.antt =====
-- `String::from_utf8_lossy` and `String::from_utf8`: a text is its UTF-8 bytes.
use Prim.Native.Nat.{ℕ, zero, suc}
use mathlib.Core.Bool.{Bool, true, false, ◌&&◌}
use mathlib.Core.Logic.{inl, inr}
use mathlib.Core.Option.{Option, none, some}
use mathlib.Core.List.{[], ◌∷◌, ◌++◌, append-nil, append_assoc}
use noise_tunnel_rs.Base.Tests.{Option-cases, leb, ltb, if◌then◌else◌}
use noise_tunnel_rs.Base.Bytes.{Bytes}
use noise_tunnel_rs.Base.{◌≡◌, arith, refl, ap, ◌∙◌, sym}

-- Between two characters, or inside one: its bytes so far, how many are to come after the next,
-- and the range of the next.
pub data Place : Type 0 where
  between : Place
  inside : Bytes → ℕ → ℕ → ℕ → Place

-- A byte at the start of a character: what is written at once, and the place after it.
-- `none` is a byte that starts no character.
abbrev pub start : ℕ → Option (Bytes × Place)
start b =
    if ltb b 0x80
    then some (b ∷ [], between)
    else if ltb b 0xc2
    then none
    else if ltb b 0xe0
    then some ([], inside (b ∷ []) 0 0x80 0xbf)
    else if leb b 0xe0
    then some ([], inside (b ∷ []) 1 0xa0 0xbf)
    else if ltb b 0xed
    then some ([], inside (b ∷ []) 1 0x80 0xbf)
    else if leb b 0xed
    then some ([], inside (b ∷ []) 1 0x80 0x9f)
    else if ltb b 0xf0
    then some ([], inside (b ∷ []) 1 0x80 0xbf)
    else if leb b 0xf0
    then some ([], inside (b ∷ []) 2 0x90 0xbf)
    else if ltb b 0xf4
    then some ([], inside (b ∷ []) 2 0x80 0xbf)
    else if leb b 0xf4
    then some ([], inside (b ∷ []) 2 0x80 0x8f)
    else none

-- The place after a byte that belongs to the character.
abbrev pub go_on : Bytes → ℕ → Bytes × Place
go_on cs zero = (cs, between)
go_on cs (suc k) = ([], inside cs k 0x80 0xbf)

-- A byte at a place, `none` if the text is not UTF-8.
abbrev pub advance : Place → ℕ → Option (Bytes × Place)
advance between b = start b
advance (inside cs k lo hi) b = if leb lo b && leb b hi then some (go_on (cs ++ b ∷ []) k) else none

-- U+FFFD.
abbrev pub replacement : Bytes
replacement = 0xef ∷ 0xbf ∷ 0xbd ∷ []

abbrev or_replace : Option (Bytes × Place) → Bytes × Place
or_replace none = (replacement, between)
or_replace (some r) = r

-- A broken character is replaced, and the byte that broke it begins the next.
abbrev mend : Option (Bytes × Place) → Place → ℕ → Bytes × Place
mend (some r) place b = r
mend none between b = (replacement, between)
mend none (inside cs k lo hi) b =
    (replacement ++ (or_replace (start b)).0, (or_replace (start b)).1)

abbrev pub lossy : Bytes → Place → Bytes
lossy [] between = []
lossy [] (inside cs k lo hi) = replacement
lossy (b ∷ bs) place =
    (mend (advance place b) place b).0 ++ lossy bs (mend (advance place b) place b).1

unfoldable pub from_utf8_lossy : Bytes → Bytes
from_utf8_lossy bytes = lossy bytes between

abbrev pub valid : Bytes → Place → Bool
valid [] between = true
valid [] (inside cs k lo hi) = false
valid (b ∷ bs) place = elim (advance place b) [ none ↦ false | some r ↦ valid bs r.1 ]

-- `some` is the text, which has the same bytes.
unfoldable pub from_utf8 : Bytes → Option Bytes
from_utf8 bytes = if valid bytes between then some bytes else none

abbrev pending : Place → Bytes
pending between = []
pending (inside cs k lo hi) = cs

start-pending : (b : ℕ) (r : Bytes × Place) → start b ≡ some r → r.0 ++ pending r.1 ≡ b ∷ []
start-pending b r h = ground arith

advance-pending :
    (place : Place) (b : ℕ) (r : Bytes × Place)
    → advance place b ≡ some r
    → r.0 ++ pending r.1 ≡ pending place ++ b ∷ []
advance-pending between b r h = start-pending b r h
advance-pending (inside cs zero lo hi) b r h = ground (arith, append-nil (cs ++ b ∷ []))
advance-pending (inside cs (suc k) lo hi) b r h = ground arith

lossy-valid :
    (bs : Bytes) (place : Place) → valid bs place ≡ true → lossy bs place ≡ pending place ++ bs
lossy-valid [] between h = refl
lossy-valid [] (inside cs k lo hi) h = cc
lossy-valid (b ∷ bs) place h = elim (Option-cases (advance place b)) [
  | inl e ↦ cc
  | inr (r, e) ↦ rw e (
      ap (λ (t : Bytes). r.0 ++ t) (lossy-valid bs r.1 (rw (valid, e) at h))
      ∙ sym (append_assoc r.0 (pending r.1) bs)
      ∙ ap (λ (t : Bytes). t ++ bs) (advance-pending place b r e)
      ∙ append_assoc (pending place) (b ∷ []) bs)
]

-- `from_utf8` succeeds only on bytes that `from_utf8_lossy` leaves as they are.
pub from_utf8-lossy :
    (bytes text : Bytes) → from_utf8 bytes ≡ some text → from_utf8_lossy bytes ≡ text
unfolding from_utf8 from_utf8_lossy
from_utf8-lossy bytes text h = ground (arith, lossy-valid bytes between)
