-- ===== src/Base/Trim/Plain.antt =====
-- `str::trim` leaves a text alone that has no character but visible ASCII.
use noise_tunnel_rs.Base.{
  ℕ, zero, suc, ◌≤◌, ◌<◌, ◌≡◌, Option, none, All, [], ◌∷◌, length, arith, refl,
}
use noise_tunnel_rs.Base.Bytes.{Bytes}
use noise_tunnel_rs.Base.Trim.{strip_first, strip_last, strip_all, reversed, trim}

-- `!` to DEL.
abbrev pub IsVisible : ℕ → Type 0
IsVisible b = (33 ≤ b) × (b < 128)

strip_first-none : (bytes : Bytes) → All IsVisible bytes → strip_first bytes ≡ none
strip_first-none [] h = refl
strip_first-none (a ∷ []) h = ground (arith, h.0)
strip_first-none (a ∷ b ∷ []) h = ground (arith, h.0)
strip_first-none (a ∷ b ∷ c ∷ rest) h = ground (arith, h.0)

strip_last-none : (bytes : Bytes) → All IsVisible bytes → strip_last bytes ≡ none
strip_last-none [] h = refl
strip_last-none (a ∷ []) h = ground (arith, h.0)
strip_last-none (a ∷ b ∷ []) h = ground (arith, h.0, h.1.0)
strip_last-none (a ∷ b ∷ c ∷ rest) h = ground (arith, h.0, h.1.0, h.1.1.0)

strip_all-none :
    (n : ℕ) (strip : Bytes → Option Bytes) (bytes : Bytes)
    → strip bytes ≡ none
    → strip_all n strip bytes ≡ bytes
strip_all-none zero strip bytes h = refl
strip_all-none (suc n) strip bytes h = rw (strip_all, h) refl

All-reversed :
    (acc bytes : Bytes)
    → All IsVisible acc
    → All IsVisible bytes
    → All IsVisible (reversed acc bytes)
All-reversed acc [] ha hb = ha
All-reversed acc (b ∷ bs) ha hb = All-reversed (b ∷ acc) bs (hb.0, ha) hb.1

reversed-reversed : (acc bytes : Bytes) → reversed [] (reversed acc bytes) ≡ reversed bytes acc
reversed-reversed acc [] = refl
reversed-reversed acc (b ∷ bs) = reversed-reversed (b ∷ acc) bs

pub trim_visible : (bytes : Bytes) → All IsVisible bytes → trim bytes ≡ bytes
unfolding trim
trim_visible bytes h =
    rw
      (
        strip_all-none (length bytes) strip_first bytes (strip_first-none bytes h),
        strip_all-none (length bytes) strip_last (reversed [] bytes)
            (strip_last-none (reversed [] bytes) (All-reversed [] bytes tt h)),
      )
      (reversed-reversed [] bytes)
