-- ===== src/Protocol/Replay/Refines.antt =====
-- The filter with its bitmap does what the rule over the whole history says.
use noise_tunnel_rs.Base.{
  [], ◌∷◌, inl, inr, Bool-cases, dec_lt, ℕ, ◌-◌, ◌≤◌, ◌<◌, ◌≡◌, true, not, List, arith, ◌∷◌, bit_or,
  false, ◌⊎◌, if◌then◌else◌, refl, ◌==◌, ltb, ap,
}
use noise_tunnel_rs.Error.{is_ok}
use noise_tunnel_rs.Protocol.Replay.{shl_u128, ReplayFilter, validate_and_record}
use noise_tunnel_rs.Protocol.Replay.History.{
  contains, is_nil, highest, admits, extended, contains_above,
}
use noise_tunnel_rs.Protocol.Replay.Bitmap.{
  has_bit, bit_and-shl_u128, has_bit-set, has_bit-shift, has_bit-one,
}

-- `f` remembers the history `seen` as far as its window reaches.
pub record Remembers (f : ReplayFilter) (seen : List ℕ) : Type 0 where
  pub window_pos : 1 ≤ f.window_size
  pub window_le : f.window_size ≤ 128
  pub started : f.initialized ≡ not (is_nil seen)
  pub at_highest : f.last_seq ≡ highest seen
  pub bits :
      (i : ℕ)
      → f.initialized ≡ true
      → i < f.window_size
      → i ≤ f.last_seq
      → has_bit f.bitmap i ≡ contains (f.last_seq - i) seen

empty_highest : (xs : List ℕ) → is_nil xs ≡ true → highest xs ≡ 0
empty_highest [] h = refl
empty_highest (x ∷ xs) h = cc

contains_empty : (x : ℕ) (xs : List ℕ) → is_nil xs ≡ true → contains x xs ≡ false
contains_empty x [] h = refl
contains_empty x (y ∷ ys) h = cc

module _ (f : ReplayFilter) (seen : List ℕ) (seq : ℕ) (r : Remembers f seen) where
  -- The verdict is the rule's.
  pub validate_and_record-admits :
      is_ok (validate_and_record seq f).1 ≡ admits f.window_size seen seq
  unfolding validate_and_record
  validate_and_record-admits =
      ground (arith, r.bits (f.last_seq - seq), bit_and-shl_u128 f.bitmap (f.last_seq - seq))

  pub next_window_size : (validate_and_record seq f).0.window_size ≡ f.window_size
  unfolding validate_and_record
  next_window_size = ground arith

  next_started :
      (validate_and_record seq f).0.initialized ≡ not (is_nil (extended f.window_size seen seq))
  unfolding validate_and_record
  next_started = ground (arith, r.started)

  next_at_highest :
      (validate_and_record seq f).0.last_seq ≡ highest (extended f.window_size seen seq)
  unfolding validate_and_record
  next_at_highest = ground (
    arith,
    r.started,
    r.at_highest,
    r.bits (f.last_seq - seq),
    bit_and-shl_u128 f.bitmap (f.last_seq - seq),
    empty_highest seen,
  )

  -- The window after `seq` opened it, or jumped past all it held.
  opened_bits :
      (i : ℕ)
      → (f.initialized ≡ false) ⊎ ((f.last_seq < seq) × (f.window_size ≤ seq - f.last_seq))
      → i < f.window_size
      → i ≤ seq
      → has_bit 1 i ≡ contains (seq - i) (seq ∷ seen)
  opened_bits i far lt le = ground (
    arith,
    has_bit-one i,
    r.started,
    r.at_highest,
    contains_above (seq - i) seen,
    contains_empty (seq - i) seen,
  )

  -- The window moved up by less than its size.
  moved_bits :
      (i : ℕ)
      → f.initialized ≡ true
      → f.last_seq < seq
      → i < f.window_size
      → i ≤ seq
      → has_bit (bit_or (shl_u128 f.bitmap (seq - f.last_seq)) 1) i
        ≡ contains (seq - i) (seq ∷ seen)
  moved_bits i ready ahead lt le = elim (dec_lt i (seq - f.last_seq)) [
    | yes near ↦ ground (arith, shifted, r.at_highest, contains_above (seq - i) seen)
    | no far ↦
        let same : f.last_seq - (i - (seq - f.last_seq)) ≡ seq - i = omega arith in
        ground
          (arith, shifted, r.bits (i - (seq - f.last_seq)), ap (λ (t : ℕ). contains t seen) same)
  ]
    where
      shifted : has_bit (bit_or (shl_u128 f.bitmap (seq - f.last_seq)) 1) i ≡ (
          if i == 0
          then true
          else if ltb i (seq - f.last_seq)
          then false
          else has_bit f.bitmap (i - (seq - f.last_seq)))
      shifted =
          has_bit-shift f.bitmap (seq - f.last_seq) i (omega arith) (omega (arith, r.window_le))

  -- A late number is marked.
  marked_bits :
      (i : ℕ)
      → f.initialized ≡ true
      → seq ≤ f.last_seq
      → f.last_seq - seq < f.window_size
      → i < f.window_size
      → i ≤ f.last_seq
      → has_bit (bit_or f.bitmap (shl_u128 1 (f.last_seq - seq))) i
        ≡ contains (f.last_seq - i) (seq ∷ seen)
  marked_bits i ready behind near lt le =
      ground (arith, has_bit-set f.bitmap (f.last_seq - seq) i, r.bits i)

  next_bits :
      (i : ℕ)
      → i < f.window_size
      → i ≤ (validate_and_record seq f).0.last_seq
      → has_bit (validate_and_record seq f).0.bitmap i
        ≡ contains ((validate_and_record seq f).0.last_seq - i) (extended f.window_size seen seq)
  unfolding validate_and_record
  next_bits i lt le = elim (Bool-cases f.initialized) [
    | inl ready ↦ elim (dec_lt f.last_seq seq) [
      | yes ahead ↦ elim (dec_lt (seq - f.last_seq) f.window_size) [
        | yes near ↦ ground (arith, validate_and_record-admits, moved_bits i ready ahead)
        | no far ↦ ground (arith, validate_and_record-admits, opened_bits i)
      ]
      | no behind ↦ elim (dec_lt (f.last_seq - seq) f.window_size) [
        | yes near ↦ ground (arith, validate_and_record-admits, marked_bits i ready, r.bits i ready)
        | no far ↦ ground (arith, validate_and_record-admits, r.bits i ready)
      ]
    ]
    | inr fresh ↦ ground (arith, validate_and_record-admits, opened_bits i)
  ]

  -- One call keeps filter and history in step.
  pub validate_and_record-Remembers :
      Remembers (validate_and_record seq f).0 (extended f.window_size seen seq)
  validate_and_record-Remembers = record {
    window_pos = rw next_window_size r.window_pos;
    window_le = rw next_window_size r.window_le;
    started = next_started;
    at_highest = next_at_highest;
    bits = λ i _ lt le. next_bits i (rw next_window_size at lt) le;
  }
