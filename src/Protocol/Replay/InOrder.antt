-- ===== src/Protocol/Replay/InOrder.antt =====
-- protocol/mod.rs: the filter on the numbers 0, 1, 2 and so on.
use noise_tunnel_rs.Base.{
  ℕ, zero, suc, ◌+◌, ◌-◌, ◌*◌, ◌^◌, ◌≤◌, ◌<◌, ◌≡◌, ◌∙◌, min, bit_or, ltb, refl, arith, ap, dec_lt,
}
use native.Mathlib.Nat.{pow-suc}
use noise_tunnel_rs.Base.Bits.{bit_or-one}
use noise_tunnel_rs.Protocol.Replay.{ReplayFilter, new, validate_and_record, shl_u128}

-- The numbers below `n`, at most the last 128, as a bitmap.
abbrev pub ones : ℕ → ℕ
ones n = 2 ^ min n 128 - 1

-- A filter with the default window that has seen the numbers below `n` in order, and no other.
pub record HasSeenBelow (n : ℕ) (f : ReplayFilter) : Type 0 where
  pub window : f.window_size ≡ 128
  pub marked : f.bitmap ≡ ones n
  pub last : f.last_seq ≡ n - 1
  pub ready : f.initialized ≡ ltb 0 n
  pub seen : f.total_seen ≡ n
  pub accepted : f.total_accepted ≡ n
  pub rejected : f.total_rejected ≡ 0

pub new-HasSeenBelow : HasSeenBelow 0 new
unfolding new
new-HasSeenBelow = record {
  window = refl;
  marked = refl;
  last = refl;
  ready = refl;
  seen = refl;
  accepted = refl;
  rejected = refl;
}

pow-le : (k d : ℕ) → 2 ^ k ≤ 2 ^ (d + k)
pow-le k zero = let same : zero + k ≡ k = omega arith in omega (arith, ap (λ (t : ℕ). 2 ^ t) same)
pow-le k (suc d) =
    let same : suc d + k ≡ suc (d + k) = omega arith in
    omega (arith, pow-le k d, pow-suc 2 (d + k), ap (λ (t : ℕ). 2 ^ t) same)

shl_u128-ones : (n : ℕ) → shl_u128 (ones n) 1 ≡ 2 * (2 ^ min n 127 - 1)
shl_u128-ones n = elim (dec_lt n 128) [
  | yes small ↦
      let here : min n 128 ≡ n = omega arith in
      let there : min n 127 ≡ n = omega arith in
      let full : 127 - n + n ≡ 127 = omega arith in
      rw (here, there) (omega (arith, pow-le n (127 - n), ap (λ (t : ℕ). 2 ^ t) full))
  | no large ↦
      let here : min n 128 ≡ 128 = omega arith in
      let there : min n 127 ≡ 127 = omega arith in rw (here, there) (omega arith)
]

-- One more number: the marks move up by one and the lowest is set.
shifted-ones : (n : ℕ) → bit_or (shl_u128 (ones n) 1) 1 ≡ ones (suc n)
shifted-ones n =
    let next : min (suc n) 128 ≡ suc (min n 127) = omega arith in
    let whole : min n 127 + 0 ≡ min n 127 = omega arith in
    ap (λ (t : ℕ). bit_or t 1) (shl_u128-ones n)
    ∙ bit_or-one (2 ^ min n 127 - 1)
    ∙ rw next
        (omega (arith, pow-suc 2 (min n 127), pow-le 0 (min n 127), ap (λ (t : ℕ). 2 ^ t) whole))

-- The next number in order is accepted and marked.
pub validate_and_record-HasSeenBelow :
    (n : ℕ) (f : ReplayFilter)
    → HasSeenBelow n f
    → suc n < 2 ^ 64
    → HasSeenBelow (suc n) (validate_and_record n f).0
unfolding validate_and_record
validate_and_record-HasSeenBelow zero f w few = record {
  window = ground (arith, w.window, w.ready);
  marked = ground (arith, w.ready);
  last = ground (arith, w.ready);
  ready = ground (arith, w.ready);
  seen = ground (arith, w.ready, w.seen);
  accepted = ground (arith, w.ready, w.accepted);
  rejected = ground (arith, w.ready, w.rejected);
}
validate_and_record-HasSeenBelow (suc n) f w few = record {
  window = ground (arith, w.window, w.ready, w.last);
  marked = ground (arith, w.window, w.ready, w.last, w.marked, shifted-ones (suc n));
  last = ground (arith, w.ready, w.last);
  ready = ground (arith, w.ready, w.last);
  seen = ground (arith, w.ready, w.last, w.seen);
  accepted = ground (arith, w.ready, w.last, w.accepted);
  rejected = ground (arith, w.ready, w.last, w.rejected);
}
