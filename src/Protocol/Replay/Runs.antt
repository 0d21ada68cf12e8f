-- ===== src/Protocol/Replay/Runs.antt =====
-- A filter over a whole sequence of arrivals.
use noise_tunnel_rs.Base.{
  ℕ, suc, ◌+◌, ◌%◌, ◌^◌, ◌≡◌, max, Bool, false, List, [], ◌∷◌, if◌then◌else◌, arith, refl, ap,
  length, min, sym, subst,
}
use noise_tunnel_rs.Error.{is_ok}
use noise_tunnel_rs.Protocol.Replay.{ReplayFilter, validate_and_record, with_window_size}
use noise_tunnel_rs.Protocol.Replay.History.{contains, extended, admits_fresh}
use noise_tunnel_rs.Protocol.Replay.Refines.{
  Remembers, validate_and_record-admits, validate_and_record-Remembers, next_window_size,
}

-- A filter just made remembers nothing.
pub with_window_size-Remembers : (n : ℕ) → Remembers (with_window_size n) []
unfolding with_window_size
with_window_size-Remembers n = record {
  window_pos = omega arith;
  window_le = omega arith;
  started = refl;
  at_highest = refl;
  bits = λ i e lt le. cc;
}

-- The filter after the calls, and the calls that returned `Ok`, newest first.
abbrev pub run : ReplayFilter → List ℕ → List ℕ → ReplayFilter × List ℕ
run f accepted [] = (f, accepted)
run f accepted (seq ∷ seqs) =
    run (validate_and_record seq f).0
      (if is_ok (validate_and_record seq f).1 then seq ∷ accepted else accepted) seqs

-- The same by the rule over histories.
abbrev pub run_rule : ℕ → List ℕ → List ℕ → List ℕ
run_rule window seen [] = seen
run_rule window seen (seq ∷ seqs) = run_rule window (extended window seen seq) seqs

pub run-run_rule :
    (f : ReplayFilter) (seen seqs : List ℕ)
    → Remembers f seen
    → ((run f seen seqs).1 ≡ run_rule f.window_size seen seqs)
      × Remembers (run f seen seqs).0 (run_rule f.window_size seen seqs)
run-run_rule f seen [] r = (refl, r)
run-run_rule f seen (seq ∷ seqs) r =
    subst (λ (t : List ℕ). Agree t) kept
      (rw (next_window_size f seen seq r) at (
        run-run_rule (validate_and_record seq f).0 (extended f.window_size seen seq) seqs
          (validate_and_record-Remembers f seen seq r)))
  where
    seen' : List ℕ
    seen' = extended f.window_size seen seq

    kept : seen' ≡ (if is_ok (validate_and_record seq f).1 then seq ∷ seen else seen)
    kept =
        ap (λ (b : Bool). if b then seq ∷ seen else seen)
          (sym (validate_and_record-admits f seen seq r))

    Agree : List ℕ → Type 0
    Agree t =
        ((run (validate_and_record seq f).0 t seqs).1 ≡ run_rule f.window_size seen' seqs)
        × Remembers (run (validate_and_record seq f).0 t seqs).0 (run_rule f.window_size seen' seqs)

-- Each number of the list once.
abbrev pub IsDistinct : List ℕ → Type 0
IsDistinct [] = Unit {0}
IsDistinct (x ∷ xs) = (contains x xs ≡ false) × IsDistinct xs

run_rule-IsDistinct :
    (window : ℕ) (seen seqs : List ℕ) → IsDistinct seen → IsDistinct (run_rule window seen seqs)
run_rule-IsDistinct window seen [] d = d
run_rule-IsDistinct window seen (seq ∷ seqs) d =
    run_rule-IsDistinct window (extended window seen seq) seqs
      (ground (arith, admits_fresh window seen seq))

-- From a new filter, on every sequence of arrivals, exactly the numbers are accepted that the rule
-- over the whole history accepts, with the window size clamped to 1..128, and the filter then
-- remembers that history.
pub run_new-run_rule :
    (n : ℕ) (seqs : List ℕ)
    → let window = max 1 (min n 128) in
      ((run (with_window_size n) [] seqs).1 ≡ run_rule window [] seqs)
      × Remembers (run (with_window_size n) [] seqs).0 (run_rule window [] seqs)
unfolding with_window_size
run_new-run_rule n seqs = run-run_rule (with_window_size n) [] seqs (with_window_size-Remembers n)

-- A new filter of any window size never accepts a sequence number twice, whatever arrives and in
-- whatever order.
pub run-IsDistinct : (n : ℕ) (seqs : List ℕ) → IsDistinct (run (with_window_size n) [] seqs).1
run-IsDistinct n seqs =
    rw (run_new-run_rule n seqs).0 (run_rule-IsDistinct (max 1 (min n 128)) [] seqs tt)

-- The counters as remainders, since they wrap at 64 bits.
pub record IsCounted (f g : ReplayFilter) (arrived before after : ℕ) : Type 0 where
  pub seen_grows : g.total_seen % 2 ^ 64 ≡ (f.total_seen + arrived) % 2 ^ 64
  pub accepted_grows : (g.total_accepted + before) % 2 ^ 64 ≡ (f.total_accepted + after) % 2 ^ 64
  pub rejected_grows :
      (g.total_rejected + after) % 2 ^ 64 ≡ (f.total_rejected + arrived + before) % 2 ^ 64

validate_and_record-IsCounted :
    (f : ReplayFilter) (seq : ℕ)
    → IsCounted f
        (validate_and_record seq f).0
        1
        0
        (if is_ok (validate_and_record seq f).1 then 1 else 0)
unfolding validate_and_record
validate_and_record-IsCounted f seq = record {
  seen_grows = ground arith;
  accepted_grows = ground arith;
  rejected_grows = ground arith;
}

IsCounted-trans :
    {f g h : ReplayFilter} (n b c k : ℕ)
    → IsCounted f g 1 0 k
    → IsCounted g h n (k + b) c
    → IsCounted f h (suc n) b c
IsCounted-trans n b c k p q = record {
  seen_grows = omega arith;
  accepted_grows = omega arith;
  rejected_grows = omega arith;
}

length-accepted :
    (b : Bool) (seq : ℕ) (accepted : List ℕ)
    → length (if b then seq ∷ accepted else accepted) ≡ (if b then 1 else 0) + length accepted
length-accepted b seq accepted = ground arith

-- After any arrivals, from any filter, `total_seen` has grown by their number, `total_accepted` by the number that
-- returned `Ok` and `total_rejected` by the others, all modulo 2^64.
pub run-IsCounted :
    (f : ReplayFilter) (accepted seqs : List ℕ)
    → let r = run f accepted seqs in IsCounted f r.0 (length seqs) (length accepted) (length r.1)
run-IsCounted f accepted [] = record {
  seen_grows = omega arith;
  accepted_grows = omega arith;
  rejected_grows = omega arith;
}
run-IsCounted f accepted (seq ∷ seqs) =
    IsCounted-trans (length seqs) (length accepted) _ (if accepts then 1 else 0)
      (validate_and_record-IsCounted f seq)
      (rw (length-accepted accepts seq accepted) at (
        run-IsCounted (validate_and_record seq f).0 (if accepts then seq ∷ accepted else accepted)
          seqs))
  where
    accepts : Bool
    accepts = is_ok (validate_and_record seq f).1
