-- ===== src/Protocol/Replay/Queries.antt =====
-- `has_seen`, `min_valid_seq`, the counters and `reset` against `validate_and_record`.
use noise_tunnel_rs.Base.{ℕ, ◌≤◌, ◌<◌, ◌≡◌, ◌↔◌, not, List, leb, ◌&&◌, arith, ◌∙◌}
use noise_tunnel_rs.Error.{is_ok, err, replay_too_old}
use noise_tunnel_rs.Protocol.Replay.{
  ReplayFilter, validate_and_record, with_window_size, has_seen, min_valid_seq, reset,
}
use noise_tunnel_rs.Protocol.Replay.History.{contains, contains-le}
use noise_tunnel_rs.Protocol.Replay.Refines.{Remembers, validate_and_record-admits}

-- A number is accepted exactly when `has_seen` answers `false` for it, in any state of the filter.
pub has_seen-validate_and_record :
    (f : ReplayFilter) (seq : ℕ) → is_ok (validate_and_record seq f).1 ≡ not (has_seen f seq)
unfolding validate_and_record has_seen
has_seen-validate_and_record f seq = ground arith

module _ (f : ReplayFilter) (seen : List ℕ) (seq : ℕ) (r : Remembers f seen) where
  -- A filter that remembers a history accepts a number exactly when it is not below
  -- `min_valid_seq` and not in that history.
  pub accepts_iff :
      is_ok (validate_and_record seq f).1 ≡ (leb (min_valid_seq f) seq && not (contains seq seen))
  unfolding min_valid_seq
  accepts_iff =
      validate_and_record-admits f seen seq r
      ∙ ground (arith, r.started, r.at_highest, r.window_pos, contains-le seq seen)

  -- It is refused as too old exactly when it is below `min_valid_seq`.
  pub rejects_old_iff :
      ((validate_and_record seq f).1 ≡ err (replay_too_old seq f.window_size))
      ↔ (seq < min_valid_seq f)
  unfolding validate_and_record min_valid_seq
  rejects_old_iff = ground (arith, r.started, r.window_pos)

-- With a window size from 1 to 128, `reset` leaves the filter as `with_window_size` made it.
pub reset-with_window_size :
    (f : ReplayFilter)
    → 1 ≤ f.window_size
    → f.window_size ≤ 128
    → reset f ≡ with_window_size f.window_size
unfolding reset with_window_size
reset-with_window_size f lo hi = ground arith
