-- ===== src/Protocol/Replay/Tests.antt =====
-- Replay filters at concrete arrivals.
use noise_tunnel_rs.Base.{ℕ, ◌≡◌, ◌&&◌, not, leb, refl, List, [], ◌∷◌, length, ◌≤◌}
use noise_tunnel_rs.Error.{is_ok}
use noise_tunnel_rs.Protocol.Replay.{
  ReplayFilter, validate_and_record, with_window_size, has_seen, min_valid_seq, reset,
}
use noise_tunnel_rs.Protocol.Replay.History.{contains}
use noise_tunnel_rs.Protocol.Replay.Refines.{Remembers}
use noise_tunnel_rs.Protocol.Replay.Runs.{
  run, run_rule, IsDistinct, IsCounted, run-IsDistinct, run_new-run_rule, run-IsCounted,
}
use noise_tunnel_rs.Protocol.Replay.Queries.{
  accepts_iff, has_seen-validate_and_record, reset-with_window_size,
}

abbrev arrivals : List ℕ
arrivals = 5 ∷ 3 ∷ 5 ∷ 200 ∷ 3 ∷ 199 ∷ []

abbrev filter : ReplayFilter
filter = with_window_size 64

-- Duplicates and numbers behind the window are dropped.
run-arrivals : (run filter [] arrivals).1 ≡ 199 ∷ 200 ∷ 3 ∷ 5 ∷ []
unfolding with_window_size validate_and_record
run-arrivals = refl

run-IsDistinct_example : IsDistinct (run (with_window_size 64) [] arrivals).1
run-IsDistinct_example = run-IsDistinct 64 arrivals

run_new-run_rule_example :
    ((run (with_window_size 64) [] arrivals).1 ≡ run_rule 64 [] arrivals)
    × Remembers (run (with_window_size 64) [] arrivals).0 (run_rule 64 [] arrivals)
run_new-run_rule_example = run_new-run_rule 64 arrivals

run-IsCounted_example :
    IsCounted filter (run filter [] arrivals).0 6 0 (length (run filter [] arrivals).1)
run-IsCounted_example = run-IsCounted filter [] arrivals

abbrev used : ReplayFilter
used = (run filter [] arrivals).0

used-Remembers : Remembers used (run_rule 64 [] arrivals)
used-Remembers = (run_new-run_rule 64 arrivals).1

accepts_iff_example :
    is_ok (validate_and_record 150 used).1
    ≡ (leb (min_valid_seq used) 150 && not (contains 150 (run_rule 64 [] arrivals)))
accepts_iff_example = accepts_iff used (run_rule 64 [] arrivals) 150 used-Remembers

has_seen-validate_and_record_example :
    is_ok (validate_and_record 150 used).1 ≡ not (has_seen used 150)
has_seen-validate_and_record_example = has_seen-validate_and_record used 150

window_pos : 1 ≤ used.window_size
window_pos = used-Remembers.window_pos

window_le : used.window_size ≤ 128
window_le = used-Remembers.window_le

reset-with_window_size_example : reset used ≡ with_window_size used.window_size
reset-with_window_size_example = reset-with_window_size used window_pos window_le
