-- ===== src/Protocol/UnitTests/Filters.antt =====
-- protocol/mod.rs: the unit tests on the replay filter's verdicts pass.
use noise_tunnel_rs.Base.{not, ◌≡◌, refl}
use noise_tunnel_rs.Error.{Result, ok, is_ok, is_err, ◌>>◌}
use noise_tunnel_rs.Error.Assert.{assert, assert_eq}
use noise_tunnel_rs.Protocol.Replay.{
  new, with_window_size, validate_and_record, highest_seen, is_initialized, reset,
}

-- `r.0` is the filter after the call and `r.1` what the call returned.
abbrev test_replay_filter_blocks_duplicated_nonce : Result (Unit {0})
unfolding new validate_and_record
test_replay_filter_blocks_duplicated_nonce = do
  let filter = new
  let r = validate_and_record 1 filter
  assert (is_ok r.1)
  let r = validate_and_record 2 r.0
  assert (is_ok r.1)
  let replay_result = validate_and_record 1 r.0
  assert (is_err replay_result.1)
  ok tt

test_replay_filter_blocks_duplicated_nonce-ok : test_replay_filter_blocks_duplicated_nonce ≡ ok tt
unfolding test_replay_filter_blocks_duplicated_nonce new validate_and_record
test_replay_filter_blocks_duplicated_nonce-ok = refl

abbrev test_replay_filter_sliding_window_out_of_order : Result (Unit {0})
unfolding new validate_and_record
test_replay_filter_sliding_window_out_of_order = do
  let filter = new
  let r = validate_and_record 10 filter
  assert (is_ok r.1)
  let r = validate_and_record 15 r.0
  assert (is_ok r.1)
  let r = validate_and_record 12 r.0
  assert (is_ok r.1)
  let r = validate_and_record 12 r.0
  assert (is_err r.1)
  let r = validate_and_record 15 r.0
  assert (is_err r.1)
  ok tt

test_replay_filter_sliding_window_out_of_order-ok :
    test_replay_filter_sliding_window_out_of_order ≡ ok tt
unfolding test_replay_filter_sliding_window_out_of_order new validate_and_record
test_replay_filter_sliding_window_out_of_order-ok = refl

abbrev test_replay_filter_old_packet_outside_window : Result (Unit {0})
unfolding with_window_size validate_and_record highest_seen
test_replay_filter_old_packet_outside_window = do
  let filter = with_window_size 64
  let r = validate_and_record 100 filter
  assert (is_ok r.1)
  assert_eq (highest_seen r.0) 100
  let r = validate_and_record 200 r.0
  assert (is_ok r.1)
  assert_eq (highest_seen r.0) 200
  let r = validate_and_record 100 r.0
  assert (is_err r.1)
  let r = validate_and_record 150 r.0
  assert (is_ok r.1)
  let r = validate_and_record 150 r.0
  assert (is_err r.1)
  ok tt

test_replay_filter_old_packet_outside_window-ok :
    test_replay_filter_old_packet_outside_window ≡ ok tt
unfolding test_replay_filter_old_packet_outside_window with_window_size validate_and_record
    highest_seen
test_replay_filter_old_packet_outside_window-ok = refl

abbrev test_replay_filter_reset_and_helpers : Result (Unit {0})
unfolding with_window_size validate_and_record is_initialized highest_seen reset
test_replay_filter_reset_and_helpers = do
  let filter = with_window_size 64
  assert_eq filter.window_size 64
  assert (not (is_initialized filter))
  let r = validate_and_record 42 filter
  assert (is_ok r.1)
  assert (is_initialized r.0)
  assert_eq (highest_seen r.0) 42
  let filter = reset r.0
  assert (not (is_initialized filter))
  assert_eq (highest_seen filter) 0
  let r = validate_and_record 42 filter
  assert (is_ok r.1)
  ok tt

test_replay_filter_reset_and_helpers-ok : test_replay_filter_reset_and_helpers ≡ ok tt
unfolding test_replay_filter_reset_and_helpers with_window_size validate_and_record is_initialized
    highest_seen reset
test_replay_filter_reset_and_helpers-ok = refl
