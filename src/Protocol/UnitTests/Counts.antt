-- ===== src/Protocol/UnitTests/Counts.antt =====
-- protocol/mod.rs: the unit tests on the replay filter's counts and texts pass.
use noise_tunnel_rs.Base.{not, ◌≡◌, refl, codes}
use noise_tunnel_rs.Base.Text.Search.{contains}
use noise_tunnel_rs.Error.{Result, ok, is_ok, is_err, ◌>>◌}
use noise_tunnel_rs.Error.Assert.{unwrap, assert, assert_eq, assert_eq_bytes}
use noise_tunnel_rs.Protocol.MessageType.{data_payload, same_type, as_u8}
use noise_tunnel_rs.Protocol.Frame.{data_frame}
use noise_tunnel_rs.Protocol.Replay.{new, with_window_size, validate_and_record, has_seen, reset}
use noise_tunnel_rs.Protocol.Replay.Display.{filter_to_string}

abbrev test_replay_filter_metrics : Result (Unit {0})
unfolding new validate_and_record reset
test_replay_filter_metrics = do
  let filter = new
  assert_eq filter.total_seen 0
  assert_eq filter.total_accepted 0
  assert_eq filter.total_rejected 0
  let r = validate_and_record 10 filter
  assert (is_ok r.1)
  let r = validate_and_record 11 r.0
  assert (is_ok r.1)
  assert_eq r.0.total_seen 2
  assert_eq r.0.total_accepted 2
  assert_eq r.0.total_rejected 0
  let r = validate_and_record 10 r.0
  assert (is_err r.1)
  assert_eq r.0.total_seen 3
  assert_eq r.0.total_accepted 2
  assert_eq r.0.total_rejected 1
  let filter = reset r.0
  assert_eq filter.total_seen 0
  assert_eq filter.total_accepted 0
  assert_eq filter.total_rejected 0
  ok tt

test_replay_filter_metrics-ok : test_replay_filter_metrics ≡ ok tt
unfolding test_replay_filter_metrics new validate_and_record reset
test_replay_filter_metrics-ok = refl

abbrev test_wireframe_payload_slice_and_replay_filter_display : Result (Unit {0})
unfolding data_frame with_window_size validate_and_record filter_to_string
test_wireframe_payload_slice_and_replay_filter_display = do
  let payload = codes "slice test payload"
  let frame = data_frame 42 payload
  assert_eq_bytes frame.payload payload
  let filter = with_window_size 64
  let r = validate_and_record 10 filter
  unwrap r.1
  let display_str = filter_to_string r.0
  assert (contains display_str (codes "window=64"))
  assert (contains display_str (codes "last_seq=10"))
  assert (contains display_str (codes "accepted=1/1"))
  assert (contains display_str (codes "rejected=0"))
  ok tt

test_wireframe_payload_slice_and_replay_filter_display-ok :
    test_wireframe_payload_slice_and_replay_filter_display ≡ ok tt
unfolding test_wireframe_payload_slice_and_replay_filter_display data_frame with_window_size
    validate_and_record filter_to_string
test_wireframe_payload_slice_and_replay_filter_display-ok = refl

-- `capacity` returns the window size.
abbrev test_wireframe_accessors_and_replay_filter_has_seen : Result (Unit {0})
unfolding data_frame with_window_size validate_and_record has_seen as_u8
test_wireframe_accessors_and_replay_filter_has_seen = do
  let frame = data_frame 77 (codes "payload")
  assert_eq frame.nonce 77
  assert (same_type frame.msg_type data_payload)
  let filter = with_window_size 64
  assert_eq filter.window_size 64
  assert (not (has_seen filter 10))
  let r = validate_and_record 10 filter
  unwrap r.1
  assert (has_seen r.0 10)
  assert (not (has_seen r.0 11))
  let r = validate_and_record 100 r.0
  unwrap r.1
  assert (has_seen r.0 10)
  ok tt

test_wireframe_accessors_and_replay_filter_has_seen-ok :
    test_wireframe_accessors_and_replay_filter_has_seen ≡ ok tt
unfolding test_wireframe_accessors_and_replay_filter_has_seen data_frame with_window_size
    validate_and_record has_seen as_u8
test_wireframe_accessors_and_replay_filter_has_seen-ok = refl
