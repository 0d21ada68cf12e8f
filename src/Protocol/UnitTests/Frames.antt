-- ===== src/Protocol/UnitTests/Frames.antt =====
-- protocol/mod.rs: the unit tests on frames and their bytes pass.
use noise_tunnel_rs.Base.{
  not, ◌&&◌, ◌==◌, ◌+◌, ◌-◌, [], ◌∷◌, ◌++◌, ◌≡◌, codes, length, take, drop, replicate, refl,
}
use noise_tunnel_rs.Base.Bytes.{same_bytes, to_be_bytes}
use noise_tunnel_rs.Error.{Result, ok, is_err, ◌>>=◌, ◌>>◌}
use noise_tunnel_rs.Error.Assert.{unwrap, assert, assert_eq, assert_eq_bytes}
use noise_tunnel_rs.Base.{Bool}
use noise_tunnel_rs.Protocol.MessageType.{data_payload, as_u8, same_type}
use noise_tunnel_rs.Protocol.Stream.{connection}
use noise_tunnel_rs.Protocol.Frame.{
  WireFrame, new, data_frame, serialize, serialize_into, from_bytes, data_from_slice, payload_len,
  max_payload_size, is_valid_payload_size, max_frame_size,
}
use noise_tunnel_rs.Protocol.Wire.{read_from}

-- The derived `PartialEq` of `WireFrame`, and `assert_eq!` by it.
abbrev same_frame : WireFrame → WireFrame → Bool
same_frame f g =
    same_type f.msg_type g.msg_type && f.nonce == g.nonce && same_bytes f.payload g.payload

abbrev test_wireframe_serialization_roundtrip : Result (Unit {0})
unfolding new serialize read_from
test_wireframe_serialization_roundtrip = do
  let frame = new data_payload 42 (codes "Hemmelig Payload")
  let serialized = serialize frame
  let cursor = connection serialized [] 0
  parsed ← unwrap (read_from cursor).1
  assert (same_type parsed.msg_type data_payload)
  assert_eq parsed.nonce 42
  assert_eq_bytes parsed.payload (codes "Hemmelig Payload")
  ok tt

test_wireframe_serialization_roundtrip-ok : test_wireframe_serialization_roundtrip ≡ ok tt
unfolding test_wireframe_serialization_roundtrip serialize read_from
test_wireframe_serialization_roundtrip-ok = refl

-- `&raw` is a length past the limit and 16 zeros.
abbrev test_oversized_frame_rejection : Result (Unit {0})
unfolding read_from to_be_bytes
test_oversized_frame_rejection = do
  let too_large = max_frame_size + 10
  let raw = to_be_bytes 4 too_large ++ replicate 16 0
  let cursor = connection raw [] 0
  let res = read_from cursor
  assert (is_err res.1)
  ok tt

test_oversized_frame_rejection-ok : test_oversized_frame_rejection ≡ ok tt
unfolding test_oversized_frame_rejection read_from
test_oversized_frame_rejection-ok = refl

-- `try_from` of a slice is `from_bytes`. Bytes 0 to 3 are replaced by `copy_from_slice`, and byte 4 by
-- an assignment.
abbrev test_wireframe_from_bytes_roundtrip_and_errors : Result (Unit {0})
unfolding data_frame serialize from_bytes to_be_bytes
test_wireframe_from_bytes_roundtrip_and_errors = do
  let frame = data_frame 100 (codes "Buffer Data")
  let serialized = serialize frame
  parsed ← unwrap (from_bytes serialized)
  assert (same_frame parsed frame)
  try_from_parsed ← unwrap (from_bytes serialized)
  assert (same_frame try_from_parsed frame)
  assert (is_err (from_bytes (replicate 10 0)))
  let corrupted_len = to_be_bytes 4 500 ++ drop 4 serialized
  assert (is_err (from_bytes corrupted_len))
  let corrupted_type = take 4 serialized ++ 0xfe ∷ drop 5 serialized
  assert (is_err (from_bytes corrupted_type))
  ok tt

test_wireframe_from_bytes_roundtrip_and_errors-ok :
    test_wireframe_from_bytes_roundtrip_and_errors ≡ ok tt
unfolding test_wireframe_from_bytes_roundtrip_and_errors data_frame serialize from_bytes
test_wireframe_from_bytes_roundtrip_and_errors-ok = refl

abbrev test_wireframe_serialize_into_buffer_reuse : Result (Unit {0})
unfolding data_frame serialize_into from_bytes
test_wireframe_serialize_into_buffer_reuse = do
  let frame1 = data_frame 1 (codes "first")
  let frame2 = data_frame 2 (codes "second")
  let buffer = serialize_into frame1 []
  let len1 = length buffer
  parsed1 ← unwrap (from_bytes (take len1 buffer))
  assert (same_frame parsed1 frame1)
  let buffer = serialize_into frame2 []
  parsed2 ← unwrap (from_bytes buffer)
  assert (same_frame parsed2 frame2)
  ok tt

test_wireframe_serialize_into_buffer_reuse-ok : test_wireframe_serialize_into_buffer_reuse ≡ ok tt
unfolding test_wireframe_serialize_into_buffer_reuse data_frame serialize_into from_bytes
test_wireframe_serialize_into_buffer_reuse-ok = refl

abbrev test_wireframe_payload_size_limits : Result (Unit {0})
unfolding max_payload_size is_valid_payload_size
test_wireframe_payload_size_limits = do
  let max_len = max_payload_size
  assert_eq max_len (max_frame_size - 9)
  assert (is_valid_payload_size 0)
  assert (is_valid_payload_size 1024)
  assert (is_valid_payload_size max_len)
  assert (not (is_valid_payload_size (max_len + 1)))
  ok tt

test_wireframe_payload_size_limits-ok : test_wireframe_payload_size_limits ≡ ok tt
unfolding test_wireframe_payload_size_limits max_payload_size is_valid_payload_size
test_wireframe_payload_size_limits-ok = refl

abbrev test_wireframe_data_from_slice : Result (Unit {0})
unfolding data_from_slice payload_len
test_wireframe_data_from_slice = do
  let slice_data = codes "slice constructor payload"
  let frame = data_from_slice 55 slice_data
  assert_eq frame.nonce 55
  assert (same_type frame.msg_type data_payload)
  assert_eq_bytes frame.payload slice_data
  assert_eq (payload_len frame) (length slice_data)
  ok tt

test_wireframe_data_from_slice-ok : test_wireframe_data_from_slice ≡ ok tt
unfolding test_wireframe_data_from_slice data_from_slice payload_len as_u8
test_wireframe_data_from_slice-ok = refl
