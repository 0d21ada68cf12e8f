-- ===== src/Protocol/UnitTests/Types.antt =====
-- protocol/mod.rs: the unit tests on message types, predicates and texts pass.
use noise_tunnel_rs.Base.{◌≢◌, not, [], ◌∷◌, ◌≡◌, codes, take, drop, replicate, refl, none, some}
use noise_tunnel_rs.Base.Bytes.{same_bytes_refl, not_same_bytes, to_be_bytes}
use noise_tunnel_rs.Base.Text.Search.{contains}
use noise_tunnel_rs.Error.{Result, ok, is_err, ◌>>◌}
use noise_tunnel_rs.Error.Assert.{assert, assert_eq, assert_eq_bytes, assert_ne_bytes}
use noise_tunnel_rs.Crypto.Primitives.{Primitives}
use noise_tunnel_rs.Protocol.MessageType.{
  handshake_init, handshake_resp, data_payload, heartbeat, close, same_type, as_u8, is_handshake,
  is_data, is_heartbeat, is_close,
}
use noise_tunnel_rs.Protocol.MessageType.Parse.{try_from}
use noise_tunnel_rs.Protocol.MessageType.Display.{type_to_string}
use noise_tunnel_rs.Protocol.Frame.{
  data_frame, heartbeat_frame, close_frame, handshake_init_frame, handshake_resp_frame,
  heartbeat_from_slice, payload_len, payload_is_empty, header_bytes, frame_into_parts,
  payload_utf8_lossy, frame_is_handshake, frame_is_handshake_init, frame_is_handshake_resp,
  frame_is_data, frame_is_heartbeat, frame_is_close,
}
use noise_tunnel_rs.Protocol.Frame.Display.{summary}
use noise_tunnel_rs.Protocol.Transcript.{protocol_name, hash_handshake_state}

abbrev test_wireframe_helpers_and_display : Result (Unit {0})
unfolding data_frame handshake_init_frame handshake_resp_frame heartbeat_frame close_frame
    frame_is_data frame_is_handshake frame_is_heartbeat frame_is_close payload_len payload_is_empty
    type_to_string header_bytes summary as_u8 to_be_bytes
test_wireframe_helpers_and_display = do
  let frame = data_frame 1 (1 ∷ 2 ∷ 3 ∷ [])
  assert (frame_is_data frame)
  assert (not (frame_is_handshake frame))
  assert (not (frame_is_heartbeat frame))
  assert (not (frame_is_close frame))
  assert_eq (payload_len frame) 3
  assert (not (payload_is_empty frame))
  assert_eq_bytes (type_to_string data_payload) (codes "DataPayload")
  let hs_frame = handshake_init_frame 0 []
  assert (frame_is_handshake hs_frame)
  assert (payload_is_empty hs_frame)
  assert_eq_bytes (type_to_string handshake_init) (codes "HandshakeInit")
  let hs_resp_frame = handshake_resp_frame 0 (10 ∷ 20 ∷ [])
  assert (frame_is_handshake hs_resp_frame)
  assert_eq_bytes (type_to_string handshake_resp) (codes "HandshakeResp")
  let hb_frame = heartbeat_frame 2 []
  assert (frame_is_heartbeat hb_frame)
  assert (payload_is_empty hb_frame)
  assert_eq_bytes (type_to_string heartbeat) (codes "Heartbeat")
  let closing = close_frame 3
  assert (frame_is_close closing)
  assert (payload_is_empty closing)
  assert_eq_bytes (type_to_string close) (codes "Close")
  let header = header_bytes frame
  assert_eq_bytes (take 1 header) (as_u8 data_payload ∷ [])
  assert_eq_bytes (drop 1 header) (to_be_bytes 8 1)
  let text = summary frame
  assert (contains text (codes "DataPayload"))
  assert (contains text (codes "nonce=1"))
  assert (contains text (codes "payload_len=3B"))
  ok tt

test_wireframe_helpers_and_display-ok : test_wireframe_helpers_and_display ≡ ok tt
unfolding test_wireframe_helpers_and_display data_frame handshake_init_frame handshake_resp_frame
    heartbeat_frame close_frame frame_is_data frame_is_handshake frame_is_heartbeat frame_is_close
    payload_len payload_is_empty type_to_string header_bytes summary as_u8 to_be_bytes
test_wireframe_helpers_and_display-ok = refl

abbrev test_invalid_message_type_rejection : Result (Unit {0})
unfolding try_from
test_invalid_message_type_rejection = do
  assert (is_err (try_from 0x00))
  assert (is_err (try_from 0x99))
  assert (is_err (try_from 0xff))
  ok tt

test_invalid_message_type_rejection-ok : test_invalid_message_type_rejection ≡ ok tt
unfolding test_invalid_message_type_rejection try_from
test_invalid_message_type_rejection-ok = refl

abbrev test_message_type_predicates_and_byte_conversion : Result (Unit {0})
unfolding as_u8 is_handshake is_data is_heartbeat is_close
test_message_type_predicates_and_byte_conversion = do
  let init = handshake_init
  assert_eq (as_u8 init) 0x01
  assert (is_handshake init)
  assert (not (is_data init))
  assert (not (is_heartbeat init))
  assert (not (is_close init))
  let resp = handshake_resp
  assert_eq (as_u8 resp) 0x02
  assert (is_handshake resp)
  let payload = data_payload
  assert_eq (as_u8 payload) 0x03
  assert (is_data payload)
  assert (not (is_handshake payload))
  let hb = heartbeat
  assert_eq (as_u8 hb) 0x04
  assert (is_heartbeat hb)
  let closing = close
  assert_eq (as_u8 closing) 0x05
  assert (is_close closing)
  ok tt

test_message_type_predicates_and_byte_conversion-ok :
    test_message_type_predicates_and_byte_conversion ≡ ok tt
unfolding test_message_type_predicates_and_byte_conversion as_u8 is_handshake is_data is_heartbeat
    is_close
test_message_type_predicates_and_byte_conversion-ok = refl

abbrev test_wireframe_fine_grained_predicates_and_heartbeat_from_slice : Result (Unit {0})
unfolding handshake_init_frame handshake_resp_frame heartbeat_from_slice frame_is_handshake
    frame_is_handshake_init frame_is_handshake_resp frame_is_heartbeat
test_wireframe_fine_grained_predicates_and_heartbeat_from_slice = do
  let init_frame = handshake_init_frame 0 (1 ∷ 2 ∷ 3 ∷ [])
  assert (frame_is_handshake init_frame)
  assert (frame_is_handshake_init init_frame)
  assert (not (frame_is_handshake_resp init_frame))
  let resp_frame = handshake_resp_frame 0 (4 ∷ 5 ∷ 6 ∷ [])
  assert (frame_is_handshake resp_frame)
  assert (not (frame_is_handshake_init resp_frame))
  assert (frame_is_handshake_resp resp_frame)
  let ping_slice = codes "PING_BYTES"
  let hb_frame = heartbeat_from_slice 88 ping_slice
  assert (frame_is_heartbeat hb_frame)
  assert_eq hb_frame.nonce 88
  assert_eq_bytes hb_frame.payload ping_slice
  ok tt

test_wireframe_fine_grained_predicates_and_heartbeat_from_slice-ok :
    test_wireframe_fine_grained_predicates_and_heartbeat_from_slice ≡ ok tt
unfolding test_wireframe_fine_grained_predicates_and_heartbeat_from_slice handshake_init_frame
    handshake_resp_frame heartbeat_from_slice frame_is_handshake frame_is_handshake_init
    frame_is_handshake_resp frame_is_heartbeat
test_wireframe_fine_grained_predicates_and_heartbeat_from_slice-ok = refl

-- U+FFFD is three bytes of UTF-8.
abbrev test_wireframe_payload_utf8_lossy : Result (Unit {0})
unfolding data_frame payload_utf8_lossy
test_wireframe_payload_utf8_lossy = do
  let frame = data_frame 1 (codes "Hello UTF-8 Tunnel")
  assert_eq_bytes (payload_utf8_lossy frame) (codes "Hello UTF-8 Tunnel")
  let invalid_utf8_frame = data_frame 2 (0xff ∷ 0xfe ∷ 0xfd ∷ [])
  assert (contains (payload_utf8_lossy invalid_utf8_frame) (0xef ∷ 0xbf ∷ 0xbd ∷ []))
  ok tt

test_wireframe_payload_utf8_lossy-ok : test_wireframe_payload_utf8_lossy ≡ ok tt
unfolding test_wireframe_payload_utf8_lossy data_frame payload_utf8_lossy
test_wireframe_payload_utf8_lossy-ok = refl

abbrev test_wireframe_into_methods : Result (Unit {0})
unfolding data_frame heartbeat_frame frame_into_parts as_u8
test_wireframe_into_methods = do
  let payload = codes "consume payload"
  let frame = data_frame 42 payload
  assert_eq_bytes frame.payload payload
  let frame2 = heartbeat_frame 99 (codes "pong")
  let (msg_type, nonce, bytes) = frame_into_parts frame2
  assert (same_type msg_type heartbeat)
  assert_eq nonce 99
  assert_eq_bytes bytes (codes "pong")
  ok tt

test_wireframe_into_methods-ok : test_wireframe_into_methods ≡ ok tt
unfolding test_wireframe_into_methods data_frame heartbeat_frame frame_into_parts as_u8
test_wireframe_into_methods-ok = refl

-- `assert_ne!(hash1, hash_no_se)` holds of the hash only if the two strings do not collide.
module _ (p : Primitives) where
  abbrev test_transcript_hash_consistency : Result (Unit {0})
  unfolding hash_handshake_state
  test_transcript_hash_consistency = do
    let prologue = protocol_name
    let c_e = replicate 32 1
    let s_p = replicate 32 2
    let s_e = replicate 32 3
    let hash1 = hash_handshake_state p prologue c_e s_p (some s_e)
    let hash2 = hash_handshake_state p prologue c_e s_p (some s_e)
    let hash_no_se = hash_handshake_state p prologue c_e s_p none
    assert_eq_bytes hash1 hash2
    assert_ne_bytes hash1 hash_no_se
    ok tt

  test_transcript_hash_consistency-ok :
      hash_handshake_state p protocol_name (replicate 32 1) (replicate 32 2) (some (replicate 32 3))
        ≢ hash_handshake_state p protocol_name (replicate 32 1) (replicate 32 2) none
      → test_transcript_hash_consistency ≡ ok tt
  unfolding test_transcript_hash_consistency
  test_transcript_hash_consistency-ok differ = rw (same_bytes_refl, not_same_bytes _ _ differ) refl
