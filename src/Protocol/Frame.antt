-- ===== src/Protocol/Frame.antt =====
-- protocol/mod.rs: `WireFrame`, its constructors and accessors, serialization, and the two parsers.
pub mod Display
pub mod RoundTrip
pub mod Canonical
use noise_tunnel_rs.Base.{
  ℕ, ◌+◌, ◌-◌, ◌%◌, ◌^◌, Bool, not, [], ◌∷◌, ◌++◌, length, take, drop, get_or, ltb, leb, ◌==◌,
  if◌then◌else◌,
}
use noise_tunnel_rs.Base.Bytes.{Bytes, IsBytes, IsU64, to_be_bytes, from_be_bytes}
use noise_tunnel_rs.Error.{
  Result, ok, err, ◌>>=◌, ◌>>◌, reject_if, buffer_too_short, frame_length_mismatch, frame_too_short,
  frame_oversized, bad_slice_length, panicked,
}
use noise_tunnel_rs.Base.Utf8.{from_utf8_lossy}
use noise_tunnel_rs.Protocol.MessageType.{
  handshake_init, handshake_resp, data_payload, is_handshake, is_data, is_heartbeat,
  is_handshake_init, is_handshake_resp, is_close, MessageType, heartbeat, close, as_u8,
}
use noise_tunnel_rs.Protocol.MessageType.Parse.{try_from}

abbrev pub max_frame_size : ℕ
max_frame_size = 65536

pub record WireFrame : Type 0 where
  pub msg_type : MessageType
  pub nonce : ℕ
  pub payload : Bytes

-- What Rust's types say of a frame: the nonce is a u64 and the payload holds bytes.
pub record IsFrame (f : WireFrame) : Type 0 where
  pub nonce_fits : IsU64 f.nonce
  pub payload_bytes : IsBytes f.payload

unfoldable pub new : MessageType → ℕ → Bytes → WireFrame
new msg_type nonce payload = record { msg_type = msg_type; nonce = nonce; payload = payload }

unfoldable pub heartbeat_frame : ℕ → Bytes → WireFrame
unfolding new
heartbeat_frame nonce payload = new heartbeat nonce payload

unfoldable pub close_frame : ℕ → WireFrame
unfolding new
close_frame nonce = new close nonce []

unfoldable pub handshake_init_frame : ℕ → Bytes → WireFrame
unfolding new
handshake_init_frame nonce payload = new handshake_init nonce payload

unfoldable pub handshake_resp_frame : ℕ → Bytes → WireFrame
unfolding new
handshake_resp_frame nonce payload = new handshake_resp nonce payload

unfoldable pub data_frame : ℕ → Bytes → WireFrame
unfolding new
data_frame nonce payload = new data_payload nonce payload

-- The accessors ask the frame's type.
unfoldable pub frame_is_handshake : WireFrame → Bool
unfolding is_handshake
frame_is_handshake f = is_handshake f.msg_type

unfoldable pub frame_is_data : WireFrame → Bool
unfolding is_data
frame_is_data f = is_data f.msg_type

unfoldable pub frame_is_heartbeat : WireFrame → Bool
unfolding is_heartbeat
frame_is_heartbeat f = is_heartbeat f.msg_type

unfoldable pub frame_is_close : WireFrame → Bool
unfolding is_close
frame_is_close f = is_close f.msg_type

unfoldable pub frame_is_handshake_init : WireFrame → Bool
unfolding is_handshake_init
frame_is_handshake_init f = is_handshake_init f.msg_type

unfoldable pub frame_is_handshake_resp : WireFrame → Bool
unfolding is_handshake_resp
frame_is_handshake_resp f = is_handshake_resp f.msg_type

unfoldable pub payload_is_empty : WireFrame → Bool
payload_is_empty f = length f.payload == 0

unfoldable pub data_from_slice : ℕ → Bytes → WireFrame
unfolding new
data_from_slice nonce slice = new data_payload nonce slice

unfoldable pub heartbeat_from_slice : ℕ → Bytes → WireFrame
unfolding new
heartbeat_from_slice nonce slice = new heartbeat nonce slice

unfoldable pub frame_into_parts : WireFrame → MessageType × ℕ × Bytes
frame_into_parts f = (f.msg_type, f.nonce, f.payload)

unfoldable pub payload_utf8_lossy : WireFrame → Bytes
unfolding from_utf8_lossy
payload_utf8_lossy f = from_utf8_lossy f.payload

unfoldable pub payload_len : WireFrame → ℕ
payload_len f = length f.payload

-- `MAX_FRAME_SIZE.saturating_sub(9)`.
unfoldable pub max_payload_size : ℕ
max_payload_size = max_frame_size - 9

unfoldable pub is_valid_payload_size : ℕ → Bool
unfolding max_payload_size
is_valid_payload_size len = leb len max_payload_size

-- The zeroed array with its first byte and then bytes 1 to 8 replaced.
unfoldable pub header_bytes : WireFrame → Bytes
unfolding as_u8 to_be_bytes
header_bytes f = as_u8 f.msg_type ∷ to_be_bytes 8 f.nonce

-- `serialize_into` extends the buffer step by step; `as u32` cuts the length to 32 bits.
unfoldable pub serialize_into : WireFrame → Bytes → Bytes
unfolding as_u8 to_be_bytes
serialize_into f buffer =
    let payload_len = length f.payload in
    let total_frame_len = 1 + 8 + payload_len in
    let buffer = buffer ++ to_be_bytes 4 (total_frame_len % 2 ^ 32) in
    let buffer = buffer ++ as_u8 f.msg_type ∷ [] in
    let buffer = buffer ++ to_be_bytes 8 f.nonce in buffer ++ f.payload

unfoldable pub serialize : WireFrame → Bytes
unfolding serialize_into
serialize f = serialize_into f []

-- `&bytes[lo..hi]`, `&bytes[lo..]` and `bytes[i]` panic out of range.
abbrev pub slice : ℕ → ℕ → Bytes → Result Bytes
slice lo hi bytes =
    if ltb (length bytes) hi then err panicked else ok (take (hi - lo) (drop lo bytes))

abbrev pub slice_from : ℕ → Bytes → Result Bytes
slice_from lo bytes = if ltb (length bytes) lo then err panicked else ok (drop lo bytes)

abbrev pub index : ℕ → Bytes → Result ℕ
index i bytes = if ltb i (length bytes) then ok (get_or bytes i 0) else err panicked

-- `slice.try_into()` to an array of `n` bytes.
abbrev pub to_array : ℕ → Bytes → Result Bytes
to_array n bytes = if length bytes == n then ok bytes else err bad_slice_length

unfoldable pub from_bytes : Bytes → Result WireFrame
unfolding from_be_bytes try_from
from_bytes bytes = do
  reject_if (ltb (length bytes) 13) (buffer_too_short (length bytes))
  len_slice ← slice 0 4 bytes
  len_array ← to_array 4 len_slice
  let frame_len = from_be_bytes len_array
  reject_if (not (frame_len == length bytes - 4))
      (frame_length_mismatch frame_len (length bytes - 4))
  reject_if (ltb frame_len 9) (frame_too_short frame_len)
  reject_if (ltb max_frame_size frame_len) (frame_oversized frame_len)
  type_byte ← index 4 bytes
  msg_type ← try_from type_byte
  nonce_slice ← slice 5 13 bytes
  nonce_array ← to_array 8 nonce_slice
  let nonce = from_be_bytes nonce_array
  payload ← slice_from 13 bytes
  ok (record { msg_type = msg_type; nonce = nonce; payload = payload })

-- What `read_from` makes of the bytes behind the length.
unfoldable pub decode_body : Bytes → Result WireFrame
unfolding from_be_bytes try_from
decode_body raw_data = do
  type_byte ← index 0 raw_data
  msg_type ← try_from type_byte
  nonce_slice ← slice 1 9 raw_data
  nonce_array ← to_array 8 nonce_slice
  let nonce = from_be_bytes nonce_array
  payload ← slice_from 9 raw_data
  ok (record { msg_type = msg_type; nonce = nonce; payload = payload })
