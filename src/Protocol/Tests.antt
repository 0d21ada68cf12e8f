-- ===== src/Protocol/Tests.antt =====
-- Frames, streams and replay filters at concrete inputs.
pub mod Display
use noise_tunnel_rs.Base.{◌≡◌, ◌≢◌, ◌↔◌, refl, true, [], ◌∷◌, ◌++◌, arith}
use noise_tunnel_rs.Base.Bytes.{Bytes, IsBytes}
use noise_tunnel_rs.Error.{ok, err, panicked, bad_slice_length}
use noise_tunnel_rs.Protocol.MessageType.{data_payload, close, as_u8}
use noise_tunnel_rs.Protocol.MessageType.Parse.{try_from, try_from_iff}
use noise_tunnel_rs.Protocol.Frame.{WireFrame, serialize, from_bytes, is_valid_payload_size}
use noise_tunnel_rs.Protocol.Frame.RoundTrip.{parsed, from_bytes-serialize}
use noise_tunnel_rs.Protocol.Frame.Canonical.{Canonical, from_bytes_iff, from_bytes-ne-panicked}
use noise_tunnel_rs.Protocol.Stream.{Stream}
use noise_tunnel_rs.Protocol.Wire.{read_from}
use noise_tunnel_rs.Protocol.Wire.Exact.{Reads, read_from-Reads, read_from-serialize}
use noise_tunnel_rs.Protocol.Wire.Sequence.{
  read_frames, read_frames-serialize_frames, serialize_frames,
}

abbrev greeting_frame : WireFrame
greeting_frame = record { msg_type = data_payload; nonce = 258; payload = 7 ∷ 8 ∷ 9 ∷ [] }

abbrev last_frame : WireFrame
last_frame = record { msg_type = close; nonce = 3; payload = [] }

abbrev data_bytes : Bytes
data_bytes = 0 ∷ 0 ∷ 0 ∷ 12 ∷ 3 ∷ 0 ∷ 0 ∷ 0 ∷ 0 ∷ 0 ∷ 0 ∷ 1 ∷ 2 ∷ 7 ∷ 8 ∷ 9 ∷ []

data_bytes-IsBytes : IsBytes data_bytes
data_bytes-IsBytes = ground arith

serialize_data : serialize greeting_frame ≡ data_bytes
unfolding serialize
serialize_data = refl

abbrev data_stream : Stream
data_stream = record { incoming = data_bytes ++ 5 ∷ 6 ∷ []; outgoing = []; room = 100 }

from_bytes-serialize_example : from_bytes (serialize greeting_frame) ≡ parsed greeting_frame
from_bytes-serialize_example = from_bytes-serialize greeting_frame (omega arith) (omega arith)

from_bytes_iff_example :
    (from_bytes data_bytes ≡ ok greeting_frame) ↔ Canonical data_bytes greeting_frame
from_bytes_iff_example = from_bytes_iff data_bytes greeting_frame data_bytes-IsBytes

from_bytes-ne-panicked_example :
    (from_bytes data_bytes ≢ err panicked) × (from_bytes data_bytes ≢ err bad_slice_length)
from_bytes-ne-panicked_example = from_bytes-ne-panicked data_bytes

read_data :
    read_from data_stream ≡ (record data_stream { incoming = 5 ∷ 6 ∷ [] }, ok greeting_frame)
unfolding read_from
read_data = refl

read_from-Reads_example :
    Reads data_stream (record data_stream { incoming = 5 ∷ 6 ∷ [] }) greeting_frame
read_from-Reads_example =
    read_from-Reads data_stream (record data_stream { incoming = 5 ∷ 6 ∷ [] }) greeting_frame
      (ground arith) read_data

valid_three : is_valid_payload_size 3 ≡ true
unfolding is_valid_payload_size
valid_three = refl

valid_zero : is_valid_payload_size 0 ≡ true
unfolding is_valid_payload_size
valid_zero = refl

starts : data_stream.incoming ≡ serialize greeting_frame ++ 5 ∷ 6 ∷ []
unfolding serialize
starts = refl

read_from-serialize_example :
    read_from data_stream ≡ (record data_stream { incoming = 5 ∷ 6 ∷ [] }, ok greeting_frame)
read_from-serialize_example =
    read_from-serialize greeting_frame data_stream (5 ∷ 6 ∷ []) (omega arith) valid_three starts

abbrev two_stream : Stream
two_stream = record {
  incoming = serialize_frames (greeting_frame ∷ last_frame ∷ []) ++ 1 ∷ [];
  outgoing = [];
  room = 0;
}

read_frames-serialize_frames_example :
    read_frames 2 two_stream
    ≡ (record two_stream { incoming = 1 ∷ [] }, ok (greeting_frame ∷ last_frame ∷ []))
read_frames-serialize_frames_example =
    read_frames-serialize_frames (greeting_frame ∷ last_frame ∷ []) two_stream (1 ∷ [])
      ((omega arith, valid_three), ((omega arith, valid_zero), tt)) refl
