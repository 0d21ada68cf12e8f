-- ===== src/Protocol/Wire.antt =====
-- protocol/mod.rs: `WireFrame::read_from` and `WireFrame::write_to`.
pub mod Stepwise
pub mod Exact
pub mod Sequence
use noise_tunnel_rs.Base.{ltb}
use noise_tunnel_rs.Base.Bytes.{from_be_bytes}
use noise_tunnel_rs.Error.{reject_if, frame_too_short, frame_oversized}
use noise_tunnel_rs.Action.{Action, ◌>>=◌, ◌>>◌, lift, pure}
use noise_tunnel_rs.Protocol.Stream.{Stream, read_exact, write_all, flush}
use noise_tunnel_rs.Protocol.Frame.{WireFrame, max_frame_size, serialize, decode_body}

unfoldable pub read_from : Action Stream WireFrame
unfolding from_be_bytes read_exact decode_body
read_from = do
  len_buf ← read_exact 4
  let frame_len = from_be_bytes len_buf
  lift (reject_if (ltb frame_len 9) (frame_too_short frame_len))
  lift (reject_if (ltb max_frame_size frame_len) (frame_oversized frame_len))
  raw_data ← read_exact frame_len
  lift (decode_body raw_data)

unfoldable pub write_to : WireFrame → Action Stream (Unit {0})
unfolding serialize write_all flush
write_to f = do write_all (serialize f); flush; pure tt
