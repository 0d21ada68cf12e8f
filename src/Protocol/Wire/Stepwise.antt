-- ===== src/Protocol/Wire/Stepwise.antt =====
-- `read_from` one check at a time, and its agreement with `from_bytes` on the bytes it takes.
use noise_tunnel_rs.Base.{◌∷◌, ℕ, [], length, take, drop, ◌≡◌, ◌≤◌, ◌<◌, arith, ◌∙◌}
use noise_tunnel_rs.Base.Bytes.{Bytes, from_be_bytes}
use noise_tunnel_rs.Error.{err, frame_too_short, frame_oversized, unexpected_eof}
use noise_tunnel_rs.Protocol.Stream.{Stream, read_exact}
use noise_tunnel_rs.Protocol.Frame.{from_bytes, decode_body, max_frame_size}
use noise_tunnel_rs.Protocol.Frame.Canonical.{framed_lem}
use noise_tunnel_rs.Protocol.Wire.{read_from}

module _ (a b c d : ℕ) where
  abbrev pub len_field : ℕ
  len_field = from_be_bytes (a ∷ b ∷ c ∷ d ∷ [])

  -- Behind a length field that is right, both parsers decode alike.
  pub from_bytes-decode_body :
      (raw : Bytes)
      → len_field ≡ length raw
      → 9 ≤ length raw
      → length raw ≤ max_frame_size
      → from_bytes (a ∷ b ∷ c ∷ d ∷ raw) ≡ decode_body raw
  unfolding decode_body
  from_bytes-decode_body (t ∷ n0 ∷ n1 ∷ n2 ∷ n3 ∷ n4 ∷ n5 ∷ n6 ∷ n7 ∷ payload) e lo hi =
      framed_lem a b c d t payload n0 n1 n2 n3 n4 n5 n6 n7 ∙ ground arith
  from_bytes-decode_body short e lo hi = absurd (omega arith)

  module _ (rest out : Bytes) (room : ℕ) where
    abbrev pub at_frame : Stream
    at_frame = record { incoming = a ∷ b ∷ c ∷ d ∷ rest; outgoing = out; room = room }

    abbrev pub behind : Bytes → Stream
    behind left = record { incoming = left; outgoing = out; room = room }

    pub read_from_short :
        len_field < 9 → read_from at_frame ≡ (behind rest, err (frame_too_short len_field))
    unfolding read_from read_exact
    read_from_short h = ground arith

    pub read_from_oversized :
        max_frame_size < len_field
        → read_from at_frame ≡ (behind rest, err (frame_oversized len_field))
    unfolding read_from read_exact
    read_from_oversized h = ground arith

    pub read_from_cut :
        9 ≤ len_field
        → len_field ≤ max_frame_size
        → length rest < len_field
        → read_from at_frame ≡ (behind [], err unexpected_eof)
    unfolding read_from read_exact
    read_from_cut lo hi h = ground arith

    pub read_from_whole :
        9 ≤ len_field
        → len_field ≤ max_frame_size
        → len_field ≤ length rest
        → read_from at_frame ≡ (behind (drop len_field rest), decode_body (take len_field rest))
    unfolding read_from read_exact
    read_from_whole lo hi h = ground arith

pub read_from_eof :
    (s : Stream)
    → length s.incoming < 4
    → read_from s ≡ (record s { incoming = [] }, err unexpected_eof)
unfolding read_from read_exact
read_from_eof s h = ground arith
