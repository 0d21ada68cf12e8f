-- ===== src/Protocol/Frame/RoundTrip.antt =====
-- `serialize` against the two parsers.
use noise_tunnel_rs.Base.{
  ◌+◌, ◌%◌, ◌^◌, ◌<◌, ◌≡◌, ◌∙◌, ◌∷◌, ◌++◌, append_assoc, length, arith, if◌then◌else◌, true, ℕ, ◌≤◌,
}
use noise_tunnel_rs.Base.Bytes.{Bytes, to_be_bytes, from_be_bytes, from_be_bytes-to_be_bytes, IsU64}
use noise_tunnel_rs.Error.{Result, ok, err, frame_oversized}
use noise_tunnel_rs.Protocol.MessageType.{as_u8}
use noise_tunnel_rs.Protocol.MessageType.Parse.{try_from-as_u8}
use noise_tunnel_rs.Protocol.Frame.{
  WireFrame, max_payload_size, is_valid_payload_size, serialize_into, serialize, from_bytes,
  decode_body,
}

-- `serialize_into` appends to the buffer what `serialize` writes.
pub serialize_into-append :
    (f : WireFrame) (buffer : Bytes) → serialize_into f buffer ≡ buffer ++ serialize f
unfolding serialize_into serialize
serialize_into-append f buffer = simp append_assoc

-- The parts of a serialized frame.
pub serialize_lem :
    (f : WireFrame)
    → serialize f
      ≡ to_be_bytes 4 ((9 + length f.payload) % 2 ^ 32)
        ++ (as_u8 f.msg_type ∷ (to_be_bytes 8 f.nonce ++ f.payload))
unfolding serialize serialize_into
serialize_lem f = simp append_assoc

pub length-serialize : (f : WireFrame) → length (serialize f) ≡ 13 + length f.payload
unfolding serialize serialize_into to_be_bytes
length-serialize f = omega arith

-- What either parser answers to the bytes of a frame whose length fits 32 bits.
abbrev pub parsed : WireFrame → Result WireFrame
unfolding is_valid_payload_size
parsed f =
    if is_valid_payload_size (length f.payload)
    then ok f
    else err (frame_oversized (9 + length f.payload))

module _ (f : WireFrame) (nonce_fits : IsU64 f.nonce) where
  pub length_field :
      9 + length f.payload < 2 ^ 32
      → from_be_bytes (to_be_bytes 4 ((9 + length f.payload) % 2 ^ 32)) ≡ 9 + length f.payload
  length_field h = from_be_bytes-to_be_bytes 4 _ (omega arith) ∙ omega arith

  nonce_field : from_be_bytes (to_be_bytes 8 f.nonce) ≡ f.nonce
  nonce_field = from_be_bytes-to_be_bytes 8 f.nonce nonce_fits

  pub decode_body-serialize :
      decode_body (as_u8 f.msg_type ∷ to_be_bytes 8 f.nonce ++ f.payload) ≡ ok f
  decode_body-serialize =
      unfold decode_body to_be_bytes in ground (arith, try_from-as_u8 f.msg_type, nonce_field)

  -- If the nonce is a u64 and the length fits 32 bits, `from_bytes` gives a serialized frame back
  -- when it is within the size limit, and refuses it as oversized when not.
  pub from_bytes-serialize : 9 + length f.payload < 2 ^ 32 → from_bytes (serialize f) ≡ parsed f
  from_bytes-serialize h =
      unfold from_bytes serialize serialize_into to_be_bytes is_valid_payload_size
        max_payload_size in
      ground (arith, length_field h, try_from-as_u8 f.msg_type, nonce_field)

pub valid_size-le : (n : ℕ) → is_valid_payload_size n ≡ true → n ≤ 65527
unfolding is_valid_payload_size max_payload_size
valid_size-le n h = ground arith

-- A frame with a u64 nonce and within the size limit comes back from its serialization.
pub from_bytes-serialize_valid :
    (f : WireFrame)
    → IsU64 f.nonce
    → is_valid_payload_size (length f.payload) ≡ true
    → from_bytes (serialize f) ≡ ok f
unfolding is_valid_payload_size max_payload_size
from_bytes-serialize_valid f nonce_fits valid =
    from_bytes-serialize f nonce_fits (ground arith) ∙ ground arith
