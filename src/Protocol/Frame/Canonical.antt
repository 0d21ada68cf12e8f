-- ===== src/Protocol/Frame/Canonical.antt =====
-- What `from_bytes` accepts: it never panics, and an accepted buffer is the accepted frame's own
-- serialization.
use noise_tunnel_rs.Base.{
  ℕ, ◌+◌, ◌%◌, ◌^◌, ◌≤◌, ◌<◌, ◌≡◌, ◌≢◌, sym, ◌∙◌, ◌↔◌, true, [], ◌∷◌, length, arith, ltb,
  if◌then◌else◌, ◌==◌,
}
use noise_tunnel_rs.Base.Bytes.{
  Bytes, IsBytes, from_be_bytes, from_be_bytes-lt, to_be_bytes-from_be_bytes_four,
  to_be_bytes-from_be_bytes_eight,
}
use noise_tunnel_rs.Error.{
  Result, ◌>>=◌, frame_length_mismatch, ok, err, frame_oversized, panicked, bad_slice_length,
  buffer_too_short,
}
use noise_tunnel_rs.Protocol.MessageType.{MessageType, as_u8}
use noise_tunnel_rs.Protocol.MessageType.Parse.{try_from, try_from_iff}
use noise_tunnel_rs.Protocol.Frame.{
  WireFrame, IsFrame, max_frame_size, max_payload_size, is_valid_payload_size, serialize,
  from_bytes,
}
use noise_tunnel_rs.Protocol.Frame.RoundTrip.{serialize_lem, from_bytes-serialize_valid}

-- `f` is a frame that Rust's types and the size limit allow, and `bytes` is what it serializes to.
abbrev pub Canonical : Bytes → WireFrame → Type 0
Canonical bytes f =
    IsFrame f × (is_valid_payload_size (length f.payload) ≡ true) × (serialize f ≡ bytes)

-- Four length bytes, the type, eight nonce bytes and the payload.
module _ (a b c d t : ℕ) (payload : Bytes) (n0 n1 n2 n3 n4 n5 n6 n7 : ℕ) where
  abbrev pub framed : Bytes
  framed = a ∷ b ∷ c ∷ d ∷ t ∷ n0 ∷ n1 ∷ n2 ∷ n3 ∷ n4 ∷ n5 ∷ n6 ∷ n7 ∷ payload

  abbrev pub len_field : ℕ
  len_field = from_be_bytes (a ∷ b ∷ c ∷ d ∷ [])

  abbrev pub nonce_field : ℕ
  nonce_field = from_be_bytes (n0 ∷ n1 ∷ n2 ∷ n3 ∷ n4 ∷ n5 ∷ n6 ∷ n7 ∷ [])

  -- The checks that are left once the buffer has its 13 bytes.
  abbrev pub outcome : Result WireFrame
  outcome =
      if len_field == 9 + length payload
      then if ltb max_frame_size len_field
        then err (frame_oversized len_field)
        else (try_from t >>= λ m.
            ok (record { msg_type = m; nonce = nonce_field; payload = payload }))
      else err (frame_length_mismatch len_field (9 + length payload))

  pub framed_lem : from_bytes framed ≡ outcome
  unfolding from_bytes
  framed_lem = ground arith

  frame_of : MessageType → WireFrame
  frame_of m = record { msg_type = m; nonce = nonce_field; payload = payload }

  outcome_inv :
      (f : WireFrame)
      → outcome ≡ ok f
      → (m : MessageType) × (f ≡ frame_of m)
        × (as_u8 m ≡ t)
        × (len_field ≡ 9 + length payload)
        × (9 + length payload ≤ max_frame_size)
  unfolding frame_of
  outcome_inv f e = (
    f.msg_type,
    ground (arith, try_from_iff t f.msg_type),
    ground (arith, try_from_iff t f.msg_type),
    ground arith,
    ground arith,
  )

  module _ (bytes : IsBytes framed) where
    len-IsBytes : IsBytes (a ∷ b ∷ c ∷ d ∷ [])
    len-IsBytes = ground arith

    nonce-IsBytes : IsBytes (n0 ∷ n1 ∷ n2 ∷ n3 ∷ n4 ∷ n5 ∷ n6 ∷ n7 ∷ [])
    nonce-IsBytes = ground arith

    frame_of-IsFrame : (m : MessageType) → IsFrame (frame_of m)
    unfolding frame_of
    frame_of-IsFrame m = record {
      nonce_fits =
          omega
            (arith, from_be_bytes-lt (n0 ∷ n1 ∷ n2 ∷ n3 ∷ n4 ∷ n5 ∷ n6 ∷ n7 ∷ []) nonce-IsBytes);
      payload_bytes = ground arith;
    }

    serialize-frame_of :
        (m : MessageType)
        → as_u8 m ≡ t
        → len_field ≡ 9 + length payload
        → 9 + length payload ≤ max_frame_size
        → serialize (frame_of m) ≡ framed
    unfolding frame_of
    serialize-frame_of m kind len fits =
        let cut : (9 + length payload) % 2 ^ 32 ≡ len_field = omega arith in
        serialize_lem (frame_of m)
        ∙ cc (
          cut,
          kind,
          to_be_bytes-from_be_bytes_four a b c d len-IsBytes,
          to_be_bytes-from_be_bytes_eight n0 n1 n2 n3 n4 n5 n6 n7 nonce-IsBytes,
        )

  framed-Canonical :
      (f : WireFrame) → IsBytes framed → from_bytes framed ≡ ok f → Canonical framed f
  unfolding is_valid_payload_size max_payload_size
  framed-Canonical f bytes e =
      let (m, is, kind, len, fits) = outcome_inv f (sym framed_lem ∙ e) in
      rw is (
        frame_of-IsFrame bytes m,
        unfold frame_of in ground arith,
        serialize-frame_of bytes m kind len fits,
      )

  framed-ne-panicked :
      (from_bytes framed ≢ err panicked) × (from_bytes framed ≢ err bad_slice_length)
  unfolding try_from
  framed-ne-panicked = (
    (λ e. let h = sym framed_lem ∙ e in ground arith),
    (λ e. let h = sym framed_lem ∙ e in ground arith),
  )

-- Below 13 bytes the buffer is refused.
short_lem :
    (bytes : Bytes) → length bytes < 13 → from_bytes bytes ≡ err (buffer_too_short (length bytes))
unfolding from_bytes
short_lem bytes h = ground arith

-- A property of every buffer follows from the short ones and the ones with all fields.
by_fields {ℓ} :
    (P : Bytes → Type ℓ)
    → ((bytes : Bytes) → length bytes < 13 → P bytes)
    → ((a b c d t : ℕ) (payload : Bytes) (n0 n1 n2 n3 n4 n5 n6 n7 : ℕ)
        → P (framed a b c d t payload n0 n1 n2 n3 n4 n5 n6 n7))
    → (bytes : Bytes) → P bytes
by_fields P short full (a ∷ b ∷ c ∷ d ∷ t ∷ n0 ∷ n1 ∷ n2 ∷ n3 ∷ n4 ∷ n5 ∷ n6 ∷ n7 ∷ payload) =
    full a b c d t payload n0 n1 n2 n3 n4 n5 n6 n7
by_fields P short full bytes = short _ (omega arith)

pub from_bytes-Canonical :
    (bytes : Bytes) (f : WireFrame) → IsBytes bytes → from_bytes bytes ≡ ok f → Canonical bytes f
from_bytes-Canonical bytes f =
    by_fields (λ bytes. IsBytes bytes → from_bytes bytes ≡ ok f → Canonical bytes f)
      (λ bytes h _ e. cc (short_lem bytes h))
      (λ a b c d t payload n0 n1 n2 n3 n4 n5 n6 n7.
        framed-Canonical a b c d t payload n0 n1 n2 n3 n4 n5 n6 n7 f)
      bytes

-- `from_bytes` returns a frame for a buffer of bytes exactly when the buffer is that frame's
-- serialization and the frame has a u64 nonce, bytes as payload and a size within the limit.
pub from_bytes_iff :
    (bytes : Bytes) (f : WireFrame) → IsBytes bytes → (from_bytes bytes ≡ ok f) ↔ Canonical bytes f
from_bytes_iff bytes f h = (from_bytes-Canonical bytes f h, accepted)
  where
    accepted : Canonical bytes f → from_bytes bytes ≡ ok f
    accepted (is_frame, valid, e) =
        rw (← e) (from_bytes-serialize_valid f is_frame.nonce_fits valid)

-- No buffer makes `from_bytes` panic on a slice or an index, or fail to convert a slice.
pub from_bytes-ne-panicked :
    (bytes : Bytes) → (from_bytes bytes ≢ err panicked) × (from_bytes bytes ≢ err bad_slice_length)
from_bytes-ne-panicked =
    by_fields
      (λ bytes. (from_bytes bytes ≢ err panicked) × (from_bytes bytes ≢ err bad_slice_length))
      (λ bytes h. ((λ e. cc (short_lem bytes h)), (λ e. cc (short_lem bytes h)))) framed-ne-panicked
