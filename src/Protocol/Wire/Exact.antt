-- ===== src/Protocol/Wire/Exact.antt =====
-- `read_from` takes exactly one frame off the stream, and `write_to` puts exactly one on it.
use noise_tunnel_rs.Base.{
  dec_lt, ℕ, length, ◌≡◌, ◌<◌, ◌∷◌, ◌++◌, ◌≤◌, ◌-◌, take, arith, true, drop, sym, ◌∙◌, ap,
  length-take, All-take, take-append-drop, ◌+◌, length-append, take-append, drop-append, ◌%◌, ◌^◌,
  ◌/◌,
}
use noise_tunnel_rs.Base.Bytes.{Bytes, IsBytes, IsByte, to_be_bytes, length-to_be_bytes, IsU64}
use noise_tunnel_rs.Error.{ok, err, connection_lost, Result}
use noise_tunnel_rs.Protocol.MessageType.{as_u8}
use noise_tunnel_rs.Protocol.Frame.RoundTrip.{
  length_field, valid_size-le, serialize_lem, decode_body-serialize,
}
use noise_tunnel_rs.Protocol.Stream.{Stream, write_all, flush}
use noise_tunnel_rs.Protocol.Frame.{
  WireFrame, from_bytes, decode_body, serialize, max_frame_size, IsFrame, is_valid_payload_size,
  max_payload_size,
}
use noise_tunnel_rs.Protocol.Frame.Canonical.{Canonical, from_bytes-Canonical}
use noise_tunnel_rs.Protocol.Wire.{read_from, write_to}
use noise_tunnel_rs.Protocol.Wire.Stepwise.{
  len_field, read_from_whole, at_frame, behind, from_bytes-decode_body, read_from_eof,
  read_from_short, read_from_oversized, read_from_cut,
}

-- With room for it, `write_to` appends the serialized frame and nothing else.
pub write_to_lem :
    (f : WireFrame) (s : Stream)
    → length (serialize f) ≤ s.room
    → write_to f s ≡ (
      record s { outgoing = s.outgoing ++ serialize f; room = s.room - length (serialize f) },
      ok tt,
    )
unfolding write_to write_all flush
write_to_lem f s h = ground arith

pub write_to_fails :
    (f : WireFrame) (s : Stream)
    → s.room < length (serialize f)
    → write_to f s ≡ (
      record s { outgoing = s.outgoing ++ take s.room (serialize f); room = 0 },
      err connection_lost,
    )
unfolding write_to write_all flush
write_to_fails f s h = ground arith

-- `s` is left from `s0` by reading `f`: the bytes of `f` are gone from its front, and no others.
pub record Took (f : WireFrame) (s0 s : Stream) : Type 0 where
  pub taken : s0.incoming ≡ serialize f ++ s.incoming
  pub same_outgoing : s.outgoing ≡ s0.outgoing
  pub same_room : s.room ≡ s0.room

-- What a successful `read_from` has done.
abbrev pub Reads : Stream → Stream → WireFrame → Type 0
Reads s0 s f = IsFrame f × (is_valid_payload_size (length f.payload) ≡ true) × Took f s0 s

module _ (a b c d : ℕ) (rest out : Bytes) (room : ℕ) (bytes : IsBytes (a ∷ b ∷ c ∷ d ∷ rest)) where
  whole-Reads :
      {s : Stream} {f : WireFrame}
      → 9 ≤ len_field a b c d
      → len_field a b c d ≤ max_frame_size
      → len_field a b c d ≤ length rest
      → read_from (at_frame a b c d rest out room) ≡ (s, ok f)
      → Reads (at_frame a b c d rest out room) s f
  whole-Reads {s} {f} lo hi h e = (
    canonical.0,
    canonical.1,
    record {
      taken = front ∙ ap (λ (t : Bytes). t ++ s.incoming) (sym canonical.2);
      same_outgoing = ap (λ (t : Stream). t.outgoing) (sym state);
      same_room = ap (λ (t : Stream). t.room) (sym state);
    },
  )
    where
      size : ℕ
      size = len_field a b c d

      raw : Bytes
      raw = take size rest

      steps :
          ◌≡◌ {A = Stream × Result WireFrame}
            (behind a b c d rest out room (drop size rest), decode_body raw)
            (s, ok f)
      steps = sym (read_from_whole a b c d rest out room lo hi h) ∙ e

      state : behind a b c d rest out room (drop size rest) ≡ s
      state = ap (λ (t : Stream × Result WireFrame). t.0) steps

      length-raw : size ≡ length raw
      length-raw = omega (arith, length-take size rest)

      parsed : from_bytes (a ∷ b ∷ c ∷ d ∷ raw) ≡ ok f
      parsed =
          from_bytes-decode_body a b c d raw length-raw (omega (arith, length-raw))
            (omega (arith, length-raw))
          ∙ ap (λ (t : Stream × Result WireFrame). t.1) steps

      raw_bytes : IsBytes (a ∷ b ∷ c ∷ d ∷ raw)
      raw_bytes = (
        bytes.0,
        (bytes.1.0, (bytes.1.1.0, (bytes.1.1.1.0, All-take IsByte size rest bytes.1.1.1.1))),
      )

      canonical : Canonical (a ∷ b ∷ c ∷ d ∷ raw) f
      canonical = from_bytes-Canonical (a ∷ b ∷ c ∷ d ∷ raw) f raw_bytes parsed

      front : a ∷ b ∷ c ∷ d ∷ rest ≡ (a ∷ b ∷ c ∷ d ∷ raw) ++ s.incoming
      front =
          ap (λ (t : Bytes). a ∷ b ∷ c ∷ d ∷ t)
            (sym (take-append-drop size rest) ∙ ap (λ (t : Stream). raw ++ t.incoming) state)

  read_from-Reads_long :
      (s : Stream) (f : WireFrame)
      → read_from (at_frame a b c d rest out room) ≡ (s, ok f)
      → Reads (at_frame a b c d rest out room) s f
  read_from-Reads_long s f e = elim (dec_lt (len_field a b c d) 9) [
    | yes short ↦ cc (read_from_short a b c d rest out room short)
    | no long ↦ elim (dec_lt max_frame_size (len_field a b c d)) [
      | yes big ↦ cc (read_from_oversized a b c d rest out room big)
      | no fits ↦ elim (dec_lt (length rest) (len_field a b c d)) [
        | yes cut ↦ cc (read_from_cut a b c d rest out room (omega arith) (omega arith) cut)
        | no whole ↦ whole-Reads (omega arith) (omega arith) (omega arith) e
      ]
    ]
  ]

-- A stream whose bytes are given apart.
abbrev stream : Bytes → Bytes → ℕ → Stream
stream bytes out room = record { incoming = bytes; outgoing = out; room = room }

read_from-Reads_bytes :
    (bytes out : Bytes) (room : ℕ) (s : Stream) (f : WireFrame)
    → IsBytes bytes
    → read_from (stream bytes out room) ≡ (s, ok f)
    → Reads (stream bytes out room) s f
read_from-Reads_bytes (a ∷ b ∷ c ∷ d ∷ rest) out room s f h e =
    read_from-Reads_long a b c d rest out room h s f e
read_from-Reads_bytes short out room s f h e =
    cc (read_from_eof (stream short out room) (omega arith))

-- Whenever `read_from` returns a frame from a stream of bytes, it has taken that frame's
-- serialization off the stream and not a byte more, written nothing, and the frame is within the
-- size limit, with a u64 nonce and bytes as payload.
pub read_from-Reads :
    (s0 s : Stream) (f : WireFrame) → IsBytes s0.incoming → read_from s0 ≡ (s, ok f) → Reads s0 s f
read_from-Reads s0 = read_from-Reads_bytes s0.incoming s0.outgoing s0.room

read_from_body :
    (a b c d : ℕ) (body rest out : Bytes) (room : ℕ)
    → len_field a b c d ≡ length body
    → 9 ≤ length body
    → length body ≤ max_frame_size
    → read_from (stream (a ∷ b ∷ c ∷ d ∷ (body ++ rest)) out room)
      ≡ (stream rest out room, decode_body body)
read_from_body a b c d body rest out room e lo hi =
    read_from_whole a b c d (body ++ rest) out room (omega arith) (omega arith)
      (omega (arith, length-append body rest))
    ∙ rw (e, take-append body rest, drop-append body rest)

abbrev body_of : WireFrame → Bytes
body_of f = as_u8 f.msg_type ∷ (to_be_bytes 8 f.nonce ++ f.payload)

length-body_of : (f : WireFrame) → length (body_of f) ≡ 9 + length f.payload
length-body_of f =
    omega (arith, length-append (to_be_bytes 8 f.nonce) f.payload, length-to_be_bytes 8 f.nonce)

-- When the bytes of a frame with a u64 nonce and within the size limit stand at the front of the
-- stream, `read_from` returns that frame and leaves what follows it.
pub read_from-serialize :
    (f : WireFrame) (s : Stream) (rest : Bytes)
    → IsU64 f.nonce
    → is_valid_payload_size (length f.payload) ≡ true
    → s.incoming ≡ serialize f ++ rest
    → read_from s ≡ (record s { incoming = rest }, ok f)
unfolding is_valid_payload_size max_payload_size to_be_bytes
read_from-serialize f s rest nonce_fits valid e =
    ap (λ (t : Bytes). read_from (stream t s.outgoing s.room))
      (e ∙ ap (λ (t : Bytes). t ++ rest) (serialize_lem f))
    ∙ read_from_body (size / 256 / 256 / 256 % 256) (size / 256 / 256 % 256) (size / 256 % 256)
        (size % 256) (body_of f) rest s.outgoing s.room
        (length_field f nonce_fits (omega (arith, fits)) ∙ sym (length-body_of f))
        (omega (arith, length-body_of f)) (omega (arith, length-body_of f, fits))
    ∙ ap (λ (t : Result WireFrame). (stream rest s.outgoing s.room, t))
        (decode_body-serialize f nonce_fits)
  where
    size : ℕ
    size = (9 + length f.payload) % 2 ^ 32

    fits : length f.payload ≤ 65527
    fits = valid_size-le (length f.payload) valid
