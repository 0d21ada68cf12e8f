-- ===== src/Protocol/Wire/Sequence.antt =====
-- Several frames on one stream: `read_from` keeps them apart.
use noise_tunnel_rs.Base.{
  zero, suc, refl, ◌≡◌, ℕ, List, [], All, ◌∷◌, length, ◌++◌, ap, true, ◌∙◌, append_assoc,
}
use noise_tunnel_rs.Base.Bytes.{Bytes, IsU64}
use noise_tunnel_rs.Error.{Result, ok}
use noise_tunnel_rs.Action.{Action, and_then, pure, ◌>>=◌}
use noise_tunnel_rs.Protocol.Stream.{Stream}
use noise_tunnel_rs.Protocol.Frame.{WireFrame, is_valid_payload_size, serialize}
use noise_tunnel_rs.Protocol.Wire.{read_from}
use noise_tunnel_rs.Protocol.Wire.Exact.{read_from-serialize}

-- Frames written one after the other, as their bytes.
abbrev pub serialize_frames : List WireFrame → Bytes
serialize_frames [] = []
serialize_frames (f ∷ fs) = serialize f ++ serialize_frames fs

-- As many calls of `read_from` as there are frames.
abbrev pub read_frames : ℕ → Action Stream (List WireFrame)
read_frames zero = pure []
read_frames (suc n) = do f ← read_from; fs ← read_frames n; pure (f ∷ fs)

abbrev pub IsSendable : WireFrame → Type 0
IsSendable f = IsU64 f.nonce × (is_valid_payload_size (length f.payload) ≡ true)

-- Frames with u64 nonces and within the size limit that stand back to back at the front of the
-- stream are read in order, each whole, and what follows them is left.
pub read_frames-serialize_frames :
    (fs : List WireFrame) (s : Stream) (rest : Bytes)
    → All IsSendable fs
    → s.incoming ≡ serialize_frames fs ++ rest
    → read_frames (length fs) s ≡ (record s { incoming = rest }, ok fs)
read_frames-serialize_frames [] s rest h e =
    ap {B = Stream × Result (List WireFrame)} (λ (t : Bytes). (record s { incoming = t }, ok [])) e
read_frames-serialize_frames (f ∷ fs) s rest h e =
    ap (λ (t : Stream × Result WireFrame). and_then t continue)
      (read_from-serialize f s (serialize_frames fs ++ rest) h.0.0 h.0.1
        (e ∙ append_assoc (serialize f) (serialize_frames fs) rest))
    ∙ ap (λ (t : Stream × Result (List WireFrame)). and_then t (λ gs. pure (f ∷ gs)))
        (read_frames-serialize_frames fs (record s { incoming = serialize_frames fs ++ rest }) rest
          h.1 refl)
  where
    continue : WireFrame → Action Stream (List WireFrame)
    continue g = do gs ← read_frames (length fs); pure (g ∷ gs)
