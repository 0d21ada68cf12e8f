-- ===== src/Server/Session/Integrity.antt =====
-- server.rs: what a session answers is what its client sealed, whatever arrives.
pub mod Sent
use noise_tunnel_rs.Base.{
  ℕ, ◌+◌, ◌^◌, ◌<◌, ◌≡◌, ◌≢◌, ◌⊎◌, inl, inr, none, some, Option-cases, List, [], ◌∷◌, ◌++◌, length,
  arith, ap, ◌∙◌, sym, subst,
}
use noise_tunnel_rs.Base.Bytes.{Bytes, add_u64}
use noise_tunnel_rs.Error.{Result, ok}
use noise_tunnel_rs.Crypto.Primitives.{Primitives, SealsMessages}
use noise_tunnel_rs.Crypto.Cipher.{CipherState, build_nonce, encrypt, decrypt}
use noise_tunnel_rs.Protocol.Frame.{WireFrame}
use noise_tunnel_rs.Protocol.MessageType.{
  MessageType, handshake_init, handshake_resp, data_payload, heartbeat, close,
}
use noise_tunnel_rs.Protocol.Stream.{Stream}
use noise_tunnel_rs.Protocol.Wire.{read_from}
use noise_tunnel_rs.Server.Session.{
  Session, Flow, again, answer_data, answer_heartbeat, dispatch, received, serve_frame, tunnel_data,
  heartbeat_data,
}

-- The label and the ciphertext of a frame that the loop answers; others it passes over.
abbrev pub boxes_of : MessageType → Bytes → List (Bytes × Bytes)
boxes_of data_payload payload = (tunnel_data, payload) ∷ []
boxes_of heartbeat payload = (heartbeat_data, payload) ∷ []
boxes_of other payload = []

module _ (p : Primitives) where
  -- A box opens under a key and a counter.
  abbrev pub Opens : Bytes → ℕ → Bytes × Bytes → Type 0
  Opens key n box = (pt : Bytes) × (p.aead_decrypt key (build_nonce n) box.0 box.1 ≡ some pt)

  -- Boxes that open under a key and consecutive counters.
  abbrev pub AllOpen : Bytes → ℕ → List (Bytes × Bytes) → Type 0
  AllOpen key n [] = Unit {0}
  AllOpen key n (box ∷ boxes) = Opens key n box × AllOpen key (n + 1) boxes

  -- What answering a frame with a box does to the receiving cipher.
  abbrev Consumes : Session → Bytes × Bytes → Session → Type 0
  Consumes s box s' =
      Opens s.rx_cipher.key s.rx_cipher.nonce box
      × (s'.rx_cipher.key ≡ s.rx_cipher.key)
      × (s'.rx_cipher.nonce ≡ add_u64 s.rx_cipher.nonce 1)

module _ (p : Primitives) (next_reading : ℕ → ℕ) where
  -- Rounds of the loop from one session to a later one, with the boxes answered on the way.
  pub data Answers : Session → List (Bytes × Bytes) → Session → Type 0 where
    here : {s : Session} → Answers s [] s
    round :
        {s s1 s2 : Session} {t : Stream} {frame : WireFrame} {boxes : List (Bytes × Bytes)}
        → read_from s.stream ≡ (t, ok frame)
        → serve_frame p next_reading s ≡ (s1, ok again)
        → Answers s1 boxes s2
        → Answers s (boxes_of frame.msg_type frame.payload ++ boxes) s2

  answer_data-Consumes :
      (f : WireFrame) (s s' : Session) (flow : Flow)
      → answer_data p next_reading f s ≡ (s', ok flow)
      → Consumes p s (tunnel_data, f.payload) s'
  unfolding answer_data encrypt decrypt
  answer_data-Consumes f s s' flow e =
      elim (Option-cases
        (p.aead_decrypt s.rx_cipher.key (build_nonce s.rx_cipher.nonce) tunnel_data f.payload)) [
          | inl shut ↦ absurd (ground (arith, shut, e))
          | inr (pt, opened) ↦ ((pt, opened), ground (arith, e), ground (arith, e))
        ]

  answer_heartbeat-Consumes :
      (f : WireFrame) (s s' : Session) (flow : Flow)
      → answer_heartbeat p next_reading f s ≡ (s', ok flow)
      → Consumes p s (heartbeat_data, f.payload) s'
  unfolding answer_heartbeat encrypt decrypt
  answer_heartbeat-Consumes f s s' flow e =
      elim (Option-cases
        (p.aead_decrypt s.rx_cipher.key (build_nonce s.rx_cipher.nonce) heartbeat_data f.payload)) [
          | inl shut ↦ absurd (ground (arith, shut, e))
          | inr (pt, opened) ↦ ((pt, opened), ground (arith, e), ground (arith, e))
        ]

  -- What answers the boxes before `rest` makes all of them open, if the rest does from there.
  abbrev Prepends : Session → List (Bytes × Bytes) → Session → Type 0
  Prepends s boxes s' =
      (rest : List (Bytes × Bytes))
      → s.rx_cipher.nonce + length (boxes ++ rest) < 2 ^ 64
      → (s'.rx_cipher.nonce + length rest < 2 ^ 64
          → AllOpen p s'.rx_cipher.key s'.rx_cipher.nonce rest)
      → AllOpen p s.rx_cipher.key s.rx_cipher.nonce (boxes ++ rest)

  one-Prepends :
      (s s' : Session) (box : Bytes × Bytes) → Consumes p s box s' → Prepends s (box ∷ []) s'
  one-Prepends s s' box (opens, same_key, moved) rest fits later =
      let next : s'.rx_cipher.nonce ≡ s.rx_cipher.nonce + 1 = omega (arith, moved, fits) in
      (opens, rw (same_key, next) at (later (omega (arith, next, fits))))

  passed-Prepends :
      (s s' : Session) (flow flow' : Flow)
      → ◌≡◌ {A = Session × Result Flow} (s, ok flow) (s', ok flow')
      → Prepends s [] s'
  passed-Prepends s s' flow flow' e rest fits later =
      let same : s ≡ s' = ap (λ (r : Session × Result Flow). r.0) e in
      subst (λ (t : Session). AllOpen p t.rx_cipher.key t.rx_cipher.nonce rest) (sym same)
        (later (omega (arith, fits, ap (λ (t : Session). t.rx_cipher.nonce) same)))

  dispatch-Prepends :
      (kind : MessageType) (f : WireFrame) (s s' : Session) (flow : Flow)
      → dispatch p next_reading kind f s ≡ (s', ok flow)
      → Prepends s (boxes_of kind f.payload) s'
  dispatch-Prepends data_payload f s s' flow e =
      one-Prepends s s' (tunnel_data, f.payload) (answer_data-Consumes f s s' flow e)
  dispatch-Prepends heartbeat f s s' flow e =
      one-Prepends s s' (heartbeat_data, f.payload) (answer_heartbeat-Consumes f s s' flow e)
  dispatch-Prepends close f s s' flow e = passed-Prepends s s' _ flow e
  dispatch-Prepends handshake_init f s s' flow e = passed-Prepends s s' _ flow e
  dispatch-Prepends handshake_resp f s s' flow e = passed-Prepends s s' _ flow e

  serve_frame-Prepends :
      (s s' : Session) (t : Stream) (f : WireFrame) (flow : Flow)
      → read_from s.stream ≡ (t, ok f)
      → serve_frame p next_reading s ≡ (s', ok flow)
      → Prepends s (boxes_of f.msg_type f.payload) s'
  unfolding serve_frame
  serve_frame-Prepends s s' t f flow r e = dispatch-Prepends f.msg_type f _ s' flow (rw r at e)

  pub Answers-AllOpen :
      {s s' : Session} {boxes : List (Bytes × Bytes)}
      → Answers s boxes s'
      → s.rx_cipher.nonce + length boxes < 2 ^ 64
      → AllOpen p s.rx_cipher.key s.rx_cipher.nonce boxes
  Answers-AllOpen here fits = tt
  Answers-AllOpen (round {s} {s1} {s2} {t} {frame} {boxes} r e more) fits =
      serve_frame-Prepends s s1 t frame again r e boxes fits (λ h. Answers-AllOpen more h)
