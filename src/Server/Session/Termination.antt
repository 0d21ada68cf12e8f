-- ===== src/Server/Session/Termination.antt =====
-- server.rs: the transport loop ends when the client's bytes do.
use noise_tunnel_rs.Base.{
  ℕ, zero, suc, ◌≡◌, ◌<◌, Bool, true, false, Option, none, some, length, length-drop, arith, ap,
  sym, ◌∙◌, take, drop, refl,
}
use noise_tunnel_rs.Base.Bytes.{from_be_bytes}
use noise_tunnel_rs.Error.{Result, ok, err}
use noise_tunnel_rs.Action.{Action}
use noise_tunnel_rs.Crypto.Primitives.{Primitives}
use noise_tunnel_rs.Protocol.Frame.{WireFrame}
use noise_tunnel_rs.Protocol.MessageType.{
  MessageType, handshake_init, handshake_resp, data_payload, heartbeat, close,
}
use noise_tunnel_rs.Protocol.Stream.{Stream, read_exact, write_all, flush}
use noise_tunnel_rs.Protocol.Wire.{read_from, write_to}
use noise_tunnel_rs.Server.Session.{
  Session, Flow, again, leave, answer_data, answer_heartbeat, dispatch, received, serve_frame,
  serve, serve_on,
}

pub write_to-incoming : (f : WireFrame) (t : Stream) → (write_to f t).0.incoming ≡ t.incoming
unfolding write_to write_all flush
write_to-incoming f t = ground arith

-- Every frame read leaves fewer bytes to come.
pub read_from-lt :
    (t u : Stream) (f : WireFrame) → read_from t ≡ (u, ok f) → length u.incoming < length t.incoming
unfolding read_from read_exact
read_from-lt t u f e = ground (
  arith,
  length-drop 4 t.incoming,
  length-drop (from_be_bytes (take 4 t.incoming)) (drop 4 t.incoming),
)

-- An action that leaves the bytes to come alone.
abbrev pub Keeps : {A : Type 0} → Action Session A → Type 0
Keeps act = (s : Session) → (act s).0.stream.incoming ≡ s.stream.incoming

module _ (p : Primitives) (next_reading : ℕ → ℕ) where
  pub answer_data-Keeps : (f : WireFrame) → Keeps (answer_data p next_reading f)
  unfolding answer_data write_to write_all flush
  answer_data-Keeps f s = ground arith

  pub answer_heartbeat-Keeps : (f : WireFrame) → Keeps (answer_heartbeat p next_reading f)
  unfolding answer_heartbeat write_to write_all flush
  answer_heartbeat-Keeps f s = ground arith

  dispatch-Keeps : (t : MessageType) (f : WireFrame) → Keeps (dispatch p next_reading t f)
  dispatch-Keeps data_payload f s = answer_data-Keeps f s
  dispatch-Keeps heartbeat f s = answer_heartbeat-Keeps f s
  dispatch-Keeps close f s = refl
  dispatch-Keeps handshake_init f s = refl
  dispatch-Keeps handshake_resp f s = refl

  received-lt :
      (r : Stream × Result WireFrame) (s s' : Session)
      → ((u : Stream) (f : WireFrame)
          → r ≡ (u, ok f)
          → length u.incoming < length s.stream.incoming)
      → received p next_reading r s ≡ (s', ok again)
      → length s'.stream.incoming < length s.stream.incoming
  received-lt (t, err e) s s' h eq = cc
  received-lt (t, ok f) s s' h eq =
      let kept = dispatch-Keeps f.msg_type f _ in
      let same : s'.stream.incoming ≡ t.incoming =
        sym (ap (λ (r : Session × Result Flow). r.0.stream.incoming) eq) ∙ kept in
      omega (arith, ap length same, h t f refl)

  -- A round of the loop that is followed by another has used up some of the client's bytes.
  pub serve_frame-lt :
      (s s' : Session)
      → serve_frame p next_reading s ≡ (s', ok again)
      → length s'.stream.incoming < length s.stream.incoming
  unfolding serve_frame
  serve_frame-lt s s' e = received-lt (read_from s.stream) s s' (λ u f. read_from-lt s.stream u f) e

  abbrev pub ends : Option (Session × Result (Unit {0})) → Bool
  ends none = false
  ends (some r) = true

  serve_on-ends :
      (n : ℕ) (s : Session) (r : Session × Result Flow)
      → serve_frame p next_reading s ≡ r
      → ((s' : Session) → r ≡ (s', ok again) → ends (serve p next_reading n s') ≡ true)
      → ends (serve_on p next_reading (serve p next_reading n) r) ≡ true
  serve_on-ends n s (s', ok again) e k = k s' refl
  serve_on-ends n s (s', ok leave) e k = refl
  serve_on-ends n s (s', err x) e k = refl

  -- The session ends within one more round than there are bytes to come from the client, whatever
  -- those bytes are.
  pub serve-ends :
      (n : ℕ) (s : Session) → length s.stream.incoming < n → ends (serve p next_reading n s) ≡ true
  serve-ends zero s h = absurd (omega arith)
  serve-ends (suc n) s h =
      serve_on-ends n s (serve_frame p next_reading s) refl
        λ s' e. serve-ends n s' (omega (arith, serve_frame-lt s s' e))
