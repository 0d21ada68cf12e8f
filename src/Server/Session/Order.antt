-- ===== src/Server/Session/Order.antt =====
-- server.rs: the nonces of the frames that a session answers.
use noise_tunnel_rs.Base.{
  ℕ, ◌+◌, ◌≡◌, ◌≢◌, ◌⊎◌, true, List, [], ◌∷◌, ◌++◌, length, arith, subst, length-append, ap, sym,
  ◌∙◌,
}
use noise_tunnel_rs.Base.Bytes.{add_u64}
use noise_tunnel_rs.Error.{Result, ok, is_err}
use noise_tunnel_rs.Crypto.Primitives.{Primitives}
use noise_tunnel_rs.Crypto.Cipher.{encrypt, decrypt}
use noise_tunnel_rs.Protocol.Frame.{WireFrame}
use noise_tunnel_rs.Protocol.MessageType.{
  MessageType, handshake_init, handshake_resp, data_payload, heartbeat, close,
}
use noise_tunnel_rs.Protocol.Stream.{Stream, read_exact}
use noise_tunnel_rs.Protocol.Wire.{read_from}
use noise_tunnel_rs.Server.Session.{
  Session, Flow, again, answer_data, answer_heartbeat, dispatch, serve_frame,
}

-- The nonce of a frame that the loop answers; others it passes over.
abbrev pub answered : MessageType → ℕ → List ℕ
answered data_payload nonce = nonce ∷ []
answered heartbeat nonce = nonce ∷ []
answered other nonce = []

-- Consecutive counters from `n` on, on 64 bits.
abbrev pub IsFrom : ℕ → List ℕ → Type 0
IsFrom n [] = Unit {0}
IsFrom n (m ∷ ms) = (m ≡ n) × IsFrom (add_u64 n 1) ms

pub read_from-outgoing : (t : Stream) → (read_from t).0.outgoing ≡ t.outgoing
unfolding read_from read_exact
read_from-outgoing t = ground arith

module _ (p : Primitives) (next_reading : ℕ → ℕ) where
  -- Rounds of the loop from one session to a later one, with the nonces answered on the way.
  pub data Serves : Session → List ℕ → Session → Type 0 where
    here : {s : Session} → Serves s [] s
    round :
        {s s1 s2 : Session} {t : Stream} {frame : WireFrame} {nonces : List ℕ}
        → read_from s.stream ≡ (t, ok frame)
        → serve_frame p next_reading s ≡ (s1, ok again)
        → Serves s1 nonces s2
        → Serves s (answered frame.msg_type frame.nonce ++ nonces) s2

  -- What a round does to the two counters, for the nonces it answered.
  pub record Advances (s : Session) (nonces : List ℕ) (s' : Session) : Type 0 where
    pub in_order : IsFrom s.rx_cipher.nonce nonces
    pub tx_moves : s'.tx_cipher.nonce ≡ s.tx_cipher.nonce + length nonces

  pub answer_data-ok :
      (f : WireFrame) (s s' : Session) (flow : Flow)
      → answer_data p next_reading f s ≡ (s', ok flow)
      → (f.nonce ≡ s.rx_cipher.nonce)
        × (s'.rx_cipher.nonce ≡ add_u64 s.rx_cipher.nonce 1)
        × (s'.tx_cipher.nonce ≡ s.tx_cipher.nonce + 1)
  unfolding answer_data encrypt decrypt
  answer_data-ok f s s' flow e = ground arith

  pub answer_heartbeat-ok :
      (f : WireFrame) (s s' : Session) (flow : Flow)
      → answer_heartbeat p next_reading f s ≡ (s', ok flow)
      → (f.nonce ≡ s.rx_cipher.nonce)
        × (s'.rx_cipher.nonce ≡ add_u64 s.rx_cipher.nonce 1)
        × (s'.tx_cipher.nonce ≡ s.tx_cipher.nonce + 1)
  unfolding answer_heartbeat encrypt decrypt
  answer_heartbeat-ok f s s' flow e = ground arith

  abbrev Extends : Session → List ℕ → Session → Type 0
  Extends s nonces s' =
      ((later : List ℕ)
        → IsFrom s'.rx_cipher.nonce later
        → IsFrom s.rx_cipher.nonce (nonces ++ later))
      × (s'.tx_cipher.nonce ≡ s.tx_cipher.nonce + length nonces)

  one-Extends :
      (s s' : Session) (n : ℕ)
      → (n ≡ s.rx_cipher.nonce)
        × (s'.rx_cipher.nonce ≡ add_u64 s.rx_cipher.nonce 1)
        × (s'.tx_cipher.nonce ≡ s.tx_cipher.nonce + 1)
      → Extends s (n ∷ []) s'
  one-Extends s s' n (same, rx, tx) = ((λ later h. (same, rw rx at h)), omega (arith, tx))

  passed-Extends :
      (s s' : Session) (flow flow' : Flow)
      → ◌≡◌ {A = Session × Result Flow} (s, ok flow) (s', ok flow')
      → Extends s [] s'
  passed-Extends s s' flow flow' e =
      let same : s ≡ s' = ap (λ (r : Session × Result Flow). r.0) e in
      (
        (λ later h. subst (λ (t : Session). IsFrom t.rx_cipher.nonce later) (sym same) h),
        omega (arith, ap (λ (t : Session). t.tx_cipher.nonce) same),
      )

  dispatch-Extends :
      (kind : MessageType) (f : WireFrame) (s s' : Session) (flow : Flow)
      → dispatch p next_reading kind f s ≡ (s', ok flow)
      → Extends s (answered kind f.nonce) s'
  dispatch-Extends data_payload f s s' flow e =
      one-Extends s s' f.nonce (answer_data-ok f s s' flow e)
  dispatch-Extends heartbeat f s s' flow e =
      one-Extends s s' f.nonce (answer_heartbeat-ok f s s' flow e)
  dispatch-Extends close f s s' flow e = passed-Extends s s' _ flow e
  dispatch-Extends handshake_init f s s' flow e = passed-Extends s s' _ flow e
  dispatch-Extends handshake_resp f s s' flow e = passed-Extends s s' _ flow e

  serve_frame-Extends :
      (s s' : Session) (t : Stream) (f : WireFrame) (flow : Flow)
      → read_from s.stream ≡ (t, ok f)
      → serve_frame p next_reading s ≡ (s', ok flow)
      → Extends s (answered f.msg_type f.nonce) s'
  unfolding serve_frame
  serve_frame-Extends s s' t f flow r e = dispatch-Extends f.msg_type f _ s' flow (rw r at e)

  -- Whatever the client sends, the nonces of the data and heartbeat frames that a session answers
  -- are the receiving counter and its successors, none skipped and none twice in a row of 2^64, and
  -- each answer used up one nonce of the sending counter, which does not wrap.
  pub Serves-Advances :
      {s s' : Session} {nonces : List ℕ} → Serves s nonces s' → Advances s nonces s'
  Serves-Advances {s} here = record { in_order = tt; tx_moves = omega arith }
  Serves-Advances (round {s} {s1} {s2} {t} {frame} {nonces} r e more) =
      let (grows, moves) = serve_frame-Extends s s1 t frame again r e in
      let later = Serves-Advances more in
      record {
        in_order = grows nonces later.in_order;
        tx_moves = omega (
          arith,
          moves,
          later.tx_moves,
          length-append (answered frame.msg_type frame.nonce) nonces,
        );
      }

  answer_data-ne :
      (f : WireFrame) (s : Session)
      → f.nonce ≢ s.rx_cipher.nonce
      → let r = answer_data p next_reading f s in
        (is_err r.1 ≡ true)
        × (r.0.stream ≡ s.stream)
        × (r.0.rx_cipher ≡ s.rx_cipher)
        × (r.0.tx_cipher ≡ s.tx_cipher)
  unfolding answer_data decrypt
  answer_data-ne f s h = ground arith

  answer_heartbeat-ne :
      (f : WireFrame) (s : Session)
      → f.nonce ≢ s.rx_cipher.nonce
      → let r = answer_heartbeat p next_reading f s in
        (is_err r.1 ≡ true)
        × (r.0.stream ≡ s.stream)
        × (r.0.rx_cipher ≡ s.rx_cipher)
        × (r.0.tx_cipher ≡ s.tx_cipher)
  unfolding answer_heartbeat decrypt
  answer_heartbeat-ne f s h = ground arith

  -- What a session that has failed leaves behind: an error, nothing written, both ciphers as before.
  abbrev pub IsCutOff : Session → Session × Result Flow → Type 0
  IsCutOff s r =
      (is_err r.1 ≡ true)
      × (r.0.stream.outgoing ≡ s.stream.outgoing)
      × (r.0.rx_cipher ≡ s.rx_cipher)
      × (r.0.tx_cipher ≡ s.tx_cipher)

  dispatch-IsCutOff :
      (kind : MessageType) (f : WireFrame) (s : Session)
      → (kind ≡ data_payload) ⊎ (kind ≡ heartbeat)
      → f.nonce ≢ s.rx_cipher.nonce
      → IsCutOff s (dispatch p next_reading kind f s)
  dispatch-IsCutOff data_payload f s k h = ground (arith, answer_data-ne f s h)
  dispatch-IsCutOff heartbeat f s k h = ground (arith, answer_heartbeat-ne f s h)
  dispatch-IsCutOff close f s k h = ground arith
  dispatch-IsCutOff handshake_init f s k h = ground arith
  dispatch-IsCutOff handshake_resp f s k h = ground arith

  -- A data or heartbeat frame with any nonce but the receiving counter ends the session with an
  -- error, whatever the replay filter says of it; nothing is written and both ciphers stay as they
  -- were.
  pub serve_frame-IsCutOff :
      (s : Session) (t : Stream) (f : WireFrame)
      → read_from s.stream ≡ (t, ok f)
      → (f.msg_type ≡ data_payload) ⊎ (f.msg_type ≡ heartbeat)
      → f.nonce ≢ s.rx_cipher.nonce
      → IsCutOff s (serve_frame p next_reading s)
  unfolding serve_frame
  serve_frame-IsCutOff s t f r k h =
      let same : t.outgoing ≡ s.stream.outgoing =
        sym (ap (λ (u : Stream × Result WireFrame). u.0.outgoing) r)
        ∙ read_from-outgoing s.stream in
      rw r (
        let (fails, wrote, rx, tx) = dispatch-IsCutOff f.msg_type f _ k h in
        (fails, wrote ∙ same, rx, tx))
