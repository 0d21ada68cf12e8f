-- ===== src/Server/Session/Reached.antt =====
-- server.rs: the replay filter in every session that the loop can reach.
use noise_tunnel_rs.Base.{ℕ, ◌<◌, ◌≡◌, true, List, arith, ap, subst}
use noise_tunnel_rs.Base.Bytes.{add_u64}
use noise_tunnel_rs.Error.{Result, ok, is_ok}
use noise_tunnel_rs.Crypto.Primitives.{Primitives}
use noise_tunnel_rs.Protocol.Frame.{WireFrame}
use noise_tunnel_rs.Protocol.MessageType.{
  MessageType, handshake_init, handshake_resp, data_payload, heartbeat, close,
}
use noise_tunnel_rs.Protocol.Replay.{validate_and_record}
use noise_tunnel_rs.Protocol.Replay
use noise_tunnel_rs.Protocol.Stream.{Stream}
use noise_tunnel_rs.Protocol.Wire.{read_from}
use noise_tunnel_rs.Server.Handshake.{Answer}
use noise_tunnel_rs.Server.Session.{
  Session, Flow, again, session_start, answer_data, answer_heartbeat, dispatch, serve_frame,
}
use noise_tunnel_rs.Server.Session.Order.{Serves, here, round, answer_data-ok, answer_heartbeat-ok}
use noise_tunnel_rs.Server.Session.Answers.{
  InStep, validate_and_record-InStep, validate_and_record-accepts,
}

abbrev pub IsInStep : Session → Type 0
IsInStep s = InStep s.replay_filter s.rx_cipher.nonce

module _ (p : Primitives) (next_reading : ℕ → ℕ) where
  -- What an answer has done to the filter.
  abbrev pub Recorded : ℕ → Session → Session → Type 0
  Recorded n s s' =
      (is_ok (validate_and_record n s.replay_filter).1 ≡ true)
      × (s'.replay_filter ≡ (validate_and_record n s.replay_filter).0)

  pub answer_data-Recorded :
      (f : WireFrame) (s s' : Session) (flow : Flow)
      → answer_data p next_reading f s ≡ (s', ok flow)
      → Recorded f.nonce s s'
  unfolding answer_data
  answer_data-Recorded f s s' flow e = ground arith

  pub answer_heartbeat-Recorded :
      (f : WireFrame) (s s' : Session) (flow : Flow)
      → answer_heartbeat p next_reading f s ≡ (s', ok flow)
      → Recorded f.nonce s s'
  unfolding answer_heartbeat
  answer_heartbeat-Recorded f s s' flow e = ground arith

  Recorded-InStep :
      (n : ℕ) (s s' : Session)
      → IsInStep s
      → n ≡ s.rx_cipher.nonce
      → s'.rx_cipher.nonce ≡ add_u64 s.rx_cipher.nonce 1
      → Recorded n s s'
      → IsInStep s'
  Recorded-InStep n s s' w same moved (accepted, kept) =
      rw (kept, moved, same)
        (validate_and_record-InStep s.replay_filter s.rx_cipher.nonce w (rw same at accepted))

  dispatch-InStep :
      (kind : MessageType) (f : WireFrame) (s s' : Session) (flow : Flow)
      → dispatch p next_reading kind f s ≡ (s', ok flow)
      → IsInStep s
      → IsInStep s'
  dispatch-InStep data_payload f s s' flow e w =
      let (same, moved, _) = answer_data-ok p next_reading f s s' flow e in
      Recorded-InStep f.nonce s s' w same moved (answer_data-Recorded f s s' flow e)
  dispatch-InStep heartbeat f s s' flow e w =
      let (same, moved, _) = answer_heartbeat-ok p next_reading f s s' flow e in
      Recorded-InStep f.nonce s s' w same moved (answer_heartbeat-Recorded f s s' flow e)
  dispatch-InStep close f s s' flow e w =
      subst IsInStep (ap (λ (r : Session × Result Flow). r.0) e) w
  dispatch-InStep handshake_init f s s' flow e w =
      subst IsInStep (ap (λ (r : Session × Result Flow). r.0) e) w
  dispatch-InStep handshake_resp f s s' flow e w =
      subst IsInStep (ap (λ (r : Session × Result Flow). r.0) e) w

  serve_frame-InStep :
      (s s' : Session) (t : Stream) (f : WireFrame) (flow : Flow)
      → read_from s.stream ≡ (t, ok f)
      → serve_frame p next_reading s ≡ (s', ok flow)
      → IsInStep s
      → IsInStep s'
  unfolding serve_frame
  serve_frame-InStep s s' t f flow r e w = dispatch-InStep f.msg_type f _ s' flow (rw r at e) w

  pub Serves-InStep :
      {s s' : Session} {nonces : List ℕ}
      → Serves p next_reading s nonces s'
      → IsInStep s
      → IsInStep s'
  Serves-InStep here w = w
  Serves-InStep (round {s} {s1} {s2} {t} {frame} r e more) w =
      Serves-InStep more (serve_frame-InStep s s1 t frame again r e w)

  pub session_start-InStep :
      (answer : Answer) (stream : Stream) (now : ℕ)
      → answer.rx_cipher.nonce ≡ 0
      → IsInStep (session_start answer stream now)
  unfolding session_start Replay.new
  session_start-InStep answer stream now fresh = record {
    window_pos = omega arith;
    window_le = omega arith;
    counter_fits = omega (arith, fresh);
    last_fits = omega arith;
    follows = λ e. cc;
  }

  -- In every session that the loop reaches from a start with the receiving cipher at nonce 0,
  -- whatever the client has sent, the replay filter accepts the receiving counter unless that
  -- counter has wrapped to 0 after an answer: no frame in order is ever lost to the filter.
  pub Serves-accepts :
      {s : Session} {nonces : List ℕ} (answer : Answer) (stream : Stream) (now : ℕ)
      → answer.rx_cipher.nonce ≡ 0
      → Serves p next_reading (session_start answer stream now) nonces s
      → (s.replay_filter.initialized ≡ true → 0 < s.rx_cipher.nonce)
      → (validate_and_record s.rx_cipher.nonce s.replay_filter).1 ≡ ok tt
  Serves-accepts {s} answer stream now fresh served unwrapped =
      validate_and_record-accepts s.replay_filter s.rx_cipher.nonce
        (Serves-InStep served (session_start-InStep answer stream now fresh)) unwrapped
