-- ===== src/Server/Session/Metrics.antt =====
-- server.rs, stats.rs: what the session's metrics say of the bytes on its connection.
use noise_tunnel_rs.Base.{
  refl, ℕ, ◌+◌, ◌%◌, ◌^◌, ◌≡◌, List, length, take, drop, length-drop, length-take, length-append,
  arith, ap, sym, ◌∙◌, suc,
}
use noise_tunnel_rs.Base.Bytes.{from_be_bytes}
use noise_tunnel_rs.Error.{Result, ok}
use noise_tunnel_rs.Crypto.Primitives.{Primitives}
use noise_tunnel_rs.Protocol.Frame.{WireFrame, serialize, decode_body, payload_len}
use noise_tunnel_rs.Protocol.Frame.RoundTrip.{length-serialize}
use noise_tunnel_rs.Protocol.Stream.{Stream, read_exact, write_all, flush}
use noise_tunnel_rs.Protocol.Wire.{read_from, write_to}
use noise_tunnel_rs.Stats.{record_rx, record_tx}
use noise_tunnel_rs.Server.Session.{
  Session, Flow, again, answer_data, answer_heartbeat, dispatch, serve_frame,
}
use noise_tunnel_rs.Protocol.MessageType.{
  MessageType, handshake_init, handshake_resp, data_payload, heartbeat, close,
}
use noise_tunnel_rs.Server.Session.Order.{answered, Serves, here, round, read_from-outgoing}

pub read_from-length :
    (t u : Stream) (f : WireFrame)
    → read_from t ≡ (u, ok f)
    → length t.incoming ≡ length u.incoming + (length f.payload + 13)
unfolding read_from read_exact decode_body
read_from-length t u f e = ground (
  arith,
  length-drop 4 t.incoming,
  length-take (from_be_bytes (take 4 t.incoming)) (drop 4 t.incoming),
  length-drop (from_be_bytes (take 4 t.incoming)) (drop 4 t.incoming),
  length-drop 9 (take (from_be_bytes (take 4 t.incoming)) (drop 4 t.incoming)),
)

pub write_to-length :
    (t u : Stream) (f : WireFrame)
    → write_to f t ≡ (u, ok tt)
    → length u.outgoing ≡ length t.outgoing + (length f.payload + 13)
unfolding write_to write_all flush
write_to-length t u f e = ground (arith, length-append t.outgoing (serialize f), length-serialize f)

module _ (p : Primitives) (next_reading : ℕ → ℕ) where
  -- From `s` to `s'` with `rounds` frames read and `replies` frames written, each counter has grown
  -- by what went over the connection.
  pub record Metered (s s' : Session) (rounds replies : ℕ) : Type 0 where
    pub received :
        (s'.session_metrics.bytes_received + length s'.stream.incoming) % 2 ^ 64
        ≡ (s.session_metrics.bytes_received + length s.stream.incoming) % 2 ^ 64
    pub sent :
        (s'.session_metrics.bytes_sent + length s.stream.outgoing) % 2 ^ 64
        ≡ (s.session_metrics.bytes_sent + length s'.stream.outgoing) % 2 ^ 64
    pub frames_in :
        s'.session_metrics.frames_received % 2 ^ 64
        ≡ (s.session_metrics.frames_received + rounds) % 2 ^ 64
    pub frames_out :
        s'.session_metrics.frames_sent % 2 ^ 64 ≡ (s.session_metrics.frames_sent + replies) % 2 ^ 64

  -- What an answer leaves alone, and what it adds.
  abbrev Sends : Session → Session → ℕ → Type 0
  Sends s s' replies =
      ((s'.session_metrics.bytes_sent + length s.stream.outgoing) % 2 ^ 64
        ≡ (s.session_metrics.bytes_sent + length s'.stream.outgoing) % 2 ^ 64)
      × (s'.session_metrics.frames_sent % 2 ^ 64
          ≡ (s.session_metrics.frames_sent + replies) % 2 ^ 64)
      × (s'.session_metrics.bytes_received ≡ s.session_metrics.bytes_received)
      × (s'.session_metrics.frames_received ≡ s.session_metrics.frames_received)
      × (s'.stream.incoming ≡ s.stream.incoming)

  answer_data-Sends :
      (f : WireFrame) (s s' : Session) (flow : Flow)
      → answer_data p next_reading f s ≡ (s', ok flow)
      → Sends s s' 1
  unfolding answer_data write_to write_all flush record_tx payload_len
  answer_data-Sends f s s' flow e = grind (arith, length-append, length-serialize)

  answer_heartbeat-Sends :
      (f : WireFrame) (s s' : Session) (flow : Flow)
      → answer_heartbeat p next_reading f s ≡ (s', ok flow)
      → Sends s s' 1
  unfolding answer_heartbeat write_to write_all flush record_tx payload_len
  answer_heartbeat-Sends f s s' flow e = grind (arith, length-append, length-serialize)

  dispatch-Sends :
      (kind : MessageType) (f : WireFrame) (s s' : Session) (flow : Flow)
      → dispatch p next_reading kind f s ≡ (s', ok flow)
      → Sends s s' (length (answered kind f.nonce))
  dispatch-Sends data_payload f s s' flow e = answer_data-Sends f s s' flow e
  dispatch-Sends heartbeat f s s' flow e = answer_heartbeat-Sends f s s' flow e
  dispatch-Sends close f s s' flow e = ground arith
  dispatch-Sends handshake_init f s s' flow e = ground arith
  dispatch-Sends handshake_resp f s s' flow e = ground arith

  serve_frame-Metered :
      (s s' : Session) (t : Stream) (f : WireFrame) (flow : Flow)
      → read_from s.stream ≡ (t, ok f)
      → serve_frame p next_reading s ≡ (s', ok flow)
      → Metered s s' 1 (length (answered f.msg_type f.nonce))
  unfolding serve_frame record_rx payload_len
  serve_frame-Metered s s' t f flow r e =
      let (sent, out, same_in, same_frames, left) =
        dispatch-Sends f.msg_type f _ s' flow (rw r at e) in
      let size = read_from-length s.stream t f r in
      let wrote = read_from-outgoing s.stream in
      let kept : t.outgoing ≡ s.stream.outgoing =
        sym (ap (λ (u : Stream × Result WireFrame). u.0.outgoing) r) ∙ wrote in
      record {
        received = omega (arith, same_in, ap length left, size);
        sent = omega (arith, sent, ap length kept);
        frames_in = omega (arith, same_frames);
        frames_out = out;
      }

  -- The number of frames read on the way.
  abbrev pub rounds : {s s' : Session} {nonces : List ℕ} → Serves p next_reading s nonces s' → ℕ
  rounds here = 0
  rounds (round r e more) = suc (rounds more)

  -- Over any rounds of the loop, whatever the client sends: `bytes_received` has grown by the bytes
  -- taken off the connection, `bytes_sent` by the bytes written to it, `frames_received` by the
  -- rounds and `frames_sent` by the frames answered, all modulo 2^64.
  pub Serves-Metered :
      {s s' : Session} {nonces : List ℕ} (served : Serves p next_reading s nonces s')
      → Metered s s' (rounds served) (length nonces)
  Serves-Metered here = record {
    received = refl;
    sent = refl;
    frames_in = omega arith;
    frames_out = omega arith;
  }
  Serves-Metered (round {s} {s1} {s2} {t} {frame} {nonces} r e more) =
      let now = serve_frame-Metered s s1 t frame again r e in
      let later = Serves-Metered more in
      let count = length-append (answered frame.msg_type frame.nonce) nonces in
      record {
        received = omega (arith, now.received, later.received);
        sent = omega (arith, now.sent, later.sent);
        frames_in = omega (arith, now.frames_in, later.frames_in);
        frames_out = omega (arith, now.frames_out, later.frames_out, count);
      }
