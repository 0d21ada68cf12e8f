-- ===== src/Server/Session/Tracked.antt =====
-- server.rs: the replay filter and the counters of a session, from its start on.
use noise_tunnel_rs.Base.{
  ℕ, suc, ◌+◌, ◌<◌, ◌^◌, ◌≡◌, ◌++◌, List, length, length-append, arith, ap, subst,
}
use noise_tunnel_rs.Base.Bytes.{add_u64}
use noise_tunnel_rs.Error.{Result, ok}
use noise_tunnel_rs.Crypto.Primitives.{Primitives}
use noise_tunnel_rs.Protocol.Frame.{WireFrame}
use noise_tunnel_rs.Protocol.MessageType.{
  MessageType, handshake_init, handshake_resp, data_payload, heartbeat, close,
}
use noise_tunnel_rs.Protocol.Replay.InOrder.{
  HasSeenBelow, new-HasSeenBelow, validate_and_record-HasSeenBelow,
}
use noise_tunnel_rs.Protocol.Stream.{Stream}
use noise_tunnel_rs.Protocol.Wire.{read_from}
use noise_tunnel_rs.Server.Handshake.{Answer}
use noise_tunnel_rs.Server.Session.{Session, Flow, again, session_start, dispatch, serve_frame}
use noise_tunnel_rs.Server.Session.Order.{
  Serves, here, round, answered, answer_data-ok, answer_heartbeat-ok,
}
use noise_tunnel_rs.Server.Session.Reached.{
  Recorded, answer_data-Recorded, answer_heartbeat-Recorded,
}

-- After `n` answers: the receiving counter is `n`, and the filter has seen the numbers below it, in
-- order, and no other.
pub record Tracked (n : ℕ) (s : Session) : Type 0 where
  pub filter : HasSeenBelow n s.replay_filter
  pub counter : s.rx_cipher.nonce ≡ n

module _ (p : Primitives) (next_reading : ℕ → ℕ) where
  Recorded-Tracked :
      (n m : ℕ) (s s' : Session)
      → Tracked n s
      → suc n < 2 ^ 64
      → m ≡ s.rx_cipher.nonce
      → s'.rx_cipher.nonce ≡ add_u64 s.rx_cipher.nonce 1
      → Recorded p next_reading m s s'
      → Tracked (n + 1) s'
  Recorded-Tracked n m s s' w few same moved (_, kept) =
      let count : suc n ≡ n + 1 = omega arith in
      let seen = validate_and_record-HasSeenBelow n s.replay_filter w.filter few in
      subst (λ (k : ℕ). Tracked k s') count
        (record {
          filter = rw (kept, same, w.counter) seen;
          counter = omega (arith, moved, w.counter, few);
        })

  passed-Tracked :
      (n : ℕ) (s s' : Session) (flow flow' : Flow)
      → ◌≡◌ {A = Session × Result Flow} (s, ok flow) (s', ok flow')
      → Tracked n s
      → Tracked (n + 0) s'
  passed-Tracked n s s' flow flow' e w =
      let same : n ≡ n + 0 = omega arith in
      rw (← same) (subst (Tracked n) (ap (λ (r : Session × Result Flow). r.0) e) w)

  dispatch-Tracked :
      (kind : MessageType) (f : WireFrame) (n : ℕ) (s s' : Session) (flow : Flow)
      → dispatch p next_reading kind f s ≡ (s', ok flow)
      → n + length (answered kind f.nonce) < 2 ^ 64
      → Tracked n s
      → Tracked (n + length (answered kind f.nonce)) s'
  dispatch-Tracked data_payload f n s s' flow e few w =
      let (same, moved, _) = answer_data-ok p next_reading f s s' flow e in
      Recorded-Tracked n f.nonce s s' w (omega (arith, few)) same moved
        (answer_data-Recorded p next_reading f s s' flow e)
  dispatch-Tracked heartbeat f n s s' flow e few w =
      let (same, moved, _) = answer_heartbeat-ok p next_reading f s s' flow e in
      Recorded-Tracked n f.nonce s s' w (omega (arith, few)) same moved
        (answer_heartbeat-Recorded p next_reading f s s' flow e)
  dispatch-Tracked close f n s s' flow e few w = passed-Tracked n s s' _ flow e w
  dispatch-Tracked handshake_init f n s s' flow e few w = passed-Tracked n s s' _ flow e w
  dispatch-Tracked handshake_resp f n s s' flow e few w = passed-Tracked n s s' _ flow e w

  serve_frame-Tracked :
      (n : ℕ) (s s' : Session) (t : Stream) (f : WireFrame) (flow : Flow)
      → read_from s.stream ≡ (t, ok f)
      → serve_frame p next_reading s ≡ (s', ok flow)
      → n + length (answered f.msg_type f.nonce) < 2 ^ 64
      → Tracked n s
      → Tracked (n + length (answered f.msg_type f.nonce)) s'
  unfolding serve_frame
  serve_frame-Tracked n s s' t f flow r e few w =
      dispatch-Tracked f.msg_type f n _ s' flow (rw r at e) few
        (record { filter = w.filter; counter = w.counter })

  rounds-Tracked :
      {s s' : Session} {nonces : List ℕ} (n : ℕ)
      → Serves p next_reading s nonces s'
      → n + length nonces < 2 ^ 64
      → Tracked n s
      → Tracked (n + length nonces) s'
  rounds-Tracked {s} n here few w = let same : n ≡ n + 0 = omega arith in rw (← same) w
  rounds-Tracked (n) (round {s} {s1} {s2} {t} {frame} {nonces} r e more) few w =
      let now = answered frame.msg_type frame.nonce in
      let all = length-append now nonces in
      let total : n + length now + length nonces ≡ n + length (now ++ nonces) =
        omega (arith, all) in
      subst (λ (k : ℕ). Tracked k s2) total
        (rounds-Tracked (n + length now) more (omega (arith, few, total))
          (serve_frame-Tracked n s s1 t frame again r e (omega (arith, few, total)) w))

  -- Whatever the client sends, over any rounds of the loop from a start with the receiving cipher at
  -- nonce 0, in which fewer than 2^64 frames are answered: the receiving counter is the number of
  -- frames answered, and the filter, with its window of 128, has counted them all as seen and accepted
  -- and none as rejected, is initialized once one was answered, its last number is the one before the
  -- counter, or 0 at the start, and its bitmap has a mark for each of the last 128 numbers answered,
  -- or for all if they are fewer, and no other mark.
  pub Serves-Tracked :
      {s : Session} {nonces : List ℕ} (answer : Answer) (stream : Stream) (now : ℕ)
      → answer.rx_cipher.nonce ≡ 0
      → Serves p next_reading (session_start answer stream now) nonces s
      → length nonces < 2 ^ 64
      → Tracked (length nonces) s
  unfolding session_start
  Serves-Tracked {s} {nonces} answer stream now fresh served few =
      let same : 0 + length nonces ≡ length nonces = omega arith in
      let start : Tracked 0 (session_start answer stream now) = record {
        filter = new-HasSeenBelow;
        counter = fresh;
      } in
      subst (λ (n : ℕ). Tracked n s) same (rounds-Tracked 0 served (omega (arith, few)) start)
