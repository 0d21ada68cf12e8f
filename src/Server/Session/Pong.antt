-- ===== src/Server/Session/Pong.antt =====
-- server.rs: a round of the loop for one heartbeat, whatever comes behind it.
use noise_tunnel_rs.Base.{subst, ℕ, ◌+◌, ◌-◌, ◌<◌, ◌≤◌, ◌≡◌, ◌++◌, true, some, length, arith, refl}
use noise_tunnel_rs.Base.Bytes.{Bytes, u64_max, add_u64}
use noise_tunnel_rs.Error.{ok}
use noise_tunnel_rs.Crypto.Primitives.{Primitives, SealsMessages}
use noise_tunnel_rs.Crypto.Cipher.{build_nonce, encrypt, current_nonce}
use noise_tunnel_rs.Crypto.Cipher.Channel.{decrypt_opens}
use noise_tunnel_rs.Protocol.Frame.{serialize, payload_len, heartbeat_frame}
use noise_tunnel_rs.Protocol.Frame
use noise_tunnel_rs.Protocol.Frame.RoundTrip.{length-serialize}
use noise_tunnel_rs.Protocol.MessageType.{heartbeat}
use noise_tunnel_rs.Protocol.Replay.{validate_and_record}
use noise_tunnel_rs.Protocol.Wire.Exact.{read_from-serialize, write_to_lem}
use noise_tunnel_rs.Stats.{record_rx, record_tx}
use noise_tunnel_rs.Server.Session.{
  Session, again, heartbeat_data, pong, serve_frame, answer_heartbeat,
}
use noise_tunnel_rs.Server.Session.Answers.{
  InStep, validate_and_record-InStep, validate_and_record-accepts,
}
use noise_tunnel_rs.Server.Session.Echo.{fits-is_valid}
use noise_tunnel_rs.Server.Session.Feed.{feed}

-- A session that can answer a heartbeat sealed as `ct` under the receiving counter.
pub record AwaitsPing (p : Primitives) (s : Session) (pt ct : Bytes) : Type 0 where
  pub in_step : InStep s.replay_filter s.rx_cipher.nonce
  pub unwrapped : s.replay_filter.initialized ≡ true → 0 < s.rx_cipher.nonce
  pub sealed :
      p.aead_encrypt s.rx_cipher.key (build_nonce s.rx_cipher.nonce) heartbeat_data pt ≡ some ct
  pub small : length ct ≤ 65527
  pub rx_left : s.rx_cipher.nonce < u64_max
  pub has_nonce : s.tx_cipher.nonce < u64_max
  pub has_room : 33 ≤ s.stream.room

module _ (p : Primitives) (next_reading : ℕ → ℕ) (sealing : SealsMessages p) where
  -- The session after it, when the answer was sealed as `rct`.
  abbrev pub ponged : Session → Bytes → Bytes → Session
  ponged s ct rct =
      let reply = Frame.new heartbeat s.tx_cipher.nonce rct in
      record s {
        stream = record s.stream {
          outgoing = s.stream.outgoing ++ serialize reply;
          room = s.stream.room - length (serialize reply);
        };
        rx_cipher = record s.rx_cipher { nonce = s.rx_cipher.nonce + 1 };
        tx_cipher = record s.tx_cipher { nonce = s.tx_cipher.nonce + 1 };
        replay_filter = (validate_and_record s.rx_cipher.nonce s.replay_filter).0;
        session_metrics =
            record_tx (next_reading (next_reading s.clock)) (length rct + 13)
              (record_rx (next_reading s.clock) (length ct + 13) s.session_metrics);
        clock = next_reading (next_reading s.clock);
      }

  pub serve_frame-ponged :
      (s : Session) (pt ct rct rest : Bytes)
      → AwaitsPing p s pt ct
      → encrypt p pong heartbeat_data s.tx_cipher
        ≡ (record s.tx_cipher { nonce = s.tx_cipher.nonce + 1 }, ok rct)
      → length rct ≡ length pong + 16
      → serve_frame p next_reading
          (feed (serialize (Frame.new heartbeat s.rx_cipher.nonce ct) ++ rest) s)
        ≡ (feed rest (ponged s ct rct), ok again)
  unfolding serve_frame answer_heartbeat heartbeat_frame Frame.new payload_len current_nonce
  serve_frame-ponged s pt ct rct rest a sealed size =
      let f = Frame.new heartbeat s.rx_cipher.nonce ct in
      let start = feed (serialize f ++ rest) s in
      let reply = Frame.new heartbeat s.tx_cipher.nonce rct in
      let read =
        read_from-serialize f start.stream rest a.in_step.counter_fits
          (fits-is_valid (length ct) a.small) refl in
      let accepts =
        validate_and_record-accepts s.replay_filter s.rx_cipher.nonce a.in_step a.unwrapped in
      let opened = decrypt_opens p s.rx_cipher pt heartbeat_data ct sealing a.rx_left a.sealed in
      let wrote =
        write_to_lem reply (feed rest s).stream
          (omega (arith, a.has_room, size, length-serialize reply)) in
      rw (read, accepts, opened, sealed, wrote) refl

  pub ponged-InStep :
      (s : Session) (pt ct rct : Bytes)
      → AwaitsPing p s pt ct
      → InStep (ponged s ct rct).replay_filter (ponged s ct rct).rx_cipher.nonce
  ponged-InStep s pt ct rct a =
      let accepts =
        validate_and_record-accepts s.replay_filter s.rx_cipher.nonce a.in_step a.unwrapped in
      let no_wrap : add_u64 s.rx_cipher.nonce 1 ≡ s.rx_cipher.nonce + 1 =
        omega (arith, a.rx_left) in
      subst (InStep (validate_and_record s.rx_cipher.nonce s.replay_filter).0) no_wrap
        (validate_and_record-InStep s.replay_filter s.rx_cipher.nonce a.in_step (rw accepts refl))
