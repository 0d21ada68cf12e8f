-- ===== src/Server/Session/Answers.antt =====
-- server.rs: the replay filter and the receiving counter of a session, and the echo.
use noise_tunnel_rs.Server.Session.Order.{read_from-outgoing}
use noise_tunnel_rs.Stats.{record_rx, record_tx}
use noise_tunnel_rs.Base.{
  ◌-◌, ℕ, ◌+◌, ◌<◌, ◌≤◌, ◌^◌, ◌≡◌, ◌++◌, true, some, length, arith, refl, ap, sym, ◌∙◌,
}
use noise_tunnel_rs.Base.Bytes.{Bytes, u64_max, add_u64}
use noise_tunnel_rs.Error.{Result, ok, is_ok}
use noise_tunnel_rs.Crypto.Primitives.{Primitives, SealsMessages}
use noise_tunnel_rs.Crypto.Cipher.{current_nonce, build_nonce, encrypt, decrypt}
use noise_tunnel_rs.Crypto.Cipher.Nonces.{max_message, encrypt_succeeds}
use noise_tunnel_rs.Protocol.Frame.{WireFrame, serialize, payload_len}
use noise_tunnel_rs.Protocol.Frame
use noise_tunnel_rs.Protocol.Frame.RoundTrip.{length-serialize}
use noise_tunnel_rs.Protocol.MessageType.{data_payload}
use noise_tunnel_rs.Protocol.Replay.{ReplayFilter, validate_and_record}
use noise_tunnel_rs.Protocol.Stream.{Stream}
use noise_tunnel_rs.Protocol.Wire.{read_from}
use noise_tunnel_rs.Protocol.Wire.Exact.{write_to_lem}
use noise_tunnel_rs.Server.Session.{Session, again, tunnel_data, reply_to, answer_data, serve_frame}

-- The filter has last accepted the number before the counter `n`.
pub record InStep (f : ReplayFilter) (n : ℕ) : Type 0 where
  pub window_pos : 1 ≤ f.window_size
  pub window_le : f.window_size ≤ 128
  pub counter_fits : n < 2 ^ 64
  pub last_fits : f.last_seq < 2 ^ 64
  pub follows : f.initialized ≡ true → n ≡ add_u64 f.last_seq 1

-- Once it accepts the counter, it is in step with the next.
pub validate_and_record-InStep :
    (f : ReplayFilter) (n : ℕ)
    → InStep f n
    → is_ok (validate_and_record n f).1 ≡ true
    → InStep (validate_and_record n f).0 (add_u64 n 1)
unfolding validate_and_record
validate_and_record-InStep f n r accepted = record {
  window_pos = ground (arith, r.window_pos);
  window_le = ground (arith, r.window_le);
  counter_fits = omega arith;
  last_fits = ground (arith, r.last_fits, r.counter_fits);
  follows = λ ready. ground (arith, r.follows, r.last_fits, r.window_le);
}

-- A filter in step accepts the counter, if the counter has not wrapped.
pub validate_and_record-accepts :
    (f : ReplayFilter) (n : ℕ)
    → InStep f n
    → (f.initialized ≡ true → 0 < n)
    → (validate_and_record n f).1 ≡ ok tt
unfolding validate_and_record
validate_and_record-accepts f n r unwrapped = ground (arith, r.follows, r.last_fits)

module _ (p : Primitives) (next_reading : ℕ → ℕ) (sealing : SealsMessages p) where
  -- What the server needs to answer the plaintext `pt` of a data frame.
  pub record CanAnswer (s : Session) (t : Stream) (f : WireFrame) (pt : Bytes) : Type 0 where
    pub in_step : InStep s.replay_filter s.rx_cipher.nonce
    pub unwrapped : s.replay_filter.initialized ≡ true → 0 < s.rx_cipher.nonce
    pub arrives : read_from s.stream ≡ (t, ok f)
    pub is_data : f.msg_type ≡ data_payload
    pub is_next : f.nonce ≡ s.rx_cipher.nonce
    pub opens :
        p.aead_decrypt s.rx_cipher.key (build_nonce s.rx_cipher.nonce) tunnel_data f.payload
        ≡ some pt
    pub reply_small : length (reply_to pt) ≤ max_message
    pub has_nonce : s.tx_cipher.nonce < u64_max
    pub has_room : 29 + length (reply_to pt) ≤ t.room

  decrypt-CanAnswer :
      (s : Session) (t : Stream) (f : WireFrame) (pt : Bytes)
      → CanAnswer s t f pt
      → decrypt p f.payload tunnel_data f.nonce s.rx_cipher
        ≡ (record s.rx_cipher { nonce = add_u64 s.rx_cipher.nonce 1 }, ok pt)
  unfolding decrypt
  decrypt-CanAnswer s t f pt c = ground (arith, c.is_next, c.opens)

  -- The session after an answer.
  abbrev pub after : Session → Stream → WireFrame → Bytes → Session
  after s t f ct =
      let reply = Frame.new data_payload s.tx_cipher.nonce ct in
      record s {
        stream = record t {
          outgoing = t.outgoing ++ serialize reply;
          room = t.room - length (serialize reply);
        };
        rx_cipher = record s.rx_cipher { nonce = add_u64 s.rx_cipher.nonce 1 };
        tx_cipher = record s.tx_cipher { nonce = s.tx_cipher.nonce + 1 };
        replay_filter = (validate_and_record f.nonce s.replay_filter).0;
        session_metrics =
            record_tx (next_reading (next_reading s.clock)) (length ct + 13)
              (record_rx (next_reading s.clock) (length f.payload + 13) s.session_metrics);
        clock = next_reading (next_reading s.clock);
      }

  pub serve_frame-after :
      (s : Session) (t : Stream) (f : WireFrame) (pt ct : Bytes)
      → CanAnswer s t f pt
      → encrypt p (reply_to pt) tunnel_data s.tx_cipher
        ≡ (record s.tx_cipher { nonce = s.tx_cipher.nonce + 1 }, ok ct)
      → length ct ≡ length (reply_to pt) + 16
      → serve_frame p next_reading s ≡ (after s t f ct, ok again)
  unfolding serve_frame answer_data Frame.new payload_len current_nonce
  serve_frame-after s t f pt ct c sealed size =
      let reply = Frame.new data_payload s.tx_cipher.nonce ct in
      let accepts : (validate_and_record f.nonce s.replay_filter).1 ≡ ok tt =
        rw c.is_next
          (validate_and_record-accepts s.replay_filter s.rx_cipher.nonce c.in_step c.unwrapped) in
      let wrote = write_to_lem reply t (omega (arith, c.has_room, size, length-serialize reply)) in
      ground (arith, c.arrives, c.is_data, accepts, decrypt-CanAnswer s t f pt c, sealed, wrote)

  -- If the AEAD keeps its promise, the filter is in step and has not wrapped, and a data frame with
  -- the receiving counter arrives that opens to `pt`, then a session with a nonce and room left
  -- answers it: exactly one frame is written, the sealed echo of `pt` under the sending counter,
  -- and the filter is in step with the next counter.
  pub serve_frame-answers :
      (s : Session) (t : Stream) (f : WireFrame) (pt : Bytes)
      → CanAnswer s t f pt
      → (ct : Bytes) × (s' : Session) × (p.aead_encrypt s.tx_cipher.key
            (build_nonce s.tx_cipher.nonce)
            tunnel_data
            (reply_to pt)
          ≡ some ct)
        × (serve_frame p next_reading s ≡ (s', ok again))
        × (s'.stream.outgoing
            ≡ s.stream.outgoing ++ serialize (Frame.new data_payload s.tx_cipher.nonce ct))
        × InStep s'.replay_filter s'.rx_cipher.nonce
  serve_frame-answers s t f pt c =
      let (ct, e, sealed, size) =
        encrypt_succeeds p s.tx_cipher (reply_to pt) tunnel_data sealing c.reply_small
          c.has_nonce in
      let same : t.outgoing ≡ s.stream.outgoing =
        sym (ap (λ (u : Stream × Result WireFrame). u.0.outgoing) c.arrives)
        ∙ read_from-outgoing s.stream in
      let accepts =
        validate_and_record-accepts s.replay_filter s.rx_cipher.nonce c.in_step c.unwrapped in
      (
        ct,
        after s t f ct,
        sealed,
        serve_frame-after s t f pt ct c e size,
        ap (λ (out : Bytes). out ++ serialize (Frame.new data_payload s.tx_cipher.nonce ct)) same,
        rw c.is_next (
            validate_and_record-InStep s.replay_filter s.rx_cipher.nonce c.in_step
              (rw accepts refl)),
      )
