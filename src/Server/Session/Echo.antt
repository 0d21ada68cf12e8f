-- ===== src/Server/Session/Echo.antt =====
-- server.rs: one message that the client sealed, through one round of the loop.
use noise_tunnel_rs.Base.{ℕ, ◌+◌, ◌-◌, ◌<◌, ◌≤◌, ◌≡◌, ◌++◌, true, some, length, arith, refl}
use noise_tunnel_rs.Base.Bytes.{Bytes, u64_max, add_u64}
use noise_tunnel_rs.Error.{ok}
use noise_tunnel_rs.Crypto.Primitives.{Primitives, SealsMessages}
use noise_tunnel_rs.Crypto.Cipher.{build_nonce}
use noise_tunnel_rs.Crypto.Cipher.Nonces.{encrypt_succeeds}
use noise_tunnel_rs.Protocol.Frame.{serialize, is_valid_payload_size, max_payload_size}
use noise_tunnel_rs.Protocol.Frame
use noise_tunnel_rs.Protocol.MessageType.{data_payload}
use noise_tunnel_rs.Protocol.Stream.{Stream}
use noise_tunnel_rs.Protocol.Wire.Exact.{read_from-serialize}
use noise_tunnel_rs.Server.Session.{Session, again, tunnel_data, reply_to, serve_frame}
use noise_tunnel_rs.Server.Session.Answers.{
  InStep, CanAnswer, after, serve_frame-after, validate_and_record-InStep,
  validate_and_record-accepts,
}

pub fits-is_valid : (n : ℕ) → n ≤ 65527 → is_valid_payload_size n ≡ true
unfolding is_valid_payload_size max_payload_size
fits-is_valid n h = ground arith

-- A session that is ready for the message `pt`, sealed as `ct`, with `rest` behind its frame.
pub record Ready (p : Primitives) (s : Session) (pt ct rest : Bytes) : Type 0 where
  pub in_step : InStep s.replay_filter s.rx_cipher.nonce
  pub unwrapped : s.replay_filter.initialized ≡ true → 0 < s.rx_cipher.nonce
  pub arrives : s.stream.incoming ≡ serialize (Frame.new data_payload s.rx_cipher.nonce ct) ++ rest
  pub sealed :
      p.aead_encrypt s.rx_cipher.key (build_nonce s.rx_cipher.nonce) tunnel_data pt ≡ some ct
  pub size : length ct ≡ length pt + 16
  pub small : length pt ≤ 65511
  pub reply_small : length (reply_to pt) ≤ 65511
  pub has_nonce : s.tx_cipher.nonce < u64_max
  pub has_room : 29 + length (reply_to pt) ≤ s.stream.room

-- The session `s'` has answered `pt` with `rct`, and `rest` is still to come.
pub record Echoed (p : Primitives) (s s' : Session) (pt rct rest : Bytes) : Type 0 where
  pub sealed :
      p.aead_encrypt s.tx_cipher.key (build_nonce s.tx_cipher.nonce) tunnel_data (reply_to pt)
      ≡ some rct
  pub size : length rct ≡ length (reply_to pt) + 16
  pub incoming : s'.stream.incoming ≡ rest
  pub outgoing :
      s'.stream.outgoing
      ≡ s.stream.outgoing ++ serialize (Frame.new data_payload s.tx_cipher.nonce rct)
  pub room :
      s'.stream.room
      ≡ s.stream.room - length (serialize (Frame.new data_payload s.tx_cipher.nonce rct))
  pub rx : s'.rx_cipher ≡ record s.rx_cipher { nonce = add_u64 s.rx_cipher.nonce 1 }
  pub tx : s'.tx_cipher ≡ record s.tx_cipher { nonce = s.tx_cipher.nonce + 1 }
  pub in_step : InStep s'.replay_filter s'.rx_cipher.nonce

module _ (p : Primitives) (next_reading : ℕ → ℕ) (sealing : SealsMessages p) where
  pub serve_frame-Echoed :
      (s : Session) (pt ct rest : Bytes)
      → Ready p s pt ct rest
      → (rct : Bytes) × (s' : Session) × (serve_frame p next_reading s ≡ (s', ok again))
        × Echoed p s s' pt rct rest
  unfolding Frame.new
  serve_frame-Echoed s pt ct rest r =
      let f = Frame.new data_payload s.rx_cipher.nonce ct in
      let t : Stream = record s.stream { incoming = rest } in
      let (rct, e, sealed, size) =
        encrypt_succeeds p s.tx_cipher (reply_to pt) tunnel_data sealing
          (omega (arith, r.reply_small)) r.has_nonce in
      let can : CanAnswer p next_reading sealing s t f pt = record {
        in_step = r.in_step;
        unwrapped = r.unwrapped;
        arrives =
            read_from-serialize f s.stream rest r.in_step.counter_fits
              (fits-is_valid (length ct) (omega (arith, r.size, r.small))) r.arrives;
        is_data = refl;
        is_next = refl;
        opens =
            sealing.opens s.rx_cipher.key (build_nonce s.rx_cipher.nonce) tunnel_data pt ct
              r.sealed;
        reply_small = omega (arith, r.reply_small);
        has_nonce = r.has_nonce;
        has_room = r.has_room;
      } in
      (
        rct,
        after p next_reading sealing s t f rct,
        serve_frame-after p next_reading sealing s t f pt rct can e size,
        record {
          sealed = sealed;
          size = size;
          incoming = refl;
          outgoing = refl;
          room = refl;
          rx = refl;
          tx = refl;
          in_step = validate_and_record-InStep s.replay_filter s.rx_cipher.nonce r.in_step (
              rw
                (validate_and_record-accepts s.replay_filter s.rx_cipher.nonce r.in_step
                  r.unwrapped)
                refl);
        },
      )
