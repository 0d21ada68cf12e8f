-- ===== src/Client/Interactive/Ping.antt =====
-- client.rs: a `/ping` of the interactive session and its answer.
use noise_tunnel_rs.Base.{
  ℕ, ◌+◌, ◌-◌, ◌≤◌, ◌<◌, ◌^◌, ◌≡◌, ◌∷◌, ◌++◌, List, true, false, some, length, refl, codes,
}
use noise_tunnel_rs.Base.Bytes.{Bytes, same_bytes}
use noise_tunnel_rs.Base.Utf8.{from_utf8, from_utf8-lossy}
use noise_tunnel_rs.Error.{ok}
use noise_tunnel_rs.Crypto.Primitives.{Primitives}
use noise_tunnel_rs.Crypto.Cipher.{encrypt, decrypt, current_nonce}
use noise_tunnel_rs.Protocol.Frame.{serialize, payload_len}
use noise_tunnel_rs.Protocol.Frame
use noise_tunnel_rs.Protocol.MessageType.{heartbeat, as_u8}
use noise_tunnel_rs.Protocol.Wire.Exact.{write_to_lem, read_from-serialize}
use noise_tunnel_rs.Stats.{record_rx, record_tx}
use noise_tunnel_rs.Server.Session.Echo.{fits-is_valid}
use noise_tunnel_rs.Client.Interactive.{
  Console, is_quiet, is_quit, ping, heartbeat_label, send_ping, show_reply, converse,
}
use noise_tunnel_rs.Client.Interactive.Line.{tuned}

module _ (p : Primitives) (next_reading : ℕ → ℕ) where
  -- The loop after a ping sent as `ct` and its answer `reply`, received as `rct`.
  abbrev pub pinged : Console → Bytes → Bytes → Bytes → Console
  pinged c ct rct reply =
      let sent = Frame.new heartbeat c.tx_cipher.nonce ct in
      record {
        stream = record c.stream {
          outgoing = c.stream.outgoing ++ serialize sent;
          room = c.stream.room - length (serialize sent);
        };
        tx_cipher = record c.tx_cipher { nonce = c.tx_cipher.nonce + 1 };
        rx_cipher = record c.rx_cipher { nonce = c.rx_cipher.nonce + 1 };
        session_metrics =
            record_rx (next_reading c.clock) (length rct + 13)
              (record_tx c.clock (length ct + 13) c.session_metrics);
        clock = next_reading (next_reading c.clock);
        shown = reply ∷ c.shown;
      }

  pub send_ping_lem :
      (c : Console) (ct rct reply back : Bytes)
      → encrypt p ping heartbeat_label c.tx_cipher
        ≡ (record c.tx_cipher { nonce = c.tx_cipher.nonce + 1 }, ok ct)
      → decrypt p rct heartbeat_label c.rx_cipher.nonce c.rx_cipher
        ≡ (record c.rx_cipher { nonce = c.rx_cipher.nonce + 1 }, ok reply)
      → from_utf8 reply ≡ some reply
      → c.rx_cipher.nonce < 2 ^ 64
      → length rct ≤ 65527
      → length (serialize (Frame.new heartbeat c.tx_cipher.nonce ct)) ≤ c.stream.room
      → send_ping p next_reading
          (tuned (serialize (Frame.new heartbeat c.rx_cipher.nonce rct) ++ back) c)
        ≡ (tuned back (pinged c ct rct reply), ok tt)
  unfolding send_ping show_reply Frame.new payload_len as_u8 current_nonce
  send_ping_lem c ct rct reply back sealed opened text fits small roomy =
      let sent = Frame.new heartbeat c.tx_cipher.nonce ct in
      let answer = Frame.new heartbeat c.rx_cipher.nonce rct in
      let before = tuned (serialize answer ++ back) c in
      let wrote = write_to_lem sent before.stream roomy in
      let after_write = record before.stream {
        outgoing = c.stream.outgoing ++ serialize sent;
        room = c.stream.room - length (serialize sent);
      } in
      let read =
        read_from-serialize answer after_write back fits (fits-is_valid (length rct) small) refl in
      rw (sealed, wrote, read, opened, from_utf8-lossy reply reply text) refl

  pub converse_ping :
      (line : Bytes) (lines : List Bytes) (c c' : Console)
      → is_quiet line ≡ false
      → is_quit line ≡ false
      → same_bytes line (codes "/ping") ≡ true
      → send_ping p next_reading c ≡ (c', ok tt)
      → converse p next_reading (line ∷ lines) c ≡ converse p next_reading lines c'
  unfolding converse
  converse_ping line lines c c' loud stays is_ping e = rw (loud, stays, is_ping, e) refl
