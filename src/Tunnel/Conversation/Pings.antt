-- ===== src/Tunnel/Conversation/Pings.antt =====
-- client.rs and server.rs: a `/ping` of the interactive session at both ends.
use noise_tunnel_rs.Base.{
  ℕ, suc, ◌+◌, ◌≡◌, ◌∷◌, ◌++◌, List, true, false, some, length, arith, refl, sym, ap, subst, codes,
}
use noise_tunnel_rs.Base.Bytes.{Bytes, same_bytes}
use noise_tunnel_rs.Base.Utf8.{from_utf8}
use noise_tunnel_rs.Error.{ok}
use noise_tunnel_rs.Crypto.Primitives.{Primitives, SealsMessages}
use noise_tunnel_rs.Crypto.Cipher.{CipherState, build_nonce}
use noise_tunnel_rs.Crypto.Cipher.Nonces.{encrypt_succeeds}
use noise_tunnel_rs.Crypto.Cipher.Channel.{decrypt_opens}
use noise_tunnel_rs.Protocol.Frame.{serialize}
use noise_tunnel_rs.Protocol.Frame
use noise_tunnel_rs.Protocol.Frame.RoundTrip.{length-serialize}
use noise_tunnel_rs.Protocol.MessageType.{heartbeat}
use noise_tunnel_rs.Client.Interactive.{Console, converse, is_quiet, is_quit, ping, heartbeat_label}
use noise_tunnel_rs.Client.Interactive.Line.{tuned}
use noise_tunnel_rs.Client.Interactive.Ping.{pinged, send_ping_lem, converse_ping}
use noise_tunnel_rs.Server.Session.{Session, again, pong, heartbeat_data, serve_frame}
use noise_tunnel_rs.Server.Session.Feed.{feed}
use noise_tunnel_rs.Server.Session.Pong.{AwaitsPing, ponged, serve_frame-ponged, ponged-InStep}
use noise_tunnel_rs.Tunnel.Conversation.{Matched, Turned}

abbrev pub IsPing : Bytes → Type 0
IsPing line =
    (is_quiet line ≡ false) × (is_quit line ≡ false) × (same_bytes line (codes "/ping") ≡ true)

module _ (p : Primitives) (sealing : SealsMessages p) (client_clock server_clock : ℕ → ℕ)
    (line : Bytes) (c : Console) (s : Session) (count size : ℕ) (is_ping : IsPing line)
    (m : Matched c s (suc count) (5 + size)) where
  ping-AwaitsPing :
      (ct : Bytes)
      → p.aead_encrypt c.tx_cipher.key (build_nonce c.tx_cipher.nonce) heartbeat_data ping ≡ some ct
      → length ct ≡ 20
      → AwaitsPing p s ping ct
  ping-AwaitsPing ct sealed ct_size = record {
    in_step = m.in_step;
    unwrapped = m.unwrapped;
    sealed = rw m.tx at sealed;
    small = omega (arith, ct_size);
    rx_left = omega (arith, m.rx_left);
    has_nonce = omega (arith, m.tx_left);
    has_room = omega (arith, m.server_room);
  }

  ping-Matched :
      (ct rct : Bytes)
      → length ct ≡ 20
      → length rct ≡ 20
      → AwaitsPing p s ping ct
      → Matched
          (pinged p client_clock c ct rct pong)
          (ponged p server_clock sealing s ct rct)
          count
          size
  unfolding Frame.new
  ping-Matched ct rct ct_size rct_size a =
      let next : CipherState → CipherState = λ r. record r { nonce = r.nonce + 1 } in
      let sent_size = length-serialize (Frame.new heartbeat c.tx_cipher.nonce ct) in
      let reply_size = length-serialize (Frame.new heartbeat s.tx_cipher.nonce rct) in
      record {
        tx = ap next m.tx;
        rx = ap next m.rx;
        in_step = ponged-InStep p server_clock sealing s ping ct rct a;
        unwrapped = λ _. omega arith;
        rx_left = omega (arith, m.rx_left);
        tx_left = omega (arith, m.tx_left);
        client_room = omega (arith, sent_size, ct_size, m.client_room);
        server_room = omega (arith, reply_size, rct_size, m.server_room);
      }

  pub ping_turns : Turned p client_clock server_clock line c s count size
  unfolding Frame.new from_utf8
  ping_turns =
      let tx_nonce = ap (λ (r : CipherState). r.nonce) m.tx in
      let rx_nonce = ap (λ (r : CipherState). r.nonce) m.rx in
      let (ct, encrypted, sealed, ct_size) =
        encrypt_succeeds p c.tx_cipher ping heartbeat_data sealing (omega arith)
          (omega (arith, tx_nonce, m.rx_left)) in
      let (rct, replied, reply_sealed, rct_size) =
        encrypt_succeeds p s.tx_cipher pong heartbeat_data sealing (omega arith)
          (omega (arith, m.tx_left)) in
      let a = ping-AwaitsPing ct sealed ct_size in
      let opened =
        decrypt_opens p c.rx_cipher pong heartbeat_label rct sealing
          (omega (arith, rx_nonce, m.tx_left))
          (subst
            (λ (r : CipherState).
              p.aead_encrypt r.key (build_nonce r.nonce) heartbeat_data pong ≡ some rct)
            (sym m.rx) reply_sealed) in
      let sent_size = length-serialize (Frame.new heartbeat c.tx_cipher.nonce ct) in
      let c1 = pinged p client_clock c ct rct pong in
      let said = λ (back : Bytes).
        send_ping_lem p client_clock c ct rct pong back encrypted opened refl
          (omega (arith, rx_nonce, m.tx_left)) (omega (arith, rct_size))
          (omega (arith, sent_size, ct_size, m.client_room)) in
      let served = λ (rest : Bytes).
        serve_frame-ponged p server_clock sealing s ping ct rct rest a replied rct_size in
      record {
        to_server = serialize (Frame.new heartbeat c.tx_cipher.nonce ct);
        to_client = serialize (Frame.new heartbeat s.tx_cipher.nonce rct);
        c1 = c1;
        s1 = ponged p server_clock sealing s ct rct;
        served =
            subst
              (λ (n : ℕ).
                (rest : Bytes)
                → serve_frame p server_clock (feed (serialize (Frame.new heartbeat n ct) ++ rest) s)
                  ≡ (feed rest (ponged p server_clock sealing s ct rct), ok again))
              (sym tx_nonce) served;
        said =
            subst
              (λ (n : ℕ).
                (lines : List Bytes) (back : Bytes)
                → converse p client_clock (line ∷ lines)
                    (tuned (serialize (Frame.new heartbeat n rct) ++ back) c)
                  ≡ converse p client_clock lines (tuned back c1))
              rx_nonce
              (λ lines back.
                converse_ping p client_clock line lines
                  (tuned (serialize (Frame.new heartbeat c.rx_cipher.nonce rct) ++ back) c)
                  (tuned back c1) is_ping.0 is_ping.1 is_ping.2 (said back));
        sent = refl;
        answered = refl;
        shown = rw is_ping.2 refl;
        matched = ping-Matched ct rct ct_size rct_size a;
      }
