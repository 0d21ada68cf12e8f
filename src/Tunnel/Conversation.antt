-- ===== src/Tunnel/Conversation.antt =====
-- client.rs and server.rs: a line of the interactive session at both ends.
pub mod Pings
pub mod Lines
pub mod Ends
pub mod Whole
use noise_tunnel_rs.Base.{
  if◌then◌else◌, List, ◌∷◌, ℕ, suc, ◌+◌, ◌-◌, ◌*◌, ◌≤◌, ◌<◌, ◌^◌, ◌≡◌, [], ◌∷◌, ◌++◌, true, some,
  length, arith, refl, sym, ap, ◌∙◌, subst, codes,
}
use noise_tunnel_rs.Base.Bytes.{same_bytes, Bytes, u64_max, add_u64}
use noise_tunnel_rs.Base.Utf8.{from_utf8}
use noise_tunnel_rs.Error.{ok}
use noise_tunnel_rs.Crypto.Primitives.{Primitives, SealsMessages}
use noise_tunnel_rs.Crypto.Cipher.{CipherState, build_nonce}
use noise_tunnel_rs.Crypto.Cipher.Nonces.{encrypt_succeeds}
use noise_tunnel_rs.Crypto.Cipher.Channel.{decrypt_opens}
use noise_tunnel_rs.Protocol.Frame.{serialize}
use noise_tunnel_rs.Protocol.Frame
use noise_tunnel_rs.Protocol.Frame.RoundTrip.{length-serialize}
use noise_tunnel_rs.Protocol.MessageType.{data_payload}
use noise_tunnel_rs.Client.Message.{data_label}
use noise_tunnel_rs.Client.Interactive.{Console, converse, send_line}
use noise_tunnel_rs.Client.Interactive.Line.{
  IsMessage, converse_message, tuned, told, send_line_lem,
}
use noise_tunnel_rs.Server.Session.{Session, again, reply_to, serve_frame}
use noise_tunnel_rs.Server.Session.Answers.{InStep}
use noise_tunnel_rs.Server.Session.Feed.{feed, Awaits, Answered, serve_frame-Answered}
use noise_tunnel_rs.Server.Session.Text.{reply_to-from_utf8}

-- The two ends between two lines: each receives with what the other sends with, the filter is in
-- step, and there are nonces and room for `count` messages of `size` bytes together.
pub record Matched (c : Console) (s : Session) (count size : ℕ) : Type 0 where
  pub tx : c.tx_cipher ≡ s.rx_cipher
  pub rx : c.rx_cipher ≡ s.tx_cipher
  pub in_step : InStep s.replay_filter s.rx_cipher.nonce
  pub unwrapped : s.replay_filter.initialized ≡ true → 0 < s.rx_cipher.nonce
  pub rx_left : s.rx_cipher.nonce + count < u64_max
  pub tx_left : s.tx_cipher.nonce + count < u64_max
  pub client_room : size + 29 * count ≤ c.stream.room
  pub server_room : size + 44 * count ≤ s.stream.room

-- What the client shows for a line.
abbrev pub shown_reply : Bytes → Bytes
shown_reply line =
    if same_bytes line (codes "/ping") then codes "PONG" else codes "Server mottok: " ++ line

-- What the ends have done with `line`: the client has sent `to_server`, has got `to_client` and has
-- come to `c1`, and the server has gone from `s` to `s1`.
pub record Turned (p : Primitives) (client_clock server_clock : ℕ → ℕ) (line : Bytes) (c : Console)
    (s : Session) (count size : ℕ) : Type 0 where
  pub to_server : Bytes
  pub to_client : Bytes
  pub c1 : Console
  pub s1 : Session
  pub served :
      (rest : Bytes)
      → serve_frame p server_clock (feed (to_server ++ rest) s) ≡ (feed rest s1, ok again)
  pub said :
      (lines : List Bytes) (back : Bytes)
      → converse p client_clock (line ∷ lines) (tuned (to_client ++ back) c)
        ≡ converse p client_clock lines (tuned back c1)
  pub sent : c1.stream.outgoing ≡ c.stream.outgoing ++ to_server
  pub answered : s1.stream.outgoing ≡ s.stream.outgoing ++ to_client
  pub shown : c1.shown ≡ shown_reply line ∷ c.shown
  pub matched : Matched c1 s1 count size

module _ (p : Primitives) (sealing : SealsMessages p) (client_clock server_clock : ℕ → ℕ) where
  module _ (line : Bytes) (c : Console) (s : Session) (count size : ℕ) (message : IsMessage line)
      (text : from_utf8 line ≡ some line) (small : length line ≤ 65496)
      (m : Matched c s (suc count) (length line + size)) where
    length-reply_to : length (reply_to line) ≡ 15 + length line
    length-reply_to = omega (arith, ap length (reply_to-from_utf8 line text).0)

    -- The server can answer what the client seals.
    line-Awaits :
        (ct : Bytes)
        → p.aead_encrypt c.tx_cipher.key (build_nonce c.tx_cipher.nonce) data_label line ≡ some ct
        → length ct ≡ length line + 16
        → Awaits p s line ct
    line-Awaits ct sealed ct_size = record {
      in_step = m.in_step;
      unwrapped = m.unwrapped;
      sealed = rw m.tx at sealed;
      size = ct_size;
      small = omega (arith, small);
      reply_small = omega (arith, small, length-reply_to);
      has_nonce = omega (arith, m.tx_left);
      has_room = omega (arith, m.server_room, length-reply_to);
    }

    -- After the line the ends match again.
    line-Matched :
        (ct rct reply : Bytes) (s1 : Session)
        → length ct ≡ length line + 16
        → Answered p s s1 line rct
        → Matched (told p client_clock c ct rct reply) s1 count size
    unfolding Frame.new
    line-Matched ct rct reply s1 ct_size a =
        let rx_nonce = ap (λ (r : CipherState). r.nonce) a.rx in
        let tx_nonce = ap (λ (r : CipherState). r.nonce) a.tx in
        let next : CipherState → CipherState = λ r. record r { nonce = r.nonce + 1 } in
        let sent_size = length-serialize (Frame.new data_payload c.tx_cipher.nonce ct) in
        let reply_size = length-serialize (Frame.new data_payload s.tx_cipher.nonce rct) in
        record {
          tx =
              ap next m.tx
              ∙ ap (λ (n : ℕ). record s.rx_cipher { nonce = n }) (omega (arith, m.rx_left))
              ∙ sym a.rx;
          rx = ap next m.rx ∙ sym a.tx;
          in_step = a.in_step;
          unwrapped = λ _. omega (arith, rx_nonce, m.rx_left);
          rx_left = omega (arith, rx_nonce, m.rx_left);
          tx_left = omega (arith, tx_nonce, m.tx_left);
          client_room = omega (arith, sent_size, ct_size, m.client_room);
          server_room = omega (arith, reply_size, a.room, a.size, length-reply_to, m.server_room);
        }

    pub line_turns : Turned p client_clock server_clock line c s count size
    unfolding Frame.new
    line_turns =
        let (greeted, greeted_text) = reply_to-from_utf8 line text in
        let greeting : Bytes = codes "Server mottok: " ++ line in
        let tx_nonce = ap (λ (r : CipherState). r.nonce) m.tx in
        let rx_nonce = ap (λ (r : CipherState). r.nonce) m.rx in
        let (ct, encrypted, sealed, ct_size) =
          encrypt_succeeds p c.tx_cipher line data_label sealing (omega (arith, small))
            (omega (arith, tx_nonce, m.rx_left)) in
        let (rct, s1, served, a) =
          serve_frame-Answered p server_clock sealing s line ct (line-Awaits ct sealed ct_size) in
        let opened =
          decrypt_opens p c.rx_cipher greeting data_label rct sealing
            (omega (arith, rx_nonce, m.tx_left))
            (rw greeted at (
              subst
                (λ (r : CipherState).
                  p.aead_encrypt r.key (build_nonce r.nonce) data_label (reply_to line) ≡ some rct)
                (sym m.rx) a.sealed)) in
        let sent_size = length-serialize (Frame.new data_payload c.tx_cipher.nonce ct) in
        let said = λ (back : Bytes).
          send_line_lem p client_clock c line ct rct greeting back encrypted opened
            (rw greeted at greeted_text) (omega (arith, rx_nonce, m.tx_left))
            (omega (arith, a.size, small, length-reply_to))
            (omega (arith, sent_size, ct_size, m.client_room)) in
        record {
          to_server = serialize (Frame.new data_payload c.tx_cipher.nonce ct);
          to_client = serialize (Frame.new data_payload s.tx_cipher.nonce rct);
          c1 = told p client_clock c ct rct greeting;
          s1 = s1;
          served =
              subst
                (λ (n : ℕ).
                  (rest : Bytes)
                  → serve_frame p server_clock
                      (feed (serialize (Frame.new data_payload n ct) ++ rest) s)
                    ≡ (feed rest s1, ok again))
                (sym tx_nonce) served;
          said =
              subst
                (λ (n : ℕ).
                  (lines : List Bytes) (back : Bytes)
                  → converse p client_clock (line ∷ lines)
                      (tuned (serialize (Frame.new data_payload n rct) ++ back) c)
                    ≡ converse p client_clock lines
                        (tuned back (told p client_clock c ct rct greeting)))
                rx_nonce
                (λ lines back.
                  converse_message p client_clock line lines
                    (tuned (serialize (Frame.new data_payload c.rx_cipher.nonce rct) ++ back) c)
                    (tuned back (told p client_clock c ct rct greeting)) message (said back));
          sent = refl;
          answered = a.outgoing;
          shown = rw message.2 refl;
          matched = line-Matched ct rct greeting s1 ct_size a;
        }
