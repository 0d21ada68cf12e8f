-- ===== src/Client/Interactive/Line.antt =====
-- client.rs: a line of the interactive session and its answer.
use noise_tunnel_rs.Stats
use noise_tunnel_rs.Client.{TunnelClient}
use noise_tunnel_rs.Crypto.Cipher.{CipherState}
use noise_tunnel_rs.Client.Message.{perform_handshake}
use noise_tunnel_rs.Client.Interactive.{start_interactive_session, enter}
use noise_tunnel_rs.Base.{
  ℕ, ◌+◌, ◌-◌, ◌≤◌, ◌<◌, ◌^◌, ◌≡◌, ◌∷◌, ◌++◌, List, true, false, some, length, refl, codes, [],
  arith, ap,
}
use noise_tunnel_rs.Base.Bytes.{Bytes, same_bytes}
use noise_tunnel_rs.Base.Utf8.{from_utf8, from_utf8-lossy}
use noise_tunnel_rs.Error.{Result, ok}
use noise_tunnel_rs.Crypto.Primitives.{Primitives}
use noise_tunnel_rs.Crypto.Cipher.{encrypt, decrypt, current_nonce}
use noise_tunnel_rs.Protocol.Frame.{serialize, payload_len}
use noise_tunnel_rs.Protocol.Frame
use noise_tunnel_rs.Protocol.MessageType.{data_payload, close, as_u8}
use noise_tunnel_rs.Protocol.Wire.Exact.{write_to_lem, read_from-serialize}
use noise_tunnel_rs.Stats.{record_rx, record_tx}
use noise_tunnel_rs.Client.Message.{data_label}
use noise_tunnel_rs.Server.Session.Echo.{fits-is_valid}
use noise_tunnel_rs.Client.Interactive.{
  Console, is_quiet, is_quit, send_line, say_close, show_reply, converse, Stream,
}
use noise_tunnel_rs.Protocol.Frame.RoundTrip.{length-serialize}

-- The loop with these bytes to come.
abbrev pub tuned : Bytes → Console → Console
tuned bytes c = record c { stream = record c.stream { incoming = bytes } }

-- A line that goes to the server.
abbrev pub IsMessage : Bytes → Type 0
IsMessage line =
    (is_quiet line ≡ false) × (is_quit line ≡ false) × (same_bytes line (codes "/ping") ≡ false)

module _ (p : Primitives) (next_reading : ℕ → ℕ) where
  -- The loop after the line `line`, sent as `ct`, and its answer `reply`, received as `rct`.
  abbrev pub told : Console → Bytes → Bytes → Bytes → Console
  told c ct rct reply =
      let sent = Frame.new data_payload c.tx_cipher.nonce ct in
      record {
        stream = record c.stream {
          outgoing = c.stream.outgoing ++ serialize sent;
          room = c.stream.room - length (serialize sent);
        };
        tx_cipher = record c.tx_cipher { nonce = c.tx_cipher.nonce + 1 };
        rx_cipher = record c.rx_cipher { nonce = c.rx_cipher.nonce + 1 };
        session_metrics =
            record_rx (next_reading c.clock) (length rct + 13)
              (record_tx c.clock (length ct + 13) c.session_metrics);
        clock = next_reading (next_reading c.clock);
        shown = reply ∷ c.shown;
      }

  pub send_line_lem :
      (c : Console) (line ct rct reply back : Bytes)
      → encrypt p line data_label c.tx_cipher
        ≡ (record c.tx_cipher { nonce = c.tx_cipher.nonce + 1 }, ok ct)
      → decrypt p rct data_label c.rx_cipher.nonce c.rx_cipher
        ≡ (record c.rx_cipher { nonce = c.rx_cipher.nonce + 1 }, ok reply)
      → from_utf8 reply ≡ some reply
      → c.rx_cipher.nonce < 2 ^ 64
      → length rct ≤ 65527
      → length (serialize (Frame.new data_payload c.tx_cipher.nonce ct)) ≤ c.stream.room
      → send_line p next_reading line
          (tuned (serialize (Frame.new data_payload c.rx_cipher.nonce rct) ++ back) c)
        ≡ (tuned back (told c ct rct reply), ok true)
  unfolding send_line show_reply Frame.new payload_len as_u8 current_nonce
  send_line_lem c line ct rct reply back sealed opened text fits small roomy =
      let sent = Frame.new data_payload c.tx_cipher.nonce ct in
      let answer = Frame.new data_payload c.rx_cipher.nonce rct in
      let before = tuned (serialize answer ++ back) c in
      let wrote = write_to_lem sent before.stream roomy in
      let read =
        read_from-serialize answer
          (record before.stream {
            outgoing = c.stream.outgoing ++ serialize sent;
            room = c.stream.room - length (serialize sent);
          })
          back fits (fits-is_valid (length rct) small) refl in
      rw (sealed, wrote, read, opened, from_utf8-lossy reply reply text) refl

  pub converse_quiet :
      (line : Bytes) (lines : List Bytes) (c : Console)
      → is_quiet line ≡ true
      → converse p next_reading (line ∷ lines) c ≡ converse p next_reading lines c
  unfolding converse
  converse_quiet line lines c h = rw h refl

  pub converse_message :
      (line : Bytes) (lines : List Bytes) (c c' : Console)
      → IsMessage line
      → send_line p next_reading line c ≡ (c', ok true)
      → converse p next_reading (line ∷ lines) c ≡ converse p next_reading lines c'
  unfolding converse
  converse_message line lines c c' (loud, stays, no_ping) e = rw (loud, stays, no_ping, e) refl

  -- `/quit` sends a Close frame and ends the loop.
  pub converse_quit :
      (lines : List Bytes) (c : Console)
      → 13 ≤ c.stream.room
      → let bye = serialize (Frame.new close c.tx_cipher.nonce []) in
        (c' : Console) × (converse p next_reading (codes "/quit" ∷ lines) c ≡ (c', ok tt))
        × (c'.stream ≡ record c.stream {
          outgoing = c.stream.outgoing ++ bye;
          room = c.stream.room - length bye;
        })
        × (c'.shown ≡ c.shown)
  unfolding converse is_quiet is_quit say_close Frame.new current_nonce
  converse_quit lines c roomy =
      let bye = Frame.new close c.tx_cipher.nonce [] in
      let wrote = write_to_lem bye c.stream (omega (arith, length-serialize bye)) in
      (
        (say_close p next_reading c).0,
        refl,
        ap (λ (r : Stream × Result (Unit {0})). r.0) wrote,
        refl,
      )

-- A session whose handshake and lines are known.
pub start_interactive_session_lem :
    (p : Primitives) (self : TunnelClient) (secret : Bytes) (next_reading : ℕ → ℕ) (now : ℕ)
    (lines : List Bytes) (start t : Stream) (tx rx : CipherState) (c : Console)
    → perform_handshake p self secret start ≡ (t, ok (tx, rx))
    → converse p next_reading lines (record {
      stream = t;
      tx_cipher = tx;
      rx_cipher = rx;
      session_metrics = Stats.new now;
      clock = next_reading now;
      shown = [];
    })
      ≡ (c, ok tt)
    → start_interactive_session p self secret next_reading now lines start
      ≡ ((c.stream, c.shown), ok tt)
unfolding start_interactive_session enter Stats.new
start_interactive_session_lem p self secret next_reading now lines start t tx rx c e e' =
    rw (e, e') refl
