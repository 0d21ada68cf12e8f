-- ===== src/Client/Interactive.antt =====
-- client.rs: the loop of `start_interactive_session`, on the lines that the user types.
pub mod Line
pub mod Ping
use noise_tunnel_rs.Base.{not, ◌+◌, ◌||◌, Bool, ℕ, [], ◌∷◌, List, if◌then◌else◌, codes}
use noise_tunnel_rs.Base.Bytes.{Bytes, same_bytes}
use noise_tunnel_rs.Base.Utf8.{from_utf8_lossy}
use noise_tunnel_rs.Error.{ok}
use noise_tunnel_rs.Action.{Action, ◌>>=◌, ◌>>◌, pure, get_self, focus}
use noise_tunnel_rs.Crypto.Primitives.{Primitives}
use noise_tunnel_rs.Crypto.Cipher.{CipherState, encrypt, decrypt, current_nonce}
use noise_tunnel_rs.Protocol.MessageType.{data_payload, heartbeat, close, same_type, as_u8}
use noise_tunnel_rs.Protocol.Frame.{WireFrame, payload_len}
use noise_tunnel_rs.Protocol.Frame
use noise_tunnel_rs.Protocol.Stream.{Stream}
use noise_tunnel_rs.Protocol.Wire.{read_from, write_to}
use noise_tunnel_rs.Stats.{SessionMetrics, record_rx, record_tx}
use noise_tunnel_rs.Stats
use noise_tunnel_rs.Error.{Result, err}
use noise_tunnel_rs.Client.{TunnelClient}
use noise_tunnel_rs.Client.Message.{perform_handshake, data_label, ignore}

-- The local variables of the loop, the clock's next reading, and the replies printed so far, the
-- latest first. The help and information texts are not kept.
pub record Console : Type 0 where
  pub stream : Stream
  pub tx_cipher : CipherState
  pub rx_cipher : CipherState
  pub session_metrics : SessionMetrics
  pub clock : ℕ
  pub shown : List Bytes

abbrev pub heartbeat_label : Bytes
heartbeat_label = codes "heartbeat"

abbrev pub ping : Bytes
ping = codes "PING"

-- The commands that print and do nothing else, and the empty line.
unfoldable pub is_quiet : Bytes → Bool
is_quiet line =
    same_bytes line []
    || same_bytes line (codes "/help")
    || same_bytes line (codes "/info")
    || same_bytes line (codes "/stats")

unfoldable pub is_quit : Bytes → Bool
is_quit line = same_bytes line (codes "/quit") || same_bytes line (codes "exit")

module _ (p : Primitives) (next_reading : ℕ → ℕ) where
  abbrev on_stream : {A : Type 0} → Action Stream A → Action Console A
  on_stream = focus (λ s. s.stream) (λ t s. record s { stream = t })

  abbrev on_tx : {A : Type 0} → Action CipherState A → Action Console A
  on_tx = focus (λ s. s.tx_cipher) (λ t s. record s { tx_cipher = t })

  abbrev on_rx : {A : Type 0} → Action CipherState A → Action Console A
  on_rx = focus (λ s. s.rx_cipher) (λ t s. record s { rx_cipher = t })

  abbrev count : (ℕ → SessionMetrics → SessionMetrics) → Action Console (Unit {0})
  count change s = (
    record s { session_metrics = change s.clock s.session_metrics; clock = next_reading s.clock },
    ok tt,
  )

  abbrev print : Bytes → Action Console (Unit {0})
  print text s = (record s { shown = text ∷ s.shown }, ok tt)

  -- A reply of the expected type is opened and printed, another is passed over.
  abbrev show_reply : Bool → Bytes → WireFrame → Action Console (Unit {0})
  unfolding decrypt from_utf8_lossy
  show_reply expected label reply =
      if expected
      then (on_rx (decrypt p reply.payload label reply.nonce) >>= λ decrypted.
          print (from_utf8_lossy decrypted))
      else pure tt

  -- `/quit`: a failed write is ignored.
  unfoldable pub say_close : Action Console (Unit {0})
  unfolding current_nonce Frame.new payload_len record_tx write_to
  say_close = do
    self ← get_self
    let close_frame = Frame.new close (current_nonce self.tx_cipher) []
    count (λ now. record_tx now (payload_len close_frame + 13))
    ignore (on_stream (write_to close_frame))

  unfoldable pub send_ping : Action Console (Unit {0})
  unfolding current_nonce encrypt Frame.new payload_len record_tx record_rx write_to read_from
      show_reply as_u8
  send_ping = do
    self ← get_self
    let tx_nonce = current_nonce self.tx_cipher
    encrypted_ping ← on_tx (encrypt p ping heartbeat_label)
    let frame = Frame.new heartbeat tx_nonce encrypted_ping
    count (λ now. record_tx now (payload_len frame + 13))
    on_stream (write_to frame)
    reply ← on_stream read_from
    count (λ now. record_rx now (payload_len reply + 13))
    show_reply (same_type reply.msg_type heartbeat) heartbeat_label reply

  -- `false` when the server has closed the connection.
  unfoldable pub send_line : Bytes → Action Console Bool
  unfolding current_nonce encrypt Frame.new payload_len record_tx record_rx write_to read_from
      show_reply as_u8
  send_line line = do
    self ← get_self
    let tx_nonce = current_nonce self.tx_cipher
    encrypted_data ← on_tx (encrypt p line data_label)
    let frame = Frame.new data_payload tx_nonce encrypted_data
    count (λ now. record_tx now (payload_len frame + 13))
    on_stream (write_to frame)
    reply_frame ← on_stream read_from
    count (λ now. record_rx now (payload_len reply_frame + 13))
    let is_answer = same_type reply_frame.msg_type data_payload
    show_reply is_answer data_label reply_frame
    pure (is_answer || not (same_type reply_frame.msg_type close))

  -- The loop, on the lines after `trim`, to the end of the input, a `/quit` or the server's Close.
  unfoldable pub converse : List Bytes → Action Console (Unit {0})
  unfolding is_quiet is_quit say_close send_ping send_line
  converse [] = pure tt
  converse (line ∷ lines) =
      let rest = converse lines in
      if is_quiet line
      then rest
      else if is_quit line
      then say_close
      else if same_bytes line (codes "/ping")
      then (send_ping >> rest)
      else (send_line line >>= λ goes_on. if goes_on then rest else pure tt)

module _ (p : Primitives) (self : TunnelClient) (secret : Bytes) (next_reading : ℕ → ℕ) where
  -- What the console shows in the end, with the connection.
  abbrev left : Console × Result (Unit {0}) → (Stream × List Bytes) × Result (Unit {0})
  left r = ((r.0.stream, r.0.shown), r.1)

  abbrev pub enter :
      ℕ
      → List Bytes
      → Stream × Result (CipherState × CipherState)
      → (Stream × List Bytes) × Result (Unit {0})
  unfolding converse Stats.new
  enter now lines (stream, err e) = ((stream, []), err e)
  enter now lines (stream, ok (tx_cipher, rx_cipher)) = left (
      converse p next_reading lines (record {
        stream = stream;
        tx_cipher = tx_cipher;
        rx_cipher = rx_cipher;
        session_metrics = Stats.new now;
        clock = next_reading now;
        shown = [];
      }))

  -- The session over a connected stream; `lines` are all that the user types.
  unfoldable pub start_interactive_session :
      ℕ → List Bytes → Stream → (Stream × List Bytes) × Result (Unit {0})
  unfolding enter perform_handshake
  start_interactive_session now lines stream =
      enter now lines (perform_handshake p self secret stream)
