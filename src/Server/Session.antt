-- ===== src/Server/Session.antt =====
-- server.rs: the transport loop of `handle_client_with_prologue`.
pub mod Termination
pub mod Order
pub mod Metrics
pub mod Feed
pub mod Tracked
pub mod Integrity
pub mod Pong
pub mod Close
pub mod Text
pub mod Echo
pub mod Reached
pub mod Answers
use noise_tunnel_rs.Base.{ℕ, zero, suc, ◌+◌, ◌++◌, Option, none, some, codes}
use noise_tunnel_rs.Base.Bytes.{Bytes}
use noise_tunnel_rs.Base.Utf8.{from_utf8_lossy}
use noise_tunnel_rs.Error.{Result, ok, err}
use noise_tunnel_rs.Action.{Action, ◌>>=◌, ◌>>◌, pure, get_self, focus}
use noise_tunnel_rs.Crypto.Primitives.{Primitives}
use noise_tunnel_rs.Crypto.Cipher.{CipherState, encrypt, decrypt, current_nonce}
use noise_tunnel_rs.Protocol.MessageType.{MessageType, data_payload, heartbeat, close}
use noise_tunnel_rs.Protocol.Frame.{WireFrame, heartbeat_frame, payload_len}
use noise_tunnel_rs.Protocol.Frame
use noise_tunnel_rs.Protocol.Replay.{ReplayFilter, validate_and_record}
use noise_tunnel_rs.Protocol.Replay
use noise_tunnel_rs.Protocol.Stream.{Stream}
use noise_tunnel_rs.Protocol.Wire.{read_from, write_to}
use noise_tunnel_rs.Stats.{SessionMetrics, record_rx, record_tx}
use noise_tunnel_rs.Stats
use noise_tunnel_rs.Server.Handshake.{Answer}

-- The local variables of the loop, and the clock's last reading.
pub record Session : Type 0 where
  pub stream : Stream
  pub rx_cipher : CipherState
  pub tx_cipher : CipherState
  pub replay_filter : ReplayFilter
  pub session_metrics : SessionMetrics
  pub clock : ℕ

-- Whether the loop goes round again.
pub data Flow : Type 0 where
  again leave : Flow

abbrev pub tunnel_data : Bytes
tunnel_data = codes "tunnel-data"

abbrev pub heartbeat_data : Bytes
heartbeat_data = codes "heartbeat"

abbrev pub pong : Bytes
pong = codes "PONG"

-- `format!("Server mottok: {}", msg_str)`.
unfoldable pub reply_to : Bytes → Bytes
unfolding from_utf8_lossy
reply_to plaintext = codes "Server mottok: " ++ from_utf8_lossy plaintext

-- The loop's variables on entry.
unfoldable pub session_start : Answer → Stream → ℕ → Session
unfolding Replay.new Stats.new
session_start answer stream now = record {
  stream = stream;
  rx_cipher = answer.rx_cipher;
  tx_cipher = answer.tx_cipher;
  replay_filter = Replay.new;
  session_metrics = Stats.new now;
  clock = now;
}

-- `next_reading` is what `Instant::now()` gives after a reading.
module _ (p : Primitives) (next_reading : ℕ → ℕ) where
  abbrev on_stream : {A : Type 0} → Action Stream A → Action Session A
  on_stream = focus (λ s. s.stream) (λ t s. record s { stream = t })

  abbrev on_rx : {A : Type 0} → Action CipherState A → Action Session A
  on_rx = focus (λ s. s.rx_cipher) (λ t s. record s { rx_cipher = t })

  abbrev on_tx : {A : Type 0} → Action CipherState A → Action Session A
  on_tx = focus (λ s. s.tx_cipher) (λ t s. record s { tx_cipher = t })

  abbrev on_filter : {A : Type 0} → Action ReplayFilter A → Action Session A
  on_filter = focus (λ s. s.replay_filter) (λ t s. record s { replay_filter = t })

  -- `record_rx` and `record_tx` each read the clock.
  abbrev count : (ℕ → SessionMetrics → SessionMetrics) → Action Session (Unit {0})
  count change s =
      let now = next_reading s.clock in
      (record s { session_metrics = change now s.session_metrics; clock = now }, ok tt)

  -- Opens the message, seals the echo under the next nonce, counts it and sends it.
  unfoldable pub answer_data : WireFrame → Action Session Flow
  unfolding validate_and_record decrypt encrypt reply_to current_nonce Frame.new record_tx
      payload_len write_to
  answer_data frame = do
    on_filter (validate_and_record frame.nonce)
    plaintext ← on_rx (decrypt p frame.payload tunnel_data frame.nonce)
    let reply_msg = reply_to plaintext
    self ← get_self
    let reply_nonce = current_nonce self.tx_cipher
    encrypted_reply ← on_tx (encrypt p reply_msg tunnel_data)
    let reply_frame = Frame.new data_payload reply_nonce encrypted_reply
    count (λ now. record_tx now (payload_len reply_frame + 13))
    on_stream (write_to reply_frame)
    pure again

  unfoldable pub answer_heartbeat : WireFrame → Action Session Flow
  unfolding validate_and_record decrypt encrypt current_nonce heartbeat_frame record_tx payload_len
      write_to
  answer_heartbeat frame = do
    on_filter (validate_and_record frame.nonce)
    _ ← on_rx (decrypt p frame.payload heartbeat_data frame.nonce)
    self ← get_self
    let pong_nonce = current_nonce self.tx_cipher
    encrypted_pong ← on_tx (encrypt p pong heartbeat_data)
    let pong_frame = heartbeat_frame pong_nonce encrypted_pong
    count (λ now. record_tx now (payload_len pong_frame + 13))
    on_stream (write_to pong_frame)
    pure again

  -- The `match` on the frame's type.
  abbrev pub dispatch : MessageType → WireFrame → Action Session Flow
  dispatch data_payload frame = answer_data frame
  dispatch heartbeat frame = answer_heartbeat frame
  dispatch close frame = pure leave
  dispatch other frame = pure again

  abbrev pub received : Stream × Result WireFrame → Action Session Flow
  received (t, err e) s = (record s { stream = t }, ok leave)
  received (t, ok frame) s =
      (count (λ now. record_rx now (payload_len frame + 13)) >> dispatch frame.msg_type frame)
        (record s { stream = t })

  -- Once round the loop.
  unfoldable pub serve_frame : Action Session Flow
  unfolding read_from answer_data answer_heartbeat record_rx payload_len
  serve_frame s = received (read_from s.stream) s

  abbrev pub serve_on :
      (Session → Option (Session × Result (Unit {0})))
      → Session × Result Flow
      → Option (Session × Result (Unit {0}))
  serve_on rest (s, ok again) = rest s
  serve_on rest (s, ok leave) = some (s, ok tt)
  serve_on rest (s, err e) = some (s, err e)

  -- The loop, with a bound on its rounds; `none` is a bound that was too small.
  abbrev pub serve : ℕ → Session → Option (Session × Result (Unit {0}))
  serve zero s = none
  serve (suc n) s = serve_on (serve n) (serve_frame s)
