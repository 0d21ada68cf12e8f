-- ===== src/Client/Message.antt =====
-- client.rs: `perform_handshake` on a stream, and `send_secure_message`.
pub mod Exchange
pub mod Timeout
use noise_tunnel_rs.Base.{ℕ, not, Option, none, some, [], ltb, if◌then◌else◌, codes}
use noise_tunnel_rs.Base.Bytes.{Bytes}
use noise_tunnel_rs.Base.Utf8.{from_utf8}
use noise_tunnel_rs.Error.{
  Result, ok, err, reject_if, or_fail, expected_data_reply, invalid_utf8, timed_out, connect_failed,
}
use noise_tunnel_rs.Action.{Action, ◌>>=◌, ◌>>◌, lift, pure}
use noise_tunnel_rs.Crypto.Primitives.{Primitives}
use noise_tunnel_rs.Crypto.Cipher.{CipherState, encrypt, decrypt, current_nonce}
use noise_tunnel_rs.Protocol.MessageType.{data_payload, close, same_type, as_u8}
use noise_tunnel_rs.Protocol.Frame.{WireFrame}
use noise_tunnel_rs.Protocol.Frame
use noise_tunnel_rs.Protocol.Stream.{Stream}
use noise_tunnel_rs.Protocol.Wire.{read_from, write_to}
use noise_tunnel_rs.Client.{TunnelClient}
use noise_tunnel_rs.Client.Handshake.{client_hello, client_finish}

-- `let _ = act.await`.
abbrev pub ignore : {S A : Type 0} → Action S A → Action S (Unit {0})
ignore act s = ((act s).0, ok tt)

abbrev pub data_label : Bytes
data_label = codes "tunnel-data"

module _ (p : Primitives) (self : TunnelClient) (secret : Bytes) where
  -- The ciphers for sending and receiving; `secret` is the ephemeral key's.
  unfoldable pub perform_handshake : Action Stream (CipherState × CipherState)
  unfolding client_hello client_finish read_from write_to
  perform_handshake = do
    hello ← lift (client_hello p self secret)
    write_to hello.frame
    resp_frame ← read_from
    lift (client_finish p self hello resp_frame)

  -- One message over a connected stream, and its answer.
  unfoldable pub exchange : Bytes → Action Stream Bytes
  unfolding perform_handshake encrypt decrypt current_nonce Frame.new from_utf8 read_from write_to
      as_u8
  exchange message = do
    (tx_cipher, rx_cipher) ← perform_handshake
    let tx_nonce = current_nonce tx_cipher
    let sent = encrypt p message data_label tx_cipher
    encrypted_data ← lift sent.1
    let data_frame = Frame.new data_payload tx_nonce encrypted_data
    write_to data_frame
    reply_frame ← read_from
    lift (
        reject_if (not (same_type reply_frame.msg_type data_payload))
          (expected_data_reply reply_frame.msg_type))
    decrypted_reply ← lift (decrypt p reply_frame.payload data_label reply_frame.nonce rx_cipher).1
    reply_text ← lift (or_fail (from_utf8 decrypted_reply) invalid_utf8)
    let close_frame = Frame.new close (current_nonce sent.0) []
    ignore (write_to close_frame)
    pure reply_text

  -- `connection` is what `TcpStream::connect` gave, and `took` how long the operation ran: past the
  -- timeout its result is dropped.
  unfoldable pub send_secure_message : Option Stream → ℕ → Bytes → Result Bytes
  unfolding exchange
  send_secure_message connection took message =
      let op : Result Bytes = elim connection [
        | none ↦ err connect_failed
        | some stream ↦ (exchange message stream).1
      ] in
      elim self.timeout [ none ↦ op | some dur ↦ if ltb dur took then err (timed_out dur) else op ]
