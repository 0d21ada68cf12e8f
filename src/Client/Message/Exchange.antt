-- ===== src/Client/Message/Exchange.antt =====
-- client.rs: `send_secure_message` after its handshake.
use noise_tunnel_rs.Base.{
  ℕ, ◌+◌, ◌-◌, ◌≤◌, ◌<◌, ◌^◌, ◌≡◌, [], ◌++◌, none, some, length, arith, refl,
}
use noise_tunnel_rs.Base.Bytes.{Bytes}
use noise_tunnel_rs.Base.Utf8.{from_utf8}
use noise_tunnel_rs.Error.{ok}
use noise_tunnel_rs.Crypto.Primitives.{Primitives}
use noise_tunnel_rs.Crypto.Cipher.{CipherState, encrypt, decrypt, current_nonce}
use noise_tunnel_rs.Protocol.Frame.{WireFrame, serialize}
use noise_tunnel_rs.Protocol.Frame
use noise_tunnel_rs.Protocol.Frame.RoundTrip.{length-serialize}
use noise_tunnel_rs.Protocol.MessageType.{data_payload, close, as_u8}
use noise_tunnel_rs.Protocol.Stream.{Stream, connection}
use noise_tunnel_rs.Protocol.Wire.Exact.{write_to_lem, read_from-serialize}
use noise_tunnel_rs.Client.{TunnelClient}
use noise_tunnel_rs.Client.Message.{perform_handshake, exchange, send_secure_message, data_label}
use noise_tunnel_rs.Server.Session.Echo.{fits-is_valid}

-- The client's half after the handshake: its message goes out, the answer comes in and is opened,
-- and a Close frame ends it.
pub exchange_lem :
    (p : Primitives) (self : TunnelClient) (secret message reply ct rct back out : Bytes) (room : ℕ)
    (tx rx : CipherState) (start : Stream)
    → perform_handshake p self secret start
      ≡ (connection (serialize (Frame.new data_payload rx.nonce rct) ++ back) out room, ok (tx, rx))
    → encrypt p message data_label tx ≡ (record tx { nonce = tx.nonce + 1 }, ok ct)
    → (decrypt p rct data_label rx.nonce rx).1 ≡ ok reply
    → from_utf8 reply ≡ some reply
    → rx.nonce < 2 ^ 64
    → length rct ≤ 65527
    → 26 + length ct ≤ room
    → let sent_frame = serialize (Frame.new data_payload tx.nonce ct) in
      let bye = serialize (Frame.new close (tx.nonce + 1) []) in
      exchange p self secret message start ≡ (
        connection back ((out ++ sent_frame) ++ bye) (room - length sent_frame - length bye),
        ok reply,
      )
unfolding exchange Frame.new as_u8 current_nonce
exchange_lem p self secret message reply ct rct back out room tx rx start shaken sealed opened text
      fits small roomy =
    let sent_frame = Frame.new data_payload tx.nonce ct in
    let bye = Frame.new close (tx.nonce + 1) [] in
    let answer = Frame.new data_payload rx.nonce rct in
    let size = length-serialize sent_frame in
    let bye_size = length-serialize bye in
    let sent =
      write_to_lem sent_frame (connection (serialize answer ++ back) out room)
        (omega (arith, size, roomy)) in
    let read =
      read_from-serialize answer
        (connection (serialize answer ++ back) (out ++ serialize sent_frame)
          (room - length (serialize sent_frame)))
        back fits (fits-is_valid (length rct) small) refl in
    let closed =
      write_to_lem bye
        (connection back (out ++ serialize sent_frame) (room - length (serialize sent_frame)))
        (omega (arith, size, bye_size, roomy)) in
    rw (shaken, sealed, sent, read, opened, text, closed) refl

-- Without a timeout the result is the exchange's.
pub send_secure_message-exchange :
    (p : Primitives) (self : TunnelClient) (secret message : Bytes) (t : Stream) (took : ℕ)
    → self.timeout ≡ none
    → send_secure_message p self secret (some t) took message ≡ (exchange p self secret message t).1
unfolding send_secure_message
send_secure_message-exchange p self secret message t took e = rw e refl
