-- ===== src/Protocol/MessageType/Display.antt =====
-- protocol/mod.rs: `Display` of `MessageType`.
use noise_tunnel_rs.Base.{codes}
use noise_tunnel_rs.Base.Bytes.{Bytes}
use noise_tunnel_rs.Protocol.MessageType.{
  MessageType, handshake_init, handshake_resp, data_payload, heartbeat, close,
}

unfoldable pub type_to_string : MessageType → Bytes
type_to_string handshake_init = codes "HandshakeInit"
type_to_string handshake_resp = codes "HandshakeResp"
type_to_string data_payload = codes "DataPayload"
type_to_string heartbeat = codes "Heartbeat"
type_to_string close = codes "Close"
