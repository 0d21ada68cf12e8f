-- ===== src/Protocol/MessageType/Parse.antt =====
-- protocol/mod.rs: `TryFrom<u8> for MessageType`.
use noise_tunnel_rs.Base.{ℕ, ◌≡◌, ◌<◌, ◌↔◌, ◌==◌, true, if◌then◌else◌, arith, refl}
use noise_tunnel_rs.Error.{Result, ok, err, is_err, unknown_message_type}
use noise_tunnel_rs.Protocol.MessageType.{
  MessageType, handshake_init, handshake_resp, data_payload, heartbeat, close, as_u8,
}

unfoldable pub try_from : ℕ → Result MessageType
try_from val =
    if val == 0x01
    then ok handshake_init
    else if val == 0x02
    then ok handshake_resp
    else if val == 0x03
    then ok data_payload
    else if val == 0x04
    then ok heartbeat
    else if val == 0x05
    then ok close
    else err (unknown_message_type val)

-- A byte is parsed to a type exactly when it is that type's byte.
pub try_from_iff : (val : ℕ) (t : MessageType) → (try_from val ≡ ok t) ↔ (as_u8 t ≡ val)
unfolding try_from as_u8
try_from_iff val t = ground arith

pub try_from-as_u8 : (t : MessageType) → try_from (as_u8 t) ≡ ok t
try_from-as_u8 t = (try_from_iff (as_u8 t) t).1 refl

-- Any other byte is refused, and the error names it.
pub try_from_unknown :
    (val : ℕ)
    → ((t : MessageType) → ¬ (as_u8 t ≡ val))
    → try_from val ≡ err (unknown_message_type val)
unfolding try_from as_u8
try_from_unknown val h =
    ground (arith, h handshake_init, h handshake_resp, h data_payload, h heartbeat, h close)

pub as_u8-lt : (t : MessageType) → as_u8 t < 256
unfolding as_u8
as_u8-lt t = ground arith

pub try_from_error :
    (val : ℕ) → (is_err (try_from val) ≡ true) → try_from val ≡ err (unknown_message_type val)
unfolding try_from
try_from_error val h = ground arith
