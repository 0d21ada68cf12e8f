-- ===== src/Protocol/MessageType.antt =====
-- protocol/mod.rs: `MessageType` with its predicates and its byte.
pub mod Display
pub mod Parse
use noise_tunnel_rs.Base.{ℕ, Bool, true, false, ◌||◌, ◌==◌}

pub data MessageType : Type 0 where
  handshake_init handshake_resp data_payload heartbeat close : MessageType

-- `*self as u8`: the enum's discriminants.
unfoldable pub as_u8 : MessageType → ℕ
as_u8 handshake_init = 0x01
as_u8 handshake_resp = 0x02
as_u8 data_payload = 0x03
as_u8 heartbeat = 0x04
as_u8 close = 0x05

-- The derived `PartialEq` of a fieldless enum compares the discriminants.
abbrev pub same_type : MessageType → MessageType → Bool
unfolding as_u8
same_type a b = as_u8 a == as_u8 b

unfoldable pub is_handshake : MessageType → Bool
is_handshake handshake_init = true
is_handshake handshake_resp = true
is_handshake other = false

unfoldable pub is_handshake_init : MessageType → Bool
unfolding as_u8
is_handshake_init t = same_type t handshake_init

unfoldable pub is_handshake_resp : MessageType → Bool
unfolding as_u8
is_handshake_resp t = same_type t handshake_resp

unfoldable pub is_data : MessageType → Bool
unfolding as_u8
is_data t = same_type t data_payload

unfoldable pub is_heartbeat : MessageType → Bool
unfolding as_u8
is_heartbeat t = same_type t heartbeat

unfoldable pub is_close : MessageType → Bool
unfolding as_u8
is_close t = same_type t close
