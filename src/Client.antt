-- ===== src/Client.antt =====
-- client.rs: `TunnelClient`, its builder and accessors.
pub mod Handshake
pub mod Message
pub mod Interactive
use noise_tunnel_rs.Base.{ℕ, ◌*◌, Bool, true, false, Option, none, some}
use noise_tunnel_rs.Base.Bytes.{Bytes}
use noise_tunnel_rs.Crypto.Primitives.{Primitives}
use noise_tunnel_rs.Crypto.Keys.{parse_public_key_hex}
use noise_tunnel_rs.Error.{Result, ok, ◌>>=◌}
use noise_tunnel_rs.Protocol.Transcript.{protocol_name}

-- An address and a port; `timeout` is in nanoseconds.
pub record TunnelClient : Type 0 where
  pub server_pubkey : Bytes
  pub target_addr : Bytes × ℕ
  pub timeout : Option ℕ
  pub prologue : Bytes

unfoldable pub new : Bytes → Bytes × ℕ → TunnelClient
new server_pubkey target_addr = record {
  server_pubkey = server_pubkey;
  target_addr = target_addr;
  timeout = none;
  prologue = protocol_name;
}

unfoldable pub with_timeout : ℕ → TunnelClient → TunnelClient
with_timeout timeout c = record c { timeout = some timeout }

unfoldable pub with_timeout_millis : ℕ → TunnelClient → TunnelClient
unfolding with_timeout
with_timeout_millis millis c = with_timeout (millis * 1_000_000) c

unfoldable pub with_prologue : Bytes → TunnelClient → TunnelClient
with_prologue prologue c = record c { prologue = prologue }

-- A text is its bytes.
unfoldable pub with_prologue_str : Bytes → TunnelClient → TunnelClient
unfolding with_prologue
with_prologue_str prologue c = with_prologue prologue c

unfoldable pub has_timeout : TunnelClient → Bool
has_timeout c = elim c.timeout [ none ↦ false | some t ↦ true ]

unfoldable pub set_timeout : Option ℕ → TunnelClient → TunnelClient
set_timeout timeout c = record c { timeout = timeout }

unfoldable pub from_hex : Primitives → Bytes → Bytes × ℕ → Result TunnelClient
unfolding parse_public_key_hex new
from_hex p server_pubkey_hex target_addr = do
  key ← parse_public_key_hex p server_pubkey_hex
  ok (new key target_addr)

unfoldable pub server_pubkey_hex : Primitives → TunnelClient → Bytes
server_pubkey_hex p c = p.hex_encode c.server_pubkey
