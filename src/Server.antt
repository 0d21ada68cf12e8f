-- ===== src/Server.antt =====
-- server.rs: `TunnelServer`, its builder and accessors, and what `run` does to its counter.
pub mod Handshake
pub mod Session
pub mod Capacity
pub mod Connection
mod Tests
mod UnitTests
use noise_tunnel_rs.Base.{
  ℕ, ◌≡◌, ◌+◌, ◌-◌, ◌%◌, ◌^◌, Bool, true, false, Option, none, some, ltb, leb, ◌==◌,
}
use noise_tunnel_rs.Base.Bytes.{Bytes}
use noise_tunnel_rs.Crypto.Primitives.{Primitives}
use noise_tunnel_rs.Crypto.Keys.{KeyPair, from_private_hex, public_key_hex}
use noise_tunnel_rs.Error.{Result, ok, ◌>>=◌}
use noise_tunnel_rs.Protocol.Transcript.{protocol_name}

-- An address and a port; the counter is a `usize` of 64 bits.
pub record TunnelServer : Type 0 where
  pub keypair : KeyPair
  pub bind_addr : Bytes × ℕ
  pub max_connections : Option ℕ
  pub active_connections : ℕ
  pub prologue : Bytes

unfoldable pub new : KeyPair → Bytes × ℕ → TunnelServer
new keypair bind_addr = record {
  keypair = keypair;
  bind_addr = bind_addr;
  max_connections = none;
  active_connections = 0;
  prologue = protocol_name;
}

unfoldable pub from_hex : Primitives → Bytes → Bytes × ℕ → Result TunnelServer
unfolding from_private_hex new
from_hex p private_key_hex bind_addr = do
  keypair ← from_private_hex p private_key_hex
  ok (new keypair bind_addr)

unfoldable pub server_public_key_hex : Primitives → TunnelServer → Bytes
unfolding public_key_hex
server_public_key_hex p s = public_key_hex p s.keypair

unfoldable pub with_max_connections : ℕ → TunnelServer → TunnelServer
with_max_connections max s = record s { max_connections = some max }

unfoldable pub with_prologue : Bytes → TunnelServer → TunnelServer
with_prologue prologue s = record s { prologue = prologue }

-- A text is its bytes.
unfoldable pub with_prologue_str : Bytes → TunnelServer → TunnelServer
unfolding with_prologue
with_prologue_str prologue s = with_prologue prologue s

unfoldable pub has_active_connections : TunnelServer → Bool
has_active_connections s = ltb 0 s.active_connections

unfoldable pub is_idle : TunnelServer → Bool
is_idle s = s.active_connections == 0

unfoldable pub is_at_capacity : TunnelServer → Bool
is_at_capacity s = elim s.max_connections [ none ↦ false | some max ↦ leb max s.active_connections ]

-- `max.saturating_sub(current)`.
unfoldable pub available_capacity : TunnelServer → Option ℕ
available_capacity s = elim s.max_connections [
  | none ↦ none
  | some max ↦ some (max - s.active_connections)
]

unfoldable pub reset_connections : TunnelServer → TunnelServer
reset_connections s = record s { active_connections = 0 }

-- `counter.fetch_add(1, ..)` and `counter.fetch_sub(1, ..)` wrap around.
unfoldable pub fetch_add : TunnelServer → TunnelServer
fetch_add s = record s { active_connections = (s.active_connections + 1) % 2 ^ 64 }

unfoldable pub fetch_sub : TunnelServer → TunnelServer
fetch_sub s = record s { active_connections = (s.active_connections + (2 ^ 64 - 1)) % 2 ^ 64 }

-- The server with its tasks: whether the accept loop has passed the test of the limit and has not
-- counted the client yet, and how many handlers are counted and have not ended.
pub record Listener : Type 0 where
  pub server : TunnelServer
  pub admitting : Bool
  pub running : ℕ

-- One atomic action of the accept loop or of a handler, in any order.
pub data Step : Listener → Listener → Type 0 where
  -- `accept` returned a client and the counter was loaded: over the limit it is dropped.
  turn_away : {l : Listener} → l.admitting ≡ false → is_at_capacity l.server ≡ true → Step l l
  admit :
      {l : Listener}
      → l.admitting ≡ false
      → is_at_capacity l.server ≡ false
      → Step l (record l { admitting = true })
  -- The client is counted and its handler spawned.
  spawn :
      {l : Listener}
      → l.admitting ≡ true
      → Step l
          (record l { server = fetch_add l.server; admitting = false; running = l.running + 1 })
  -- A handler has returned, with or without an error.
  finish :
      {l : Listener} {n : ℕ}
      → l.running ≡ n + 1
      → Step l (record l { server = fetch_sub l.server; running = n })

-- Any number of actions.
pub data Reach : Listener → Listener → Type 0 where
  here : {l : Listener} → Reach l l
  next : {l m n : Listener} → Step l m → Reach m n → Reach l n
