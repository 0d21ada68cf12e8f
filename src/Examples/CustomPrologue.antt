-- ===== src/Examples/CustomPrologue.antt =====
-- examples/custom_prologue.rs
pub mod Runs
use noise_tunnel_rs.Base.{ℕ, Option, codes}
use noise_tunnel_rs.Base.Bytes.{Bytes}
use noise_tunnel_rs.Error.{Result, ok, is_ok, reject_if, panicked, ◌>>=◌, ◌>>◌}
use noise_tunnel_rs.Crypto.Primitives.{Primitives}
use noise_tunnel_rs.Crypto.Keys.{generate}
use noise_tunnel_rs.Protocol.Stream.{Stream}
use noise_tunnel_rs.Server.{TunnelServer}
use noise_tunnel_rs.Server
use noise_tunnel_rs.Client
use noise_tunnel_rs.Client.Message.{send_secure_message}

abbrev pub server_prologue : Bytes
server_prologue = codes "FinansTjeneste_v2"

abbrev pub invalid_prologue : Bytes
invalid_prologue = codes "AnnenTjeneste_v1"

abbrev pub valid_message : Bytes
valid_message = codes "Autentisert transaksjonsordre"

abbrev pub invalid_message : Bytes
invalid_message = codes "Ugyldig kontekstforsok"

-- `network` gives the connections of the two clients once the server runs, and the secrets are what
-- the generator gives for the server's key pair and for the two handshakes. The result is the reply
-- that is printed.
unfoldable pub custom_prologue :
    Primitives
    → Bytes
    → Bytes
    → Bytes
    → Bytes × ℕ
    → (TunnelServer → Option Stream × Option Stream)
    → Result Bytes
unfolding generate Server.new Server.with_prologue_str Client.new Client.with_prologue_str
    send_secure_message
custom_prologue p server_secret valid_secret invalid_secret server_addr network = do
  let server_keypair = generate p server_secret
  let server_pubkey = server_keypair.public_key
  let server = Server.with_prologue_str server_prologue (Server.new server_keypair server_addr)
  let valid_client = Client.with_prologue_str server_prologue (Client.new server_pubkey server_addr)
  reply ← send_secure_message p valid_client valid_secret (network server).0 0 valid_message
  let invalid_client =
      Client.with_prologue_str invalid_prologue (Client.new server_pubkey server_addr)
  let result =
      send_secure_message p invalid_client invalid_secret (network server).1 0 invalid_message
  reject_if (is_ok result) panicked
  ok reply
