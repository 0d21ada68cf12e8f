-- ===== src/Main.antt =====
-- main.rs: the subcommands with their options, and what `main` starts for each.
pub mod Usage
mod Tests
use noise_tunnel_rs.Base.{ℕ, ◌*◌, Bool, Option, none, some, if◌then◌else◌}
use noise_tunnel_rs.Base.Bytes.{Bytes}
use noise_tunnel_rs.Error.{
  Result, ok, ◌>>=◌, context, private_key_not_loaded, public_key_not_loaded,
}
use noise_tunnel_rs.Crypto.Primitives.{Primitives}
use noise_tunnel_rs.Crypto.Keys.{
  KeyPair, generate, from_private_hex, parse_public_key_hex, private_key_hex, public_key_hex,
}
use noise_tunnel_rs.Server.{TunnelServer, with_max_connections}
use noise_tunnel_rs.Server
use noise_tunnel_rs.Client.{TunnelClient, with_timeout}
use noise_tunnel_rs.Client

pub record ServerArgs : Type 0 where
  pub bind : Bytes × ℕ
  pub private_key : Option Bytes
  pub prologue : Option Bytes
  pub max_connections : Option ℕ

-- `timeout` is in seconds.
pub record ClientArgs : Type 0 where
  pub connect : Bytes × ℕ
  pub server_pubkey : Bytes
  pub message : Bytes
  pub interactive : Bool
  pub prologue : Option Bytes
  pub timeout : Option ℕ

pub data Commands : Type 0 where
  keygen : Commands
  server : ServerArgs → Commands
  client : ClientArgs → Commands
  verify bench : Commands

-- What `main` prints or calls in the end: the private and the public key of `keygen`;
-- `server.run()`, with the keys that were printed if they are new; a session; a message;
-- `run_security_verification`; `run_benchmark_suite`.
pub data Launch : Type 0 where
  print_keys : Bytes → Bytes → Launch
  run_server : Option (Bytes × Bytes) → TunnelServer → Launch
  start_interactive_session : TunnelClient → Launch
  send_secure_message : TunnelClient → Bytes → Launch
  run_security_verification run_benchmark_suite : Launch

-- `if let Some(a) = option { b = change(a, b) }`.
abbrev pub if_some : {A B : Type 0} → Option A → (A → B → B) → B → B
if_some none change b = b
if_some (some a) change b = change a b

module _ (p : Primitives) (secret : Bytes) where
  -- The server's key pair, and the texts that were printed of a new one.
  unfoldable pub server_keypair : Option Bytes → Result (Option (Bytes × Bytes) × KeyPair)
  unfolding generate from_private_hex private_key_hex public_key_hex
  server_keypair (some hex_str) = do
    keypair ← context private_key_not_loaded (from_private_hex p hex_str)
    ok (none, keypair)
  server_keypair none =
      let generated = generate p secret in
      ok (some (private_key_hex p generated, public_key_hex p generated), generated)

  -- `secret` is what the generator gives for a new key pair.
  unfoldable pub main : Commands → Result Launch
  unfolding generate private_key_hex public_key_hex server_keypair Server.new
      Server.with_prologue_str with_max_connections parse_public_key_hex Client.new
      Client.with_prologue_str with_timeout
  main keygen =
      let keypair = generate p secret in
      ok (print_keys (private_key_hex p keypair) (public_key_hex p keypair))
  main (server args) = do
    (printed, keypair) ← server_keypair args.private_key
    let server = Server.new keypair args.bind
    let server = if_some args.prologue Server.with_prologue_str server
    let server = if_some args.max_connections with_max_connections server
    ok (run_server printed server)
  main (client args) = do
    server_pubkey_arr ← context public_key_not_loaded (parse_public_key_hex p args.server_pubkey)
    let client = Client.new server_pubkey_arr args.connect
    let client = if_some args.prologue Client.with_prologue_str client
    let client = if_some args.timeout (λ secs. with_timeout (secs * 1_000_000_000)) client
    ok (
        if args.interactive
        then start_interactive_session client
        else send_secure_message client args.message)
  main verify = ok run_security_verification
  main bench = ok run_benchmark_suite
