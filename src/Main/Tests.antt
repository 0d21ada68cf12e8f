-- ===== src/Main/Tests.antt =====
-- Runs of the subcommands with the toy primitives.
use noise_tunnel_rs.Base.{
  ℕ, ◌+◌, ◌≡◌, ◌≤◌, ◌*◌, [], false, none, some, replicate, codes, arith, refl,
}
use noise_tunnel_rs.Base.Bytes.{Bytes, IsBytes}
use noise_tunnel_rs.Base.Utf8.{from_utf8}
use noise_tunnel_rs.Error.{ok}
use noise_tunnel_rs.Crypto.Toy.{
  toy, hex, toy-AgreesOnSecrets, toy-ExpandsKeys, toy-SealsMessages, toy-EncodesHex,
  toy-KeysAreBytes,
}
use noise_tunnel_rs.Crypto.Keys.{KeyPair, from_private_hex, private_key_hex, public_key_hex}
use noise_tunnel_rs.Crypto.Keys.Hex.{from_private_hex-private_key_hex}
use noise_tunnel_rs.Server.{TunnelServer}
use noise_tunnel_rs.Client.{TunnelClient}
use noise_tunnel_rs.Main.{
  ServerArgs, ClientArgs, keygen, server, client, print_keys, run_server, send_secure_message, main,
}
use noise_tunnel_rs.Main.Usage.{Fair, Exchanged, keygen-exchange}

abbrev secret : Bytes
secret = replicate 32 3

abbrev keys : KeyPair
keys = record { private_key = secret; public_key = secret }

secret-IsBytes : IsBytes secret
secret-IsBytes = ground arith

toy-Fair : Fair toy secret (replicate 32 1) (replicate 32 2)
toy-Fair = record {
  promises = record {
    agrees = toy-AgreesOnSecrets;
    expands = toy-ExpandsKeys;
    sealing = toy-SealsMessages;
  };
  encodes = toy-EncodesHex;
  key_bytes = toy-KeysAreBytes;
  size = refl;
  bytes = secret-IsBytes;
  client_size = refl;
  server_size = refl;
}

from_private_hex-private_key_hex_example : from_private_hex toy (private_key_hex toy keys) ≡ ok keys
from_private_hex-private_key_hex_example =
    from_private_hex-private_key_hex toy toy-EncodesHex keys refl secret-IsBytes refl

abbrev server_args : ServerArgs
server_args = record {
  bind = (codes "127.0.0.1", 8080);
  private_key = some (hex secret);
  prologue = some (codes "v2");
  max_connections = some 4;
}

abbrev client_args : ClientArgs
client_args = record {
  connect = (codes "127.0.0.1", 8080);
  server_pubkey = hex secret;
  message = codes "hi";
  interactive = false;
  prologue = some (codes "v2");
  timeout = some 5;
}

abbrev tick : ℕ → ℕ
tick now = now + 10

in_time : (secs : ℕ) → client_args.timeout ≡ some secs → 2_000_000_000 ≤ secs * 1_000_000_000
in_time secs e = ground (arith, e)

keygen-exchange_example :
    (main toy secret keygen ≡ ok (print_keys (private_key_hex toy keys) (public_key_hex toy keys)))
    × (s : TunnelServer) × (main toy [] (server server_args) ≡ ok (run_server none s))
    × (c : TunnelClient) × (main toy [] (client client_args)
        ≡ ok (send_secure_message c (codes "hi")))
    × Exchanged toy (replicate 32 1) (replicate 32 2) tick 2 0 2_000_000_000 300 (codes "hi") s c
unfolding from_utf8 private_key_hex public_key_hex
keygen-exchange_example =
    keygen-exchange toy secret (replicate 32 1) (replicate 32 2) toy-Fair [] server_args client_args
      tick 2 0 2_000_000_000 300 refl (λ e. ground (arith, e)) refl refl refl refl in_time refl
      (omega arith) (omega arith) (omega arith)
