-- ===== src/Verify/Tests.antt =====
-- The self-verification with the toy primitives.
use noise_tunnel_rs.Tunnel.Toy.{toy-Promises}
use noise_tunnel_rs.Base.{ℕ, ◌+◌, ◌-◌, ◌≡◌, [], some, length, replicate, codes, refl}
use noise_tunnel_rs.Base.Bytes.{Bytes}
use noise_tunnel_rs.Error.{ok}
use noise_tunnel_rs.Crypto.Toy.{toy, toy-ComparesTags}
use noise_tunnel_rs.Protocol.Stream.{connection}
use noise_tunnel_rs.Client.Message.{exchange}
use noise_tunnel_rs.Server.Connection.{handle_client_with_prologue}
use noise_tunnel_rs.Verify.{secret_test_message, run_security_verification}
use noise_tunnel_rs.Verify.Passes.{live_client, live_server, run_security_verification-ok}

abbrev addr : Bytes × ℕ
addr = (codes "127.0.0.1", 40_000)

abbrev tick : ℕ → ℕ
tick now = now + 10

abbrev ones : Bytes
ones = replicate 32 1

abbrev twos : Bytes
twos = replicate 32 2

abbrev threes : Bytes
threes = replicate 32 3

run_security_verification-ok_example :
    (client_bytes server_bytes : Bytes) × ((exchange toy
        (live_client toy threes addr)
        ones
        secret_test_message
        (connection server_bytes [] 1000)).0.outgoing
      ≡ client_bytes)
    × (handle_client_with_prologue toy tick
          (live_server toy threes addr).keypair
          (live_server toy threes addr).prologue
          twos
          2
          0
          (connection client_bytes [] 1000)
        ≡ some (connection [] server_bytes (1000 - length server_bytes), ok tt))
    × (run_security_verification toy threes ones addr (λ _. some (connection server_bytes [] 1000))
        ≡ ok tt)
run_security_verification-ok_example =
    run_security_verification-ok toy toy-Promises toy-ComparesTags threes ones twos addr refl refl
      refl tick 0
