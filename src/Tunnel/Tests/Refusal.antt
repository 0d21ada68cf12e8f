-- ===== src/Tunnel/Tests/Refusal.antt =====
-- A toy client of another application.
use noise_tunnel_rs.Tunnel.Toy.{toy-Promises}
use noise_tunnel_rs.Base.{◌⊎◌, ◌≢◌, inl, refl, replicate, codes, arith}
use noise_tunnel_rs.Crypto.Toy.{toy}
use noise_tunnel_rs.Client.{TunnelClient}
use noise_tunnel_rs.Tunnel.Refusal.{InitCollides, InitMisopens, Refused, exchange-Refused}
use noise_tunnel_rs.Tunnel.Tests.{client, server_keys, prologue, tick}

abbrev stranger : TunnelClient
stranger = record client { prologue = codes "AnnenTjeneste_v1" }

stranger-differs : stranger.prologue ≢ prologue
stranger-differs e = cc e

exchange-Refused_example :
    InitCollides toy stranger server_keys prologue (replicate 32 1)
    ⊎ (InitMisopens toy stranger server_keys prologue (replicate 32 1)
        ⊎ Refused toy stranger server_keys prologue
            (replicate 32 1)
            (codes "hi")
            tick
            (replicate 32 2)
            5
            0
            100
            100)
exchange-Refused_example =
    exchange-Refused toy stranger server_keys prologue (replicate 32 1) toy-Promises refl refl refl
      (inl stranger-differs) (codes "hi") tick (replicate 32 2) 5 0 100 100 (omega arith)
