-- ===== src/Examples/Tests.antt =====
-- The examples with the toy primitives.
use noise_tunnel_rs.Base.{
  ℕ, ◌+◌, ◌-◌, ◌≡◌, ◌⊎◌, ◌++◌, [], map, some, length, replicate, codes, arith, refl,
}
use noise_tunnel_rs.Base.Bytes.{Bytes}
use noise_tunnel_rs.Error.{ok}
use noise_tunnel_rs.Crypto.Toy.{toy}
use noise_tunnel_rs.Protocol.Stream.{connection}
use noise_tunnel_rs.Client.Message.{exchange}
use noise_tunnel_rs.Server.Connection.{handle_client_with_prologue}
use noise_tunnel_rs.Tunnel.Toy.{toy-Promises}
use noise_tunnel_rs.Tunnel.Refusal.{InitCollides, InitMisopens, Refused}
use noise_tunnel_rs.Examples.CustomPrologue.{
  custom_prologue, server_prologue, valid_message, invalid_message,
}
use noise_tunnel_rs.Examples.CustomPrologue.Runs.{
  server_keypair, valid_client, invalid_client, custom_prologue-runs,
}
use noise_tunnel_rs.Examples.SecureChat.{chat_messages, secure_chat}
use noise_tunnel_rs.Examples.SecureChat.Runs.{AllTalked, visits, secure_chat-runs}

abbrev addr : Bytes × ℕ
addr = (codes "127.0.0.1", 40_000)

abbrev tick : ℕ → ℕ
tick now = now + 10

abbrev secret : ℕ → Bytes
secret i = replicate 32 i

custom_prologue-runs_example :
    (client_bytes server_bytes : Bytes) × ((exchange toy
        (valid_client toy (secret 1) addr)
        (secret 2)
        valid_message
        (connection server_bytes [] 1000)).0.outgoing
      ≡ client_bytes)
    × (handle_client_with_prologue toy tick
          (server_keypair toy (secret 1) addr)
          server_prologue
          (secret 4)
          2
          0
          (connection client_bytes [] 1000)
        ≡ some (connection [] server_bytes (1000 - length server_bytes), ok tt))
    × (InitCollides toy
          (invalid_client toy (secret 1) addr)
          (server_keypair toy (secret 1) addr)
          server_prologue
          (secret 3)
        ⊎ (InitMisopens toy
              (invalid_client toy (secret 1) addr)
              (server_keypair toy (secret 1) addr)
              server_prologue
              (secret 3)
            ⊎ (Refused toy
                  (invalid_client toy (secret 1) addr)
                  (server_keypair toy (secret 1) addr)
                  server_prologue
                  (secret 3)
                  invalid_message
                  tick
                  (secret 5)
                  2
                  0
                  1000
                  1000
                × (custom_prologue toy
                      (secret 1)
                      (secret 2)
                      (secret 3)
                      addr
                      (λ _. (some (connection server_bytes [] 1000), some (connection [] [] 1000)))
                    ≡ ok (codes "Server mottok: " ++ valid_message)))))
custom_prologue-runs_example =
    custom_prologue-runs toy toy-Promises (secret 1) (secret 2) (secret 3) (secret 4) (secret 5)
      addr refl refl refl refl tick 0

abbrev instant : ℕ → ℕ
instant i = 10

length-secret : (i : ℕ) → length (secret i) ≡ 32
length-secret i = refl

secure_chat-runs_example :
    (client_bytes server_bytes : ℕ → Bytes) × AllTalked toy
      (secret 1)
      addr
      secret
      secret
      tick
      0
      client_bytes
      server_bytes
      0
      chat_messages
    × (secure_chat toy (secret 1) addr (λ _. visits secret instant server_bytes)
        ≡ ok (map (λ (m : Bytes). codes "Server mottok: " ++ m) chat_messages))
secure_chat-runs_example =
    secure_chat-runs toy toy-Promises (secret 1) addr secret secret instant tick 0 refl
      length-secret length-secret (λ i. omega arith)
