-- ===== src/Examples/CustomPrologue/Runs.antt =====
-- examples/custom_prologue.rs: the example runs to its end.
use noise_tunnel_rs.Base.{
  ◌⊎◌, inl, inr, ◌-◌, ◌++◌, codes, arith, ℕ, some, [], ◌≡◌, ◌≢◌, length, refl, ap,
}
use noise_tunnel_rs.Base.Bytes.{Bytes}
use noise_tunnel_rs.Base.Utf8.{from_utf8}
use noise_tunnel_rs.Server.Connection.{handle_client_with_prologue}
use noise_tunnel_rs.Tunnel.Message.{exchange-handle_client}
use noise_tunnel_rs.Tunnel.Refusal.{InitCollides, InitMisopens, Refused, exchange-Refused}
use noise_tunnel_rs.Error.{Result, ok, err, unexpected_eof}
use noise_tunnel_rs.Crypto.Primitives.{Primitives}
use noise_tunnel_rs.Crypto.Keys.{KeyPair, generate}
use noise_tunnel_rs.Protocol.Stream.{Stream, connection}
use noise_tunnel_rs.Client.{TunnelClient}
use noise_tunnel_rs.Client
use noise_tunnel_rs.Server
use noise_tunnel_rs.Client.Message.{exchange}
use noise_tunnel_rs.Client.Message.Exchange.{send_secure_message-exchange}
use noise_tunnel_rs.Tunnel.Agreement.{Honest, Promises}
use noise_tunnel_rs.Examples.CustomPrologue.{
  custom_prologue, server_prologue, invalid_prologue, valid_message, invalid_message,
}

-- The key pair and the clients of the example.
module _ (p : Primitives) (server_secret : Bytes) (server_addr : Bytes × ℕ) where
  abbrev pub server_keypair : KeyPair
  unfolding generate
  server_keypair = generate p server_secret

  abbrev pub valid_client : TunnelClient
  unfolding Client.new Client.with_prologue_str generate
  valid_client =
      Client.with_prologue_str server_prologue
        (Client.new (generate p server_secret).public_key server_addr)

  abbrev pub invalid_client : TunnelClient
  unfolding Client.new Client.with_prologue_str generate
  invalid_client =
      Client.with_prologue_str invalid_prologue
        (Client.new (generate p server_secret).public_key server_addr)

prologues_differ : invalid_prologue ≢ server_prologue
prologues_differ e = cc e

module _ (p : Primitives) (laws : Promises p)
    (server_secret valid_secret invalid_secret ephemeral other_ephemeral : Bytes)
    (server_addr : Bytes × ℕ) (server_size : length server_secret ≡ 32)
    (valid_size : length valid_secret ≡ 32) (invalid_size : length invalid_secret ≡ 32)
    (ephemeral_size : length ephemeral ≡ 32) where
  valid-Honest :
      Honest p
        (valid_client p server_secret server_addr)
        (server_keypair p server_secret server_addr)
        server_prologue
        valid_secret
        ephemeral
  unfolding server_keypair valid_client
  valid-Honest = record {
    own_key = refl;
    known_key = refl;
    same_prologue = refl;
    static_size = server_size;
    client_size = valid_size;
    server_size = ephemeral_size;
  }

  custom_prologue_lem :
      (server_bytes reply : Bytes) (t t' : Stream)
      → exchange p
          (valid_client p server_secret server_addr)
          valid_secret
          valid_message
          (connection server_bytes [] 1000)
        ≡ (t, ok reply)
      → exchange p
          (invalid_client p server_secret server_addr)
          invalid_secret
          invalid_message
          (connection [] [] 1000)
        ≡ (t', err unexpected_eof)
      → custom_prologue p server_secret valid_secret invalid_secret server_addr
          (λ _. (some (connection server_bytes [] 1000), some (connection [] [] 1000)))
        ≡ ok reply
  unfolding valid_client invalid_client custom_prologue Server.new Server.with_prologue_str
      Client.new Client.with_prologue_str generate
  custom_prologue_lem server_bytes reply t t' e e' =
      let sent =
        send_secure_message-exchange p (valid_client p server_secret server_addr) valid_secret
          valid_message (connection server_bytes [] 1000) 0 refl in
      let refused =
        send_secure_message-exchange p (invalid_client p server_secret server_addr) invalid_secret
          invalid_message (connection [] [] 1000) 0 refl in
      rw
        (
          sent,
          refused,
          ap (λ (r : Stream × Result Bytes). r.1) e,
          ap (λ (r : Stream × Result Bytes). r.1) e',
        )
        refl

  -- If the crates keep their promises and the secrets are 32 bytes, there are bytes for each
  -- direction such that the first client, given the server's bytes, sends the client's and the
  -- server, given the client's bytes, sends the server's and ends without an error. And with that
  -- connection for the first client and no bytes for the second, the example runs to its end with
  -- the message behind the server's greeting as its reply, the server having refused the second
  -- client's first frame; unless the two hashed strings of the second handshake collide, or the box
  -- of the second client opens at the server with another hash than it was sealed with.
  pub custom_prologue-runs :
      (next_reading : ℕ → ℕ) (now : ℕ)
      → (client_bytes server_bytes : Bytes) × ((exchange p
            (valid_client p server_secret server_addr)
            valid_secret
            valid_message
            (connection server_bytes [] 1000)).0.outgoing
          ≡ client_bytes)
        × (handle_client_with_prologue p next_reading
              (server_keypair p server_secret server_addr)
              server_prologue
              ephemeral
              2
              now
              (connection client_bytes [] 1000)
            ≡ some (connection [] server_bytes (1000 - length server_bytes), ok tt))
        × (InitCollides p
              (invalid_client p server_secret server_addr)
              (server_keypair p server_secret server_addr)
              server_prologue
              invalid_secret
            ⊎ (InitMisopens p
                  (invalid_client p server_secret server_addr)
                  (server_keypair p server_secret server_addr)
                  server_prologue
                  invalid_secret
                ⊎ (Refused p
                      (invalid_client p server_secret server_addr)
                      (server_keypair p server_secret server_addr)
                      server_prologue
                      invalid_secret
                      invalid_message
                      next_reading
                      other_ephemeral
                      2
                      now
                      1000
                      1000
                    × (custom_prologue p server_secret valid_secret invalid_secret server_addr (λ _.
                          (some (connection server_bytes [] 1000), some (connection [] [] 1000)))
                        ≡ ok (codes "Server mottok: " ++ valid_message)))))
  unfolding from_utf8 valid_client invalid_client server_keypair
  custom_prologue-runs next_reading now =
      let (client_bytes, server_bytes, talked, handled) =
        exchange-handle_client p laws (valid_client p server_secret server_addr)
          (server_keypair p server_secret server_addr) server_prologue valid_secret ephemeral
          valid-Honest next_reading valid_message 2 now 1000 refl (omega arith) (omega arith)
          (omega arith) in
      let public_size = laws.agrees.length-x25519_public server_secret server_size in
      (
        client_bytes,
        server_bytes,
        ap (λ (r : Stream × Result Bytes). r.0.outgoing) talked,
        handled,
        elim (exchange-Refused p (invalid_client p server_secret server_addr)
            (server_keypair p server_secret server_addr) server_prologue invalid_secret laws
            invalid_size public_size public_size (inl prologues_differ) invalid_message next_reading
            other_ephemeral 2 now 1000 1000 (omega arith)) [
              | inl collides ↦ inl collides
              | inr (inl opens) ↦ inr (inl opens)
              | inr (inr (hello_bytes, unanswered, refused)) ↦ inr (
                  inr (
                    (hello_bytes, unanswered, refused),
                    custom_prologue_lem server_bytes _ _ _ talked unanswered,
                  ))
            ],
      )
