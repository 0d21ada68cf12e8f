-- ===== src/Verify/Passes.antt =====
-- verify.rs: the self-checks pass.
use noise_tunnel_rs.Base.{ℕ, ◌-◌, ◌++◌, some, length, ap}
use noise_tunnel_rs.Base.Bytes.{Bytes}
use noise_tunnel_rs.Base.Utf8.{from_utf8}
use noise_tunnel_rs.Error.{Result}
use noise_tunnel_rs.Crypto.Primitives.{ComparesTags}
use noise_tunnel_rs.Crypto.Keys.{generate}
use noise_tunnel_rs.Protocol.Stream.{Stream, connection}
use noise_tunnel_rs.Server.{TunnelServer}
use noise_tunnel_rs.Server
use noise_tunnel_rs.Client.{TunnelClient}
use noise_tunnel_rs.Client
use noise_tunnel_rs.Client.Message.{exchange}
use noise_tunnel_rs.Client.Message.Exchange.{send_secure_message-exchange}
use noise_tunnel_rs.Server.Connection.{handle_client_with_prologue}
use noise_tunnel_rs.Tunnel.Agreement.{Honest, Promises}
use noise_tunnel_rs.Tunnel.Message.{exchange-handle_client}
use noise_tunnel_rs.Verify.{
  secret_test_message, test_live_tunnel_handshake, run_security_verification,
}
use noise_tunnel_rs.Verify.Tampering.{test_tampering-ok}
use noise_tunnel_rs.Base.{◌≡◌, [], replicate, codes, arith, refl}
use noise_tunnel_rs.Error.{ok}
use noise_tunnel_rs.Crypto.Primitives.{Primitives, SealsMessages}
use noise_tunnel_rs.Crypto.Cipher.{current_nonce}
use noise_tunnel_rs.Crypto.Cipher
use noise_tunnel_rs.Crypto.Cipher.Nonces.{encrypt_succeeds}
use noise_tunnel_rs.Verify.{test_replay_attack_rejection, test_nonce_progression}

test_replay-ok : test_replay_attack_rejection ≡ ok tt
unfolding test_replay_attack_rejection
test_replay-ok = refl

-- If the AEAD seals messages of legal size, the self-check of the nonces passes.
test_nonce-ok : (p : Primitives) → SealsMessages p → test_nonce_progression p ≡ ok tt
unfolding test_nonce_progression Cipher.new current_nonce
test_nonce-ok p sealing =
    let (_, first, _, _) =
      encrypt_succeeds p (Cipher.new (replicate 32 0x33)) (codes "msg 1") [] sealing (omega arith)
        (omega arith) in
    let (_, second, _, _) =
      encrypt_succeeds p (record { key = replicate 32 0x33; nonce = 1 }) (codes "msg 2") [] sealing
        (omega arith) (omega arith) in
    ground (arith, first, second)

-- The two ends of the live check.
module _ (p : Primitives) (server_secret : Bytes) (local_addr : Bytes × ℕ) where
  abbrev pub live_server : TunnelServer
  unfolding Server.new
  live_server =
      Server.new
        (record { private_key = server_secret; public_key = p.x25519_public server_secret })
        local_addr

  abbrev pub live_client : TunnelClient
  unfolding Client.new
  live_client = Client.new (p.x25519_public server_secret) local_addr

module _ (p : Primitives) (laws : Promises p) (compares : ComparesTags p)
    (server_secret client_secret ephemeral : Bytes) (local_addr : Bytes × ℕ)
    (server_size : length server_secret ≡ 32) (client_size : length client_secret ≡ 32)
    (ephemeral_size : length ephemeral ≡ 32) where
  live-Honest :
      Honest p
        (live_client p server_secret local_addr)
        (live_server p server_secret local_addr).keypair
        (live_server p server_secret local_addr).prologue
        client_secret
        ephemeral
  unfolding live_server live_client
  live-Honest = record {
    own_key = refl;
    known_key = refl;
    same_prologue = refl;
    static_size = server_size;
    client_size = client_size;
    server_size = ephemeral_size;
  }

  live-ok :
      (server_bytes : Bytes) (t : Stream)
      → exchange p
          (live_client p server_secret local_addr)
          client_secret
          secret_test_message
          (connection server_bytes [] 1000)
        ≡ (t, ok (codes "Server mottok: " ++ secret_test_message))
      → test_live_tunnel_handshake p server_secret client_secret local_addr
          (λ _. some (connection server_bytes [] 1000))
        ≡ ok tt
  unfolding test_live_tunnel_handshake live_client Server.new Client.new generate
  live-ok server_bytes t e =
      let sent =
        send_secure_message-exchange p (live_client p server_secret local_addr) client_secret
          secret_test_message (connection server_bytes [] 1000) 0 refl in
      rw (sent, ap (λ (r : Stream × Result Bytes). r.1) e) refl

  -- If the crates keep their promises and compare tags, and the secrets are 32 bytes, the whole
  -- self-verification passes against its own server: there are bytes for each direction such that
  -- the client of the live check, given the server's bytes, sends the client's, the server, given
  -- the client's bytes, sends the server's and ends without an error, and with that connection all
  -- four checks succeed.
  pub run_security_verification-ok :
      (next_reading : ℕ → ℕ) (now : ℕ)
      → (client_bytes server_bytes : Bytes) × ((exchange p
            (live_client p server_secret local_addr)
            client_secret
            secret_test_message
            (connection server_bytes [] 1000)).0.outgoing
          ≡ client_bytes)
        × (handle_client_with_prologue p next_reading
              (live_server p server_secret local_addr).keypair
              (live_server p server_secret local_addr).prologue
              ephemeral
              2
              now
              (connection client_bytes [] 1000)
            ≡ some (connection [] server_bytes (1000 - length server_bytes), ok tt))
        × (run_security_verification p server_secret client_secret local_addr
              (λ _. some (connection server_bytes [] 1000))
            ≡ ok tt)
  unfolding run_security_verification from_utf8
  run_security_verification-ok next_reading now =
      let (client_bytes, server_bytes, talked, handled) =
        exchange-handle_client p laws (live_client p server_secret local_addr)
          (live_server p server_secret local_addr).keypair
          (live_server p server_secret local_addr).prologue client_secret ephemeral live-Honest
          next_reading secret_test_message 2 now 1000 refl (omega arith) (omega arith)
          (omega arith) in
      let live = live-ok server_bytes _ talked in
      (
        client_bytes,
        server_bytes,
        ap (λ (r : Stream × Result Bytes). r.0.outgoing) talked,
        handled,
        rw
            (
              live,
              test_tampering-ok p compares laws.sealing,
              test_replay-ok,
              test_nonce-ok p laws.sealing,
            )
            refl,
      )
