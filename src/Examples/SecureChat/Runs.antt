-- ===== src/Examples/SecureChat/Runs.antt =====
-- examples/secure_chat.rs: every message is answered.
use noise_tunnel_rs.Base.{
  get_or, ℕ, List, some, [], ◌∷◌, ◌≡◌, ◌+◌, ◌-◌, ◌*◌, ◌≤◌, ◌++◌, map, codes, length, refl, arith,
}
use noise_tunnel_rs.Base.Bytes.{Bytes}
use noise_tunnel_rs.Base.Utf8.{from_utf8}
use noise_tunnel_rs.Error.{ok}
use noise_tunnel_rs.Crypto.Primitives.{Primitives}
use noise_tunnel_rs.Crypto.Keys.{KeyPair, generate}
use noise_tunnel_rs.Protocol.Stream.{connection}
use noise_tunnel_rs.Client.{TunnelClient, with_timeout}
use noise_tunnel_rs.Client
use noise_tunnel_rs.Server
use noise_tunnel_rs.Client.Message.Timeout.{send_secure_message-exchange}
use noise_tunnel_rs.Client.Message.{exchange, send_secure_message}
use noise_tunnel_rs.Server.Connection.{handle_client_with_prologue}
use noise_tunnel_rs.Tunnel.Agreement.{Honest, Promises}
use noise_tunnel_rs.Tunnel.Message.{exchange-handle_client}
use noise_tunnel_rs.Examples.SecureChat.{
  Visit, chat_prologue, chat_messages, chat_loop, secure_chat,
}

-- The key pair and the client of the example.
module _ (p : Primitives) (server_secret : Bytes) (server_addr : Bytes × ℕ) where
  abbrev pub server_keypair : KeyPair
  unfolding generate
  server_keypair = generate p server_secret

  abbrev pub chat_client : TunnelClient
  unfolding Client.new Client.with_prologue_str generate with_timeout
  chat_client = with_timeout (5 * 1_000_000_000) (
      Client.with_prologue_str chat_prologue
        (Client.new (generate p server_secret).public_key server_addr))

-- The connections that the server's answers make.
abbrev pub visits : (ℕ → Bytes) → (ℕ → ℕ) → (ℕ → Bytes) → ℕ → Visit
visits secret took server_bytes i = record {
  stream = some (connection (server_bytes i) [] 1000);
  secret = secret i;
  took = took i;
}

module _ (p : Primitives) (server_secret : Bytes) (server_addr : Bytes × ℕ)
    (secret ephemeral : ℕ → Bytes) (next_reading : ℕ → ℕ) (now : ℕ) where
  -- The i-th message and its answer, from the first byte to the last.
  abbrev pub Talked : ℕ → Bytes → Bytes → Bytes → Type 0
  Talked i message client_bytes server_bytes =
      (exchange p (chat_client p server_secret server_addr) (secret i) message
          (connection server_bytes [] 1000)
        ≡ (
          connection [] client_bytes (1000 - length client_bytes),
          ok (codes "Server mottok: " ++ message),
        ))
      × (handle_client_with_prologue p next_reading (server_keypair p server_secret server_addr)
            chat_prologue (ephemeral i) 2 now (connection client_bytes [] 1000)
          ≡ some (connection [] server_bytes (1000 - length server_bytes), ok tt))

  -- All messages, from the i-th on.
  abbrev pub AllTalked : (ℕ → Bytes) → (ℕ → Bytes) → ℕ → List Bytes → Type 0
  AllTalked client_bytes server_bytes i [] = Unit
  AllTalked client_bytes server_bytes i (m ∷ ms) =
      Talked i m (client_bytes i) (server_bytes i) × AllTalked client_bytes server_bytes (i + 1) ms

module _ (p : Primitives) (laws : Promises p) (server_secret : Bytes) (server_addr : Bytes × ℕ)
    (secret ephemeral : ℕ → Bytes) (took : ℕ → ℕ) (next_reading : ℕ → ℕ) (now : ℕ)
    (server_size : length server_secret ≡ 32) (secret_size : (i : ℕ) → length (secret i) ≡ 32)
    (ephemeral_size : (i : ℕ) → length (ephemeral i) ≡ 32)
    (in_time : (i : ℕ) → took i ≤ 5_000_000_000) where
  chat-Honest :
      (i : ℕ)
      → Honest p
          (chat_client p server_secret server_addr)
          (server_keypair p server_secret server_addr)
          chat_prologue
          (secret i)
          (ephemeral i)
  unfolding server_keypair chat_client
  chat-Honest i = record {
    own_key = refl;
    known_key = refl;
    same_prologue = refl;
    static_size = server_size;
    client_size = secret_size i;
    server_size = ephemeral_size i;
  }

  -- Within the timeout the result is the exchange's.
  sent_in_time :
      (i : ℕ) (message client_bytes server_bytes : Bytes)
      → Talked p server_secret server_addr secret ephemeral next_reading now i message client_bytes
          server_bytes
      → send_secure_message p
          (chat_client p server_secret server_addr)
          (secret i)
          (some (connection server_bytes [] 1000))
          (took i)
          message
        ≡ ok (codes "Server mottok: " ++ message)
  unfolding chat_client
  sent_in_time i message client_bytes server_bytes (talked, _) =
      send_secure_message-exchange p (chat_client p server_secret server_addr) (secret i) message _
        _ (took i) _ (λ dur e. ground (arith, in_time i, e)) talked

  chat_loop-replies :
      (client_bytes server_bytes : ℕ → Bytes) (i : ℕ) (messages : List Bytes)
      → AllTalked p server_secret server_addr secret ephemeral next_reading now client_bytes
          server_bytes i messages
      → chat_loop p
          (chat_client p server_secret server_addr)
          (visits secret took server_bytes)
          i
          messages
        ≡ ok (map (λ (m : Bytes). codes "Server mottok: " ++ m) messages)
  unfolding chat_loop
  chat_loop-replies client_bytes server_bytes i [] talked = refl
  chat_loop-replies client_bytes server_bytes i (m ∷ ms) (talked, later) =
      rw
        (
          sent_in_time i m (client_bytes i) (server_bytes i) talked,
          chat_loop-replies client_bytes server_bytes (i + 1) ms later,
        )
        refl

  -- A message of the example, by its place.
  abbrev message_at : ℕ → Bytes
  message_at i = get_or chat_messages i []

  talk :
      (i : ℕ) (message : Bytes)
      → from_utf8 message ≡ some message
      → length message ≤ 800
      → (client_bytes server_bytes : Bytes) × Talked p server_secret server_addr secret ephemeral
          next_reading now i message client_bytes server_bytes
  talk i message text small =
      let (client_bytes, server_bytes, talked, handled) =
        exchange-handle_client p laws (chat_client p server_secret server_addr)
          (server_keypair p server_secret server_addr) chat_prologue (secret i) (ephemeral i)
          (chat-Honest i) next_reading message 2 now 1000 text (omega (arith, small)) (omega arith)
          (omega (arith, small)) in
      (client_bytes, server_bytes, (talked, handled))

  -- If the crates keep their promises, all secrets are 32 bytes and no message takes longer than the
  -- five seconds of the timeout, there are bytes for each direction of each of the three connections
  -- such that the client, given the server's bytes, sends the client's, the server, given the client's,
  -- sends the server's and ends without an error, and with these connections the example runs to its
  -- end, each reply the message behind the server's greeting.
  pub secure_chat-runs :
      (client_bytes server_bytes : ℕ → Bytes) × AllTalked p server_secret server_addr secret
        ephemeral next_reading now client_bytes server_bytes 0 chat_messages
      × (secure_chat p server_secret server_addr (λ _. visits secret took server_bytes)
          ≡ ok (map (λ (m : Bytes). codes "Server mottok: " ++ m) chat_messages))
  unfolding secure_chat Server.new Server.with_prologue_str chat_client generate from_utf8
  secure_chat-runs =
      let (c0, s0, t0) = talk 0 (message_at 0) refl (omega arith) in
      let (c1, s1, t1) = talk 1 (message_at 1) refl (omega arith) in
      let (c2, s2, t2) = talk 2 (message_at 2) refl (omega arith) in
      let client_bytes : ℕ → Bytes = λ i. get_or (c0 ∷ c1 ∷ c2 ∷ []) i [] in
      let server_bytes : ℕ → Bytes = λ i. get_or (s0 ∷ s1 ∷ s2 ∷ []) i [] in
      let talked : AllTalked p server_secret server_addr secret ephemeral next_reading now
          client_bytes server_bytes 0 chat_messages =
        (t0, (t1, (t2, tt))) in
      (
        client_bytes,
        server_bytes,
        talked,
        chat_loop-replies client_bytes server_bytes 0 chat_messages talked,
      )
