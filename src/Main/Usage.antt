-- ===== src/Main/Usage.antt =====
-- main.rs: `keygen`, then `server` and `client` with the printed keys.
use noise_tunnel_rs.Base.{
  ◌≡◌, ◌≢◌, Option, none, some, length, arith, refl, ℕ, ◌*◌, ap, false, ◌≤◌, ◌+◌, [], ◌-◌, codes,
  ◌++◌,
}
use noise_tunnel_rs.Base.Bytes.{Bytes, IsBytes}
use noise_tunnel_rs.Error.{ok}
use noise_tunnel_rs.Crypto.Primitives.{Primitives, EncodesHex, KeysAreBytes}
use noise_tunnel_rs.Crypto.Keys.{KeyPair, private_key_hex, generate, public_key_hex}
use noise_tunnel_rs.Crypto.Keys.Hex.{
  from_private_hex-private_key_hex, parse_public_key_hex-public_key_hex,
}
use noise_tunnel_rs.Protocol.Transcript.{protocol_name}
use noise_tunnel_rs.Server.{
  TunnelServer, with_max_connections, is_at_capacity, fetch_add, Reach, here, next, admit, spawn,
}
use noise_tunnel_rs.Server.Capacity.{started}
use noise_tunnel_rs.Server
use noise_tunnel_rs.Tunnel.Agreement.{Promises, Honest}
use noise_tunnel_rs.Main.{
  ServerArgs, server, run_server, server_keypair, main, ClientArgs, keygen, print_keys, client,
}
use noise_tunnel_rs.Main
use noise_tunnel_rs.Base.Utf8.{from_utf8}
use noise_tunnel_rs.Client.{TunnelClient, with_timeout}
use noise_tunnel_rs.Client
use noise_tunnel_rs.Client.Message.Timeout.{IsInTime, send_secure_message-exchange}
use noise_tunnel_rs.Client.Message.{exchange, send_secure_message}
use noise_tunnel_rs.Protocol.Stream.{connection}
use noise_tunnel_rs.Server.Connection.{handle_client_with_prologue}
use noise_tunnel_rs.Tunnel.Message.{exchange-handle_client}

-- The prologue that both ends use when it is given on both command lines.
abbrev agreed : Option Bytes → Bytes
agreed none = protocol_name
agreed (some prologue) = prologue

-- The option in seconds.
abbrev nanoseconds : Option ℕ → Option ℕ
nanoseconds timeout = elim timeout [ none ↦ none | some secs ↦ some (secs * 1_000_000_000) ]

-- The crates' promises, and 32 bytes for each of the three secrets.
pub record Fair (p : Primitives) (secret client_secret server_secret : Bytes) : Type 0 where
  pub promises : Promises p
  pub encodes : EncodesHex p
  pub key_bytes : KeysAreBytes p
  pub size : length secret ≡ 32
  pub bytes : IsBytes secret
  pub client_size : length client_secret ≡ 32
  pub server_size : length server_secret ≡ 32

-- A server and a client that has sent the server a message: the server listens where the client
-- connects, has let it in, and the bytes of the two on their connection are each other's.
pub record Exchanged (p : Primitives) (client_secret server_secret : Bytes) (next_reading : ℕ → ℕ)
    (rounds now took room : ℕ) (message : Bytes) (s : TunnelServer) (c : TunnelClient)
    : Type 0 where
  pub client_bytes : Bytes
  pub server_bytes : Bytes
  pub same_address : c.target_addr ≡ s.bind_addr
  pub let_in : Reach (started s) (record { server = fetch_add s; admitting = false; running = 1 })
  pub told : exchange p c client_secret message (connection server_bytes [] room) ≡ (
    connection [] client_bytes (room - length client_bytes),
    ok (codes "Server mottok: " ++ message),
  )
  pub returned :
      send_secure_message p c client_secret (some (connection server_bytes [] room)) took message
      ≡ ok (codes "Server mottok: " ++ message)
  pub handled :
      handle_client_with_prologue p next_reading s.keypair s.prologue server_secret rounds now
        (connection client_bytes [] room)
      ≡ some (connection [] server_bytes (room - length server_bytes), ok tt)

module _ (p : Primitives) (secret client_secret server_secret : Bytes)
    (fair : Fair p secret client_secret server_secret) where
  abbrev pub keys : KeyPair
  keys = record { private_key = secret; public_key = p.x25519_public secret }

  abbrev started_server : ServerArgs → TunnelServer
  started_server args = record {
    keypair = keys;
    bind_addr = args.bind;
    max_connections = args.max_connections;
    active_connections = 0;
    prologue = agreed args.prologue;
  }

  server-main :
      (fresh : Bytes) (args : ServerArgs)
      → args.private_key ≡ some (private_key_hex p keys)
      → main p fresh (server args) ≡ ok (run_server none (started_server args))
  unfolding main server_keypair Server.new Server.with_prologue_str with_max_connections
  server-main fresh args given =
      let read = from_private_hex-private_key_hex p fair.encodes keys fair.size fair.bytes refl in
      ground (arith, given, read)

  abbrev started_client : ClientArgs → TunnelClient
  started_client args = record {
    server_pubkey = keys.public_key;
    target_addr = args.connect;
    timeout = nanoseconds args.timeout;
    prologue = agreed args.prologue;
  }

  client-main :
      (fresh : Bytes) (args : ClientArgs)
      → args.server_pubkey ≡ public_key_hex p keys
      → args.interactive ≡ false
      → main p fresh (client args)
        ≡ ok (Main.send_secure_message (started_client args) args.message)
  unfolding main Client.new Client.with_prologue_str with_timeout
  client-main fresh args given single =
      let read =
        parse_public_key_hex-public_key_hex p fair.encodes keys
          (fair.promises.agrees.length-x25519_public secret fair.size)
          (fair.key_bytes.x25519_public-IsBytes secret fair.bytes) in
      ground (arith, given, single, read)

  -- The ends that the two subcommands start are honest ends with one prologue.
  started-Honest :
      (server_args : ServerArgs) (client_args : ClientArgs)
      → client_args.prologue ≡ server_args.prologue
      → Honest p
          (started_client client_args)
          keys
          (started_server server_args).prologue
          client_secret
          server_secret
  started-Honest server_args client_args same = record {
    own_key = refl;
    known_key = refl;
    same_prologue = ap agreed same;
    static_size = fair.size;
    client_size = fair.client_size;
    server_size = fair.server_size;
  }

  -- A server whose limit is not 0 lets its first client in, counts it and spawns its handler.
  first-Reach :
      (args : ServerArgs)
      → args.max_connections ≢ some 0
      → Reach
          (started (started_server args))
          (record { server = fetch_add (started_server args); admitting = false; running = 1 })
  unfolding is_at_capacity
  first-Reach args limit =
      let room : is_at_capacity (started_server args) ≡ false = ground (arith, limit) in
      next (admit refl room) (next (spawn refl) here)

  started_client-IsInTime :
      (timeout : Option ℕ) (took : ℕ)
      → ((secs : ℕ) → timeout ≡ some secs → took ≤ secs * 1_000_000_000)
      → IsInTime (nanoseconds timeout) took
  started_client-IsInTime none took in_time dur e = cc
  started_client-IsInTime (some secs) took in_time dur e = ground (arith, in_time secs refl, e)

  -- If the crates keep their promises, the three secrets are 32 bytes and the first of them is bytes,
  -- then the two texts that `keygen` prints, given to `server` as its private key, with a limit of
  -- clients that is not 0 if it is given, and to `client`, which is not interactive, as the server's
  -- public key, with the server's address and the same prologue option, start a server and a client.
  -- The accept loop of this server lets its first client in. If the message is a text of at most 65496
  -- bytes, both connections have room, the operation does not take longer than the timeout given and
  -- the bound on the rounds of the server's handler is at least 2, there are bytes for each direction
  -- such that the client, given the server's bytes, sends the client's and `send_secure_message`
  -- returns the message behind the greeting, and the handler, given the client's bytes, sends the
  -- server's and ends without an error.
  pub keygen-exchange :
      (fresh : Bytes) (server_args : ServerArgs) (client_args : ClientArgs) (next_reading : ℕ → ℕ)
      (rounds now took room : ℕ)
      → server_args.private_key ≡ some (private_key_hex p keys)
      → server_args.max_connections ≢ some 0
      → client_args.server_pubkey ≡ public_key_hex p keys
      → client_args.interactive ≡ false
      → client_args.connect ≡ server_args.bind
      → client_args.prologue ≡ server_args.prologue
      → ((secs : ℕ) → client_args.timeout ≡ some secs → took ≤ secs * 1_000_000_000)
      → from_utf8 client_args.message ≡ some client_args.message
      → length client_args.message ≤ 65496
      → 2 ≤ rounds
      → 200 + length client_args.message ≤ room
      → (main p secret keygen ≡ ok (print_keys (private_key_hex p keys) (public_key_hex p keys)))
        × (s : TunnelServer) × (main p fresh (server server_args) ≡ ok (run_server none s))
        × (c : TunnelClient) × (main p fresh (client client_args)
            ≡ ok (Main.send_secure_message c client_args.message))
        × Exchanged p client_secret server_secret next_reading rounds now took room
            client_args.message s c
  unfolding main generate
  keygen-exchange fresh server_args client_args next_reading rounds now took room given limit known
        single address same in_time text small enough roomy =
      let (client_bytes, server_bytes, told, answered) =
        exchange-handle_client p fair.promises (started_client client_args) keys
          (started_server server_args).prologue client_secret server_secret
          (started-Honest server_args client_args same) next_reading client_args.message rounds now
          room text small enough roomy in
      (
        refl,
        started_server server_args,
        server-main fresh server_args given,
        started_client client_args,
        client-main fresh client_args known single,
        record {
          client_bytes = client_bytes;
          server_bytes = server_bytes;
          same_address = address;
          let_in = first-Reach server_args limit;
          told = told;
          returned =
              send_secure_message-exchange p (started_client client_args) client_secret
                client_args.message _ _ took _
                (started_client-IsInTime client_args.timeout took in_time) told;
          handled = answered;
        },
      )
