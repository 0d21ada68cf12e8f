-- ===== src/Examples/SecureChat.antt =====
-- examples/secure_chat.rs
pub mod Runs
use noise_tunnel_rs.Base.{ℕ, ◌+◌, ◌*◌, Option, List, [], ◌∷◌, codes}
use noise_tunnel_rs.Base.Bytes.{Bytes}
use noise_tunnel_rs.Error.{Result, ok, ◌>>=◌}
use noise_tunnel_rs.Crypto.Primitives.{Primitives}
use noise_tunnel_rs.Crypto.Keys.{generate}
use noise_tunnel_rs.Protocol.Stream.{Stream}
use noise_tunnel_rs.Server.{TunnelServer}
use noise_tunnel_rs.Server
use noise_tunnel_rs.Client.{TunnelClient, with_timeout}
use noise_tunnel_rs.Client
use noise_tunnel_rs.Client.Message.{send_secure_message}

abbrev pub chat_prologue : Bytes
chat_prologue = codes "NoiseChat_Secure_v1"

abbrev pub chat_messages : List Bytes
chat_messages =
    codes "Hei fra Alice! Er denne kanalen fullstendig kryptert?"
    ∷ codes "Ja, vi bruker ChaCha20-Poly1305 med Perfect Forward Secrecy."
    ∷ codes "Fantastisk! All data er beskyttet mot avlytting og replay-angrep."
    ∷ []

-- What the outside gives for the i-th message: the connection, the secret of its handshake and the
-- time that it took.
pub record Visit : Type 0 where
  pub stream : Option Stream
  pub secret : Bytes
  pub took : ℕ

-- `for (i, msg) in chat_messages.iter().enumerate()`, from the i-th on; the replies that are printed.
unfoldable pub chat_loop :
    Primitives → TunnelClient → (ℕ → Visit) → ℕ → List Bytes → Result (List Bytes)
unfolding send_secure_message
chat_loop p client visit i [] = ok []
chat_loop p client visit i (msg ∷ rest) = do
  reply ← send_secure_message p client (visit i).secret (visit i).stream (visit i).took msg
  replies ← chat_loop p client visit (i + 1) rest
  ok (reply ∷ replies)

unfoldable pub secure_chat :
    Primitives → Bytes → Bytes × ℕ → (TunnelServer → ℕ → Visit) → Result (List Bytes)
unfolding generate Server.new Server.with_prologue_str Client.new Client.with_prologue_str
    with_timeout chat_loop
secure_chat p server_secret server_addr network = do
  let server_keypair = generate p server_secret
  let server_pubkey = server_keypair.public_key
  let server = Server.with_prologue_str chat_prologue (Server.new server_keypair server_addr)
  let client = Client.with_prologue_str chat_prologue (Client.new server_pubkey server_addr)
  let client = with_timeout (5 * 1_000_000_000) client
  chat_loop p client (network server) 0 chat_messages
