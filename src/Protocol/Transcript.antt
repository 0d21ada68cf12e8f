-- ===== src/Protocol/Transcript.antt =====
-- protocol/mod.rs: the protocol name and `hash_handshake_state`.
use noise_tunnel_rs.Base.{Option, none, some, ◌++◌, codes}
use noise_tunnel_rs.Base.Bytes.{Bytes}
use noise_tunnel_rs.Crypto.Primitives.{Primitives}

abbrev pub protocol_name : Bytes
protocol_name = codes "Noise_NK_25519_ChaChaPoly_SHA256_v1"

-- `if let Some(se) = server_ephemeral { hasher.update(se) }`.
abbrev pub update_some : Bytes → Option Bytes → Bytes
update_some hashed none = hashed
update_some hashed (some se) = hashed ++ se

-- The hasher is the bytes that it was updated with.
unfoldable pub hash_handshake_state : Primitives → Bytes → Bytes → Bytes → Option Bytes → Bytes
hash_handshake_state p prologue client_ephemeral server_public server_ephemeral =
    let hasher = prologue in
    let hasher = hasher ++ client_ephemeral in
    let hasher = hasher ++ server_public in p.sha256 (update_some hasher server_ephemeral)
