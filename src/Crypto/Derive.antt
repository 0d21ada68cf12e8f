-- ===== src/Crypto/Derive.antt =====
-- crypto/mod.rs: `derive_session_keys` succeeds with two 32-byte keys.
use noise_tunnel_rs.Base.{◌≡◌, length, arith}
use noise_tunnel_rs.Base.Bytes.{Bytes}
use noise_tunnel_rs.Error.{ok}
use noise_tunnel_rs.Crypto.Primitives.{Primitives, ExpandsKeys}
use noise_tunnel_rs.Crypto.Keys.{derive_session_keys, client_write_info, server_write_info}

-- If HKDF expands up to its limit, every secret and hash give two keys of 32 bytes.
pub derive_session_keys-total :
    (p : Primitives)
    → ExpandsKeys p
    → (secret hash : Bytes)
    → (client server : Bytes) × (derive_session_keys p secret hash ≡ ok (client, server))
      × (length client ≡ 32)
      × (length server ≡ 32)
unfolding derive_session_keys
derive_session_keys-total p laws secret hash =
    let (c, ec, lc) = laws.expands hash secret client_write_info 32 (omega arith) in
    let (s, es, ls) = laws.expands hash secret server_write_info 32 (omega arith) in
    (c, s, ground arith, lc, ls)
