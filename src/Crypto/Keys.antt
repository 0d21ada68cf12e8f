-- ===== src/Crypto/Keys.antt =====
-- crypto/mod.rs: `KeyPair`, `EphemeralKeyPair`, `SessionKeys`, key derivation and the exchange.
pub mod Hex
use noise_tunnel_rs.Base.{ℕ, ◌==◌, not, length, codes}
use noise_tunnel_rs.Base.Bytes.{Bytes}
use noise_tunnel_rs.Base.Trim.{trim}
use noise_tunnel_rs.Error.{
  bad_private_key_hex, bad_public_key_hex, bad_public_key_length, Result, ok, ◌>>=◌, ◌>>◌,
  reject_if, or_fail, hkdf_client_key_failed, hkdf_server_key_failed, bad_private_key_length,
  bad_client_key_length, bad_server_key_length,
}
use noise_tunnel_rs.Crypto.Primitives.{Primitives}

abbrev pub key_len : ℕ
key_len = 32

abbrev pub tag_len : ℕ
tag_len = 16

pub record KeyPair : Type 0 where
  pub private_key : Bytes
  pub public_key : Bytes

pub record EphemeralKeyPair : Type 0 where
  pub secret : Bytes
  pub public_key : Bytes

pub record SessionKeys : Type 0 where
  pub client_write_key : Bytes
  pub server_write_key : Bytes

-- `SessionKeys::new`, `from_slices`, `into_parts` and `swapped`.
unfoldable pub new : Bytes → Bytes → SessionKeys
new client_write_key server_write_key = record {
  client_write_key = client_write_key;
  server_write_key = server_write_key;
}

unfoldable pub from_slices : Bytes → Bytes → Result SessionKeys
unfolding new
from_slices client_key server_key = do
  reject_if (not (length client_key == key_len)) (bad_client_key_length (length client_key))
  reject_if (not (length server_key == key_len)) (bad_server_key_length (length server_key))
  ok (new client_key server_key)

unfoldable pub into_parts : SessionKeys → Bytes × Bytes
into_parts keys = (keys.client_write_key, keys.server_write_key)

unfoldable pub swapped : SessionKeys → SessionKeys
unfolding new
swapped keys = new keys.server_write_key keys.client_write_key

-- The conversions from and into a pair of keys.
unfoldable pub keys_from_pair : Bytes × Bytes → SessionKeys
unfolding new
keys_from_pair keys = new keys.0 keys.1

unfoldable pub pair_from_keys : SessionKeys → Bytes × Bytes
unfolding into_parts
pair_from_keys keys = into_parts keys

abbrev pub client_write_info : Bytes
client_write_info = codes "noise-tunnel-client-write-key-v1"

abbrev pub server_write_info : Bytes
server_write_info = codes "noise-tunnel-server-write-key-v1"

module _ (p : Primitives) where
  -- The bytes of `StaticSecret::random_from_rng(OsRng)` are an argument.
  unfoldable pub generate : Bytes → KeyPair
  generate secret = record { private_key = secret; public_key = p.x25519_public secret }

  unfoldable pub from_private_bytes : Bytes → KeyPair
  from_private_bytes bytes = record { private_key = bytes; public_key = p.x25519_public bytes }

  unfoldable pub from_private_slice : Bytes → Result KeyPair
  unfolding from_private_bytes
  from_private_slice slice = do
    reject_if (not (length slice == key_len)) (bad_private_key_length (length slice))
    ok (from_private_bytes slice)

  unfoldable pub generate_ephemeral : Bytes → EphemeralKeyPair
  generate_ephemeral secret = record { secret = secret; public_key = p.x25519_public secret }

  unfoldable pub diffie_hellman : Bytes → Bytes → Bytes
  diffie_hellman secret_bytes public_bytes = p.x25519 secret_bytes public_bytes

  unfoldable pub ephemeral_diffie_hellman : EphemeralKeyPair → Bytes → Bytes
  unfolding diffie_hellman
  ephemeral_diffie_hellman pair peer_public = diffie_hellman pair.secret peer_public

  unfoldable pub derive_session_keypair : Bytes → Bytes → Result SessionKeys
  derive_session_keypair shared_secret handshake_hash = do
    client_write_key ←
        or_fail (p.hkdf_expand handshake_hash shared_secret client_write_info key_len)
          hkdf_client_key_failed
    server_write_key ←
        or_fail (p.hkdf_expand handshake_hash shared_secret server_write_info key_len)
          hkdf_server_key_failed
    ok (record { client_write_key = client_write_key; server_write_key = server_write_key })

  unfoldable pub derive_session_keys : Bytes → Bytes → Result (Bytes × Bytes)
  unfolding derive_session_keypair into_parts
  derive_session_keys shared_secret handshake_hash = do
    keys ← derive_session_keypair shared_secret handshake_hash
    ok (into_parts keys)

  unfoldable pub public_key_hex : KeyPair → Bytes
  public_key_hex pair = p.hex_encode pair.public_key

  unfoldable pub private_key_hex : KeyPair → Bytes
  private_key_hex pair = p.hex_encode pair.private_key

  -- `hex::decode(hex_str.trim())`.
  unfoldable pub from_private_hex : Bytes → Result KeyPair
  unfolding from_private_bytes trim
  from_private_hex hex_str = do
    bytes ← or_fail (p.hex_decode (trim hex_str)) bad_private_key_hex
    reject_if (not (length bytes == key_len)) (bad_private_key_length (length bytes))
    ok (from_private_bytes bytes)

  unfoldable pub parse_public_key_hex : Bytes → Result Bytes
  unfolding trim
  parse_public_key_hex hex_str = do
    bytes ← or_fail (p.hex_decode (trim hex_str)) bad_public_key_hex
    reject_if (not (length bytes == key_len)) (bad_public_key_length (length bytes))
    ok bytes
