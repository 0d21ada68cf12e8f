-- ===== src/Crypto/Debug.antt =====
-- crypto/mod.rs: the `Debug` printers, in the form that `{:?}` gives them.
use noise_tunnel_rs.Base.{List, [], ◌∷◌, codes}
use noise_tunnel_rs.Base.Bytes.{Bytes}
use noise_tunnel_rs.Base.Text.Decimal.{concat, to_string}
use noise_tunnel_rs.Crypto.Primitives.{Primitives}
use noise_tunnel_rs.Crypto.Keys.{KeyPair, EphemeralKeyPair, SessionKeys}
use noise_tunnel_rs.Crypto.Cipher.{CipherState}

-- The fields of `debug_struct`, each its name and its text.
abbrev fields_text : List (Bytes × Bytes) → Bytes
fields_text [] = codes " "
fields_text (f ∷ []) = concat (codes " " ∷ f.0 ∷ codes ": " ∷ f.1 ∷ codes " " ∷ [])
fields_text (f ∷ g ∷ fs) =
    concat (codes " " ∷ f.0 ∷ codes ": " ∷ f.1 ∷ codes "," ∷ fields_text (g ∷ fs) ∷ [])

abbrev debug_struct : Bytes → List (Bytes × Bytes) → Bytes
debug_struct name fields = concat (name ∷ codes " {" ∷ fields_text fields ∷ codes "}" ∷ [])

-- `{:?}` of a text in which there is nothing to escape.
abbrev quoted : Bytes → Bytes
quoted text = concat (codes "\"" ∷ text ∷ codes "\"" ∷ [])

abbrev redacted : Bytes
redacted = quoted (codes "[REDACTED]")

unfoldable pub debug_key_pair : Primitives → KeyPair → Bytes
debug_key_pair p pair = debug_struct (codes "KeyPair") (
    (codes "public_key", quoted (p.hex_encode pair.public_key))
    ∷ (codes "private_key", redacted)
    ∷ [])

unfoldable pub debug_cipher_state : CipherState → Bytes
unfolding to_string
debug_cipher_state cipher =
    debug_struct (codes "CipherState")
      ((codes "key", redacted) ∷ (codes "nonce", to_string cipher.nonce) ∷ [])

unfoldable pub debug_session_keys : SessionKeys → Bytes
debug_session_keys keys =
    debug_struct (codes "SessionKeys")
      ((codes "client_write_key", redacted) ∷ (codes "server_write_key", redacted) ∷ [])

unfoldable pub debug_ephemeral_key_pair : Primitives → EphemeralKeyPair → Bytes
debug_ephemeral_key_pair p pair =
    debug_struct (codes "EphemeralKeyPair") (
      (codes "secret", redacted) ∷ (codes "public_key", quoted (p.hex_encode pair.public_key)) ∷ [])
