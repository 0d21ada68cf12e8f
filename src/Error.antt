-- ===== src/Error.antt =====
-- The errors that the tunnel's functions return through `anyhow!` and `?`, one constructor for
-- each message, with the values that the message prints; and `Result`.
pub mod Assert
use noise_tunnel_rs.Base.{ℕ, Option, none, some, Bool, true, false, ◌≡◌, refl}
use noise_tunnel_rs.Protocol.MessageType.{MessageType}

pub data Error : Type 0 where
  unknown_message_type : ℕ → Error
  buffer_too_short : ℕ → Error
  frame_length_mismatch : ℕ → ℕ → Error
  frame_too_short frame_oversized : ℕ → Error
  replay_too_old : ℕ → ℕ → Error
  replay_processed : ℕ → Error
  aead_encrypt_failed aead_decrypt_failed nonce_overflow : Error
  bad_nonce_order : ℕ → ℕ → Error
  hkdf_client_key_failed hkdf_server_key_failed : Error
  bad_private_key_hex bad_public_key_hex : Error
  bad_private_key_length bad_public_key_length : ℕ → Error
  bad_client_key_length bad_server_key_length : ℕ → Error
  expected_handshake_init expected_handshake_resp expected_data_reply : MessageType → Error
  bad_init_payload_size bad_resp_payload_size bad_handshake_ack : Error
  invalid_utf8 tampered_accepted replay_accepted wrong_reply : Error
  timed_out : ℕ → Error
  -- The stream ended inside a `read_exact`, or a write met a closed connection.
  unexpected_eof connection_lost connect_failed : Error
  -- A slice that does not fit the array it is converted to, and a panic by an index out of range.
  bad_slice_length panicked : Error
  -- What `.context("Kunne ikke laste privat nokkel")` and the same for the public key wrap.
  private_key_not_loaded public_key_not_loaded : Error → Error

pub data Result {ℓ} (A : Type ℓ) : Type ℓ where
  ok : A → Result A
  err : Error → Result A

abbrev pub is_ok {ℓ} : {A : Type ℓ} → Result A → Bool
is_ok (ok a) = true
is_ok (err e) = false

abbrev pub is_err {ℓ} : {A : Type ℓ} → Result A → Bool
is_err (ok a) = false
is_err (err e) = true

-- The `?` operator: an error ends the function.
infixl 5 ◌>>=◌ ◌>>◌
abbrev pub ◌>>=◌ {ℓ κ} : {A : Type ℓ} {B : Type κ} → Result A → (A → Result B) → Result B
err e >>= next = err e
ok a >>= next = next a

abbrev pub ◌>>◌ {ℓ} : {B : Type ℓ} → Result (Unit {0}) → Result B → Result B
first >> next = first >>= λ done. next

-- `if test { return Err(..) }`.
abbrev pub reject_if : Bool → Error → Result (Unit {0})
reject_if true e = err e
reject_if false e = ok tt

pub >>=-eq-ok {ℓ κ} :
    {A : Type ℓ} {B : Type κ} (first : Result A) (next : A → Result B) {out : B}
    → (first >>= next) ≡ ok out
    → (mid : A) × (first ≡ ok mid) × (next mid ≡ ok out)
>>=-eq-ok (ok mid) next e = (mid, refl, e)
>>=-eq-ok (err x) next e = cc

-- `.ok_or_else(..)?` and `.map_err(..)?`.
abbrev pub or_fail {ℓ} : {A : Type ℓ} → Option A → Error → Result A
or_fail none e = err e
or_fail (some a) e = ok a

-- `.context(..)?`.
abbrev pub context {ℓ} : {A : Type ℓ} → (Error → Error) → Result A → Result A
context wrap (ok a) = ok a
context wrap (err e) = err (wrap e)
