-- ===== src/TunnelError.antt =====
-- error.rs: the public error type. A text is its UTF-8 bytes, and the errors of the standard
-- library and of the crates are their texts.
use noise_tunnel_rs.Base.{ℕ, [], ◌∷◌, ◌++◌, codes, ◌≡◌, refl}
use noise_tunnel_rs.Base.Bytes.{Bytes}
use noise_tunnel_rs.Base.Text.Search.{contains}
use noise_tunnel_rs.Error.{Result, ok, ◌>>◌}
use noise_tunnel_rs.Error.Assert.{assert, assert_eq_bytes}
use noise_tunnel_rs.Base.Text.Decimal.{concat, to_string}

pub data TunnelError : Type 0 where
  crypto handshake : Bytes → TunnelError
  replay : ℕ → Bytes → TunnelError
  frame io timeout : Bytes → TunnelError
  capacity_exceeded : ℕ → TunnelError
  hex_decode utf8 : Bytes → TunnelError
  invalid_length : ℕ → ℕ → TunnelError
  other : Bytes → TunnelError

-- `From<anyhow::Error>`, of the error's text.
unfoldable pub from_anyhow : Bytes → TunnelError
from_anyhow text = other text

-- `Display`, from the `#[error(..)]` attributes. The letter å is two bytes.
unfoldable pub error_to_string : TunnelError → Bytes
unfolding to_string
error_to_string (crypto text) = codes "Kryptografisk feil: " ++ text
error_to_string (handshake text) = codes "Handshake-feil: " ++ text
error_to_string (replay seq reason) =
    concat (
      codes "Replay-angrep detektert for sekvensnummer " ∷ to_string seq ∷ codes ": " ∷ reason ∷ [])
error_to_string (frame text) = codes "Protokoll-rammefeil: " ++ text
error_to_string (io text) = codes "Nettverks- og I/O-feil: " ++ text
error_to_string (timeout text) = codes "Operasjon timet ut: " ++ text
error_to_string (capacity_exceeded limit) = concat (
    codes "Maksimal serverkapasitet n"
    ∷ (0xc3 ∷ 0xa5 ∷ [])
    ∷ codes "dd ("
    ∷ to_string limit
    ∷ codes " forbindelser)"
    ∷ [])
error_to_string (hex_decode text) = codes "Hex-dekodingsfeil: " ++ text
error_to_string (utf8 text) = codes "Ugyldig UTF-8 data: " ++ text
error_to_string (invalid_length expected actual) = concat (
    codes "Ugyldig datalengde: forventet "
    ∷ to_string expected
    ∷ codes " bytes, mottok "
    ∷ to_string actual
    ∷ codes " bytes"
    ∷ [])
error_to_string (other text) = codes "Generell feil: " ++ text

-- The unit test of the source, which fails where the test panics.
abbrev test_error_display_formatting : Result (Unit {0})
unfolding error_to_string
test_error_display_formatting = do
  let crypto_err = crypto (codes "Ugyldig MAC")
  assert_eq_bytes (error_to_string crypto_err) (codes "Kryptografisk feil: Ugyldig MAC")
  let replay_err = replay 42 (codes "Duplikat")
  assert (contains (error_to_string replay_err) (codes "sekvensnummer 42"))
  assert (contains (error_to_string replay_err) (codes "Duplikat"))
  let len_err = invalid_length 32 16
  assert_eq_bytes (error_to_string len_err)
      (codes "Ugyldig datalengde: forventet 32 bytes, mottok 16 bytes")
  let cap_err = capacity_exceeded 100
  assert_eq_bytes (error_to_string cap_err)
      (codes "Maksimal serverkapasitet n" ++ 0xc3 ∷ 0xa5 ∷ codes "dd (100 forbindelser)")
  ok tt

test_error_display_formatting-ok : test_error_display_formatting ≡ ok tt
unfolding test_error_display_formatting error_to_string
test_error_display_formatting-ok = refl
