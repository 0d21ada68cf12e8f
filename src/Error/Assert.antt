-- ===== src/Error/Assert.antt =====
-- `unwrap` and the `assert` macros of Rust, which panic.
use noise_tunnel_rs.Base.{ℕ, Bool, not, ◌==◌}
use noise_tunnel_rs.Base.Bytes.{Bytes, same_bytes}
use noise_tunnel_rs.Error.{Result, ok, err, reject_if, panicked}

abbrev pub unwrap : {A : Type 0} → Result A → Result A
unwrap (ok a) = ok a
unwrap (err e) = err panicked

abbrev pub assert : Bool → Result (Unit {0})
assert condition = reject_if (not condition) panicked

-- `assert_eq!` and `assert_ne!` of numbers and of byte slices.
abbrev pub assert_eq : ℕ → ℕ → Result (Unit {0})
assert_eq a b = assert (a == b)

abbrev pub assert_eq_bytes : Bytes → Bytes → Result (Unit {0})
assert_eq_bytes a b = assert (same_bytes a b)

abbrev pub assert_ne_bytes : Bytes → Bytes → Result (Unit {0})
assert_ne_bytes a b = assert (not (same_bytes a b))
