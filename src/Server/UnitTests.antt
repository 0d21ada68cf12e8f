-- ===== src/Server/UnitTests.antt =====
-- server.rs: its unit tests on the capacity pass.
use noise_tunnel_rs.Base.{ℕ, Bool, true, false, not, Option, none, some, ◌==◌, ◌≡◌, codes, refl}
use noise_tunnel_rs.Base.Bytes.{Bytes}
use noise_tunnel_rs.Error.{Result, ok, ◌>>◌}
use noise_tunnel_rs.Error.Assert.{assert, assert_eq}
use noise_tunnel_rs.Crypto.Primitives.{Primitives}
use noise_tunnel_rs.Crypto.Keys.{generate}
use noise_tunnel_rs.Server.{
  TunnelServer, new, with_max_connections, available_capacity, is_at_capacity,
  has_active_connections, is_idle, reset_connections,
}

-- The derived `PartialEq` of `Option<usize>`.
abbrev same_option : Option ℕ → Option ℕ → Bool
same_option none none = true
same_option none (some b) = false
same_option (some a) none = false
same_option (some a) (some b) = a == b

abbrev addr : Bytes × ℕ
addr = (codes "127.0.0.1", 9090)

-- `active_connections.store(count, ..)`.
abbrev store : ℕ → TunnelServer → TunnelServer
store count server = record server { active_connections = count }

module _ (p : Primitives) (secret : Bytes) where
  abbrev test_server_capacity_and_reset : Result (Unit {0})
  unfolding generate new with_max_connections available_capacity is_at_capacity
      has_active_connections is_idle reset_connections
  test_server_capacity_and_reset = do
    let keypair = generate p secret
    let server = with_max_connections 5 (new keypair addr)
    assert (same_option server.max_connections (some 5))
    assert (same_option (available_capacity server) (some 5))
    assert (not (is_at_capacity server))
    assert (not (has_active_connections server))
    assert (is_idle server)
    let server = store 3 server
    assert_eq server.active_connections 3
    assert (same_option (available_capacity server) (some 2))
    assert (has_active_connections server)
    assert (not (is_idle server))
    assert (not (is_at_capacity server))
    let server = store 5 server
    assert (same_option (available_capacity server) (some 0))
    assert (is_at_capacity server)
    assert (not (is_idle server))
    let server = reset_connections server
    assert_eq server.active_connections 0
    assert (same_option (available_capacity server) (some 5))
    assert (is_idle server)
    ok tt

  test_server_capacity_and_reset-ok : test_server_capacity_and_reset ≡ ok tt
  unfolding test_server_capacity_and_reset new with_max_connections available_capacity
      is_at_capacity has_active_connections is_idle reset_connections
  test_server_capacity_and_reset-ok = refl

  abbrev test_server_unlimited_capacity : Result (Unit {0})
  unfolding generate new available_capacity is_at_capacity is_idle
  test_server_unlimited_capacity = do
    let keypair = generate p secret
    let server = new keypair addr
    assert (same_option server.max_connections none)
    assert (same_option (available_capacity server) none)
    assert (not (is_at_capacity server))
    assert (is_idle server)
    ok tt

  test_server_unlimited_capacity-ok : test_server_unlimited_capacity ≡ ok tt
  unfolding test_server_unlimited_capacity new available_capacity is_at_capacity is_idle
  test_server_unlimited_capacity-ok = refl
