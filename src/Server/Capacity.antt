-- ===== src/Server/Capacity.antt =====
-- server.rs: the connection counter against the limit, in every interleaving of the accept loop
-- and the handlers.
use noise_tunnel_rs.Base.{ℕ, ◌<◌, ◌≤◌, ◌^◌, ◌-◌, ◌≡◌, refl, true, false, some, arith}
use noise_tunnel_rs.Base.Bytes.{Bytes}
use noise_tunnel_rs.Crypto.Keys.{KeyPair}
use noise_tunnel_rs.Server.{
  TunnelServer, is_at_capacity, fetch_add, fetch_sub, new, with_max_connections, available_capacity,
  reset_connections, Listener, Step, turn_away, admit, spawn, finish, Reach, here, next,
}

-- The counter is the number of handlers, and the limit `max` holds with the one being admitted.
pub record WithinLimit (max : ℕ) (l : Listener) : Type 0 where
  pub limit : l.server.max_connections ≡ some max
  pub limit_fits : max < 2 ^ 64
  pub counted : l.server.active_connections ≡ l.running
  pub bounded : l.running ≤ max
  pub admitting_bounded : l.admitting ≡ true → l.running < max

Step-WithinLimit : {max : ℕ} {l m : Listener} → Step l m → WithinLimit max l → WithinLimit max m
unfolding is_at_capacity fetch_add fetch_sub
Step-WithinLimit (turn_away a b) w = w
Step-WithinLimit (admit {l} a b) w = record {
  limit = w.limit;
  limit_fits = w.limit_fits;
  counted = w.counted;
  bounded = w.bounded;
  admitting_bounded = λ _. ground (arith, w.limit, w.counted, b);
}
Step-WithinLimit (spawn {l} a) w = record {
  limit = w.limit;
  limit_fits = w.limit_fits;
  counted = omega (arith, w.counted, w.limit_fits, w.admitting_bounded a);
  bounded = omega (arith, w.admitting_bounded a);
  admitting_bounded = λ e. cc;
}
Step-WithinLimit (finish {l} {n} e) w = record {
  limit = w.limit;
  limit_fits = w.limit_fits;
  counted = omega (arith, w.counted, w.limit_fits, w.bounded, e);
  bounded = omega (arith, w.bounded, e);
  admitting_bounded = λ h. omega (arith, w.admitting_bounded h, e);
}

pub Reach-WithinLimit :
    {max : ℕ} {l m : Listener} → Reach l m → WithinLimit max l → WithinLimit max m
Reach-WithinLimit here w = w
Reach-WithinLimit (next step more) w = Reach-WithinLimit more (Step-WithinLimit step w)

-- A listener that has just been started.
abbrev pub started : TunnelServer → Listener
started s = record { server = s; admitting = false; running = 0 }

-- A server made by `new` and `with_max_connections` never runs more handlers than its limit,
-- whatever the order of the accept loop's and the handlers' actions; its counter is the number of
-- handlers, and `available_capacity` is what is left of the limit.
pub Reach-available_capacity :
    (max : ℕ) (keypair : KeyPair) (addr : Bytes × ℕ) (l : Listener)
    → max < 2 ^ 64
    → Reach (started (with_max_connections max (new keypair addr))) l
    → (l.running ≤ max)
      × (l.server.active_connections ≡ l.running)
      × (available_capacity l.server ≡ some (max - l.running))
unfolding with_max_connections new available_capacity
Reach-available_capacity max keypair addr l fits r =
    let w = Reach-WithinLimit {max = max} r (record {
      limit = refl;
      limit_fits = fits;
      counted = refl;
      bounded = omega arith;
      admitting_bounded = λ e. cc;
    }) in
    (w.bounded, w.counted, ground (arith, w.limit, w.counted))

-- `reset_connections` while a handler runs makes the counter wrap when that handler ends: a server
-- with any limit below 2^64 is then at capacity, with no room left.
pub reset_connections-fetch_sub :
    (s : TunnelServer) (max : ℕ)
    → s.max_connections ≡ some max
    → max < 2 ^ 64
    → let after = fetch_sub (reset_connections s) in
      (is_at_capacity after ≡ true) × (available_capacity after ≡ some 0)
unfolding fetch_sub reset_connections is_at_capacity available_capacity
reset_connections-fetch_sub s max e fits = ground (arith, e)
