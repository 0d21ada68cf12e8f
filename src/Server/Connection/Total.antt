-- ===== src/Server/Connection/Total.antt =====
-- server.rs: `handle_client_with_prologue` returns.
use noise_tunnel_rs.Base.{
  ℕ, ◌≡◌, ◌<◌, ◌≤◌, Bool, true, false, Option, none, some, length, arith, refl, ap, sym, ◌∙◌,
}
use noise_tunnel_rs.Base.Bytes.{Bytes}
use noise_tunnel_rs.Error.{Result, ok, err}
use noise_tunnel_rs.Action.{and_then-eq-ok}
use noise_tunnel_rs.Crypto.Primitives.{Primitives}
use noise_tunnel_rs.Crypto.Keys.{KeyPair}
use noise_tunnel_rs.Protocol.Stream.{Stream}
use noise_tunnel_rs.Protocol.Wire.{read_from, write_to}
use noise_tunnel_rs.Server.Handshake.{Answer, server_answer}
use noise_tunnel_rs.Server.Session.{Session, session_start, serve}
use noise_tunnel_rs.Server.Session.Termination.{read_from-lt, write_to-incoming, ends, serve-ends}
use noise_tunnel_rs.Server.Connection.{
  left_behind, accept_handshake, go_on, handle_client_with_prologue,
}

-- Whether a bound on the rounds was enough.
abbrev pub returns : Option (Stream × Result (Unit {0})) → Bool
returns none = false
returns (some r) = true

module _ (p : Primitives) (server_keys : KeyPair) (prologue secret : Bytes) where
  accept_handshake-lt :
      (t t' : Stream) (answer : Answer)
      → accept_handshake p server_keys prologue secret t ≡ (t', ok answer)
      → length t'.incoming < length t.incoming
  unfolding accept_handshake
  accept_handshake-lt t t' answer e =
      let (t1, frame, e1, rest1) = and_then-eq-ok (read_from t) _ e in
      let (t2, answer', e2, rest2) =
        and_then-eq-ok (t1, server_answer p server_keys prologue secret frame) _ rest1 in
      let (t3, _, e3, rest3) = and_then-eq-ok (write_to answer'.frame t2) _ rest2 in
      let read = read_from-lt t t1 frame e1 in
      let wrote = write_to-incoming answer'.frame t2 in
      let same2 : t1 ≡ t2 = ap (λ (r : Stream × Result Answer). r.0) e2 in
      let same3 : (write_to answer'.frame t2).0 ≡ t3 =
        ap (λ (r : Stream × Result (Unit {0})). r.0) e3 in
      let same4 : t3 ≡ t' = ap (λ (r : Stream × Result Answer). r.0) rest3 in
      let kept : t'.incoming ≡ t1.incoming =
        ap (λ (u : Stream). u.incoming) (sym same4)
        ∙ ap (λ (u : Stream). u.incoming) (sym same3)
        ∙ wrote
        ∙ ap (λ (u : Stream). u.incoming) (sym same2) in
      omega (arith, read, ap length kept)

module _ (p : Primitives) (next_reading : ℕ → ℕ) (server_keys : KeyPair)
    (prologue secret : Bytes) where
  left_behind-returns :
      (o : Option (Session × Result (Unit {0})))
      → ends p next_reading o ≡ true
      → returns (left_behind o) ≡ true
  left_behind-returns none h = cc
  left_behind-returns (some r) h = refl

  go_on-returns :
      (rounds now : ℕ) (r : Stream × Result Answer)
      → ((answer : Answer) → r.1 ≡ ok answer → length r.0.incoming < rounds)
      → returns (go_on p next_reading server_keys prologue secret rounds now r) ≡ true
  unfolding go_on session_start
  go_on-returns rounds now (t, err e) h = refl
  go_on-returns rounds now (t, ok answer) h =
      left_behind-returns (serve p next_reading rounds (session_start answer t now))
        (serve-ends p next_reading rounds (session_start answer t now) (h answer refl))

  -- Whatever bytes a client sends, before and after the handshake, its connection comes to an end:
  -- as many rounds of the loop as there are bytes to come are enough.
  pub handle_client_with_prologue-returns :
      (rounds now : ℕ) (t : Stream)
      → length t.incoming ≤ rounds
      → returns
          (handle_client_with_prologue p next_reading server_keys prologue secret rounds now t)
        ≡ true
  unfolding handle_client_with_prologue
  handle_client_with_prologue-returns rounds now t h =
      go_on-returns rounds now (accept_handshake p server_keys prologue secret t) (λ answer e.
        omega (
          arith,
          h,
          accept_handshake-lt p server_keys prologue secret t _ answer (
              ap (λ (u : Result Answer). ((accept_handshake p server_keys prologue secret t).0, u))
                e),
        ))
