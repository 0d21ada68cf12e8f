-- ===== src/Client/Message/Timeout.antt =====
-- client.rs: `send_secure_message` within its timeout.
use noise_tunnel_rs.Base.{
  ℕ, ◌≤◌, ◌≡◌, Option, none, some, ltb, false, if◌then◌else◌, refl, arith, ap, ◌∙◌,
}
use noise_tunnel_rs.Base.Bytes.{Bytes}
use noise_tunnel_rs.Error.{Result, err, timed_out}
use noise_tunnel_rs.Crypto.Primitives.{Primitives}
use noise_tunnel_rs.Protocol.Stream.{Stream}
use noise_tunnel_rs.Client.{TunnelClient}
use noise_tunnel_rs.Client.Message.{exchange, send_secure_message}

-- `took` is not past the limit, if there is one.
abbrev pub IsInTime : Option ℕ → ℕ → Type 0
IsInTime limit took = (dur : ℕ) → limit ≡ some dur → took ≤ dur

within :
    (limit : Option ℕ) (took : ℕ) (op : Result Bytes)
    → IsInTime limit took
    → (elim limit [ none ↦ op | some dur ↦ if ltb dur took then err (timed_out dur) else op ]) ≡ op
within none took op h = refl
within (some dur) took op h =
    let early : ltb dur took ≡ false = ground (arith, h dur refl) in rw early refl

-- Its result is then the exchange's.
pub send_secure_message-exchange :
    (p : Primitives) (self : TunnelClient) (secret message : Bytes) (stream t : Stream) (took : ℕ)
    (r : Result Bytes)
    → IsInTime self.timeout took
    → exchange p self secret message stream ≡ (t, r)
    → send_secure_message p self secret (some stream) took message ≡ r
unfolding send_secure_message
send_secure_message-exchange p self secret message stream t took r in_time told =
    within self.timeout took _ in_time ∙ ap (λ (u : Stream × Result Bytes). u.1) told
