-- ===== src/Server/Tests/Sessions.antt =====
-- The toy session of Server/Tests, from the answer to the handshake on.
use noise_tunnel_rs.Base.{◌≡◌, ◌<◌, refl, true, [], ◌∷◌, replicate, arith}
use noise_tunnel_rs.Error.{ok}
use noise_tunnel_rs.Crypto.Toy.{toy}
use noise_tunnel_rs.Protocol.Replay.{validate_and_record}
use noise_tunnel_rs.Protocol.Replay
use noise_tunnel_rs.Protocol.MessageType.{handshake_resp}
use noise_tunnel_rs.Protocol.Stream.{connection}
use noise_tunnel_rs.Stats
use noise_tunnel_rs.Server.Handshake.{Answer}
use noise_tunnel_rs.Server.Session.{session_start}
use noise_tunnel_rs.Server.Session.Order
use noise_tunnel_rs.Server.Session.Order.{Serves}
use noise_tunnel_rs.Server.Session.Metrics.{Metered, Serves-Metered}
use noise_tunnel_rs.Server.Session.Reached.{Serves-accepts}
use noise_tunnel_rs.Server.Session.Tracked.{Tracked, Serves-Tracked}
use noise_tunnel_rs.Server.Connection.{handle_client_with_prologue}
use noise_tunnel_rs.Server.Connection.Total.{returns, handle_client_with_prologue-returns}
use noise_tunnel_rs.Server.Tests.{
  key, tick, greeted, hi, hi-read, hi-answered, answered, server_keys,
}

abbrev one_round : Serves toy tick greeted (0 ∷ []) answered
unfolding hi
one_round = Order.round hi-read hi-answered Order.here

Serves-Metered_example : Metered toy tick greeted answered 1 1
unfolding one_round
Serves-Metered_example = Serves-Metered toy tick one_round

abbrev answer : Answer
answer = record {
  frame = record { msg_type = handshake_resp; nonce = 0; payload = [] };
  rx_cipher = record { key = key; nonce = 0 };
  tx_cipher = record { key = key; nonce = 0 };
}

started_round : Serves toy tick (session_start answer greeted.stream 0) (0 ∷ []) answered
unfolding greeted answer session_start Replay.new Stats.new
started_round = one_round

Serves-Tracked_example : Tracked 1 answered
Serves-Tracked_example =
    Serves-Tracked toy tick answer greeted.stream 0 refl started_round (omega arith)

unwrapped : answered.replay_filter.initialized ≡ true → 0 < answered.rx_cipher.nonce
unfolding answered greeted
unwrapped h = omega arith

Serves-accepts_example :
    (validate_and_record answered.rx_cipher.nonce answered.replay_filter).1 ≡ ok tt
Serves-accepts_example =
    Serves-accepts toy tick answer greeted.stream 0 refl started_round unwrapped

handle_client_with_prologue-returns_example :
    returns (
      handle_client_with_prologue toy tick server_keys []
        (replicate 32 5)
        2
        0
        (connection (1 ∷ 2 ∷ []) [] 9))
    ≡ true
handle_client_with_prologue-returns_example =
    handle_client_with_prologue-returns toy tick server_keys [] (replicate 32 5) 2 0
      (connection (1 ∷ 2 ∷ []) [] 9) (omega arith)
