-- ===== src/Server/Tests.antt =====
-- A session with the toy primitives that answers one message and then meets a frame out of order,
-- and a server with a limit of two.
pub mod Sessions
mod Integrity
use noise_tunnel_rs.Base.{
  ℕ, ◌+◌, ◌-◌, ◌<◌, ◌≤◌, ◌≡◌, ◌≢◌, inl, refl, true, false, some, [], ◌∷◌, ◌++◌, length, replicate,
  codes, arith,
}
use noise_tunnel_rs.Base.Bytes.{Bytes}
use noise_tunnel_rs.Error.{ok}
use noise_tunnel_rs.Crypto.Toy.{toy, tag, toy-SealsMessages}
use noise_tunnel_rs.Crypto.Keys.{KeyPair}
use noise_tunnel_rs.Crypto.Cipher.{build_nonce}
use noise_tunnel_rs.Protocol.Frame.{WireFrame, serialize}
use noise_tunnel_rs.Protocol.Frame
use noise_tunnel_rs.Protocol.MessageType.{data_payload}
use noise_tunnel_rs.Protocol.Replay
use noise_tunnel_rs.Protocol.Stream.{Stream}
use noise_tunnel_rs.Protocol.Wire.{read_from}
use noise_tunnel_rs.Stats
use noise_tunnel_rs.Server.{
  TunnelServer, new, with_max_connections, fetch_add, fetch_sub, reset_connections, is_at_capacity,
  available_capacity, Listener, admit, spawn, Reach, here, next,
}
use noise_tunnel_rs.Server.Capacity.{started, Reach-available_capacity, reset_connections-fetch_sub}
use noise_tunnel_rs.Server.Session.{Session, again, tunnel_data, reply_to, serve_frame, serve}
use noise_tunnel_rs.Server.Session.Termination.{ends, serve-ends}
use noise_tunnel_rs.Server.Session.Order
use noise_tunnel_rs.Server.Session.Order.{
  Serves, Advances, IsCutOff, Serves-Advances, serve_frame-IsCutOff,
}
use noise_tunnel_rs.Server.Session.Answers.{InStep, CanAnswer, serve_frame-answers}

abbrev pub key : Bytes
key = replicate 32 4

abbrev pub tick : ℕ → ℕ
tick now = now + 10

-- "hi", sealed under nonce 0.
abbrev pub sealed_hi : Bytes
unfolding build_nonce
sealed_hi = 104 ∷ 105 ∷ tag key (build_nonce 0) tunnel_data

abbrev pub hi : WireFrame
unfolding sealed_hi
hi = record { msg_type = data_payload; nonce = 0; payload = sealed_hi }

abbrev early : WireFrame
early = record { msg_type = data_payload; nonce = 5; payload = [] }

abbrev pub with_incoming : Bytes → Session
unfolding Replay.new Stats.new
with_incoming bytes = record {
  stream = record { incoming = bytes; outgoing = []; room = 1000 };
  rx_cipher = record { key = key; nonce = 0 };
  tx_cipher = record { key = key; nonce = 0 };
  replay_filter = Replay.new;
  session_metrics = Stats.new 0;
  clock = 0;
}

abbrev pub greeted : Session
unfolding with_incoming hi serialize
greeted = with_incoming (serialize hi ++ serialize early)

abbrev hurried : Session
unfolding with_incoming serialize
hurried = with_incoming (serialize early)

abbrev pub left : Stream
unfolding serialize
left = record { incoming = serialize early; outgoing = []; room = 1000 }

pub hi-read : read_from greeted.stream ≡ (left, ok hi)
unfolding greeted read_from left hi
hi-read = refl

abbrev pub answered : Session
unfolding greeted serve_frame
answered = (serve_frame toy tick greeted).0

pub hi-answered : serve_frame toy tick greeted ≡ (answered, ok again)
unfolding greeted serve_frame answered
hi-answered = refl

Serves-Advances_example : Advances toy tick greeted (0 ∷ []) answered
unfolding hi
Serves-Advances_example = Serves-Advances toy tick (Order.round hi-read hi-answered Order.here)

few_bytes : length greeted.stream.incoming < 200
unfolding greeted
few_bytes = omega arith

serve-ends_example : ends toy tick (serve toy tick 200 greeted) ≡ true
serve-ends_example = serve-ends toy tick 200 greeted few_bytes

abbrev used_up : Stream
used_up = record { incoming = []; outgoing = []; room = 1000 }

early-read : read_from hurried.stream ≡ (used_up, ok early)
unfolding hurried read_from
early-read = refl

early-ne : early.nonce ≢ hurried.rx_cipher.nonce
unfolding hurried
early-ne = λ e. absurd (omega (arith, e))

serve_frame-IsCutOff_example : IsCutOff toy tick hurried (serve_frame toy tick hurried)
serve_frame-IsCutOff_example =
    serve_frame-IsCutOff toy tick hurried used_up early early-read (inl refl) early-ne

greeted-InStep : InStep greeted.replay_filter greeted.rx_cipher.nonce
unfolding greeted
greeted-InStep = record {
  window_pos = omega arith;
  window_le = omega arith;
  counter_fits = omega arith;
  last_fits = omega arith;
  follows = λ e. cc;
}

greeted-CanAnswer : CanAnswer toy tick toy-SealsMessages greeted left hi (104 ∷ 105 ∷ [])
unfolding greeted hi left reply_to
greeted-CanAnswer = record {
  in_step = greeted-InStep;
  unwrapped = λ e. cc;
  arrives = hi-read;
  is_data = refl;
  is_next = refl;
  opens = refl;
  reply_small = omega arith;
  has_nonce = omega arith;
  has_room = omega arith;
}

serve_frame-answers_example :
    (ct : Bytes) × (s' : Session) × (toy.aead_encrypt greeted.tx_cipher.key
        (build_nonce greeted.tx_cipher.nonce)
        tunnel_data
        (reply_to (104 ∷ 105 ∷ []))
      ≡ some ct)
    × (serve_frame toy tick greeted ≡ (s', ok again))
    × (s'.stream.outgoing
        ≡ greeted.stream.outgoing ++ serialize (Frame.new data_payload greeted.tx_cipher.nonce ct))
    × InStep s'.replay_filter s'.rx_cipher.nonce
serve_frame-answers_example =
    serve_frame-answers toy tick toy-SealsMessages greeted left hi (104 ∷ 105 ∷ [])
      greeted-CanAnswer

abbrev pub server_keys : KeyPair
server_keys = record { private_key = replicate 32 3; public_key = replicate 32 3 }

abbrev addr : Bytes × ℕ
addr = (codes "127.0.0.1", 9000)

abbrev pair_server : TunnelServer
unfolding new with_max_connections
pair_server = with_max_connections 2 (new server_keys addr)

abbrev one_client : Listener
unfolding new with_max_connections fetch_add
one_client = record {
  server = fetch_add (with_max_connections 2 (new server_keys addr));
  admitting = false;
  running = 1;
}

one_client-Reach : Reach (started (with_max_connections 2 (new server_keys addr))) one_client
unfolding is_at_capacity one_client new with_max_connections fetch_add
one_client-Reach = next (admit refl refl) (next (spawn refl) here)

Reach-available_capacity_example :
    (one_client.running ≤ 2)
    × (one_client.server.active_connections ≡ one_client.running)
    × (available_capacity one_client.server ≡ some (2 - one_client.running))
Reach-available_capacity_example =
    Reach-available_capacity 2 server_keys addr one_client (omega arith) one_client-Reach

pair_server-limit : pair_server.max_connections ≡ some 2
unfolding pair_server
pair_server-limit = refl

reset_connections-fetch_sub_example :
    (is_at_capacity (fetch_sub (reset_connections pair_server)) ≡ true)
    × (available_capacity (fetch_sub (reset_connections pair_server)) ≡ some 0)
reset_connections-fetch_sub_example =
    reset_connections-fetch_sub pair_server 2 pair_server-limit (omega arith)
