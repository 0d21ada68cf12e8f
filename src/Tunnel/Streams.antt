-- ===== src/Tunnel/Streams.antt =====
-- client.rs and server.rs: the handshake over the streams of the two ends.
use noise_tunnel_rs.Base.{ℕ, ◌-◌, ◌≤◌, ◌≡◌, ◌++◌, true, length, arith, refl}
use noise_tunnel_rs.Base.Bytes.{Bytes}
use noise_tunnel_rs.Error.{ok}
use noise_tunnel_rs.Crypto.Primitives.{Primitives}
use noise_tunnel_rs.Crypto.Keys.{KeyPair}
use noise_tunnel_rs.Protocol.Wire.{read_from}
use noise_tunnel_rs.Protocol.Frame
use noise_tunnel_rs.Protocol.Frame.{WireFrame, serialize, is_valid_payload_size, max_payload_size}
use noise_tunnel_rs.Protocol.Frame.RoundTrip.{length-serialize}
use noise_tunnel_rs.Protocol.Stream.{connection}
use noise_tunnel_rs.Protocol.Wire.Exact.{write_to_lem, read_from-serialize}
use noise_tunnel_rs.Client.{TunnelClient}
use noise_tunnel_rs.Client.Handshake.{Hello, client_hello, client_finish}
use noise_tunnel_rs.Crypto.Cipher.{CipherState}
use noise_tunnel_rs.Client.Message.{perform_handshake}
use noise_tunnel_rs.Server.Handshake.{Answer, server_answer}
use noise_tunnel_rs.Server.Connection.{accept_handshake}
use noise_tunnel_rs.Tunnel.Agreement.{Promises, Honest, handshake_agrees}

pub client_hello-nonce :
    (p : Primitives) (self : TunnelClient) (secret : Bytes) (hello : Hello)
    → client_hello p self secret ≡ ok hello
    → hello.frame.nonce ≡ 0
unfolding client_hello Frame.new
client_hello-nonce p self secret hello e = ground arith

pub server_answer-nonce :
    (p : Primitives) (keys : KeyPair) (prologue secret : Bytes) (f : WireFrame) (answer : Answer)
    → server_answer p keys prologue secret f ≡ ok answer
    → answer.frame.nonce ≡ 0
unfolding server_answer Frame.new
server_answer-nonce p keys prologue secret f answer e = ground arith

small-is_valid : (n : ℕ) → n ≤ 100 → is_valid_payload_size n ≡ true
unfolding is_valid_payload_size max_payload_size
small-is_valid n h = ground arith

-- A small frame that is read off a connection.
pub read_small :
    (f : WireFrame) (rest out : Bytes) (room : ℕ)
    → f.nonce ≡ 0
    → length f.payload ≤ 100
    → read_from (connection (serialize f ++ rest) out room) ≡ (connection rest out room, ok f)
read_small f rest out room zero_nonce small =
    read_from-serialize f (connection (serialize f ++ rest) out room) rest
      (omega (arith, zero_nonce)) (small-is_valid (length f.payload) small) refl

module _ (p : Primitives) (self : TunnelClient) (server_keys : KeyPair)
    (prologue client_secret server_secret : Bytes) where
  -- The client's half over its connection, when the server's frame is the next that it brings.
  pub perform_handshake_lem :
      (hello : Hello) (answer : WireFrame) (ciphers : CipherState × CipherState) (back out : Bytes)
      (room : ℕ)
      → client_hello p self client_secret ≡ ok hello
      → client_finish p self hello answer ≡ ok ciphers
      → length hello.frame.payload ≡ 69
      → length answer.payload ≡ 70
      → answer.nonce ≡ 0
      → 82 ≤ room
      → perform_handshake p self client_secret (connection (serialize answer ++ back) out room) ≡ (
        connection back (out ++ serialize hello.frame) (room - length (serialize hello.frame)),
        ok ciphers,
      )
  unfolding perform_handshake
  perform_handshake_lem hello answer ciphers back out room said finished hello_size answer_size
        zero_nonce roomy =
      let written =
        write_to_lem hello.frame (connection (serialize answer ++ back) out room)
          (omega (arith, length-serialize hello.frame, hello_size)) in
      let read =
        read_small answer back (out ++ serialize hello.frame)
          (room - length (serialize hello.frame)) zero_nonce (omega (arith, answer_size)) in
      rw (said, written, read, finished) refl

  -- The server's half, when the client's frame is the next that its connection brings.
  pub accept_handshake_lem :
      (hello : WireFrame) (answer : Answer) (rest out : Bytes) (room : ℕ)
      → server_answer p server_keys prologue server_secret hello ≡ ok answer
      → length hello.payload ≡ 69
      → length answer.frame.payload ≡ 70
      → hello.nonce ≡ 0
      → 83 ≤ room
      → accept_handshake p server_keys prologue server_secret
          (connection (serialize hello ++ rest) out room)
        ≡ (
          connection rest (out ++ serialize answer.frame) (room - length (serialize answer.frame)),
          ok answer,
        )
  unfolding accept_handshake
  accept_handshake_lem hello answer rest out room answered hello_size answer_size zero_nonce roomy =
      let read = read_small hello rest out room zero_nonce (omega (arith, hello_size)) in
      let written =
        write_to_lem answer.frame (connection rest out room)
          (omega (arith, length-serialize answer.frame, answer_size)) in
      rw (read, answered, written) refl

  -- What the two ends do to their connections: the client's has room for its frame and then brings
  -- the server's frame and `back`, the server's brings the client's frame and `rest`.
  abbrev pub IsJoined : Bytes → Bytes → Bytes → Bytes → ℕ → ℕ → Hello → Answer → Type 0
  IsJoined rest back client_out server_out client_room server_room hello answer =
      (perform_handshake p self client_secret
          (connection (serialize answer.frame ++ back) client_out client_room)
        ≡ (
          connection back (client_out ++ serialize hello.frame)
              (client_room - length (serialize hello.frame)),
          ok (answer.rx_cipher, answer.tx_cipher),
        ))
      × (accept_handshake p server_keys prologue server_secret
            (connection (serialize hello.frame ++ rest) server_out server_room)
          ≡ (
            connection rest (server_out ++ serialize answer.frame)
                (server_room - length (serialize answer.frame)),
            ok answer,
          ))

module _ (p : Primitives) (laws : Promises p) (self : TunnelClient) (server_keys : KeyPair)
    (prologue client_secret server_secret : Bytes)
    (honest : Honest p self server_keys prologue client_secret server_secret) where
  -- If the crates keep their promises and the ends are honest, there are two frames such that over
  -- connections with room for them the client writes the first and reads the second, the server
  -- reads the first and writes the second, not a byte more is read or written, and the ciphers they
  -- end with belong together.
  pub handshake-IsJoined :
      (rest back client_out server_out : Bytes) (client_room server_room : ℕ)
      → 82 ≤ client_room
      → 83 ≤ server_room
      → (hello : Hello) × (answer : Answer) × IsJoined p self server_keys prologue client_secret
          server_secret rest back client_out server_out client_room server_room hello answer
  handshake-IsJoined rest back client_out server_out client_room server_room cr sr =
      let (hello, answer, said, answered, finished, _, _, hello_size, answer_size) =
        handshake_agrees p laws self server_keys prologue client_secret server_secret honest in
      let hello_nonce = client_hello-nonce p self client_secret hello said in
      let answer_nonce =
        server_answer-nonce p server_keys prologue server_secret hello.frame answer answered in
      (
        hello,
        answer,
        (
          perform_handshake_lem p self server_keys prologue client_secret server_secret hello
              answer.frame (answer.rx_cipher, answer.tx_cipher) back client_out client_room said
              finished hello_size answer_size answer_nonce cr,
          accept_handshake_lem p self server_keys prologue client_secret server_secret hello.frame
              answer rest server_out server_room answered hello_size answer_size hello_nonce sr,
        ),
      )
