-- ===== src/Tunnel/Halves.antt =====
-- client.rs and server.rs: what each end does with one message, once the handshake is known.
use noise_tunnel_rs.Base.{
  ℕ, ◌+◌, ◌-◌, ◌≤◌, ◌≡◌, [], ◌++◌, some, length, length-append, append_assoc, append-nil, arith,
  refl, ap, sym, ◌∙◌, codes,
}
use noise_tunnel_rs.Base.Bytes.{Bytes}
use noise_tunnel_rs.Base.Utf8.{from_utf8}
use noise_tunnel_rs.Error.{Result, ok}
use noise_tunnel_rs.Crypto.Primitives.{Primitives}
use noise_tunnel_rs.Crypto.Keys.{KeyPair}
use noise_tunnel_rs.Crypto.Cipher.{CipherState, build_nonce}
use noise_tunnel_rs.Crypto.Cipher.Nonces.{encrypt_succeeds}
use noise_tunnel_rs.Crypto.Cipher.Channel.{decrypt_opens}
use noise_tunnel_rs.Protocol.Frame.{WireFrame, serialize}
use noise_tunnel_rs.Protocol.Frame
use noise_tunnel_rs.Protocol.Frame.RoundTrip.{length-serialize}
use noise_tunnel_rs.Protocol.MessageType.{data_payload, close}
use noise_tunnel_rs.Protocol.Stream.{Stream, connection}
use noise_tunnel_rs.Server.Session.Close.{serve_message}
use noise_tunnel_rs.Client.Message.Exchange.{exchange_lem}
use noise_tunnel_rs.Server.Connection.Visit.{handle_client_lem}
use noise_tunnel_rs.Client.{TunnelClient}
use noise_tunnel_rs.Client.Message.{exchange, data_label}
use noise_tunnel_rs.Server.Session.{reply_to, session_start, Session, serve, tunnel_data}
use noise_tunnel_rs.Server.Session.Reached.{session_start-InStep}
use noise_tunnel_rs.Protocol.Replay
use noise_tunnel_rs.Server.Session.Echo.{Ready}
use noise_tunnel_rs.Server.Connection.{handle_client_with_prologue}
use noise_tunnel_rs.Tunnel.Shaken.{Shaken, Sealed}
use noise_tunnel_rs.Tunnel.Agreement.{Promises}
use noise_tunnel_rs.Tunnel.Streams.{
  perform_handshake_lem, accept_handshake_lem, client_hello-nonce, server_answer-nonce,
}
use noise_tunnel_rs.Server.Handshake.{Answer}
use noise_tunnel_rs.Client.Handshake.{Hello}

module _ (p : Primitives) (laws : Promises p) (self : TunnelClient) (server_keys : KeyPair)
    (prologue client_secret server_secret : Bytes) (hello : Hello) (answer : Answer)
    (shaken : Shaken p self server_keys prologue client_secret server_secret hello answer)
    (message : Bytes) (greeted : reply_to message ≡ codes "Server mottok: " ++ message)
    (small : length message ≤ 65496) (room : ℕ) (roomy : 200 + length message ≤ room) where
  hello_bytes : Bytes
  hello_bytes = serialize hello.frame

  answer_bytes : Bytes
  answer_bytes = serialize answer.frame

  data_bytes : Bytes → Bytes
  data_bytes ct = serialize (Frame.new data_payload answer.rx_cipher.nonce ct)

  bye_bytes : Bytes
  bye_bytes = serialize (Frame.new close (answer.rx_cipher.nonce + 1) [])

  reply_bytes : Bytes → Bytes
  reply_bytes rct = serialize (Frame.new data_payload answer.tx_cipher.nonce rct)

  -- What each end sends, in the end.
  to_server : Bytes → Bytes
  to_server ct = (hello_bytes ++ data_bytes ct) ++ bye_bytes

  to_client : Bytes → Bytes
  to_client rct = answer_bytes ++ reply_bytes rct

  length-hello_bytes : length hello_bytes ≡ 82
  unfolding hello_bytes
  length-hello_bytes = omega (arith, length-serialize hello.frame, shaken.hello_size)

  length-answer_bytes : length answer_bytes ≡ 83
  unfolding answer_bytes
  length-answer_bytes = omega (arith, length-serialize answer.frame, shaken.answer_size)

  length-reply_to : length (reply_to message) ≡ 15 + length message
  length-reply_to = omega (arith, ap length greeted)

  client_half :
      (ct rct : Bytes)
      → Sealed p answer message ct rct
      → from_utf8 (reply_to message) ≡ some (reply_to message)
      → exchange p self client_secret message (connection (to_client rct) [] room) ≡ (
        connection [] (to_server ct) (room - length (to_server ct)),
        ok (codes "Server mottok: " ++ message),
      )
  unfolding to_client to_server hello_bytes answer_bytes data_bytes bye_bytes reply_bytes
  client_half ct rct sealed text =
      let tx = answer.rx_cipher in
      let rx = answer.tx_cipher in
      let greeting =
        perform_handshake_lem p self server_keys prologue client_secret server_secret hello
          answer.frame (tx, rx) (reply_bytes rct ++ []) [] room shaken.said shaken.finished
          shaken.hello_size shaken.answer_size
          (server_answer-nonce p server_keys prologue server_secret hello.frame answer
            shaken.answered)
          (omega (arith, roomy)) in
      let opened =
        ap (λ (r : CipherState × Result Bytes). r.1)
          (decrypt_opens p rx (reply_to message) data_label rct laws.sealing
            (omega (arith, shaken.fresh_tx)) sealed.reply_sealed) in
      let exchanged =
        exchange_lem p self client_secret message (reply_to message) ct rct [] hello_bytes
          (room - length hello_bytes) tx rx
          (connection (answer_bytes ++ (reply_bytes rct ++ [])) [] room) greeting sealed.encrypted
          opened text (omega (arith, shaken.fresh_tx))
          (omega (arith, sealed.reply_size, length-reply_to, small))
          (omega (arith, sealed.size, small, roomy, length-hello_bytes)) in
      let sizes : room - length hello_bytes - length (data_bytes ct) - length bye_bytes
          ≡ room - length (to_server ct) =
        omega (
          arith,
          length-append (hello_bytes ++ data_bytes ct) bye_bytes,
          length-append hello_bytes (data_bytes ct),
        ) in
      ap
        (λ (t : Bytes).
          exchange p self client_secret message (connection (answer_bytes ++ t) [] room))
        (sym (append-nil (reply_bytes rct)))
      ∙ exchanged
      ∙ ap {B = Stream × Result Bytes}
          (λ (n : ℕ). (connection [] (to_server ct) n, ok (reply_to message))) sizes
      ∙ ap {B = Stream × Result Bytes}
          (λ (t : Bytes). (connection [] (to_server ct) (room - length (to_server ct)), ok t))
          greeted

  abbrev begun : Bytes → ℕ → Session
  unfolding session_start answer_bytes data_bytes bye_bytes
  begun ct now =
      session_start answer
        (connection (data_bytes ct ++ bye_bytes) answer_bytes (room - length answer_bytes)) now

  begun-Ready :
      (next_reading : ℕ → ℕ) (ct : Bytes) (now : ℕ)
      → p.aead_encrypt answer.rx_cipher.key (build_nonce answer.rx_cipher.nonce) tunnel_data message
        ≡ some ct
      → length ct ≡ length message + 16
      → Ready p (begun ct now) message ct bye_bytes
  unfolding begun Replay.new
  begun-Ready next_reading ct now sealed size = record {
    in_step = session_start-InStep p next_reading answer (begun ct now).stream now shaken.fresh_rx;
    unwrapped = λ never. cc;
    arrives = refl;
    sealed = sealed;
    size = size;
    small = omega (arith, small);
    reply_small = omega (arith, small, length-reply_to);
    has_nonce = omega (arith, shaken.fresh_tx);
    has_room = omega (arith, roomy, length-reply_to, length-answer_bytes);
  }

  server_half :
      (next_reading : ℕ → ℕ) (ct rct : Bytes) (rounds now : ℕ) (s : Session)
      → serve p next_reading rounds (begun ct now) ≡ some (s, ok tt)
      → s.stream
        ≡ connection []
            (answer_bytes ++ reply_bytes rct)
            (room - length answer_bytes - length (reply_bytes rct))
      → handle_client_with_prologue p next_reading server_keys prologue server_secret rounds now
          (connection (to_server ct) [] room)
        ≡ some (connection [] (to_client rct) (room - length (to_client rct)), ok tt)
  unfolding begun to_client to_server hello_bytes answer_bytes data_bytes bye_bytes reply_bytes
  server_half next_reading ct rct rounds now s served left =
      let joined =
        accept_handshake_lem p self server_keys prologue client_secret server_secret hello.frame
          answer (data_bytes ct ++ bye_bytes) [] room shaken.answered shaken.hello_size
          shaken.answer_size (client_hello-nonce p self client_secret hello shaken.said)
          (omega (arith, roomy)) in
      let sizes : room - length answer_bytes - length (reply_bytes rct)
          ≡ room - length (to_client rct) =
        omega (arith, length-append answer_bytes (reply_bytes rct)) in
      ap
        (λ (t : Bytes).
          handle_client_with_prologue p next_reading server_keys prologue server_secret rounds now
            (connection t [] room))
        (append_assoc hello_bytes (data_bytes ct) bye_bytes)
      ∙ handle_client_lem p next_reading server_keys prologue server_secret rounds now
          (connection (hello_bytes ++ (data_bytes ct ++ bye_bytes)) [] room) (begun ct now).stream
          answer s joined served
      ∙ ap (λ (t : Stream). some (t, ok tt)) left
      ∙ ap (λ (n : ℕ). some (connection [] (to_client rct) n, ok tt)) sizes

  -- Both halves together.
  pub both_halves :
      (next_reading : ℕ → ℕ) (rounds now : ℕ)
      → 2 ≤ rounds
      → from_utf8 (reply_to message) ≡ some (reply_to message)
      → (client_bytes server_bytes : Bytes) × (exchange p self client_secret message
            (connection server_bytes [] room)
          ≡ (
            connection [] client_bytes (room - length client_bytes),
            ok (codes "Server mottok: " ++ message),
          ))
        × (handle_client_with_prologue p next_reading server_keys prologue server_secret rounds now
              (connection client_bytes [] room)
            ≡ some (connection [] server_bytes (room - length server_bytes), ok tt))
  unfolding begun bye_bytes reply_bytes
  both_halves next_reading rounds now enough reply_text =
      let (ct, encrypted, sealed, size) =
        encrypt_succeeds p answer.rx_cipher message data_label laws.sealing (omega (arith, small))
          (omega (arith, shaken.fresh_rx)) in
      let (rct, s, served, reply_sealed, reply_size, left) =
        serve_message p laws.sealing next_reading (begun ct now) message ct rounds
          (answer.rx_cipher.nonce + 1) (begun-Ready next_reading ct now sealed size)
          (omega (arith, shaken.fresh_rx)) enough in
      let both : Sealed p answer message ct rct = record {
        encrypted = encrypted;
        size = size;
        reply_sealed = reply_sealed;
        reply_size = reply_size;
      } in
      (
        to_server ct,
        to_client rct,
        client_half ct rct both reply_text,
        server_half next_reading ct rct rounds now s served left,
      )
