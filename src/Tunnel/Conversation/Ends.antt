-- ===== src/Tunnel/Conversation/Ends.antt =====
-- client.rs and server.rs: a whole interactive session, from the first byte to the last.
use noise_tunnel_rs.Base.{
  ℕ, ◌+◌, ◌-◌, ◌*◌, ◌^◌, ◌≤◌, ◌<◌, ◌≡◌, [], ◌∷◌, ◌++◌, List, length, arith, refl, sym, ap, ◌∙◌,
  append-nil, append_assoc, codes, suc, some,
}
use noise_tunnel_rs.Base.Bytes.{Bytes, u64_max}
use noise_tunnel_rs.Error.{Result, ok}
use noise_tunnel_rs.Crypto.Primitives.{Primitives}
use noise_tunnel_rs.Crypto.Keys.{KeyPair}
use noise_tunnel_rs.Protocol.Frame.{serialize}
use noise_tunnel_rs.Protocol.Frame
use noise_tunnel_rs.Protocol.Frame.RoundTrip.{length-serialize}
use noise_tunnel_rs.Protocol.MessageType.{close}
use noise_tunnel_rs.Protocol.Stream.{Stream, connection}
use noise_tunnel_rs.Stats
use noise_tunnel_rs.Client.{TunnelClient}
use noise_tunnel_rs.Client.Interactive.{Console, converse, start_interactive_session}
use noise_tunnel_rs.Client.Interactive.Line.{start_interactive_session_lem, tuned, converse_quit}
use noise_tunnel_rs.Client.Handshake.{Hello}
use noise_tunnel_rs.Server.Handshake.{Answer}
use noise_tunnel_rs.Server.Session.{Session, session_start, serve}
use noise_tunnel_rs.Server.Session.Reached.{session_start-InStep}
use noise_tunnel_rs.Protocol.Replay
use noise_tunnel_rs.Tunnel.Agreement.{Promises}
use noise_tunnel_rs.Tunnel.Shaken.{Shaken}
use noise_tunnel_rs.Tunnel.Streams.{
  perform_handshake_lem, server_answer-nonce, accept_handshake_lem, client_hello-nonce,
}
use noise_tunnel_rs.Tunnel.Conversation.{Matched, CipherState, feed}
use noise_tunnel_rs.Tunnel.Conversation.Lines.{heard, Conversed}
use noise_tunnel_rs.Server.Connection.{handle_client_with_prologue}
use noise_tunnel_rs.Server.Session.Close.{serve_frame-close, serve_leaves}
use noise_tunnel_rs.Server.Connection.Visit.{handle_client_lem}

module _ (p : Primitives) (laws : Promises p) (self : TunnelClient) (server_keys : KeyPair)
    (prologue client_secret server_secret : Bytes) (hello : Hello) (answer : Answer)
    (shaken : Shaken p self server_keys prologue client_secret server_secret hello answer)
    (client_clock server_clock : ℕ → ℕ) (now room : ℕ) where
  pub hello_bytes : Bytes
  hello_bytes = serialize hello.frame

  pub answer_bytes : Bytes
  answer_bytes = serialize answer.frame

  -- The two ends after the handshake, with nothing more to come yet.
  abbrev pub console : Console
  unfolding Stats.new
  console = record {
    stream = connection [] hello_bytes (room - length hello_bytes);
    tx_cipher = answer.rx_cipher;
    rx_cipher = answer.tx_cipher;
    session_metrics = Stats.new now;
    clock = client_clock now;
    shown = [];
  }

  abbrev pub session : Session
  unfolding session_start
  session = session_start answer (connection [] answer_bytes (room - length answer_bytes)) now

  pub ends-Matched :
      (count bytes : ℕ)
      → count < u64_max
      → 83 + bytes + 44 * count ≤ room
      → Matched console session count bytes
  unfolding hello_bytes answer_bytes session console Replay.new session_start
  ends-Matched count bytes few roomy =
      let hello_size = length-serialize hello.frame in
      let answer_size = length-serialize answer.frame in
      record {
        tx = refl;
        rx = refl;
        in_step = session_start-InStep p server_clock answer session.stream now shaken.fresh_rx;
        unwrapped = λ never. cc;
        rx_left = omega (arith, shaken.fresh_rx, few);
        tx_left = omega (arith, shaken.fresh_tx, few);
        client_room = omega (arith, hello_size, shaken.hello_size, roomy);
        server_room = omega (arith, answer_size, shaken.answer_size, roomy);
      }

  module _ (lines : List Bytes)
      (r : Conversed p client_clock server_clock lines console session 0 13) where
    pub bye_bytes : Bytes
    bye_bytes = serialize (Frame.new close r.last.tx_cipher.nonce [])

    -- The client types the lines and then `/quit`.
    pub client_end :
        82 ≤ room
        → (t : Stream) × (start_interactive_session p self client_secret client_clock now
              (lines ++ codes "/quit" ∷ [])
              (connection (answer_bytes ++ r.to_client) [] room)
            ≡ ((t, heard lines []), ok tt))
          × (t.incoming ≡ [])
          × (t.outgoing ≡ hello_bytes ++ (r.to_server ++ bye_bytes))
    unfolding hello_bytes answer_bytes bye_bytes console
    client_end roomy =
        let greeting =
          perform_handshake_lem p self server_keys prologue client_secret server_secret hello
            answer.frame (answer.rx_cipher, answer.tx_cipher) r.to_client [] room shaken.said
            shaken.finished shaken.hello_size shaken.answer_size
            (server_answer-nonce p server_keys prologue server_secret hello.frame answer
              shaken.answered)
            roomy in
        let (c, quit, stream, shown) =
          converse_quit p client_clock [] (tuned [] r.last)
            (omega (arith, r.matched.client_room)) in
        let talked =
          ap
            (λ (b : Bytes). converse p client_clock (lines ++ codes "/quit" ∷ []) (tuned b console))
            (sym (append-nil r.to_client))
          ∙ r.said (codes "/quit" ∷ []) []
          ∙ quit in
        (
          c.stream,
          start_interactive_session_lem p self client_secret client_clock now
                (lines ++ codes "/quit" ∷ []) (connection (answer_bytes ++ r.to_client) [] room) _ _
                _ c greeting talked
              ∙ ap {B = (Stream × List Bytes) × Result (Unit {0})}
                  (λ (heard : List Bytes). ((c.stream, heard), ok tt)) (shown ∙ r.shown),
          ap (λ (u : Stream). u.incoming) stream,
          ap (λ (u : Stream). u.outgoing) stream
              ∙ ap (λ (o : Bytes). o ++ bye_bytes) r.sent
              ∙ append_assoc hello_bytes r.to_server bye_bytes,
        )

    -- The server reads the same bytes, answers, and leaves at the Close frame.
    pub server_end :
        (rounds : ℕ)
        → suc (length lines) ≤ rounds
        → 83 ≤ room
        → (t : Stream) × (handle_client_with_prologue p server_clock server_keys prologue
              server_secret rounds now
              (connection (hello_bytes ++ (r.to_server ++ bye_bytes)) [] room)
            ≡ some (t, ok tt))
          × (t.incoming ≡ [])
          × (t.outgoing ≡ answer_bytes ++ r.to_client)
    unfolding hello_bytes answer_bytes bye_bytes session session_start
    server_end rounds enough roomy =
        let joined =
          accept_handshake_lem p self server_keys prologue client_secret server_secret hello.frame
            answer (r.to_server ++ bye_bytes) [] room shaken.answered shaken.hello_size
            shaken.answer_size (client_hello-nonce p self client_secret hello shaken.said) roomy in
        let nonce_fits : r.last.tx_cipher.nonce < 2 ^ 64 =
          omega (arith, ap (λ (c : CipherState). c.nonce) r.matched.tx, r.matched.rx_left) in
        let (s, left, stream) =
          serve_frame-close p server_clock (feed bye_bytes r.final) r.last.tx_cipher.nonce []
            nonce_fits (sym (append-nil bye_bytes)) in
        let last_round =
          serve_leaves p server_clock (rounds - r.turns) (feed bye_bytes r.final) s
            (omega (arith, enough, r.few)) left in
        let all_rounds : rounds ≡ r.turns + (rounds - r.turns) = omega (arith, enough, r.few) in
        let served =
          ap (λ (n : ℕ). serve p server_clock n (feed (r.to_server ++ bye_bytes) session))
            all_rounds
          ∙ r.served bye_bytes (rounds - r.turns)
          ∙ last_round in
        (
          s.stream,
          handle_client_lem p server_clock server_keys prologue server_secret rounds now
              (connection (hello_bytes ++ (r.to_server ++ bye_bytes)) [] room) _ answer s joined
              served,
          ap (λ (u : Stream). u.incoming) stream,
          ap (λ (u : Stream). u.outgoing) stream ∙ r.answered,
        )
