-- ===== src/Tunnel/Conversation/Lines.antt =====
-- client.rs and server.rs: the lines of an interactive session, at both ends.
use noise_tunnel_rs.Base.Bytes.{same_bytes→eq}
use noise_tunnel_rs.Tunnel.Conversation.Pings.{IsPing, ping_turns}
use noise_tunnel_rs.Tunnel.Conversation.{shown_reply}
use noise_tunnel_rs.Base.{
  ℕ, ◌+◌, ◌≤◌, ◌≡◌, ◌⊎◌, [], ◌∷◌, ◌++◌, List, true, false, some, length, arith, refl, sym, ap, ◌∙◌,
  append-nil, append_assoc, codes, if◌then◌else◌, All, suc, zero, inl, inr,
}
use noise_tunnel_rs.Base.Bytes.{Bytes}
use noise_tunnel_rs.Base.Utf8.{from_utf8}
use noise_tunnel_rs.Error.{ok}
use noise_tunnel_rs.Crypto.Primitives.{Primitives, SealsMessages}
use noise_tunnel_rs.Client.Interactive.{Console, is_quiet, converse}
use noise_tunnel_rs.Client.Interactive.Line.{IsMessage, tuned, converse_quiet}
use noise_tunnel_rs.Server.Session.{Session, again, serve, serve_frame}
use noise_tunnel_rs.Server.Session.Feed.{feed}
use noise_tunnel_rs.Tunnel.Conversation.{Matched, Turned, line_turns}

-- A line that prints something and sends nothing, a ping, or a text that fits a frame with its
-- answer.
abbrev pub IsLine : Bytes → Type 0
IsLine line =
    (is_quiet line ≡ true)
    ⊎ (IsPing line ⊎ (IsMessage line × (from_utf8 line ≡ some line) × (length line ≤ 65496)))

-- The number of the lines, and of their bytes.
abbrev pub size : List Bytes → ℕ
size [] = 0
size (line ∷ lines) = length line + size lines

-- The replies to the lines on top of those that were shown before.
abbrev pub heard : List Bytes → List Bytes → List Bytes
heard [] shown = shown
heard (line ∷ lines) shown =
    if is_quiet line then heard lines shown else heard lines (shown_reply line ∷ shown)

-- From `c` and `s` the ends come to `last` and `final` over the lines: the client sends `to_server`
-- and takes `to_client` in, the server the other way round.
pub record Conversed (p : Primitives) (client_clock server_clock : ℕ → ℕ) (lines : List Bytes)
    (c : Console) (s : Session) (count spare : ℕ) : Type 0 where
  pub to_server : Bytes
  pub to_client : Bytes
  pub last : Console
  pub final : Session
  pub turns : ℕ
  pub few : turns ≤ length lines
  pub said :
      (later : List Bytes) (back : Bytes)
      → converse p client_clock (lines ++ later) (tuned (to_client ++ back) c)
        ≡ converse p client_clock later (tuned back last)
  pub served :
      (rest : Bytes) (rounds : ℕ)
      → serve p server_clock (turns + rounds) (feed (to_server ++ rest) s)
        ≡ serve p server_clock rounds (feed rest final)
  pub sent : last.stream.outgoing ≡ c.stream.outgoing ++ to_server
  pub answered : final.stream.outgoing ≡ s.stream.outgoing ++ to_client
  pub shown : last.shown ≡ heard lines c.shown
  pub matched : Matched last final count spare

module _ (p : Primitives) (sealing : SealsMessages p) (client_clock server_clock : ℕ → ℕ) where
  no_lines :
      (c : Console) (s : Session) (count spare : ℕ)
      → Matched c s count spare
      → Conversed p client_clock server_clock [] c s count spare
  no_lines c s count spare m = record {
    to_server = [];
    to_client = [];
    last = c;
    final = s;
    turns = 0;
    few = omega arith;
    said = λ later back. refl;
    served = λ rest rounds. ap (λ (n : ℕ). serve p server_clock n (feed rest s)) (omega arith);
    sent = sym (append-nil c.stream.outgoing);
    answered = sym (append-nil s.stream.outgoing);
    shown = refl;
    matched = m;
  }

  quiet_first :
      (line : Bytes) (lines : List Bytes) (c : Console) (s : Session) (count spare : ℕ)
      → is_quiet line ≡ true
      → Conversed p client_clock server_clock lines c s count spare
      → Conversed p client_clock server_clock (line ∷ lines) c s count spare
  quiet_first line lines c s count spare quiet r = record {
    to_server = r.to_server;
    to_client = r.to_client;
    last = r.last;
    final = r.final;
    turns = r.turns;
    few = omega (arith, r.few);
    said = λ later back.
        converse_quiet p client_clock line (lines ++ later) (tuned (r.to_client ++ back) c) quiet
        ∙ r.said later back;
    served = r.served;
    sent = r.sent;
    answered = r.answered;
    shown = r.shown ∙ rw quiet refl;
    matched = r.matched;
  }

  -- A round of the server's loop, for any bound on those that follow.
  round_first :
      (s s1 : Session) (n m : ℕ)
      → n ≡ suc m
      → serve_frame p server_clock s ≡ (s1, ok again)
      → serve p server_clock n s ≡ serve p server_clock m s1
  unfolding serve
  round_first s s1 zero m e h = absurd (omega (arith, e))
  round_first s s1 (suc n) m e h =
      rw h (ap (λ (k : ℕ). serve p server_clock k s1) (omega (arith, e)))

  turn_first :
      (line : Bytes) (lines : List Bytes) (c : Console) (s : Session) (count spare more left : ℕ)
      → is_quiet line ≡ false
      → (t : Turned p client_clock server_clock line c s more left)
      → Conversed p client_clock server_clock lines t.c1 t.s1 count spare
      → Conversed p client_clock server_clock (line ∷ lines) c s count spare
  turn_first line lines c s count spare more left loud t r = record {
    to_server = t.to_server ++ r.to_server;
    to_client = t.to_client ++ r.to_client;
    last = r.last;
    final = r.final;
    turns = suc r.turns;
    few = omega (arith, r.few);
    said = λ later back.
        ap (λ (b : Bytes). converse p client_clock (line ∷ (lines ++ later)) (tuned b c))
          (append_assoc t.to_client r.to_client back)
        ∙ t.said (lines ++ later) (r.to_client ++ back)
        ∙ r.said later back;
    served = λ rest rounds.
        ap (λ (b : Bytes). serve p server_clock (suc r.turns + rounds) (feed b s))
          (append_assoc t.to_server r.to_server rest)
        ∙ round_first (feed (t.to_server ++ (r.to_server ++ rest)) s)
            (feed (r.to_server ++ rest) t.s1) (suc r.turns + rounds) (r.turns + rounds)
            (omega arith) (t.served (r.to_server ++ rest))
        ∙ r.served rest rounds;
    sent =
        r.sent
        ∙ ap (λ (o : Bytes). o ++ r.to_server) t.sent
        ∙ append_assoc c.stream.outgoing t.to_server r.to_server;
    answered =
        r.answered
        ∙ ap (λ (o : Bytes). o ++ r.to_client) t.answered
        ∙ append_assoc s.stream.outgoing t.to_client r.to_client;
    shown = r.shown ∙ ap (heard lines) t.shown ∙ rw loud refl;
    matched = r.matched;
  }

  lessen :
      (c : Console) (s : Session) (a b count spare : ℕ)
      → Matched c s a b
      → count ≤ a
      → spare ≤ b
      → Matched c s count spare
  lessen c s a b count spare m ha hb = record {
    tx = m.tx;
    rx = m.rx;
    in_step = m.in_step;
    unwrapped = m.unwrapped;
    rx_left = omega (arith, m.rx_left);
    tx_left = omega (arith, m.tx_left);
    client_room = omega (arith, m.client_room);
    server_room = omega (arith, m.server_room);
  }

  pub lines_turn :
      (lines : List Bytes) (c : Console) (s : Session) (count spare : ℕ)
      → All IsLine lines
      → Matched c s (length lines + count) (size lines + spare)
      → Conversed p client_clock server_clock lines c s count spare
  lines_turn [] c s count spare all m =
      no_lines c s count spare (lessen c s _ _ count spare m (omega arith) (omega arith))
  lines_turn (line ∷ lines) c s count spare (inl quiet, all) m =
      quiet_first line lines c s count spare quiet (
        lines_turn lines c s count spare all (
          lessen c s _ _ (length lines + count) (size lines + spare) m (omega arith) (omega arith)))
  lines_turn (line ∷ lines) c s count spare (inr (inl is_ping), all) m =
      let short : length line ≡ 5 = ap length (same_bytes→eq line (codes "/ping") is_ping.2) in
      let t =
        ping_turns p sealing client_clock server_clock line c s (length lines + count)
          (size lines + spare) is_ping
          (lessen c s _ _ (suc (length lines + count)) (5 + (size lines + spare)) m (omega arith)
            (omega (arith, short))) in
      turn_first line lines c s count spare (length lines + count) (size lines + spare) is_ping.0 t
        (lines_turn lines t.c1 t.s1 count spare all t.matched)
  lines_turn (line ∷ lines) c s count spare (inr (inr (message, text, small)), all) m =
      let t =
        line_turns p sealing client_clock server_clock line c s (length lines + count)
          (size lines + spare) message text small
          (lessen c s _ _ (suc (length lines + count)) (length line + (size lines + spare)) m
            (omega arith) (omega arith)) in
      turn_first line lines c s count spare (length lines + count) (size lines + spare) message.0 t
        (lines_turn lines t.c1 t.s1 count spare all t.matched)
