-- ===== src/Server/Session/Close.antt =====
-- server.rs: the last message of a session, and the Close frame behind it.
use noise_tunnel_rs.Base.{
  ℕ, zero, suc, ◌+◌, ◌-◌, ◌≤◌, ◌<◌, ◌^◌, ◌≡◌, [], ◌++◌, some, length, append-nil, arith, refl, sym,
  ◌∙◌,
}
use noise_tunnel_rs.Base.Bytes.{Bytes}
use noise_tunnel_rs.Error.{ok}
use noise_tunnel_rs.Crypto.Primitives.{Primitives, SealsMessages}
use noise_tunnel_rs.Crypto.Cipher.{build_nonce}
use noise_tunnel_rs.Protocol.Frame.{WireFrame, serialize}
use noise_tunnel_rs.Protocol.Frame
use noise_tunnel_rs.Protocol.MessageType.{data_payload, close}
use noise_tunnel_rs.Protocol.Stream.{connection}
use noise_tunnel_rs.Protocol.Wire.Exact.{read_from-serialize}
use noise_tunnel_rs.Server.Session.{
  Session, again, leave, reply_to, tunnel_data, serve_frame, serve,
}
use noise_tunnel_rs.Server.Session.Echo.{Ready, serve_frame-Echoed, fits-is_valid}

-- A Close frame ends the session, and the bytes behind it are not read.
pub serve_frame-close :
    (p : Primitives) (next_reading : ℕ → ℕ) (s : Session) (nonce : ℕ) (rest : Bytes)
    → nonce < 2 ^ 64
    → s.stream.incoming ≡ serialize (Frame.new close nonce []) ++ rest
    → (s' : Session) × (serve_frame p next_reading s ≡ (s', ok leave))
      × (s'.stream ≡ record s.stream { incoming = rest })
unfolding serve_frame Frame.new
serve_frame-close p next_reading s nonce rest fits e =
    let read =
      read_from-serialize (Frame.new close nonce []) s.stream rest fits
        (fits-is_valid 0 (omega arith)) e in
    ((serve_frame p next_reading s).0, rw read refl, rw read refl)

-- The last round of the loop.
pub serve_leaves :
    (p : Primitives) (next_reading : ℕ → ℕ) (rounds : ℕ) (s s' : Session)
    → 1 ≤ rounds
    → serve_frame p next_reading s ≡ (s', ok leave)
    → serve p next_reading rounds s ≡ some (s', ok tt)
serve_leaves p next_reading zero s s' h e = absurd (omega arith)
serve_leaves p next_reading (suc n) s s' h e = rw e refl

-- Two rounds of the loop, the second its last.
serve_two :
    (p : Primitives) (next_reading : ℕ → ℕ) (rounds : ℕ) (s s1 s2 : Session)
    → 2 ≤ rounds
    → serve_frame p next_reading s ≡ (s1, ok again)
    → serve_frame p next_reading s1 ≡ (s2, ok leave)
    → serve p next_reading rounds s ≡ some (s2, ok tt)
serve_two p next_reading zero s s1 s2 h e e' = absurd (omega arith)
serve_two p next_reading (suc zero) s s1 s2 h e e' = absurd (omega arith)
serve_two p next_reading (suc (suc n)) s s1 s2 h e e' = rw (e, e') refl

module _ (p : Primitives) (sealing : SealsMessages p) (next_reading : ℕ → ℕ) where
  -- The server's half after the handshake: a session that is ready for the message answers it, and
  -- leaves at the Close frame behind it.
  pub serve_message :
      (s : Session) (pt ct : Bytes) (rounds nonce : ℕ)
      → Ready p s pt ct (serialize (Frame.new close nonce []))
      → nonce < 2 ^ 64
      → 2 ≤ rounds
      → (rct : Bytes) × (s' : Session) × (serve p next_reading rounds s ≡ some (s', ok tt))
        × (p.aead_encrypt s.tx_cipher.key (build_nonce s.tx_cipher.nonce) tunnel_data (reply_to pt)
            ≡ some rct)
        × (length rct ≡ length (reply_to pt) + 16)
        × (let reply = serialize (Frame.new data_payload s.tx_cipher.nonce rct) in
            s'.stream ≡ connection [] (s.stream.outgoing ++ reply) (s.stream.room - length reply))
  serve_message s pt ct rounds nonce ready fits enough =
      let bye = serialize (Frame.new close nonce []) in
      let (rct, s1, round1, echoed) = serve_frame-Echoed p next_reading sealing s pt ct bye ready in
      let (s2, round2, left) =
        serve_frame-close p next_reading s1 nonce [] fits
          (echoed.incoming ∙ sym (append-nil bye)) in
      (
        rct,
        s2,
        serve_two p next_reading rounds s s1 s2 enough round1 round2,
        echoed.sealed,
        echoed.size,
        left ∙ rw (echoed.outgoing, echoed.room) refl,
      )
