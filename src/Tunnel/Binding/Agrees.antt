-- ===== src/Tunnel/Binding/Agrees.antt =====
-- client.rs and server.rs: what the ends of a completed handshake agree on.
use noise_tunnel_rs.Base.{
  ◌≡◌, ◌≢◌, ◌⊎◌, inl, inr, ◌++◌, length, take, drop, some, refl, arith, sym, ap, ◌∙◌, length-append,
  take-append, drop-append,
}
use noise_tunnel_rs.Base.Bytes.{same_bytes-cases, Bytes}
use noise_tunnel_rs.Error.{ok}
use noise_tunnel_rs.Crypto.Primitives.{Primitives, AgreesOnSecrets}
use noise_tunnel_rs.Crypto.Keys.{KeyPair, derive_session_keys, generate_ephemeral}
use noise_tunnel_rs.Crypto.Cipher.{CipherState, build_nonce}
use noise_tunnel_rs.Crypto.Cipher
use noise_tunnel_rs.Protocol.Frame.{WireFrame}
use noise_tunnel_rs.Protocol.Transcript.{hash_handshake_state}
use noise_tunnel_rs.Client.{TunnelClient}
use noise_tunnel_rs.Client.Handshake.{Hello, client_hello, client_finish, ack_message}
use noise_tunnel_rs.Server.Handshake.{Answer, server_answer}
use noise_tunnel_rs.Tunnel.Agreement.{take-key, drop-key}
use noise_tunnel_rs.Tunnel.Binding.Client.{client_finish-Finished, client_hello-ephemeral}
use noise_tunnel_rs.Tunnel.Binding.Server.{server_answer-Answered}
use noise_tunnel_rs.Tunnel.Binding.{
  Keyed, client_transcript, server_transcript, Agreed, Collides, Misopens,
}

-- Lists that end in as many elements are joined from the same two.
pub append-cancel :
    (xs xs' ys ys' : Bytes)
    → length ys ≡ length ys'
    → xs ++ ys ≡ xs' ++ ys'
    → (xs ≡ xs') × (ys ≡ ys')
append-cancel xs xs' ys ys' size e =
    let same : length xs ≡ length xs' =
      omega
        (arith, length-append xs ys, length-append xs' ys', ap (λ (t : Bytes). length t) e, size) in
    (
      cc (take-append xs ys, take-append xs' ys', same, e),
      cc (drop-append xs ys, drop-append xs' ys', same, e),
    )

module _ (p : Primitives) (laws : AgreesOnSecrets p) (self : TunnelClient) (server_keys : KeyPair)
    (prologue client_secret server_secret : Bytes)
    (keyed : Keyed p self server_keys client_secret server_secret) where
  -- Equal transcripts have equal parts.
  transcripts-equal :
      (init : WireFrame)
      → length (take 32 init.payload) ≡ 32
      → client_transcript p self server_keys prologue client_secret server_secret init
        ≡ server_transcript p self server_keys prologue client_secret server_secret init
      → (self.prologue ≡ prologue)
        × (self.server_pubkey ≡ server_keys.public_key)
        × (p.x25519_public client_secret ≡ take 32 init.payload)
  transcripts-equal init seen_size e =
      let server_size =
        ap (λ (t : Bytes). length t) keyed.own_key
        ∙ laws.length-x25519_public server_keys.private_key keyed.static_size in
      let (e1, _) =
        append-cancel _ _ (p.x25519_public server_secret) (p.x25519_public server_secret) refl e in
      let (e2, same_server) =
        append-cancel _ _ self.server_pubkey server_keys.public_key
          (keyed.expected_size ∙ sym server_size) e1 in
      let (same_prologue, same_client) =
        append-cancel self.prologue prologue (p.x25519_public client_secret) (take 32 init.payload)
          (laws.length-x25519_public client_secret keyed.client_size ∙ sym seen_size) e2 in
      (same_prologue, same_server, same_client)

  module _ (init : WireFrame) (hello : Hello) (answer : Answer)
      (ciphers : CipherState × CipherState) (said : client_hello p self client_secret ≡ ok hello)
      (answered : server_answer p server_keys prologue server_secret init ≡ ok answer)
      (finished : client_finish p self hello answer.frame ≡ ok ciphers) where
    abbrev heard : Bytes
    heard =
        p.sha256 (client_transcript p self server_keys prologue client_secret server_secret init)

    abbrev told : Bytes
    told = p.sha256 (server_transcript p self server_keys prologue client_secret server_secret init)

    -- The client has computed with its own secrets and the key and the box that the server sent.
    Heard : Bytes → Type 0
    Heard box =
        (k opening c s : Bytes) × (derive_session_keys p
            (p.x25519 client_secret (p.x25519_public server_secret)) heard
          ≡ ok (k, opening))
        × (p.aead_decrypt opening (build_nonce 0) heard box ≡ some ack_message)
        × (derive_session_keys p
              (p.x25519 client_secret self.server_pubkey
                ++ p.x25519 client_secret (p.x25519_public server_secret))
              heard
            ≡ ok (c, s))
        × (ciphers ≡ (Cipher.new c, Cipher.new s))

    client_finish-Heard :
        (box : Bytes) → answer.frame.payload ≡ p.x25519_public server_secret ++ box → Heard box
    unfolding Heard hash_handshake_state generate_ephemeral
    client_finish-Heard box payload =
        let (k, opening, c, s, used, opened, keys, out) =
          client_finish-Finished p self hello answer.frame ciphers finished in
        let (ephemeral, dh_static) = client_hello-ephemeral p self client_secret hello said in
        let pub_size = laws.length-x25519_public server_secret keyed.server_size in
        let front =
          ap (λ (t : Bytes). take 32 t) payload
          ∙ take-key (p.x25519_public server_secret) box pub_size in
        let back =
          ap (λ (t : Bytes). drop 32 t) payload
          ∙ drop-key (p.x25519_public server_secret) box pub_size in
        (
          k,
          opening,
          c,
          s,
          cc (used, ephemeral, front),
          cc (opened, ephemeral, front, back),
          cc (keys, ephemeral, dh_static, front),
          out,
        )

    -- Where the transcripts are equal, so are the keys.
    equal-Agreed :
        client_transcript p self server_keys prologue client_secret server_secret init
          ≡ server_transcript p self server_keys prologue client_secret server_secret init
        → Agreed p self server_keys prologue client_secret server_secret init answer ciphers
    unfolding Heard hash_handshake_state
    equal-Agreed e =
        let (k', sealing, box, c', s', _, sealed, payload, keys', rx, tx, seen_size) =
          server_answer-Answered p server_keys prologue server_secret init answer answered in
        let (k, opening, c, s, _, opened, keys, out) = client_finish-Heard box payload in
        let (same_prologue, same_server, same_client) = transcripts-equal init seen_size e in
        let same_static =
          laws.exchange server_keys.private_key client_secret keyed.static_size keyed.client_size in
        let same_ephem =
          laws.exchange server_secret client_secret keyed.server_size keyed.client_size in
        record {
          same_prologue = same_prologue;
          same_server = same_server;
          same_client = same_client;
          mirrored = cc (
            out, rx, tx, keys, keys', same_static, same_ephem, same_client, same_server,
            keyed.own_key,
          );
        }

    different-Misopens :
        heard ≢ told
        → Misopens p self server_keys prologue client_secret server_secret init
            (drop 32 answer.frame.payload)
    unfolding Heard hash_handshake_state
    different-Misopens differs =
        let (k', sealing, box, c', s', used', sealed, payload, keys', rx, tx, seen_size) =
          server_answer-Answered p server_keys prologue server_secret init answer answered in
        let (k, opening, c, s, used, opened, keys, out) = client_finish-Heard box payload in
        let back =
          ap (λ (t : Bytes). drop 32 t) payload
          ∙ drop-key (p.x25519_public server_secret) box
              (laws.length-x25519_public server_secret keyed.server_size) in
        (differs, k, opening, k', sealing, used, used', cc (sealed, back), cc (opened, back))

    -- Whatever frame the server has read in place of the client's: if both halves of a handshake
    -- succeed, and the crates' exchange agrees on secrets of 32 bytes, then either both ends have one
    -- prologue, the client expects the server's public key, the server has read the client's
    -- ephemeral key, and the client's ciphers for sending and receiving are the server's for
    -- receiving and sending; or the two transcripts that the ends hashed, each the prologue, the
    -- client's, the server's and the server's ephemeral key, are different and have one hash; or
    -- they have different hashes and the acknowledgement that the server sealed with its hash, under
    -- the key that it derived from it, has opened with the client's hash under the key that the
    -- client derived from that.
    pub handshake-Agreed :
        Agreed p self server_keys prologue client_secret server_secret init answer ciphers
        ⊎ (Collides p self server_keys prologue client_secret server_secret init
            ⊎ Misopens p self server_keys prologue client_secret server_secret init
                (drop 32 answer.frame.payload))
    handshake-Agreed = elim (same_bytes-cases heard told) [
      | inr differs ↦ inr (inr (different-Misopens differs))
      | inl same ↦ elim (same_bytes-cases _ _) [
        | inl equal ↦ inl (equal-Agreed equal)
        | inr differ ↦ inr (inl (differ, same))
      ]
    ]
