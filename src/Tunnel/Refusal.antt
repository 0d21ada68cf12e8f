-- ===== src/Tunnel/Refusal.antt =====
-- client.rs and server.rs: a client whose prologue or whose server key is not the server's.
pub mod Session
use noise_tunnel_rs.Base.{
  ℕ, none, some, [], ◌≡◌, ◌≢◌, ◌⊎◌, inl, inr, ◌-◌, ◌≤◌, ◌++◌, length, refl, arith, sym, ◌∙◌,
  length-append, append-nil, subst, Option-cases,
}
use noise_tunnel_rs.Base.Bytes.{same_bytes-cases, Bytes}
use noise_tunnel_rs.Error.{ok, err, aead_decrypt_failed, unexpected_eof}
use noise_tunnel_rs.Crypto.Primitives.{Primitives}
use noise_tunnel_rs.Crypto.Keys.{KeyPair, derive_session_keys, generate_ephemeral, diffie_hellman}
use noise_tunnel_rs.Crypto.Derive.{derive_session_keys-total}
use noise_tunnel_rs.Crypto.Cipher.{CipherState, build_nonce, encrypt, decrypt}
use noise_tunnel_rs.Crypto.Cipher
use noise_tunnel_rs.Protocol.Frame
use noise_tunnel_rs.Protocol.Frame.{WireFrame, serialize}
use noise_tunnel_rs.Protocol.Frame.RoundTrip.{length-serialize}
use noise_tunnel_rs.Protocol.MessageType.{handshake_init}
use noise_tunnel_rs.Protocol.Stream.{connection, read_exact}
use noise_tunnel_rs.Protocol.Transcript.{hash_handshake_state}
use noise_tunnel_rs.Protocol.Wire.{read_from}
use noise_tunnel_rs.Protocol.Wire.Exact.{write_to_lem}
use noise_tunnel_rs.Client.{TunnelClient}
use noise_tunnel_rs.Client.Handshake.{Hello, client_hello, init_message}
use noise_tunnel_rs.Client.Message.{perform_handshake, exchange}
use noise_tunnel_rs.Server.Handshake.{server_answer}
use noise_tunnel_rs.Server.Connection.{accept_handshake, handle_client_with_prologue}
use noise_tunnel_rs.Tunnel.Agreement.{Promises, take-key, drop-key, sealed_once}
use noise_tunnel_rs.Tunnel.Streams.{read_small}
use noise_tunnel_rs.Tunnel.Binding.Client.{encrypt-aead_encrypt}
use noise_tunnel_rs.Tunnel.Binding.Agrees.{append-cancel}
use noise_tunnel_rs.Tunnel.Refusal.Session.{exchange-eof, handle_client-refused}

module _ (p : Primitives) (self : TunnelClient) (server_keys : KeyPair)
    (prologue client_secret : Bytes) where
  abbrev client_pub : Bytes
  client_pub = p.x25519_public client_secret

  -- What each end hashes before it opens or seals the client's first message.
  abbrev pub said_transcript : Bytes
  said_transcript = self.prologue ++ client_pub ++ self.server_pubkey

  abbrev pub heard_transcript : Bytes
  heard_transcript = prologue ++ client_pub ++ server_keys.public_key

  -- The keys that each end derives for that message.
  abbrev pub SaidWith : Bytes → Type 0
  SaidWith key =
      (other : Bytes) × (derive_session_keys p (p.x25519 client_secret self.server_pubkey)
          (p.sha256 said_transcript)
        ≡ ok (key, other))

  abbrev pub HeardWith : Bytes → Type 0
  HeardWith key =
      (other : Bytes) × (derive_session_keys p (p.x25519 server_keys.private_key client_pub)
          (p.sha256 heard_transcript)
        ≡ ok (key, other))

  -- The two ends hash different strings to one hash.
  abbrev pub InitCollides : Type 0
  InitCollides =
      (said_transcript ≢ heard_transcript) × (p.sha256 said_transcript ≡ p.sha256 heard_transcript)

  -- The message that the client seals with its hash opens with another hash.
  abbrev pub InitMisopens : Type 0
  InitMisopens =
      (p.sha256 said_transcript ≢ p.sha256 heard_transcript)
      × (sealing opening box msg : Bytes) × SaidWith sealing
      × HeardWith opening
      × (p.aead_encrypt sealing (build_nonce 0) (p.sha256 said_transcript) init_message ≡ some box)
      × (p.aead_decrypt opening (build_nonce 0) (p.sha256 heard_transcript) box ≡ some msg)

  abbrev hello_of : Bytes → Hello
  unfolding Frame.new generate_ephemeral
  hello_of box = record {
    ephemeral = generate_ephemeral p client_secret;
    dh_static = p.x25519 client_secret self.server_pubkey;
    frame = Frame.new handshake_init 0 (client_pub ++ box);
  }

  client_hello-hello_of :
      {k k' box : Bytes}
      → derive_session_keys p
          (p.x25519 client_secret self.server_pubkey)
          (hash_handshake_state p self.prologue client_pub self.server_pubkey none)
        ≡ ok (k, k')
      → (encrypt p init_message
          (hash_handshake_state p self.prologue client_pub self.server_pubkey none)
          (Cipher.new k)).1
        ≡ ok box
      → client_hello p self client_secret ≡ ok (hello_of box)
  unfolding client_hello hello_of
  client_hello-hello_of e1 e2 = ground arith

  server_answer-refused :
      (server_secret box : Bytes) {k k' : Bytes}
      → length client_pub ≡ 32
      → length box ≡ 37
      → derive_session_keys p
          (p.x25519 server_keys.private_key client_pub)
          (hash_handshake_state p prologue client_pub server_keys.public_key none)
        ≡ ok (k, k')
      → (decrypt p box
          (hash_handshake_state p prologue client_pub server_keys.public_key none)
          0
          (Cipher.new k)).1
        ≡ err aead_decrypt_failed
      → server_answer p server_keys prologue server_secret (hello_of box).frame
        ≡ err aead_decrypt_failed
  unfolding server_answer hello_of diffie_hellman
  server_answer-refused server_secret box pub_size size e1 e2 = ground (
    arith,
    length-append client_pub box,
    pub_size,
    size,
    take-key client_pub box pub_size,
    drop-key client_pub box pub_size,
  )

  decrypt-fails :
      (key ad box : Bytes)
      → p.aead_decrypt key (build_nonce 0) ad box ≡ none
      → (decrypt p box ad 0 (Cipher.new key)).1 ≡ err aead_decrypt_failed
  unfolding decrypt Cipher.new
  decrypt-fails key ad box e = ground arith

  -- The client's first frame, and what each end does with its connection when the server refuses it.
  abbrev pub Refused : Bytes → (ℕ → ℕ) → Bytes → ℕ → ℕ → ℕ → ℕ → Type 0
  Refused message next_reading server_secret rounds now client_room server_room =
      (hello_bytes : Bytes) × (exchange p self client_secret message (connection [] [] client_room)
        ≡ (connection [] hello_bytes (client_room - length hello_bytes), err unexpected_eof))
      × (handle_client_with_prologue p next_reading server_keys prologue server_secret rounds now
            (connection hello_bytes [] server_room)
          ≡ some (connection [] [] server_room, err aead_decrypt_failed))

  transcripts_differ :
      length self.server_pubkey ≡ 32
      → length server_keys.public_key ≡ 32
      → (self.prologue ≢ prologue) ⊎ (self.server_pubkey ≢ server_keys.public_key)
      → said_transcript ≢ heard_transcript
  transcripts_differ size size' mismatch e =
      let (e1, same_server) =
        append-cancel _ _ self.server_pubkey server_keys.public_key (size ∙ sym size') e in
      let (same_prologue, _) = append-cancel self.prologue prologue client_pub client_pub refl e1 in
      elim mismatch [ inl differs ↦ differs same_prologue | inr differs ↦ differs same_server ]

  module _ (laws : Promises p) (secret_size : length client_secret ≡ 32)
      (expected_size : length self.server_pubkey ≡ 32)
      (public_size : length server_keys.public_key ≡ 32)
      (mismatch : (self.prologue ≢ prologue) ⊎ (self.server_pubkey ≢ server_keys.public_key)) where
    -- If the crates keep their promises, all keys are 32 bytes, and the client's prologue is not the
    -- server's or the key that it expects is not the server's, then one of three is so. The two ends
    -- hash different strings (prologue, client's and server's key) to one hash; or the box that the
    -- client seals with its hash, under the key that it derives from it, opens with the server's
    -- other hash under the key that the server derives; or the server refuses the client: over a
    -- connection with room for 82 bytes the client sends its first frame and gets no answer but the
    -- end of the stream, and the server reads that frame, writes nothing and ends with a failed
    -- decryption.
    pub exchange-Refused :
        (message : Bytes) (next_reading : ℕ → ℕ) (server_secret : Bytes)
        (rounds now client_room server_room : ℕ)
        → 82 ≤ client_room
        → InitCollides
          ⊎ (InitMisopens
              ⊎ Refused message next_reading server_secret rounds now client_room server_room)
    unfolding hash_handshake_state hello_of
    exchange-Refused message next_reading server_secret rounds now client_room server_room roomy =
        let pub_size = laws.agrees.length-x25519_public client_secret secret_size in
        let (k, k', keys, _, _) =
          derive_session_keys-total p laws.expands (p.x25519 client_secret self.server_pubkey)
            (p.sha256 said_transcript) in
        let (c, c', keys', _, _) =
          derive_session_keys-total p laws.expands (p.x25519 server_keys.private_key client_pub)
            (p.sha256 heard_transcript) in
        let (box, sent, _, size) =
          sealed_once p laws k (p.sha256 said_transcript) init_message (omega arith) in
        let payload_size : length (client_pub ++ box) ≡ 69 =
          omega (arith, length-append client_pub box, pub_size, size) in
        elim (same_bytes-cases (p.sha256 said_transcript) (p.sha256 heard_transcript)) [
          | inl same ↦ inl (transcripts_differ expected_size public_size mismatch, same)
          | inr differs ↦
              elim (Option-cases
                (p.aead_decrypt c (build_nonce 0) (p.sha256 heard_transcript) box)) [
                  | inr (msg, opens) ↦ inr (
                      inl (
                        differs,
                        k,
                        c,
                        box,
                        msg,
                        (k', keys),
                        (c', keys'),
                        encrypt-aead_encrypt p k (p.sha256 said_transcript) init_message box sent,
                        opens,
                      ))
                  | inl fails ↦ inr (
                      inr (
                        serialize (hello_of box).frame,
                        exchange-eof p self server_keys prologue client_secret (hello_of box)
                            message client_room (client_hello-hello_of keys sent) payload_size
                            roomy,
                        handle_client-refused p self server_keys prologue client_secret next_reading
                            server_secret (hello_of box) rounds now server_room
                            (server_answer-refused server_secret box pub_size size keys'
                              (decrypt-fails c (p.sha256 heard_transcript) box fails))
                            refl payload_size,
                      ))
                ]
        ]
