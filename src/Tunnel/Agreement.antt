-- ===== src/Tunnel/Agreement.antt =====
-- The two halves of the handshake fit together: with honest ends it completes, and the ciphers
-- of the two ends mirror each other.
use noise_tunnel_rs.Base.{
  ◌≡◌, length, ◌≤◌, ◌+◌, arith, ap, none, some, ◌++◌, drop, take, ◌∙◌, length-append, sym, ℕ,
  take-append, drop-append, refl,
}
use noise_tunnel_rs.Base.Bytes.{Bytes, same_bytes_refl}
use noise_tunnel_rs.Error.{Result, ok}
use noise_tunnel_rs.Crypto.Primitives.{Primitives, AgreesOnSecrets, ExpandsKeys, SealsMessages}
use noise_tunnel_rs.Crypto.Cipher.{CipherState, encrypt, decrypt}
use noise_tunnel_rs.Crypto.Cipher
use noise_tunnel_rs.Crypto.Cipher.Nonces.{encrypt_succeeds}
use noise_tunnel_rs.Crypto.Cipher.Channel.{decrypt_opens}
use noise_tunnel_rs.Protocol.Frame
use noise_tunnel_rs.Protocol.MessageType.{handshake_init, handshake_resp}
use noise_tunnel_rs.Protocol.Transcript.{hash_handshake_state}
use noise_tunnel_rs.Client.{TunnelClient}
use noise_tunnel_rs.Crypto.Keys.{KeyPair, derive_session_keys, generate_ephemeral}
use noise_tunnel_rs.Client.Handshake.{client_hello, init_message, Hello, client_finish, ack_message}
use noise_tunnel_rs.Server.Handshake.{server_answer, ack_reply, Answer}
use noise_tunnel_rs.Protocol.Transcript.{hash_handshake_state}
use noise_tunnel_rs.Crypto.Derive.{derive_session_keys-total}

-- What the crates promise, as far as the tunnel needs it.
pub record Promises (p : Primitives) : Type 0 where
  pub agrees : AgreesOnSecrets p
  pub expands : ExpandsKeys p
  pub sealing : SealsMessages p

-- A payload of a 32-byte key and a ciphertext is taken apart where it was joined.
pub take-key : (key ct : Bytes) → length key ≡ 32 → take 32 (key ++ ct) ≡ key
take-key key ct h = ap (λ (n : ℕ). take n (key ++ ct)) (sym h) ∙ take-append key ct

pub drop-key : (key ct : Bytes) → length key ≡ 32 → drop 32 (key ++ ct) ≡ ct
drop-key key ct h = ap (λ (n : ℕ). drop n (key ++ ct)) (sym h) ∙ drop-append key ct

module _ (p : Primitives) (laws : Promises p) where
  -- Sealing under a fresh cipher and opening under another with the same key.
  pub sealed_once :
      (key ad msg : Bytes)
      → length msg ≤ 1000
      → (ct : Bytes) × ((encrypt p msg ad (Cipher.new key)).1 ≡ ok ct)
        × ((decrypt p ct ad 0 (Cipher.new key)).1 ≡ ok msg)
        × (length ct ≡ length msg + 16)
  unfolding Cipher.new
  sealed_once key ad msg small =
      let (ct, e, sealed, size) =
        encrypt_succeeds p (Cipher.new key) msg ad laws.sealing (omega arith) (omega arith) in
      (
        ct,
        ap (λ (t : CipherState × Result Bytes). t.1) e,
        ap (λ (t : CipherState × Result Bytes). t.1)
            (decrypt_opens p (Cipher.new key) msg ad ct laws.sealing (omega arith) sealed),
        size,
      )

-- Honest ends: the client knows the server's public key, both use one prologue, and all secrets
-- are 32 bytes.
pub record Honest (p : Primitives) (self : TunnelClient) (server_keys : KeyPair) (prologue : Bytes)
    (client_secret server_secret : Bytes) : Type 0 where
  pub own_key : server_keys.public_key ≡ p.x25519_public server_keys.private_key
  pub known_key : self.server_pubkey ≡ server_keys.public_key
  pub same_prologue : self.prologue ≡ prologue
  pub static_size : length server_keys.private_key ≡ 32
  pub client_size : length client_secret ≡ 32
  pub server_size : length server_secret ≡ 32

module _ (p : Primitives) (laws : Promises p) (self : TunnelClient) (server_keys : KeyPair)
    (prologue client_secret server_secret : Bytes)
    (honest : Honest p self server_keys prologue client_secret server_secret) where
  abbrev client_pub : Bytes
  client_pub = p.x25519_public client_secret

  abbrev server_pub : Bytes
  server_pub = p.x25519_public server_secret

  abbrev dh_static : Bytes
  dh_static = p.x25519 client_secret self.server_pubkey

  abbrev dh_ephem : Bytes
  dh_ephem = p.x25519 client_secret server_pub

  abbrev h1 : Bytes
  h1 = hash_handshake_state p self.prologue client_pub self.server_pubkey none

  abbrev h2 : Bytes
  h2 = hash_handshake_state p self.prologue client_pub self.server_pubkey (some server_pub)

  length-client_pub : length client_pub ≡ 32
  length-client_pub = laws.agrees.length-x25519_public client_secret honest.client_size

  length-server_pub : length server_pub ≡ 32
  length-server_pub = laws.agrees.length-x25519_public server_secret honest.server_size

  same_static : p.x25519 server_keys.private_key client_pub ≡ dh_static
  same_static =
      laws.agrees.exchange server_keys.private_key client_secret honest.static_size
        honest.client_size
      ∙ ap (λ (t : Bytes). p.x25519 client_secret t) (sym (honest.known_key ∙ honest.own_key))

  same_ephem : p.x25519 server_secret client_pub ≡ dh_ephem
  same_ephem =
      laws.agrees.exchange server_secret client_secret honest.server_size honest.client_size

  abbrev hello_of : Bytes → Hello
  unfolding Frame.new generate_ephemeral
  hello_of ct = record {
    ephemeral = generate_ephemeral p client_secret;
    dh_static = dh_static;
    frame = Frame.new handshake_init 0 (client_pub ++ ct);
  }

  abbrev answer_of : Bytes → Bytes → Bytes → Answer
  unfolding Frame.new
  answer_of ct client_key server_key = record {
    frame = Frame.new handshake_resp 0 (server_pub ++ ct);
    rx_cipher = Cipher.new client_key;
    tx_cipher = Cipher.new server_key;
  }

  client_hello_lem :
      {k k' ct : Bytes}
      → derive_session_keys p dh_static h1 ≡ ok (k, k')
      → (encrypt p init_message h1 (Cipher.new k)).1 ≡ ok ct
      → client_hello p self client_secret ≡ ok (hello_of ct)
  unfolding client_hello hello_of
  client_hello_lem e1 e2 = ground arith

  server_answer_lem :
      (ct : Bytes) {k k' r r' c s resp msg : Bytes}
      → 16 ≤ length ct
      → derive_session_keys p dh_static h1 ≡ ok (k, k')
      → (decrypt p ct h1 0 (Cipher.new k)).1 ≡ ok msg
      → derive_session_keys p (dh_static ++ dh_ephem) h2 ≡ ok (c, s)
      → derive_session_keys p dh_ephem h2 ≡ ok (r, r')
      → (encrypt p ack_reply h2 (Cipher.new r')).1 ≡ ok resp
      → server_answer p server_keys prologue server_secret (hello_of ct).frame
        ≡ ok (answer_of resp c s)
  unfolding server_answer hello_of answer_of
  server_answer_lem ct size e1 e2 e3 e4 e5 = ground (
    arith,
    same_static,
    same_ephem,
    honest.known_key,
    honest.same_prologue,
    length-append client_pub ct,
    length-client_pub,
    take-key client_pub ct length-client_pub,
    drop-key client_pub ct length-client_pub,
  )

  client_finish_lem :
      (ct resp : Bytes) {r r' c s : Bytes}
      → 16 ≤ length resp
      → derive_session_keys p (dh_static ++ dh_ephem) h2 ≡ ok (c, s)
      → derive_session_keys p dh_ephem h2 ≡ ok (r, r')
      → (decrypt p resp h2 0 (Cipher.new r')).1 ≡ ok ack_reply
      → client_finish p self (hello_of ct) (answer_of resp c s).frame
        ≡ ok (Cipher.new c, Cipher.new s)
  unfolding client_finish hello_of answer_of
  client_finish_lem ct resp size e1 e2 e3 = ground (
    arith,
    length-append server_pub resp,
    length-server_pub,
    take-key server_pub resp length-server_pub,
    drop-key server_pub resp length-server_pub,
    same_bytes_refl ack_message,
  )

  -- If the crates keep their promises, the client knows the server's key and both use one prologue
  -- and 32-byte secrets, then both ends complete the handshake, the client's ciphers for sending and
  -- receiving are the server's for receiving and sending, at nonce 0, and the two payloads have 69
  -- and 70 bytes.
  pub handshake_agrees :
      (hello : Hello) × (answer : Answer) × (client_hello p self client_secret ≡ ok hello)
      × (server_answer p server_keys prologue server_secret hello.frame ≡ ok answer)
      × (client_finish p self hello answer.frame ≡ ok (answer.rx_cipher, answer.tx_cipher))
      × (answer.rx_cipher.nonce ≡ 0)
      × (answer.tx_cipher.nonce ≡ 0)
      × (length hello.frame.payload ≡ 69)
      × (length answer.frame.payload ≡ 70)
  unfolding Cipher.new hello_of answer_of
  handshake_agrees =
      let (k, k', keys1, _, _) = derive_session_keys-total p laws.expands dh_static h1 in
      let (r, r', keys2, _, _) = derive_session_keys-total p laws.expands dh_ephem h2 in
      let (c, s, keys3, _, _) =
        derive_session_keys-total p laws.expands (dh_static ++ dh_ephem) h2 in
      let (ct, sent, opened, size) = sealed_once p laws k h1 init_message (omega arith) in
      let (resp, sent', opened', size') = sealed_once p laws r' h2 ack_reply (omega arith) in
      (
        hello_of ct,
        answer_of resp c s,
        client_hello_lem keys1 sent,
        server_answer_lem ct (omega (arith, size)) keys1 opened keys3 keys2 sent',
        client_finish_lem ct resp (omega (arith, size')) keys3 keys2 opened',
        refl,
        refl,
        omega (arith, length-append client_pub ct, length-client_pub, size),
        omega (arith, length-append server_pub resp, length-server_pub, size'),
      )
