-- ===== src/Server/Session/Integrity/Sent.antt =====
-- server.rs and client.rs: the boxes that a session answers are the client's, in the client's order.
use noise_tunnel_rs.Base.{
  ℕ, ◌+◌, ◌^◌, ◌<◌, ◌≡◌, ◌≢◌, ◌⊎◌, inl, inr, some, List, [], ◌∷◌, length, arith, ap, subst, sym,
}
use noise_tunnel_rs.Base.Bytes.{Bytes, same_bytes-cases}
use noise_tunnel_rs.Error.{ok}
use noise_tunnel_rs.Action.{Action, pure, ◌>>=◌, and_then-eq-ok}
use noise_tunnel_rs.Crypto.Primitives.{Primitives, SealsMessages}
use noise_tunnel_rs.Crypto.Cipher.{CipherState, build_nonce, encrypt}
use noise_tunnel_rs.Crypto.Cipher.Nonces.{encrypt_ok}
use noise_tunnel_rs.Server.Session.{Session}
use noise_tunnel_rs.Server.Session.Integrity.{Answers, Opens, AllOpen, Answers-AllOpen}

-- A label and a message, or a label and a ciphertext.
abbrev pub Labelled : Type 0
Labelled = Bytes × Bytes

module _ (p : Primitives) where
  -- Messages sealed one after the other, each under its label, until one fails.
  abbrev pub encrypt_each : List Labelled → Action CipherState (List Bytes)
  encrypt_each [] = pure []
  encrypt_each (m ∷ ms) = do ct ← encrypt p m.1 m.0; cts ← encrypt_each ms; pure (ct ∷ cts)

  -- The boxes are the first of what was sealed, and each opens to its message.
  pub data Follows (key : Bytes) : ℕ → List Labelled → List Labelled → List Bytes → Type 0 where
    done : {n : ℕ} {ms : List Labelled} {cts : List Bytes} → Follows key n [] ms cts
    next :
        {n : ℕ} {box m : Labelled} {ct : Bytes} {boxes ms : List Labelled} {cts : List Bytes}
        → box ≡ (m.0, ct)
        → p.aead_decrypt key (build_nonce n) box.0 box.1 ≡ some m.1
        → Follows key (n + 1) boxes ms cts
        → Follows key n (box ∷ boxes) (m ∷ ms) (ct ∷ cts)

  -- Some box opens that is not the one sealed at its place, or stands where nothing was sealed.
  pub data Forged (key : Bytes) : ℕ → List Labelled → List Labelled → List Bytes → Type 0 where
    unsent :
        {n : ℕ} {box : Labelled} {boxes : List Labelled}
        → Opens p key n box
        → Forged key n (box ∷ boxes) [] []
    changed :
        {n : ℕ} {box m : Labelled} {ct : Bytes} {boxes ms : List Labelled} {cts : List Bytes}
        → box ≢ (m.0, ct)
        → Opens p key n box
        → Forged key n (box ∷ boxes) (m ∷ ms) (ct ∷ cts)
    later :
        {n : ℕ} {box m : Labelled} {ct : Bytes} {boxes ms : List Labelled} {cts : List Bytes}
        → Forged key (n + 1) boxes ms cts
        → Forged key n (box ∷ boxes) (m ∷ ms) (ct ∷ cts)

  same_box-cases : (a b : Labelled) → (a ≡ b) ⊎ (a ≢ b)
  same_box-cases (l, c) (l', c') = elim (same_bytes-cases l l') [
    | inr differs ↦ inr (λ e. differs (ap (λ (x : Labelled). x.0) e))
    | inl same ↦ elim (same_bytes-cases c c') [
      | inr differs ↦ inr (λ e. differs (ap (λ (x : Labelled). x.1) e))
      | inl same' ↦ inl (cc (same, same'))
    ]
  ]

  one-Follows :
      SealsMessages p
      → {key : Bytes} {n : ℕ} (box m : Labelled) (ct : Bytes) {boxes ms : List Labelled}
        {cts : List Bytes}
      → p.aead_encrypt key (build_nonce n) m.0 m.1 ≡ some ct
      → Opens p key n box
      → Follows key (n + 1) boxes ms cts ⊎ Forged key (n + 1) boxes ms cts
      → Follows key n (box ∷ boxes) (m ∷ ms) (ct ∷ cts)
        ⊎ Forged key n (box ∷ boxes) (m ∷ ms) (ct ∷ cts)
  one-Follows sealing {key} {n} box m ct sealed opens (inr forged) = inr (later forged)
  one-Follows sealing {key} {n} box m ct sealed opens (inl follows) =
      elim (same_box-cases box (m.0, ct)) [
        | inr differs ↦ inr (changed differs opens)
        | inl same ↦
            let opened = sealing.opens key (build_nonce n) m.0 m.1 ct sealed in
            inl (next same (rw same opened) follows)
      ]

  AllOpen-Follows :
      SealsMessages p
      → (boxes ms : List Labelled) (cts : List Bytes) (tx tx' : CipherState)
      → encrypt_each ms tx ≡ (tx', ok cts)
      → AllOpen p tx.key tx.nonce boxes
      → Follows tx.key tx.nonce boxes ms cts ⊎ Forged tx.key tx.nonce boxes ms cts
  AllOpen-Follows sealing [] ms cts tx tx' e opens = inl done
  AllOpen-Follows sealing (box ∷ boxes) [] [] tx tx' e opens = inr (unsent opens.0)
  AllOpen-Follows sealing (box ∷ boxes) [] (ct ∷ cts) tx tx' e opens = absurd (cc)
  AllOpen-Follows sealing (box ∷ boxes) (m ∷ ms) cts tx tx' e opens =
      let (tx1, ct, e1, rest) = and_then-eq-ok (encrypt p m.1 m.0 tx) _ e in
      let (tx2, cts', e2, last) = and_then-eq-ok (encrypt_each ms tx1) _ rest in
      let (sealed, key1, nonce1, _) = encrypt_ok p tx tx1 m.1 m.0 ct e1 in
      let moved : tx1 ≡ record tx { nonce = tx.nonce + 1 } = ground (arith, key1, nonce1) in
      let out : cts ≡ ct ∷ cts' = cc in
      let on =
        AllOpen-Follows sealing boxes ms cts' tx1 tx2 e2
          (subst (λ (c : CipherState). AllOpen p c.key c.nonce boxes) (sym moved) opens.1) in
      subst
        (λ (out_cts : List Bytes).
          Follows tx.key tx.nonce (box ∷ boxes) (m ∷ ms) out_cts
          ⊎ Forged tx.key tx.nonce (box ∷ boxes) (m ∷ ms) out_cts)
        (sym out)
        (one-Follows sealing box m ct sealed opens.0 (
          subst
            (λ (c : CipherState).
              Follows c.key c.nonce boxes ms cts' ⊎ Forged c.key c.nonce boxes ms cts')
            moved on))

  -- Whatever bytes come in, in a session whose receiving cipher is the client's sending cipher: if
  -- the AEAD opens what it seals and fewer than 2^64 boxes are answered, then the boxes that the
  -- session answers are the first of those that the client sealed, in its order, each with its
  -- label, and each opens to the client's message; or one of them, at the place where it was
  -- answered, is not the client's and opens nevertheless.
  pub Answers-Follows :
      (next_reading : ℕ → ℕ)
      → SealsMessages p
      → (ms boxes : List Labelled) (cts : List Bytes) (tx tx' : CipherState) (s s' : Session)
      → tx ≡ s.rx_cipher
      → encrypt_each ms tx ≡ (tx', ok cts)
      → Answers p next_reading s boxes s'
      → s.rx_cipher.nonce + length boxes < 2 ^ 64
      → Follows tx.key tx.nonce boxes ms cts ⊎ Forged tx.key tx.nonce boxes ms cts
  Answers-Follows next_reading sealing ms boxes cts tx tx' s s' same e answers fits =
      AllOpen-Follows sealing boxes ms cts tx tx' e (
        subst (λ (c : CipherState). AllOpen p c.key c.nonce boxes) (sym same)
          (Answers-AllOpen p next_reading answers fits))
