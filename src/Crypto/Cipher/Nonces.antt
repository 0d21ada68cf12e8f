-- ===== src/Crypto/Cipher/Nonces.antt =====
-- The nonces of a `CipherState`: how many are left, and that none is used twice.
use noise_tunnel_rs.Base.{
  ℕ, ◌+◌, ◌≤◌, ◌<◌, ◌≡◌, refl, ap, ◌∙◌, List, [], ◌∷◌, length, arith, leb, some, take, All, dec_lt,
  suc, ◌^◌, ◌≢◌, zero,
}
use noise_tunnel_rs.Base.Bytes.{Bytes, IsU64, to_le_bytes-injective, u64_max}
use noise_tunnel_rs.Error.{Result, ok, err, nonce_overflow, is_ok, Error}
use noise_tunnel_rs.Action.{◌>>=◌, Action, pure, and_then, and_then-eq-ok}
use noise_tunnel_rs.Crypto.Primitives.{Primitives, SealsMessages}
use noise_tunnel_rs.Crypto.Cipher.{CipherState, build_nonce, encrypt, decrypt, remaining_nonces}

-- The length below which the AEAD is promised to work.
abbrev pub max_message : ℕ
max_message = 274877906880

-- Different counters give different 12-byte nonces.
pub build_nonce-injective : {m n : ℕ} → IsU64 m → IsU64 n → build_nonce m ≡ build_nonce n → m ≡ n
unfolding build_nonce
build_nonce-injective {m} {n} hm hn e =
    to_le_bytes-injective 8 hm hn (ap (λ (t : Bytes). take 8 t) e)

module _ (p : Primitives) where
  -- A ciphertext is sealed under the counter as it stood, and the counter then moves on by one.
  pub encrypt_ok :
      (s s' : CipherState) (pt ad ct : Bytes)
      → encrypt p pt ad s ≡ (s', ok ct)
      → (p.aead_encrypt s.key (build_nonce s.nonce) ad pt ≡ some ct)
        × (s'.key ≡ s.key)
        × (s'.nonce ≡ s.nonce + 1)
        × (s.nonce < u64_max)
  unfolding encrypt
  encrypt_ok s s' pt ad ct e = ground arith

  -- An error leaves key and counter as they were.
  pub encrypt_err :
      (s s' : CipherState) (pt ad : Bytes) (e : Error) → encrypt p pt ad s ≡ (s', err e) → s' ≡ s
  unfolding encrypt
  encrypt_err s s' pt ad x e = ground arith

  pub decrypt_err :
      (s s' : CipherState) (ct ad : Bytes) (n : ℕ) (e : Error)
      → decrypt p ct ad n s ≡ (s', err e)
      → s' ≡ s
  unfolding decrypt
  decrypt_err s s' ct ad n x e = ground arith

  -- Below the last nonce a message of legal size is encrypted.
  pub encrypt_succeeds :
      (s : CipherState) (pt ad : Bytes)
      → SealsMessages p
      → length pt ≤ max_message
      → s.nonce < u64_max
      → (ct : Bytes) × (encrypt p pt ad s ≡ (record s { nonce = s.nonce + 1 }, ok ct))
        × (p.aead_encrypt s.key (build_nonce s.nonce) ad pt ≡ some ct)
        × (length ct ≡ length pt + 16)
  unfolding encrypt
  encrypt_succeeds s pt ad sealing small fits =
      let (ct, e, size) = sealing.seals s.key (build_nonce s.nonce) ad pt small in
      (ct, ground arith, e, size)

  -- At the last nonce it is sealed, but the ciphertext is thrown away with an error.
  encrypt_exhausted :
      (s : CipherState) (pt ad : Bytes)
      → SealsMessages p
      → length pt ≤ max_message
      → s.nonce ≡ u64_max
      → encrypt p pt ad s ≡ (s, err nonce_overflow)
  unfolding encrypt
  encrypt_exhausted s pt ad sealing small last =
      let (ct, e, size) = sealing.seals s.key (build_nonce s.nonce) ad pt small in ground arith

  -- Messages encrypted one after the other, until one fails.
  abbrev pub encrypt_all : Bytes → List Bytes → Action CipherState (List Bytes)
  encrypt_all ad [] = pure []
  encrypt_all ad (pt ∷ pts) = do ct ← encrypt p pt ad; cts ← encrypt_all ad pts; pure (ct ∷ cts)

  is_ok-cons :
      (ct : Bytes) (r : CipherState × Result (List Bytes))
      → is_ok (and_then r (λ cts. pure (ct ∷ cts))).1 ≡ is_ok r.1
  is_ok-cons ct (s, ok cts) = refl
  is_ok-cons ct (s, err e) = refl

  -- If the AEAD seals messages of legal size, a list of such messages is encrypted without an
  -- error exactly when it is no longer than `remaining_nonces`.
  pub encrypt_all-remaining_nonces :
      (ad : Bytes) (pts : List Bytes) (s : CipherState)
      → SealsMessages p
      → All (λ pt. length pt ≤ max_message) pts
      → s.nonce ≤ u64_max
      → is_ok (encrypt_all ad pts s).1 ≡ leb (length pts) (remaining_nonces s)
  unfolding remaining_nonces
  encrypt_all-remaining_nonces ad [] s sealing small fits = ground arith
  encrypt_all-remaining_nonces ad (pt ∷ pts) s sealing small fits = elim (dec_lt s.nonce u64_max) [
    | yes more ↦
        let (ct, e, _, _) = encrypt_succeeds s pt ad sealing small.0 more in
        rw e (
          is_ok-cons ct (encrypt_all ad pts (record s { nonce = s.nonce + 1 }))
          ∙ encrypt_all-remaining_nonces ad pts (record s { nonce = s.nonce + 1 }) sealing small.1
              (omega arith)
          ∙ ground arith)
    | no last ↦ rw (encrypt_exhausted s pt ad sealing small.0 (omega arith)) (ground arith)
  ]

  -- `cts` are the messages sealed under the key with the nonces from `n` on.
  abbrev pub Sealed : Bytes → Bytes → ℕ → List Bytes → List Bytes → Type 0
  Sealed key ad n [] [] = Unit {0}
  Sealed key ad n [] (ct ∷ cts) = ⊥
  Sealed key ad n (pt ∷ pts) [] = ⊥
  Sealed key ad n (pt ∷ pts) (ct ∷ cts) =
      (p.aead_encrypt key (build_nonce n) ad pt ≡ some ct) × Sealed key ad (n + 1) pts cts

  pub encrypt_all-Sealed :
      (ad : Bytes) (pts cts : List Bytes) (s s' : CipherState)
      → encrypt_all ad pts s ≡ (s', ok cts)
      → Sealed s.key ad s.nonce pts cts
        × (s'.key ≡ s.key)
        × (s'.nonce ≡ s.nonce + length pts)
        × (s.nonce ≤ u64_max → s'.nonce ≤ u64_max)
  encrypt_all-Sealed ad [] [] s s' e = (tt, cc, ground arith, ground arith)
  encrypt_all-Sealed ad [] (ct ∷ cts) s s' e = absurd (cc)
  encrypt_all-Sealed ad (pt ∷ pts) cts s s' e =
      let (s1, ct, e1, rest) = and_then-eq-ok (encrypt p pt ad s) _ e in
      let (s2, cts', e2, last) = and_then-eq-ok (encrypt_all ad pts s1) _ rest in
      let (sealed, same_key, counter, fits) = encrypt_all-Sealed ad pts cts' s1 s2 e2 in
      let (now, key1, nonce1, more) = encrypt_ok s s1 pt ad ct e1 in
      let out : cts ≡ ct ∷ cts' = cc in
      let end : s' ≡ s2 = cc in
      rw (out, end)
        ((now, rw (key1, nonce1) at sealed), same_key ∙ key1, omega arith, λ h. fits (omega arith))

-- The nonces of `k` messages from counter `n` on.
abbrev pub nonces_from : ℕ → ℕ → List Bytes
nonces_from zero n = []
nonces_from (suc k) n = build_nonce n ∷ nonces_from k (n + 1)

abbrev pub Unique : List Bytes → Type 0
Unique [] = Unit {0}
Unique (b ∷ bs) = All (λ c. b ≢ c) bs × Unique bs

nonces_from-fresh :
    (k m n : ℕ) → m < n → n + k ≤ 2 ^ 64 → All (λ c. build_nonce m ≢ c) (nonces_from k n)
nonces_from-fresh zero m n lt fits = tt
nonces_from-fresh (suc k) m n lt fits = (
  (λ e. absurd (omega (arith, build_nonce-injective (omega arith) (omega arith) e))),
  nonces_from-fresh k m (n + 1) (omega arith) (omega arith),
)

nonces_from-Unique : (k n : ℕ) → n + k ≤ 2 ^ 64 → Unique (nonces_from k n)
nonces_from-Unique zero n fits = tt
nonces_from-Unique (suc k) n fits = (
  nonces_from-fresh k n (n + 1) (omega arith) (omega arith),
  nonces_from-Unique k (n + 1) (omega arith),
)

-- When a list of messages is encrypted without an error, each ciphertext is its message sealed
-- under the state's one key with the next nonce, and these nonces all differ.
pub encrypt_all-Unique :
    (p : Primitives) (ad : Bytes) (pts cts : List Bytes) (s s' : CipherState)
    → s.nonce ≤ u64_max
    → encrypt_all p ad pts s ≡ (s', ok cts)
    → Sealed p s.key ad s.nonce pts cts × Unique (nonces_from (length pts) s.nonce)
encrypt_all-Unique p ad pts cts s s' fits e =
    let (sealed, _, counter, bound) = encrypt_all-Sealed p ad pts cts s s' e in
    (sealed, nonces_from-Unique (length pts) s.nonce (omega (arith, counter, bound fits)))
