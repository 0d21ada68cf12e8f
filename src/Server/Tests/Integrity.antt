-- ===== src/Server/Tests/Integrity.antt =====
-- The toy session of Server/Tests answers what the toy client sealed.
use noise_tunnel_rs.Base.{[], ◌∷◌, ◌≡◌, ◌⊎◌, refl, arith, codes, List}
use noise_tunnel_rs.Error.{ok}
use noise_tunnel_rs.Crypto.Toy.{toy, toy-SealsMessages}
use noise_tunnel_rs.Crypto.Cipher.{CipherState, encrypt}
use noise_tunnel_rs.Server.Session.{tunnel_data}
use noise_tunnel_rs.Server.Session.Integrity
use noise_tunnel_rs.Server.Session.Integrity.{Answers}
use noise_tunnel_rs.Server.Session.Integrity.Sent.{
  Labelled, encrypt_each, Follows, Forged, Answers-Follows,
}
use noise_tunnel_rs.Server.Tests.{key, tick, sealed_hi, greeted, answered, hi, hi-read, hi-answered}

abbrev boxes : List Labelled
unfolding sealed_hi
boxes = (tunnel_data, sealed_hi) ∷ []

abbrev messages : List Labelled
messages = (tunnel_data, codes "hi") ∷ []

abbrev tx : CipherState
tx = record { key = key; nonce = 0 }

abbrev tx_after : CipherState
tx_after = record { key = key; nonce = 1 }

one_answer : Answers toy tick greeted boxes answered
unfolding boxes hi
one_answer = Integrity.round hi-read hi-answered Integrity.here

sealed_before : encrypt_each toy messages tx ≡ (tx_after, ok (sealed_hi ∷ []))
unfolding encrypt sealed_hi
sealed_before = refl

same_cipher : tx ≡ greeted.rx_cipher
unfolding greeted
same_cipher = refl

Answers-Follows_example :
    Follows toy key 0 boxes messages (sealed_hi ∷ [])
    ⊎ Forged toy key 0 boxes messages (sealed_hi ∷ [])
unfolding boxes greeted
Answers-Follows_example =
    Answers-Follows toy tick toy-SealsMessages messages boxes (sealed_hi ∷ []) tx tx_after greeted
      answered same_cipher sealed_before one_answer (omega arith)
