-- ===== src/Tunnel/Tests/Binding.antt =====
-- A handshake of the toy primitives that both ends complete.
pub mod Delivery
use noise_tunnel_rs.Base.{◌++◌, codes, ◌⊎◌, ◌≡◌, refl, replicate, drop, []}
use noise_tunnel_rs.Base.Bytes.{Bytes}
use noise_tunnel_rs.Error.{Result, ok, err}
use noise_tunnel_rs.Crypto.Toy.{toy, toy-AgreesOnSecrets}
use noise_tunnel_rs.Crypto.Cipher.{CipherState, encrypt, decrypt}
use noise_tunnel_rs.Crypto.Cipher
use noise_tunnel_rs.Protocol.Transcript.{hash_handshake_state}
use noise_tunnel_rs.Protocol.MessageType.{handshake_init, handshake_resp}
use noise_tunnel_rs.Client.Handshake.{Hello, client_hello, client_finish}
use noise_tunnel_rs.Server.Handshake.{Answer, server_answer}
use noise_tunnel_rs.Tunnel.Binding.{Keyed, Agreed, Collides, Misopens}
use noise_tunnel_rs.Tunnel.Binding.Agrees.{handshake-Agreed}
use noise_tunnel_rs.Tunnel.Tests.{client, server_keys, prologue}
use noise_tunnel_rs.Crypto.Keys.{derive_session_keys}

abbrev pub client_secret : Bytes
client_secret = replicate 32 1

abbrev pub server_secret : Bytes
server_secret = replicate 32 2

abbrev pub hello : Hello
hello = record {
  ephemeral = record { secret = client_secret; public_key = client_secret };
  dh_static = replicate 32 128;
  frame = record {
    msg_type = handshake_init;
    nonce = 0;
    payload = client_secret ++ (codes "HANDSHAKE_INIT_CLIENT" ++ replicate 16 96);
  };
}

abbrev pub answer : Answer
answer = record {
  frame = record {
    msg_type = handshake_resp;
    nonce = 0;
    payload = server_secret ++ (codes "HANDSHAKE_COMPLETE_ACK" ++ replicate 16 96);
  };
  rx_cipher = record { key = replicate 32 175; nonce = 0 };
  tx_cipher = record { key = replicate 32 199; nonce = 0 };
}

abbrev pub ciphers : CipherState × CipherState
ciphers = (answer.rx_cipher, answer.tx_cipher)

pub said : client_hello toy client client_secret ≡ ok hello
unfolding client_hello derive_session_keys encrypt decrypt Cipher.new hash_handshake_state
said = refl

pub answered : server_answer toy server_keys prologue server_secret hello.frame ≡ ok answer
unfolding server_answer derive_session_keys encrypt decrypt Cipher.new hash_handshake_state
answered = refl

pub finished : client_finish toy client hello answer.frame ≡ ok ciphers
unfolding client_finish derive_session_keys encrypt decrypt Cipher.new hash_handshake_state
finished = refl

pub ends-Keyed : Keyed toy client server_keys client_secret server_secret
ends-Keyed = record {
  own_key = refl;
  expected_size = refl;
  static_size = refl;
  client_size = refl;
  server_size = refl;
}

handshake-Agreed_example :
    Agreed toy client server_keys prologue client_secret server_secret hello.frame answer ciphers
    ⊎ (Collides toy client server_keys prologue client_secret server_secret hello.frame
        ⊎ Misopens toy client server_keys prologue client_secret server_secret hello.frame
            (drop 32 answer.frame.payload))
handshake-Agreed_example =
    handshake-Agreed toy toy-AgreesOnSecrets client server_keys prologue client_secret server_secret
      ends-Keyed hello.frame hello answer ciphers said answered finished
