-- ===== src/Bench.antt =====
-- bench.rs: what the loops of `run_benchmark_suite` compute; the times and the rates are left out.
pub mod Totals
mod Tests
use noise_tunnel_rs.Base.{ℕ, zero, suc, ◌+◌, ◌*◌, ◌%◌, ◌^◌, [], length, replicate, codes}
use noise_tunnel_rs.Base.Bytes.{Bytes, add_u64}
use noise_tunnel_rs.Error.{Result, ok, err, ◌>>=◌, ◌>>◌, panicked}
use noise_tunnel_rs.Error.Assert.{unwrap}
use noise_tunnel_rs.Crypto.Primitives.{Primitives}
use noise_tunnel_rs.Crypto.Keys.{KeyPair, generate, diffie_hellman, derive_session_keys}
use noise_tunnel_rs.Crypto.Cipher.{CipherState, encrypt}
use noise_tunnel_rs.Crypto.Cipher
use noise_tunnel_rs.Protocol.MessageType.{data_payload}
use noise_tunnel_rs.Protocol.Frame.{WireFrame, serialize, serialize_into}
use noise_tunnel_rs.Protocol.Frame
use noise_tunnel_rs.Protocol.Replay.{ReplayFilter, validate_and_record}
use noise_tunnel_rs.Protocol.Replay

abbrev pub chunk_size : ℕ
chunk_size = 16 * 1024

abbrev pub bench_label : Bytes
bench_label = codes "aad-metadata"

module _ (p : Primitives) where
  -- The keys are thrown away.
  unfoldable pub derive_loop : ℕ → Bytes → Bytes → Result (Unit {0})
  unfolding derive_session_keys
  derive_loop zero secret hash = ok tt
  derive_loop (suc iterations) secret hash =
      unwrap (derive_session_keys p secret hash) >>= λ ignored. derive_loop iterations secret hash

  -- The cipher and `total_bytes`, a `usize` of 64 bits.
  unfoldable pub encrypt_loop : ℕ → Bytes → CipherState → ℕ → Result (CipherState × ℕ)
  unfolding encrypt
  encrypt_loop zero payload cipher total_bytes = ok (cipher, total_bytes)
  encrypt_loop (suc iterations) payload cipher total_bytes =
      let (after, sealed) = encrypt p payload bench_label cipher in
      unwrap sealed >>= λ ct.
      encrypt_loop iterations payload after (add_u64 total_bytes (length ct))

-- `for i in 1..=filter_iterations`, from `i` on; the verdicts are thrown away.
unfoldable pub filter_loop : ℕ → ℕ → ReplayFilter → ReplayFilter
unfolding validate_and_record
filter_loop zero i filter = filter
filter_loop (suc iterations) i filter =
    filter_loop iterations (i + 1) (validate_and_record i filter).0

-- `reused_buffer.clear()` and `serialize_into`.
unfoldable pub reuse_loop : ℕ → WireFrame → Bytes → Bytes
unfolding serialize_into
reuse_loop zero frame reused_buffer = reused_buffer
reuse_loop (suc iterations) frame reused_buffer =
    reuse_loop iterations frame (serialize_into frame [])

-- The variables that the loops have changed.
pub record Benched : Type 0 where
  pub cipher : CipherState
  pub total_bytes : ℕ
  pub filter : ReplayFilter
  pub reused_buffer : Bytes

-- The suite for any numbers of rounds: `iterations`, `aead_iterations`, `filter_iterations` and
-- `frame_iterations`. The loops over `diffie_hellman` and `serialize` change nothing and cannot
-- fail.
unfoldable pub suite : Primitives → ℕ → ℕ → ℕ → ℕ → Bytes → Result Benched
unfolding derive_loop encrypt_loop filter_loop reuse_loop Cipher.new Replay.new Frame.new
suite p iterations aead_iterations filter_iterations frame_iterations payload = do
  derive_loop p iterations (replicate 32 0x42) (replicate 32 0x99)
  (cipher, total_bytes) ← encrypt_loop p aead_iterations payload (Cipher.new (replicate 32 0x77)) 0
  let filter = filter_loop filter_iterations 1 Replay.new
  let frame = Frame.new data_payload 1 payload
  let reused_buffer = reuse_loop frame_iterations frame []
  ok (record {
    cipher = cipher;
    total_bytes = total_bytes;
    filter = filter;
    reused_buffer = reused_buffer;
  })

unfoldable pub run_benchmark_suite : Primitives → Result Benched
unfolding suite
run_benchmark_suite p = suite p 10_000 20_000 100_000 20_000 (replicate chunk_size 0xab)
