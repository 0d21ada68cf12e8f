-- ===== src/Bench/Totals.antt =====
-- bench.rs: the loops of the suite run to their end, and what they have counted.
use noise_tunnel_rs.Crypto.Cipher
use noise_tunnel_rs.Protocol.Replay
use noise_tunnel_rs.Protocol.Frame
use noise_tunnel_rs.Protocol.MessageType.{data_payload}
use noise_tunnel_rs.Bench.{Benched, chunk_size, run_benchmark_suite}
use noise_tunnel_rs.Base.{
  length-replicate, replicate, ℕ, zero, suc, ◌+◌, ◌*◌, ◌^◌, ◌≤◌, ◌<◌, ◌≡◌, [], length, arith, refl,
  subst,
}
use noise_tunnel_rs.Base.Bytes.{Bytes, add_u64, u64_max}
use noise_tunnel_rs.Error.{ok}
use noise_tunnel_rs.Crypto.Primitives.{Primitives, ExpandsKeys, SealsMessages}
use noise_tunnel_rs.Crypto.Derive.{derive_session_keys-total}
use noise_tunnel_rs.Crypto.Cipher.{CipherState}
use noise_tunnel_rs.Crypto.Cipher.Nonces.{encrypt_succeeds}
use noise_tunnel_rs.Protocol.Frame.{WireFrame, serialize, serialize_into}
use noise_tunnel_rs.Protocol.Replay.{ReplayFilter, validate_and_record}
use noise_tunnel_rs.Bench.{
  bench_label, suite, derive_loop, encrypt_loop, filter_loop, reuse_loop, run_benchmark_suite,
}

suc_mul : (n x : ℕ) → suc n * x ≡ x + n * x
suc_mul n x = grind arith

module _ (p : Primitives) (expands : ExpandsKeys p) (sealing : SealsMessages p) where
  derive_loop-ok :
      (iterations : ℕ) (secret hash : Bytes) → derive_loop p iterations secret hash ≡ ok tt
  unfolding derive_loop
  derive_loop-ok zero secret hash = refl
  derive_loop-ok (suc iterations) secret hash =
      let (_, _, e, _, _) = derive_session_keys-total p expands secret hash in
      rw e (derive_loop-ok iterations secret hash)

  encrypt_loop-ok :
      (iterations : ℕ) (payload : Bytes) (cipher : CipherState) (total_bytes : ℕ)
      → length payload ≤ 65536
      → cipher.nonce + iterations ≤ u64_max
      → total_bytes + iterations * (length payload + 16) < 2 ^ 64
      → encrypt_loop p iterations payload cipher total_bytes
        ≡ ok (
          record cipher { nonce = cipher.nonce + iterations },
          total_bytes + iterations * (length payload + 16),
        )
  unfolding encrypt_loop
  encrypt_loop-ok zero payload cipher total_bytes small fits bounded = ground arith
  encrypt_loop-ok (suc iterations) payload cipher total_bytes small fits bounded =
      let (ct, e, _, size) =
        encrypt_succeeds p cipher payload bench_label sealing (omega (arith, small))
          (omega (arith, fits)) in
      let more = suc_mul iterations (length payload + 16) in
      let later =
        encrypt_loop-ok iterations payload (record cipher { nonce = cipher.nonce + 1 })
          (add_u64 total_bytes (length ct)) small (omega (arith, fits))
          (omega (arith, bounded, more, size)) in
      ground (arith, e, size, more, later, bounded)

-- The filter has accepted 1 to `i - 1` and nothing else.
record Passed (f : ReplayFilter) (i : ℕ) : Type 0 where
  pub last : f.last_seq + 1 ≡ i
  pub seen : f.total_seen + 1 ≡ i
  pub accepted : f.total_accepted + 1 ≡ i
  pub rejected : f.total_rejected ≡ 0

suc_right : (i n : ℕ) → i + 1 + n ≡ i + suc n
suc_right i n = omega arith

filter_loop-Passed :
    (iterations i : ℕ) (f : ReplayFilter)
    → i + iterations < 2 ^ 64
    → Passed f i
    → Passed (filter_loop iterations i f) (i + iterations)
unfolding filter_loop validate_and_record
filter_loop-Passed zero i f fits r = record {
  last = omega (arith, r.last);
  seen = omega (arith, r.seen);
  accepted = omega (arith, r.accepted);
  rejected = r.rejected;
}
filter_loop-Passed (suc iterations) i f fits r =
    subst (Passed (filter_loop iterations (i + 1) (validate_and_record i f).0))
      (suc_right i iterations)
      (filter_loop-Passed iterations (i + 1) (validate_and_record i f).0 (omega (arith, fits))
        (record {
          last = ground (arith, r.last);
          seen = ground (arith, r.seen);
          accepted = ground (arith, r.accepted);
          rejected = ground (arith, r.rejected, r.last);
        }))

reuse_loop_lem :
    (iterations : ℕ) (frame : WireFrame) (buffer : Bytes)
    → reuse_loop (suc iterations) frame buffer ≡ serialize frame
unfolding reuse_loop serialize
reuse_loop_lem zero frame buffer = refl
reuse_loop_lem (suc iterations) frame buffer =
    reuse_loop_lem iterations frame (serialize_into frame [])

-- What the suite leaves, by the numbers of its rounds.
pub record Totals (b : Benched) (sealed filtered size : ℕ) (payload : Bytes) : Type 0 where
  pub total_bytes : b.total_bytes ≡ sealed * (size + 16)
  pub nonce : b.cipher.nonce ≡ sealed
  pub last_seq : b.filter.last_seq ≡ filtered
  pub accepted : b.filter.total_accepted ≡ filtered
  pub rejected : b.filter.total_rejected ≡ 0
  pub buffer : b.reused_buffer ≡ serialize (Frame.new data_payload 1 payload)

suite-Totals :
    (p : Primitives)
    → ExpandsKeys p
    → SealsMessages p
    → (iterations sealed filtered frames size : ℕ) (payload : Bytes) → length payload ≡ size
    → size ≤ 65536
    → sealed ≤ u64_max
    → sealed * (size + 16) < 2 ^ 64
    → filtered < u64_max
    → (b : Benched) × (suite p iterations sealed filtered (suc frames) payload ≡ ok b)
      × Totals b sealed filtered size payload
unfolding suite Replay.new Cipher.new
suite-Totals p expands sealing iterations sealed filtered frames size payload e small fits bounded
      filter_fits =
    let derived =
      derive_loop-ok p expands sealing iterations (replicate 32 0x42) (replicate 32 0x99) in
    let encrypted =
      encrypt_loop-ok p expands sealing sealed payload (Cipher.new (replicate 32 0x77)) 0
        (omega (arith, e, small)) (omega (arith, fits)) (rw e (omega (arith, bounded))) in
    let passed =
      filter_loop-Passed filtered 1 Replay.new (omega (arith, filter_fits))
        (record { last = refl; seen = refl; accepted = refl; rejected = refl }) in
    (
      record {
        cipher = record { key = replicate 32 0x77; nonce = 0 + sealed };
        total_bytes = 0 + sealed * (length payload + 16);
        filter = filter_loop filtered 1 Replay.new;
        reused_buffer = reuse_loop (suc frames) (Frame.new data_payload 1 payload) [];
      },
      rw (derived, encrypted) refl,
      record {
        total_bytes = rw e (omega arith);
        nonce = omega arith;
        last_seq = omega (arith, passed.last);
        accepted = omega (arith, passed.accepted);
        rejected = passed.rejected;
        buffer = reuse_loop_lem frames (Frame.new data_payload 1 payload) [];
      },
    )

-- If HKDF and the AEAD keep their promises, the benchmark meets no error to unwrap: it seals 20000
-- chunks of 16384 bytes, each with a tag of 16, and leaves the cipher at nonce 20000, its filter
-- has accepted the numbers 1 to 100000 and rejected none, and the buffer that it uses again holds
-- what `serialize` gives for the frame.
pub run_benchmark_suite-Totals :
    (p : Primitives)
    → ExpandsKeys p
    → SealsMessages p
    → (b : Benched) × (run_benchmark_suite p ≡ ok b)
      × Totals b 20_000 100_000 16_384 (replicate chunk_size 0xab)
unfolding run_benchmark_suite
run_benchmark_suite-Totals p expands sealing =
    suite-Totals p expands sealing 10_000 20_000 100_000 19_999 16_384 (replicate chunk_size 0xab)
      (length-replicate {A = ℕ} chunk_size 0xab) (omega arith) (omega arith) (omega arith)
      (omega arith)
