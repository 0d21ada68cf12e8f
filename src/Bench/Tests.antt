-- ===== src/Bench/Tests.antt =====
-- The benchmark with the toy primitives.
use noise_tunnel_rs.Base.{◌≡◌, replicate}
use noise_tunnel_rs.Error.{ok}
use noise_tunnel_rs.Crypto.Toy.{toy, toy-ExpandsKeys, toy-SealsMessages}
use noise_tunnel_rs.Bench.{Benched, chunk_size, run_benchmark_suite}
use noise_tunnel_rs.Bench.Totals.{Totals, run_benchmark_suite-Totals}

run_benchmark_suite-Totals_example :
    (b : Benched) × (run_benchmark_suite toy ≡ ok b)
    × Totals b 20_000 100_000 16_384 (replicate chunk_size 0xab)
run_benchmark_suite-Totals_example =
    run_benchmark_suite-Totals toy toy-ExpandsKeys toy-SealsMessages
