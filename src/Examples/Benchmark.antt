-- ===== src/Examples/Benchmark.antt =====
-- examples/benchmark.rs
use noise_tunnel_rs.Error.{Result}
use noise_tunnel_rs.Crypto.Primitives.{Primitives}
use noise_tunnel_rs.Bench.{Benched, run_benchmark_suite}

unfoldable pub benchmark : Primitives → Result Benched
unfolding run_benchmark_suite
benchmark p = run_benchmark_suite p
