-- ===== src/Stats.antt =====
-- stats.rs: `SessionMetrics`. The clock's reading is an argument, in nanoseconds.
pub mod Display
mod UnitTests
use noise_tunnel_rs.Base.{ℕ, ◌-◌}
use noise_tunnel_rs.Base.Bytes.{add_u64}

pub record SessionMetrics : Type 0 where
  pub bytes_sent : ℕ
  pub bytes_received : ℕ
  pub frames_sent : ℕ
  pub frames_received : ℕ
  pub started_at : ℕ
  pub last_activity : ℕ

unfoldable pub new : ℕ → SessionMetrics
new now = record {
  bytes_sent = 0;
  bytes_received = 0;
  frames_sent = 0;
  frames_received = 0;
  started_at = now;
  last_activity = now;
}

unfoldable pub record_tx : ℕ → ℕ → SessionMetrics → SessionMetrics
record_tx now bytes m = record m {
  bytes_sent = add_u64 m.bytes_sent bytes;
  frames_sent = add_u64 m.frames_sent 1;
  last_activity = now;
}

unfoldable pub record_rx : ℕ → ℕ → SessionMetrics → SessionMetrics
record_rx now bytes m = record m {
  bytes_received = add_u64 m.bytes_received bytes;
  frames_received = add_u64 m.frames_received 1;
  last_activity = now;
}

unfoldable pub total_bytes : SessionMetrics → ℕ
total_bytes m = add_u64 m.bytes_sent m.bytes_received

unfoldable pub total_frames : SessionMetrics → ℕ
total_frames m = add_u64 m.frames_sent m.frames_received

unfoldable pub elapsed : ℕ → SessionMetrics → ℕ
elapsed now m = now - m.started_at

unfoldable pub idle_duration : ℕ → SessionMetrics → ℕ
idle_duration now m = now - m.last_activity

unfoldable pub reset : ℕ → SessionMetrics → SessionMetrics
reset now m = record m {
  bytes_sent = 0;
  bytes_received = 0;
  frames_sent = 0;
  frames_received = 0;
  started_at = now;
  last_activity = now;
}
