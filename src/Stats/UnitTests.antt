-- ===== src/Stats/UnitTests.antt =====
-- stats.rs: its unit test on the counters passes, whatever the clock reads.
use noise_tunnel_rs.Base.{ℕ, ◌≡◌, codes, refl}
use noise_tunnel_rs.Base.Bytes.{Bytes}
use noise_tunnel_rs.Base.Text.Search.{contains}
use noise_tunnel_rs.Error.{Result, ok, ◌>>◌}
use noise_tunnel_rs.Error.Assert.{assert, assert_eq}
use noise_tunnel_rs.Stats.{new, record_tx, record_rx, total_bytes, total_frames, reset}
use noise_tunnel_rs.Stats.Display.{metrics_to_string}

-- `reading` gives the clock's readings in their order, and `elapsed` is the text of the time that
-- is printed.
abbrev test_session_metrics_recording_and_reset : (ℕ → ℕ) → Bytes → Result (Unit {0})
unfolding new record_tx record_rx total_bytes total_frames reset metrics_to_string
test_session_metrics_recording_and_reset reading elapsed = do
  let metrics = new (reading 0)
  assert_eq (total_bytes metrics) 0
  assert_eq (total_frames metrics) 0
  let metrics = record_tx (reading 1) 100 metrics
  let metrics = record_tx (reading 2) 250 metrics
  assert_eq metrics.bytes_sent 350
  assert_eq metrics.frames_sent 2
  let metrics = record_rx (reading 3) 500 metrics
  assert_eq metrics.bytes_received 500
  assert_eq metrics.frames_received 1
  assert_eq (total_bytes metrics) 850
  assert_eq (total_frames metrics) 3
  let display_str = metrics_to_string elapsed metrics
  assert (contains display_str (codes "TX: 2 frames (350 B)"))
  assert (contains display_str (codes "RX: 1 frames (500 B)"))
  assert (contains display_str (codes "Total: 850 B"))
  let metrics = reset (reading 4) metrics
  assert_eq (total_bytes metrics) 0
  assert_eq (total_frames metrics) 0
  assert_eq metrics.bytes_sent 0
  assert_eq metrics.bytes_received 0
  ok tt

test_session_metrics_recording_and_reset-ok :
    (reading : ℕ → ℕ) (elapsed : Bytes)
    → test_session_metrics_recording_and_reset reading elapsed ≡ ok tt
unfolding test_session_metrics_recording_and_reset new record_tx record_rx total_bytes total_frames
    reset metrics_to_string
test_session_metrics_recording_and_reset-ok reading elapsed = refl
