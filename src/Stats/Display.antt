-- ===== src/Stats/Display.antt =====
-- stats.rs: `Display` of `SessionMetrics`. The text of the elapsed time, `{:.2?}` of a `Duration`,
-- is an argument.
use noise_tunnel_rs.Base.{◌∷◌, [], codes}
use noise_tunnel_rs.Base.Bytes.{Bytes}
use noise_tunnel_rs.Base.Text.Decimal.{concat, to_string}
use noise_tunnel_rs.Stats.{SessionMetrics, total_bytes}

unfoldable pub metrics_to_string : Bytes → SessionMetrics → Bytes
unfolding to_string total_bytes
metrics_to_string elapsed m = concat (
    codes "SessionMetrics(TX: "
    ∷ to_string m.frames_sent
    ∷ codes " frames ("
    ∷ to_string m.bytes_sent
    ∷ codes " B), RX: "
    ∷ to_string m.frames_received
    ∷ codes " frames ("
    ∷ to_string m.bytes_received
    ∷ codes " B), Total: "
    ∷ to_string (total_bytes m)
    ∷ codes " B, Elapsed: "
    ∷ elapsed
    ∷ codes ")"
    ∷ [])
