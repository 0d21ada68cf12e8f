-- ===== src/Protocol/Tests/Display.antt =====
-- The texts of a frame and of a filter.
use noise_tunnel_rs.Base.{◌≡◌, ◌∷◌, [], codes, true, refl}
use noise_tunnel_rs.Protocol.MessageType.{data_payload}
use noise_tunnel_rs.Protocol.Frame.{WireFrame}
use noise_tunnel_rs.Protocol.Frame.Display.{summary}
use noise_tunnel_rs.Protocol.Replay.{ReplayFilter}
use noise_tunnel_rs.Protocol.Replay.Display.{filter_to_string}

abbrev hello : WireFrame
hello = record { msg_type = data_payload; nonce = 4096; payload = 1 ∷ 2 ∷ [] }

abbrev hullo : WireFrame
hullo = record { msg_type = data_payload; nonce = 4096; payload = 7 ∷ 8 ∷ [] }

summary_runs : summary hello ≡ codes "WireFrame(type=DataPayload, nonce=4096, payload_len=2B)"
unfolding summary
summary_runs = refl

same_summary : summary hello ≡ summary hullo
unfolding summary
same_summary = refl

abbrev used : ReplayFilter
used = record {
  window_size = 128;
  bitmap = 5;
  last_seq = 42;
  initialized = true;
  total_seen = 3;
  total_accepted = 2;
  total_rejected = 1;
}

filter_to_string_runs :
    filter_to_string used ≡ codes "ReplayFilter(window=128, last_seq=42, accepted=2/3, rejected=1)"
unfolding filter_to_string
filter_to_string_runs = refl
