-- ===== src/Protocol/Replay/Display.antt =====
-- protocol/mod.rs: `Display` of `ReplayFilter`, and what can be told from it.
use noise_tunnel_rs.Base.{◌≡◌, ◌∷◌, [], drop, codes, refl, ap}
use noise_tunnel_rs.Base.Bytes.{Bytes, IsU64}
use noise_tunnel_rs.Base.Text.Decimal.{concat, to_string, to_string-injective}
use noise_tunnel_rs.Protocol.Replay.{ReplayFilter}

unfoldable pub filter_to_string : ReplayFilter → Bytes
unfolding to_string
filter_to_string f = concat (
    codes "ReplayFilter(window="
    ∷ to_string f.window_size
    ∷ codes ", last_seq="
    ∷ to_string f.last_seq
    ∷ codes ", accepted="
    ∷ to_string f.total_accepted
    ∷ codes "/"
    ∷ to_string f.total_seen
    ∷ codes ", rejected="
    ∷ to_string f.total_rejected
    ∷ codes ")"
    ∷ [])

-- The fields are words of 64 bits.
pub record Fits (f : ReplayFilter) : Type 0 where
  pub window_size : IsU64 f.window_size
  pub last_seq : IsU64 f.last_seq
  pub total_accepted : IsU64 f.total_accepted
  pub total_seen : IsU64 f.total_seen
  pub total_rejected : IsU64 f.total_rejected

-- The texts of two filters with 64-bit fields are the same only if all that they print is: the
-- window, the last number and the three counters.
pub filter_to_string-injective :
    (f g : ReplayFilter)
    → Fits f
    → Fits g
    → filter_to_string f ≡ filter_to_string g
    → (f.window_size ≡ g.window_size)
      × (f.last_seq ≡ g.last_seq)
      × (f.total_accepted ≡ g.total_accepted)
      × (f.total_seen ≡ g.total_seen)
      × (f.total_rejected ≡ g.total_rejected)
unfolding filter_to_string
filter_to_string-injective f g a b e =
    let (window, e) =
      to_string-injective f.window_size g.window_size 44 44 _ _ a.window_size b.window_size refl
        refl (ap (drop 20) e) in
    let (last, e) =
      to_string-injective f.last_seq g.last_seq 44 44 _ _ a.last_seq b.last_seq refl refl
        (ap (drop 11) e) in
    let (accepted, e) =
      to_string-injective f.total_accepted g.total_accepted 47 47 _ _ a.total_accepted
        b.total_accepted refl refl (ap (drop 11) e) in
    let (seen, e) =
      to_string-injective f.total_seen g.total_seen 44 44 _ _ a.total_seen b.total_seen refl refl
        (ap (drop 1) e) in
    let (rejected, _) =
      to_string-injective f.total_rejected g.total_rejected 41 41 _ _ a.total_rejected
        b.total_rejected refl refl (ap (drop 11) e) in
    (window, last, accepted, seen, rejected)
