-- ===== src/Protocol/Replay.antt =====
-- protocol/mod.rs: `ReplayFilter`, the anti-replay window with its bitmap and counters.
pub mod Display
pub mod InOrder
pub mod History
pub mod Bitmap
pub mod Refines
pub mod Runs
pub mod Queries
mod Tests
use noise_tunnel_rs.Base.{
  ℕ, ◌+◌, ◌-◌, ◌*◌, ◌%◌, ◌^◌, ◌≤◌, ◌<◌, min, max, bit_and, bit_or, Bool, true, false, not, ltb, leb,
  ◌==◌, if◌then◌else◌,
}
use noise_tunnel_rs.Base.Bytes.{add_u64}
use noise_tunnel_rs.Action.{Action}
use noise_tunnel_rs.Error.{Result, ok, err, replay_too_old, replay_processed}

abbrev pub replay_window_size : ℕ
replay_window_size = 128

pub record ReplayFilter : Type 0 where
  pub window_size : ℕ
  pub bitmap : ℕ
  pub last_seq : ℕ
  pub initialized : Bool
  pub total_seen : ℕ
  pub total_accepted : ℕ
  pub total_rejected : ℕ

-- `window_size.clamp(1, 128)`.
unfoldable pub with_window_size : ℕ → ReplayFilter
with_window_size window_size = record {
  window_size = max 1 (min window_size 128);
  bitmap = 0;
  last_seq = 0;
  initialized = false;
  total_seen = 0;
  total_accepted = 0;
  total_rejected = 0;
}

unfoldable pub new : ReplayFilter
unfolding with_window_size
new = with_window_size replay_window_size

-- `1u128 << n`, and `bitmap << n` on a u128, for `n` below 128.
abbrev pub shl_u128 : ℕ → ℕ → ℕ
shl_u128 x n = x * 2 ^ n % 2 ^ 128

abbrev accept : ReplayFilter → ReplayFilter × Result (Unit {0})
accept f = (record f { total_accepted = add_u64 f.total_accepted 1 }, ok tt)

unfoldable pub validate_and_record : ℕ → Action ReplayFilter (Unit {0})
validate_and_record seq self =
    let f = record self { total_seen = add_u64 self.total_seen 1 } in
    if not f.initialized
    then accept (record f { last_seq = seq; bitmap = 1; initialized = true })
    else if ltb f.last_seq seq
    then (let diff = seq - f.last_seq in
        let bitmap = if ltb diff f.window_size then bit_or (shl_u128 f.bitmap diff) 1 else 1 in
        accept (record f { bitmap = bitmap; last_seq = seq }))
    else let diff = f.last_seq - seq in
      let rejected = record f { total_rejected = add_u64 f.total_rejected 1 } in
      let bit = shl_u128 1 diff in
      if leb f.window_size diff
      then (rejected, err (replay_too_old seq f.window_size))
      else if not (bit_and f.bitmap bit == 0)
      then (rejected, err (replay_processed seq))
      else accept (record f { bitmap = bit_or f.bitmap bit })

unfoldable pub highest_seen : ReplayFilter → ℕ
highest_seen f = f.last_seq

unfoldable pub has_seen : ReplayFilter → ℕ → Bool
has_seen f seq =
    if not f.initialized
    then false
    else if ltb f.last_seq seq
    then false
    else let diff = f.last_seq - seq in
      let bit = shl_u128 1 diff in
      if leb f.window_size diff then true else not (bit_and f.bitmap bit == 0)

unfoldable pub is_initialized : ReplayFilter → Bool
is_initialized f = f.initialized

unfoldable pub is_empty : ReplayFilter → Bool
is_empty f = not f.initialized

-- `saturating_sub` is `-` on ℕ.
unfoldable pub min_valid_seq : ReplayFilter → ℕ
min_valid_seq f = if not f.initialized then 0 else f.last_seq - (f.window_size - 1)

unfoldable pub reset : ReplayFilter → ReplayFilter
reset f = record f {
  bitmap = 0;
  last_seq = 0;
  initialized = false;
  total_seen = 0;
  total_accepted = 0;
  total_rejected = 0;
}
