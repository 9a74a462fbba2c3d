-- ===== src/Engine/Segments.antt =====
-- `segment_plan` of engine.rs: the ranges of a large file that crosses WSL's provider once.
pub mod Tiles
pub mod Copy
pub mod Sound
pub mod Complete
pub mod Stop
mod Examples
use bigcp.Base.{
  ℕ, zero, suc, ◌+◌, ◌-◌, ◌*◌, ◌/◌, min, max, Bool, true, false, not, ◌&&◌, ◌||◌, Option, none,
  some, List, [], ◌∷◌, ltb, ◌==◌, any, if◌then◌else◌,
}
use bigcp.Profile.Data.{TransportProfile, TransportKind, wsl_pipeline, mib}

abbrev pub segment_threshold_bytes : ℕ
segment_threshold_bytes = 64 * mib

abbrev pub segment_min : ℕ
segment_min = 2

abbrev pub segment_max : ℕ
segment_max = 8

-- The arguments of `segment_plan`; of a stream only whether it is the unnamed one is read.
pub record SegmentFacts : Type 0 where
  pub transport : TransportProfile
  pub source_is_wsl : Bool
  pub source_is_remote : Bool
  pub destination_is_wsl : Bool
  pub destination_is_remote : Bool
  pub preserve_sparse : Bool
  pub streams_unnamed : List Bool
  pub size : ℕ
  pub threshold : ℕ
  pub chunk_bytes : ℕ
  pub checkpoint_eligible : Bool
  pub resume_candidate : Bool

abbrev pub is_wsl : TransportProfile → Bool
is_wsl profile = elim profile.kind [ wsl_pipeline ↦ true | _ ↦ false ]

unfoldable pub one_wsl_side_with_local_peer : SegmentFacts → Bool
one_wsl_side_with_local_peer f =
    (f.source_is_wsl && not f.destination_is_remote)
    || (f.destination_is_wsl && not f.source_is_remote)

unfoldable pub is_ineligible : SegmentFacts → Bool
unfolding one_wsl_side_with_local_peer
is_ineligible f =
    not (is_wsl f.transport)
    || not (one_wsl_side_with_local_peer f)
    || f.preserve_sparse
    || any not f.streams_unnamed
    || ltb f.size f.threshold
    || f.checkpoint_eligible
    || f.resume_candidate
    || (f.chunk_bytes == 0)

-- `checked_div`, 0 where the divisor is 0, and `clamp`.
unfoldable pub segment_count : ℕ → ℕ → ℕ
segment_count size threshold =
    min (max (if threshold == 0 then 0 else size / threshold) segment_min) segment_max

-- A whole number of chunks for each segment but the last; `/` by 0 is not reached.
unfoldable pub segment_base : (size segments chunk : ℕ) → ℕ
segment_base size segments chunk = size / segments / chunk * chunk

-- The ranges from `index` on, of which `rounds` are left.
unfoldable pub segment_ranges : (size base segments index rounds : ℕ) → List (ℕ × ℕ)
segment_ranges size base segments index zero = []
segment_ranges size base segments index (suc rounds) =
    let offset = index * base in
    (offset, if index == segments - 1 then size - offset else base)
    ∷ segment_ranges size base segments (suc index) rounds

unfoldable pub segment_plan : SegmentFacts → Option (List (ℕ × ℕ))
segment_plan f =
    let segments = segment_count f.size f.threshold in
    let base = segment_base f.size segments f.chunk_bytes in
    if is_ineligible f
    then none
    else if base == 0
    then none
    else some (segment_ranges f.size base segments 0 segments)
