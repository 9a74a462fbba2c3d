-- ===== src/Profile/Choice.antt =====
-- `select_copy_profile`: the profile of a copy from its two sides.
use bigcp.Base.{
  ℕ, ◌-◌, ◌*◌, ◌/◌, min, max, Bool, true, false, not, ◌&&◌, ◌||◌, Option, none, some, List, Outcome,
  ok, err, ◌>>=◌, ◌>>◌, ltb, ◌==◌, any, if◌then◌else◌,
}
use bigcp.Counters.{u64_max}
use bigcp.Win.Types.{is_remote}
use bigcp.Profile.Data.{
  CopyProfile, DeviceClass, DeviceInfo, Refusal, SideProfile, TransportProfile, TuneOptions,
  burst_too_small, default_burst_bytes, default_large_threshold, is_hdd, is_wsl,
  local_pipeline_buffers, min_chunk_bytes, no_room_for_chunks, no_room_for_worker, pipeline_buffers,
  redirector_pipeline, same_spindle_phases, spindle_threads, standard, threshold_too_large,
  wsl_pipeline, zero_chunk,
}
use bigcp.Profile.Sides.{side_profile, unwrap_or, validate_tuning, with_threads}

abbrev pub shares_disk : List ℕ → List ℕ → Bool
shares_disk a b = any (λ disk. any (λ other. other == disk) b) a

-- What the choice is made from.
pub record Topology : Type 0 where
  pub same_spindle : Bool
  pub wsl : Bool
  pub redirector : Bool

-- The chunk under the memory budget.
unfoldable pub cap_chunk : Option ℕ → Bool → ℕ → ℕ → ℕ → Outcome Refusal ℕ
cap_chunk none same_spindle threshold buffers chunk = ok chunk
cap_chunk (some memory) true threshold buffers chunk = ok (min chunk memory)
cap_chunk (some memory) false threshold buffers chunk =
    let available = (memory - threshold) / buffers in
    if ltb memory threshold || ltb available min_chunk_bytes
    then err (no_room_for_chunks memory threshold buffers)
    else ok (min chunk available)

-- `saturating_mul`
abbrev pub saturating_mul : ℕ → ℕ → ℕ
saturating_mul a b = min (a * b) u64_max

-- The bytes that one worker holds.
abbrev pub per_worker : Bool → ℕ → ℕ → ℕ
per_worker redirector threshold chunk =
    if redirector then max threshold (saturating_mul chunk pipeline_buffers) else threshold

-- The workers that the memory budget has room for beside the coordinator, if there is a budget.
unfoldable pub worker_budget : Option ℕ → Topology → ℕ → ℕ → ℕ → Outcome Refusal (Option ℕ)
worker_budget none topology threshold buffers chunk = ok none
worker_budget (some memory) topology threshold buffers chunk =
    let worker = per_worker topology.redirector threshold chunk in
    let left = memory - saturating_mul chunk buffers in
    if topology.same_spindle
    then ok none
    else if ltb left worker
    then err (no_room_for_worker memory buffers chunk worker)
    else ok (some (max 1 (min (left / worker) 256)))

abbrev pub cap_workers : Option ℕ → ℕ → ℕ
cap_workers none workers = workers
cap_workers (some budget) workers = min workers budget

abbrev pub not_one : Option ℕ → Bool
not_one none = false
not_one (some n) = not (n == 1)

abbrev pub cap_burst : Option ℕ → ℕ → ℕ
cap_burst none burst = burst
cap_burst (some memory) burst = min burst memory

-- The transport and the workers that it leaves.
unfoldable pub choose_transport :
    TuneOptions → Topology → ℕ → ℕ → ℕ → Outcome Refusal (TransportProfile × ℕ)
choose_transport tune topology threshold chunk workers =
    let burst =
      cap_burst tune.memory_bytes (unwrap_or default_burst_bytes tune.same_spindle_burst_bytes) in
    let minimum = max chunk threshold in
    if topology.same_spindle
    then (if not_one tune.threads
        then err spindle_threads
        else if ltb burst minimum
        then err (burst_too_small burst minimum)
        else ok (record { kind = same_spindle_phases; burst_bytes = burst }, 1))
    else if topology.wsl
    then ok (record { kind = wsl_pipeline; burst_bytes = chunk }, workers)
    else if topology.redirector
    then ok (record { kind = redirector_pipeline; burst_bytes = chunk }, workers)
    else ok (record { kind = standard; burst_bytes = chunk }, workers)

abbrev pub check_threshold : ℕ → Outcome Refusal ℕ
check_threshold threshold = if ltb u64_max threshold then err threshold_too_large else ok threshold

abbrev pub check_chunk : ℕ → Outcome Refusal ℕ
check_chunk chunk = if chunk == 0 then err zero_chunk else ok chunk

abbrev pub topology_of : DeviceInfo → DeviceInfo → SideProfile → SideProfile → Topology
topology_of source_info destination_info source destination = record {
  same_spindle =
      shares_disk source_info.disk_numbers destination_info.disk_numbers
      && (is_hdd source.class || is_hdd destination.class);
  wsl = is_wsl source_info.endpoint || is_wsl destination_info.endpoint;
  redirector = is_remote source_info.endpoint || is_remote destination_info.endpoint;
}

abbrev pub coordinator_buffers : Topology → ℕ
coordinator_buffers topology =
    if topology.redirector then pipeline_buffers else local_pipeline_buffers

-- What follows once the sides are known, from the last step to the first.
module _ (tune : TuneOptions) (source_info destination_info : DeviceInfo)
    (source destination : SideProfile) where
  abbrev pub topology : Topology
  topology = topology_of source_info destination_info source destination

  abbrev pub led_workers : ℕ
  led_workers =
      if is_hdd source.class || is_remote source_info.endpoint
      then min source.workers destination.workers
      else destination.workers

  abbrev pub composed_chunk : ℕ
  composed_chunk = unwrap_or (min source.chunk_bytes destination.chunk_bytes) tune.chunk_bytes

  abbrev pub profile_with : ℕ → Option ℕ → TransportProfile × ℕ → Outcome Refusal CopyProfile
  profile_with chunk budget (transport, workers) = ok (record {
    source = record source { workers = cap_workers budget source.workers };
    destination = record destination { workers = cap_workers budget destination.workers };
    chunk_bytes = chunk;
    workers = workers;
    same_physical_disk = shares_disk source_info.disk_numbers destination_info.disk_numbers;
    transport = transport;
  })

  abbrev pub with_budget : ℕ → ℕ → Option ℕ → Outcome Refusal CopyProfile
  with_budget threshold chunk budget =
      choose_transport tune topology threshold chunk (cap_workers budget led_workers)
      >>= profile_with chunk budget

  abbrev pub with_chunk : ℕ → ℕ → Outcome Refusal CopyProfile
  with_chunk threshold chunk =
      worker_budget tune.memory_bytes topology threshold (coordinator_buffers topology) chunk
      >>= with_budget threshold chunk

  abbrev pub with_capped : ℕ → ℕ → Outcome Refusal CopyProfile
  with_capped threshold capped = check_chunk capped >>= with_chunk threshold

  abbrev pub with_threshold : ℕ → Outcome Refusal CopyProfile
  with_threshold threshold =
      cap_chunk tune.memory_bytes topology.same_spindle threshold (coordinator_buffers topology)
        composed_chunk
      >>= with_capped threshold

  unfoldable pub compose : Outcome Refusal CopyProfile
  compose =
      check_threshold (unwrap_or default_large_threshold tune.large_threshold) >>= with_threshold

-- `cores` is what `available_parallelism` answers.
unfoldable pub select_copy_profile :
    ℕ
    → DeviceInfo
    → DeviceInfo
    → DeviceClass
    → DeviceClass
    → TuneOptions
    → Outcome Refusal CopyProfile
select_copy_profile cores source_info destination_info source_override destination_override tune =
    validate_tuning tune
    >> compose tune source_info destination_info
        (with_threads tune.threads (side_profile source_info source_override cores true))
        (with_threads tune.threads (side_profile destination_info destination_override cores false))
