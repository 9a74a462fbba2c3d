-- ===== src/Profile/Sides.antt =====
-- `validate_tuning`, `detected_class` and `side_profile`: one side of a copy.
use bigcp.Base.{
  ℕ, ◌*◌, min, Bool, true, false, not, ◌||◌, Option, none, some, Outcome, ok, err, ltb, ◌==◌,
  if◌then◌else◌,
}
use bigcp.Win.Types.{EndpointKind, local, unc, wsl_unc}
use bigcp.Profile.Data.{
  DeviceBus, DeviceClass, DeviceInfo, Refusal, SideProfile, TuneOptions, auto, burst_size,
  checkpoint_zero, chunk_size, hdd, is_auto, max_chunk_bytes, memory_budget, mib, min_chunk_bytes,
  nvme, nvme_bus, other_bus, sata_bus, sata_ssd, threshold_zero, unknown, usb_bus, usb_ssd,
  worker_count,
}

abbrev pub unwrap_or : ℕ → Option ℕ → ℕ
unwrap_or d none = d
unwrap_or d (some n) = n

-- A given number outside of a range, and a given zero.
abbrev pub is_outside : ℕ → ℕ → Option ℕ → Bool
is_outside low high none = false
is_outside low high (some n) = ltb n low || ltb high n

abbrev pub is_zero : Option ℕ → Bool
is_zero none = false
is_zero (some n) = n == 0

unfoldable pub validate_tuning : TuneOptions → Outcome Refusal (Unit {0})
validate_tuning tune =
    if is_outside 1 256 tune.threads
    then err worker_count
    else if is_outside min_chunk_bytes max_chunk_bytes tune.chunk_bytes
    then err chunk_size
    else if is_zero tune.memory_bytes
    then err memory_budget
    else if is_zero tune.large_threshold
    then err threshold_zero
    else if is_zero tune.checkpoint_threshold
    then err checkpoint_zero
    else if is_outside mib (1024 * mib) tune.same_spindle_burst_bytes
    then err burst_size
    else ok tt

abbrev pub class_of_bus : Option DeviceBus → Option Bool → DeviceClass
class_of_bus (some nvme_bus) seek = nvme
class_of_bus (some sata_bus) seek = sata_ssd
class_of_bus (some usb_bus) seek = usb_ssd
class_of_bus (some other_bus) (some false) = sata_ssd
class_of_bus none (some false) = sata_ssd
class_of_bus (some other_bus) _ = unknown
class_of_bus none _ = unknown

abbrev pub has_seek_penalty : Option Bool → Bool
has_seek_penalty (some true) = true
has_seek_penalty _ = false

unfoldable pub detected_class : DeviceInfo → DeviceClass
detected_class info =
    if has_seek_penalty info.incurs_seek_penalty
    then hdd
    else class_of_bus info.bus info.incurs_seek_penalty

-- Chunk bytes and workers of a class.
abbrev pub class_row : DeviceClass → ℕ → Bool → ℕ × ℕ
class_row nvme cores source = (16 * mib, min (4 * cores) 64)
class_row sata_ssd cores source = (8 * mib, 32)
class_row usb_ssd cores source = (4 * mib, 16)
class_row hdd cores source = (16 * mib, if source then 4 else 32)
class_row auto cores source = (4 * mib, 4)
class_row unknown cores source = (4 * mib, 4)

abbrev pub side_row : Bool → EndpointKind → DeviceClass → ℕ → Bool → ℕ × ℕ
side_row true wsl_unc class cores source = (8 * mib, 32)
side_row true unc class cores source = (8 * mib, 16)
side_row true local class cores source = class_row class cores source
side_row false endpoint class cores source = class_row class cores source

unfoldable pub side_profile : DeviceInfo → DeviceClass → ℕ → Bool → SideProfile
side_profile info requested cores source =
    let class = if is_auto requested then detected_class info else requested in
    let (chunk, workers) = side_row (is_auto requested) info.endpoint class cores source in
    record {
      endpoint = info.endpoint;
      class = class;
      is_confident = not (is_auto requested) || info.high_confidence;
      chunk_bytes = chunk;
      workers = workers;
    }

abbrev pub with_threads : Option ℕ → SideProfile → SideProfile
with_threads none side = side
with_threads (some workers) side = record side { workers = workers }
