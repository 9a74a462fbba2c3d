-- ===== src/Profile/Data.antt =====
-- The options, the facts about devices, the profiles, and the refusals.
use bigcp.Base.{ℕ, ◌*◌, Bool, true, false, Option, List}
use bigcp.Win.Types.{EndpointKind, wsl_unc}

pub data DeviceClass : Type 0 where
  auto nvme sata_ssd usb_ssd hdd unknown : DeviceClass

pub data DeviceBus : Type 0 where
  nvme_bus sata_bus usb_bus other_bus : DeviceBus

pub record TuneOptions : Type 0 where
  pub chunk_bytes : Option ℕ
  pub threads : Option ℕ
  pub memory_bytes : Option ℕ
  pub large_threshold : Option ℕ
  pub checkpoint_threshold : Option ℕ
  pub same_spindle_burst_bytes : Option ℕ

pub record DeviceInfo : Type 0 where
  pub endpoint : EndpointKind
  pub disk_numbers : List ℕ
  pub incurs_seek_penalty : Option Bool
  pub bus : Option DeviceBus
  pub maximum_transfer_length : Option ℕ
  pub logical_sector : Option ℕ
  pub physical_sector : Option ℕ
  pub write_cache_enabled : Option Bool
  pub high_confidence : Bool

pub data TransportKind : Type 0 where
  standard redirector_pipeline wsl_pipeline same_spindle_phases : TransportKind

pub record TransportProfile : Type 0 where
  pub kind : TransportKind
  pub burst_bytes : ℕ

pub record SideProfile : Type 0 where
  pub endpoint : EndpointKind
  pub class : DeviceClass
  pub is_confident : Bool  -- whether `confidence` is "high"
  pub chunk_bytes : ℕ
  pub workers : ℕ

pub record CopyProfile : Type 0 where
  pub source : SideProfile
  pub destination : SideProfile
  pub chunk_bytes : ℕ
  pub workers : ℕ
  pub same_physical_disk : Bool
  pub transport : TransportProfile

-- The messages of `BigcpError::Invalid`, with the numbers that they print.
pub data Refusal : Type 0 where
  worker_count chunk_size memory_budget threshold_zero checkpoint_zero burst_size : Refusal
  threshold_too_large zero_chunk spindle_threads : Refusal
  no_room_for_chunks : (memory threshold buffers : ℕ) → Refusal
  no_room_for_worker : (memory buffers chunk worker : ℕ) → Refusal
  burst_too_small : (burst minimum : ℕ) → Refusal

abbrev pub mib : ℕ
mib = 1024 * 1024

abbrev pub min_chunk_bytes : ℕ
min_chunk_bytes = 64 * 1024

abbrev pub max_chunk_bytes : ℕ
max_chunk_bytes = 64 * mib

abbrev pub default_burst_bytes : ℕ
default_burst_bytes = 256 * mib

abbrev pub pipeline_buffers : ℕ
pipeline_buffers = 2

abbrev pub local_pipeline_buffers : ℕ
local_pipeline_buffers = 3

abbrev pub default_large_threshold : ℕ
default_large_threshold = 16 * mib

abbrev pub is_auto : DeviceClass → Bool
is_auto auto = true
is_auto _ = false

abbrev pub is_hdd : DeviceClass → Bool
is_hdd hdd = true
is_hdd _ = false

abbrev pub is_wsl : EndpointKind → Bool
is_wsl wsl_unc = true
is_wsl _ = false
