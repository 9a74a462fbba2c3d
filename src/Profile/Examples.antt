-- ===== src/Profile/Examples.antt =====
-- The theorem about the memory budget, at two local solid-state disks and a budget of 100 MiB.
use bigcp.Base.{◌≡◌, refl, some, none, true, false, [], ◌∷◌, ok, arith, ◌*◌}
use bigcp.Win.Types.{local}
use bigcp.Profile.Data.{
  auto, nvme_bus, TuneOptions, DeviceInfo, CopyProfile, nvme, standard, mib,
  default_large_threshold,
}
use bigcp.Profile.Sides.{unwrap_or, side_profile, with_threads, validate_tuning, detected_class}
use bigcp.Profile.Choice.{
  topology, select_copy_profile, compose, cap_chunk, worker_budget, choose_transport,
}
use bigcp.Profile.Budget.{IsWithinBudget, select-IsWithinBudget}

abbrev disk : DeviceInfo
disk = record {
  endpoint = local;
  disk_numbers = 0 ∷ [];
  incurs_seek_penalty = some false;
  bus = some nvme_bus;
  maximum_transfer_length = none;
  logical_sector = none;
  physical_sector = none;
  write_cache_enabled = none;
  high_confidence = true;
}

abbrev budget : TuneOptions
budget = record {
  chunk_bytes = none;
  threads = none;
  memory_bytes = some (100 * mib);
  large_threshold = none;
  checkpoint_threshold = none;
  same_spindle_burst_bytes = none;
}

abbrev chosen : CopyProfile
chosen = record {
  source = record {
    endpoint = local;
    class = nvme;
    is_confident = true;
    chunk_bytes = 16 * mib;
    workers = 3;
  };
  destination = record {
    endpoint = local;
    class = nvme;
    is_confident = true;
    chunk_bytes = 16 * mib;
    workers = 3;
  };
  chunk_bytes = 16 * mib;
  workers = 3;
  same_physical_disk = true;
  transport = record { kind = standard; burst_bytes = 16 * mib };
}

is_chosen : select_copy_profile 8 disk disk auto auto budget ≡ ok chosen
unfolding select_copy_profile compose validate_tuning cap_chunk worker_budget choose_transport
    side_profile detected_class
is_chosen = refl

select-IsWithinBudget_example :
    IsWithinBudget
      (100 * mib)
      (unwrap_or default_large_threshold none)
      (topology budget disk disk
        (with_threads none (side_profile disk auto 8 true))
        (with_threads none (side_profile disk auto 8 false)))
      chosen
select-IsWithinBudget_example =
    select-IsWithinBudget 8 disk disk auto auto budget (100 * mib) chosen refl (omega arith)
      is_chosen
