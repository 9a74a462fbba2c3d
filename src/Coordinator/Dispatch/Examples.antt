-- ===== src/Coordinator/Dispatch/Examples.antt =====
-- A small file with a hidden stream below the threshold of checkpoints.
use bigcp.Base.{◌≡◌, refl, false, true, some, List, [], ◌∷◌}
use bigcp.Profile.Data.{standard, mib}
use bigcp.Engine.Routing.{StreamInfo, representable, largest_size, route_streams, is_promoted}
use bigcp.Coordinator.Dispatch.{
  DispatchFacts, WorkerDispatch, worker_dispatch, stays_inline, promote_threshold_of,
}
use bigcp.Coordinator.Dispatch.Safe.{dispatched-not_eligible}

abbrev small_file : DispatchFacts
small_file = record {
  transport = record { kind = standard; burst_bytes = mib };
  destination_is_wsl = false;
  stripe_source_reads = false;
  journal_available = true;
  unnamed_size = 300;
  large_threshold = 4000;
  checkpoint_threshold = 2000;
  preserve_sparse = false;
}

abbrev small_dispatch : WorkerDispatch
small_dispatch = record { promote_threshold = some 2000; directory_affine = true }

small_file-dispatched : worker_dispatch small_file ≡ some small_dispatch
unfolding worker_dispatch stays_inline promote_threshold_of
small_file-dispatched = refl

abbrev with_hidden_stream : List StreamInfo
with_hidden_stream =
    record { is_unnamed = true; size = 300 } ∷ record { is_unnamed = false; size = 1999 } ∷ []

small_file-kept :
    is_promoted small_dispatch.promote_threshold
      (route_streams with_hidden_stream 300 true true 2000)
    ≡ false
unfolding is_promoted route_streams representable largest_size
small_file-kept = refl

dispatched-not_eligible_example :
    (route_streams with_hidden_stream 300 true true 2000).checkpoint_eligible ≡ false
dispatched-not_eligible_example =
    dispatched-not_eligible small_file small_dispatch with_hidden_stream true small_file-dispatched
      small_file-kept
