-- ===== src/Coordinator/Folders/Examples.antt =====
-- Two folders, with one file that has no outcome yet.
use bigcp.Base.{◌≡◌, none, List, [], ◌∷◌, err, arith}
use bigcp.Base.Bytes.{ascii}
use bigcp.Counters.{copied_new_file, skipped_same_file, zero_counters}
use bigcp.Coordinator.Folders.{folders_do_not_reconcile, reconcile_folders}
use bigcp.Coordinator.Folders.Tracks.{
  RunEvent, found, settled_in, account_run, reconcile_folders-account_run,
}

abbrev sample_events : List RunEvent
sample_events =
    found 4
    ∷ settled_in (ascii "photos") (copied_new_file 4 none)
    ∷ found 5
    ∷ found 6
    ∷ settled_in (ascii "music") (skipped_same_file 5)
    ∷ []

reconcile_folders-account_run_example :
    reconcile_folders
      (account_run sample_events ([], zero_counters)).0
      (account_run sample_events ([], zero_counters)).1
    ≡ err folders_do_not_reconcile
reconcile_folders-account_run_example =
    reconcile_folders-account_run sample_events (omega arith) (omega arith)
