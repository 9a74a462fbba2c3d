-- ===== src/Counters/Examples.antt =====
-- The theorem about reconciliation at a sample run.
use bigcp.Base.{◌≡◌, [], ◌∷◌, none, List, err, arith}
use bigcp.Counters.{copied_new_file, skipped_same_file, zero_counters, files_mismatch, reconcile}
use bigcp.Counters.Reconcile.{FileEvent, discovered, settled, account_all, reconcile-account_all}

abbrev sample_run : List FileEvent
sample_run =
    discovered 4
    ∷ settled (copied_new_file 4 none)
    ∷ discovered 5
    ∷ settled (skipped_same_file 5)
    ∷ discovered 6
    ∷ []

-- The outcome of the third file is missing.
reconcile-account_all_example :
    reconcile (account_all sample_run zero_counters) ≡ err (files_mismatch 3 2)
reconcile-account_all_example = reconcile-account_all sample_run (omega arith) (omega arith)
