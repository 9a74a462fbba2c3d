-- ===== src/Coordinator/Breaker/Examples.antt =====
-- A run in which the device goes away.
use bigcp.Base.{none, List, [], ◌∷◌, false, is_some}
use bigcp.Errors.{OperationError, device_gone, locked}
use bigcp.Counters.{skipped_same_file, failed_file}
use bigcp.Coordinator.Breaker.{completed_exit}
use bigcp.Coordinator.Breaker.Trips.{Report, error_of, outcome_of, report_all, fresh_run}
use bigcp.Coordinator.Breaker.Exit.{SaysWhy, completed_exit-SaysWhy}

abbrev gone : OperationError
gone = record {
  category = device_gone;
  operation = [];
  path_of = [];
  code = none;
  message = [];
  hint = "";
}

abbrev lost_device : List Report
lost_device =
    error_of device_gone
    ∷ outcome_of (skipped_same_file 3)
    ∷ outcome_of (failed_file 4 gone)
    ∷ error_of device_gone
    ∷ error_of locked
    ∷ outcome_of (failed_file 5 gone)
    ∷ error_of device_gone
    ∷ error_of device_gone
    ∷ []

completed_exit-SaysWhy_example : SaysWhy lost_device false none (
    completed_exit false
      (is_some (report_all lost_device fresh_run).breaker)
      (report_all lost_device fresh_run).counters
      none)
completed_exit-SaysWhy_example = completed_exit-SaysWhy lost_device false none
