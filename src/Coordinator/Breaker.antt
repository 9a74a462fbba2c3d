-- ===== src/Coordinator/Breaker.antt =====
-- The breaker of copy.rs, in `aggregate_error` and `record_file`, and `completed_exit`.
pub mod Trips
pub mod Exit
mod Examples
use bigcp.Base.{
  ℕ, ◌+◌, ◌-◌, ◌^◌, min, Bool, true, false, not, ◌&&◌, ◌||◌, Option, none, some, List, [], ◌∷◌, ltb,
  leb, is_some, if◌then◌else◌,
}
use bigcp.Errors.{ErrorCategory, space, device_gone}
use bigcp.Counters.{
  FileOutcome, copied_new_file, copied_replaced_file, skipped_same_file, skipped_different_file,
  metadata_fixed_file, failed_file, excluded_file, not_attempted_file, Counters, apply_file,
}

abbrev pub breaker_threshold : ℕ
breaker_threshold = 5

-- A `u32` that saturates.
abbrev pub add_one_u32 : ℕ → ℕ
add_one_u32 n = min (n + 1) (2 ^ 32 - 1)

-- The fields of `Runner` that the breaker and the exit code read.
pub record Run : Type 0 where
  pub counters : Counters
  pub breaker : Option ErrorCategory
  pub breaker_streak : ℕ
  pub worker_cancel : Bool

abbrev pub is_fatal : ErrorCategory → Bool
is_fatal device_gone = true
is_fatal space = true
is_fatal _ = false

unfoldable pub trip : ErrorCategory → Run → Run
trip category run =
    if leb breaker_threshold run.breaker_streak && not (is_some run.breaker)
    then record run { breaker = some category; worker_cancel = true }
    else run

-- The part of `aggregate_error` above the summaries.
unfoldable pub aggregate_error : ErrorCategory → Run → Run
unfolding trip
aggregate_error category run =
    if is_fatal category
    then trip category (record run { breaker_streak = add_one_u32 run.breaker_streak })
    else run

-- The outcomes that reset the streak.
abbrev pub is_success : FileOutcome → Bool
is_success (copied_new_file _ _) = true
is_success (copied_replaced_file _ _ _ _ _ _) = true
is_success (skipped_same_file _) = true
is_success (skipped_different_file _ _ _ _ _) = true
is_success (metadata_fixed_file _) = true
is_success (failed_file _ _) = false
is_success (excluded_file _ _) = false
is_success (not_attempted_file _ _) = false

unfoldable pub aggregate_failure : FileOutcome → Run → Run
aggregate_failure (failed_file _ error) run = aggregate_error error.category run
aggregate_failure _ run = run

unfoldable pub record_file : FileOutcome → Run → Run
unfolding aggregate_failure
record_file outcome run =
    let reset = if is_success outcome then record run { breaker_streak = 0 } else run in
    let aggregated = aggregate_failure outcome reset in
    record aggregated { counters = apply_file outcome aggregated.counters }

-- The exit code; of a verification only the number of failures is read.
unfoldable pub completed_exit : Bool → Bool → Counters → Option ℕ → ℕ
completed_exit canceled breaker_tripped counters verification =
    if breaker_tripped
    then 4
    else if canceled
    then 3
    else if ltb 0 counters.failed
        || ltb 0 counters.dirs_failed
        || ltb 0 counters.dirs_meta_failed
        || ltb 0 counters.links_failed
        || elim verification [ none ↦ false | some failed ↦ ltb 0 failed ]
    then 2
    else 0
