-- ===== src/Coordinator/Breaker/Exit.antt =====
-- What the exit code says of a run.
use bigcp.Base.{
  ℕ, ◌<◌, ◌≡◌, ◌↔◌, refl, sym, ◌∙◌, All, ◌⊎◌, inl, inr, Bool, true, false, Option, none, some, List,
  [], ◌∷◌, arith, is_some, Bool-cases,
}
use bigcp.Counters.{copied_new_file, failed_file, Counters, apply_file, count_outcome}
use bigcp.Coordinator.Breaker.{Run, aggregate_error, record_file, completed_exit}
use bigcp.Coordinator.Breaker.Trips.{
  Report, error_of, outcome_of, report, report_all, fresh_run, IsBurst, trips_iff,
}

abbrev pub is_failure : Report → Bool
is_failure (outcome_of (failed_file _ _)) = true
is_failure (outcome_of _) = false
is_failure (error_of _) = false

-- A failed file is counted, and stays counted.
report-failed :
    (r : Report) (run : Run)
    → (0 < run.counters.failed) ⊎ (is_failure r ≡ true)
    → 0 < (report r run).counters.failed
unfolding report aggregate_error record_file apply_file count_outcome
report-failed (error_of category) run h = ground arith
report-failed (outcome_of (failed_file _ error)) run h = ground arith
report-failed (outcome_of (copied_new_file _ _)) run h = ground arith
report-failed (outcome_of _) run h = ground arith

report_all-failed :
    (rs : List Report) (run : Run)
    → 0 < run.counters.failed
    → 0 < (report_all rs run).counters.failed
unfolding report_all
report_all-failed [] run h = h
report_all-failed (r ∷ rs) run h = report_all-failed rs (report r run) (report-failed r run (inl h))

report_all-clean :
    (rs : List Report) (run : Run)
    → (report_all rs run).counters.failed ≡ 0
    → All (λ r. is_failure r ≡ false) rs
unfolding report_all
report_all-clean [] run e = tt
report_all-clean (r ∷ rs) run e = (
  (elim (Bool-cases (is_failure r)) [
    | inl fails ↦
        absurd
          (omega (arith, e, report_all-failed rs (report r run) (report-failed r run (inr fails))))
    | inr fine ↦ fine
  ]),
  report_all-clean rs (report r run) e,
)

abbrev pub NoneFailed : Option ℕ → Type 0
NoneFailed none = Unit
NoneFailed (some failed) = failed ≡ 0

pub record SaysWhy (rs : List Report) (canceled : Bool) (verification : Option ℕ) (code : ℕ)
    : Type 0 where
  pub four : (code ≡ 4) ↔ IsBurst rs
  pub three : code ≡ 3 → (canceled ≡ true) × ¬ IsBurst rs
  pub clean :
      code ≡ 0 → (canceled ≡ false) × All (λ r. is_failure r ≡ false) rs × NoneFailed verification

module _ (canceled : Bool) (c : Counters) (verification : Option ℕ) where
  exit_tripped :
      (tripped : Bool) → (completed_exit canceled tripped c verification ≡ 4) ↔ (tripped ≡ true)
  unfolding completed_exit
  exit_tripped true = (λ _. refl, λ _. refl)
  exit_tripped false = (λ e. ground (arith, e), λ e. absurd (cc))

  exit_canceled :
      (tripped : Bool)
      → completed_exit canceled tripped c verification ≡ 3
      → (canceled ≡ true) × (tripped ≡ false)
  unfolding completed_exit
  exit_canceled true e = absurd (cc)
  exit_canceled false e = (ground (arith, e), refl)

exit_zero :
    (canceled tripped : Bool) (c : Counters) (verification : Option ℕ)
    → completed_exit canceled tripped c verification ≡ 0
    → (canceled ≡ false) × (c.failed ≡ 0) × NoneFailed verification
unfolding completed_exit
exit_zero canceled true c verification e = absurd (cc)
exit_zero true false c verification e = absurd (cc)
exit_zero false false c none e = (refl, ground (arith, e), tt)
exit_zero false false c (some n) e = (refl, ground (arith, e), ground (arith, e))

-- Whatever errors and outcomes a run reports: its exit code is 4 exactly if five failures of the device
-- or for want of space came with no success in between. It is 3 only if the run was canceled and that
-- did not happen, and 0 only if the run was not canceled, no file failed, and no object failed in a
-- verification.
pub completed_exit-SaysWhy :
    (rs : List Report) (canceled : Bool) (verification : Option ℕ)
    → SaysWhy rs canceled verification (
        completed_exit canceled
          (is_some (report_all rs fresh_run).breaker)
          (report_all rs fresh_run).counters
          verification)
completed_exit-SaysWhy rs canceled verification =
    let run = report_all rs fresh_run in
    let tripped = is_some run.breaker in
    let four = exit_tripped canceled run.counters verification tripped in
    record {
      four = (λ e. (trips_iff rs).0 (four.0 e), λ b. four.1 ((trips_iff rs).1 b));
      three = λ e.
          let (was_canceled, untripped) =
            exit_canceled canceled run.counters verification tripped e in
          (was_canceled, λ b. let bad = sym untripped ∙ (trips_iff rs).1 b in cc);
      clean = λ e.
          let (on, none_failed, verified) =
            exit_zero canceled tripped run.counters verification e in
          (on, report_all-clean rs fresh_run none_failed, verified);
    }
