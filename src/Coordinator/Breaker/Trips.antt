-- ===== src/Coordinator/Breaker/Trips.antt =====
-- When the breaker trips, and what the exit code says of a run.
use bigcp.Base.{
  ℕ, ◌+◌, ◌≤◌, ◌<◌, ◌≡◌, ◌↔◌, refl, sym, ap, ◌∙◌, All, ◌⊎◌, inl, inr, Bool, true, false, ◌||◌,
  Option, none, some, List, [], ◌∷◌, ◌++◌, arith, leb, is_some, Bool-cases, if◌then◌else◌,
}
use bigcp.Errors.{ErrorCategory}
use bigcp.Counters.{FileOutcome, copied_new_file, failed_file, zero_counters}
use bigcp.Coordinator.Breaker.{Run, is_fatal, aggregate_error, is_success, record_file}

-- What the coordinator reports: an error of a directory or a link, or the outcome of a file.
pub data Report : Type 0 where
  error_of : ErrorCategory → Report
  outcome_of : FileOutcome → Report

unfoldable pub report : Report → Run → Run
unfolding aggregate_error record_file
report (error_of category) run = aggregate_error category run
report (outcome_of outcome) run = record_file outcome run

unfoldable pub report_all : List Report → Run → Run
unfolding report
report_all [] run = run
report_all (r ∷ rs) run = report_all rs (report r run)

abbrev pub fresh_run : Run
fresh_run = record {
  counters = zero_counters;
  breaker = none;
  breaker_streak = 0;
  worker_cancel = false;
}

-- Whether a report is a failure of the device or for want of space.
abbrev pub is_strike : Report → Bool
is_strike (error_of category) = is_fatal category
is_strike (outcome_of (failed_file _ error)) = is_fatal error.category
is_strike (outcome_of _) = false

abbrev pub is_reset : Report → Bool
is_reset (error_of _) = false
is_reset (outcome_of outcome) = is_success outcome

-- The strikes since the last success, of which there were `n` before.
abbrev pub streak_of : ℕ → Report → ℕ
streak_of n r = if is_reset r then 0 else if is_strike r then n + 1 else n

abbrev reaches_threshold : ℕ → List Report → Bool
reaches_threshold n [] = false
reaches_threshold n (r ∷ rs) = leb 5 (streak_of n r) || reaches_threshold (streak_of n r) rs

-- One report to a run that has not tripped.
record Stepped (r : Report) (run next : Run) : Type 0 where
  tripped : is_some next.breaker ≡ leb 5 (streak_of run.breaker_streak r)
  streak : next.breaker_streak ≡ streak_of run.breaker_streak r

aggregate-Stepped :
    (category : ErrorCategory) (run : Run)
    → run.breaker ≡ none
    → run.breaker_streak < 5
    → Stepped (error_of category) run (aggregate_error category run)
unfolding aggregate_error
aggregate-Stepped category run e h = record { tripped = ground arith; streak = ground arith }

-- A success clears the streak, a failed file adds to it like any error.
report-Stepped :
    (r : Report) (run : Run)
    → run.breaker ≡ none
    → run.breaker_streak < 5
    → Stepped r run (report r run)
unfolding report
report-Stepped (error_of category) run e h = aggregate-Stepped category run e h
report-Stepped (outcome_of (failed_file _ error)) run e h =
    let a = aggregate-Stepped error.category run e h in
    record { tripped = a.tripped; streak = a.streak }
report-Stepped (outcome_of (copied_new_file _ _)) run e h = record {
  tripped = ap is_some e;
  streak = refl;
}
report-Stepped (outcome_of _) run e h = record { tripped = ground arith; streak = refl }

none_of : (b : Option ErrorCategory) → is_some b ≡ false → b ≡ none
none_of none e = refl
none_of (some c) e = absurd (cc)

-- Once tripped, the breaker stays.
report-stays :
    (r : Report) (run : Run) → is_some run.breaker ≡ true → is_some (report r run).breaker ≡ true
unfolding report
report-stays (error_of category) run e = ground arith
report-stays (outcome_of (failed_file _ error)) run e = ground arith
report-stays (outcome_of _) run e = e

report_all-stays :
    (rs : List Report) (run : Run)
    → is_some run.breaker ≡ true
    → is_some (report_all rs run).breaker ≡ true
unfolding report_all
report_all-stays [] run e = e
report_all-stays (r ∷ rs) run e = report_all-stays rs (report r run) (report-stays r run e)

report_all-reaches :
    (rs : List Report) (run : Run)
    → run.breaker ≡ none
    → run.breaker_streak < 5
    → is_some (report_all rs run).breaker ≡ reaches_threshold run.breaker_streak rs
unfolding report_all
report_all-reaches [] run e h = ap is_some e
report_all-reaches (r ∷ rs) run e h =
    let st = report-Stepped r run e h in
    elim (Bool-cases (leb 5 (streak_of run.breaker_streak r))) [
      | inl trips ↦ rw trips (report_all-stays rs (report r run) (st.tripped ∙ trips))
      | inr goes ↦
          rw (goes, ← st.streak)
            (report_all-reaches rs (report r run)
              (none_of (report r run).breaker (st.tripped ∙ goes))
              (ground (arith, goes, st.streak)))
    ]

abbrev pub strikes : List Report → ℕ
strikes [] = 0
strikes (r ∷ rs) = if is_strike r then strikes rs + 1 else strikes rs

-- Five strikes or more, with no success in between.
pub record IsBurst (rs : List Report) : Type 0 where
  pub before : List Report
  pub burst : List Report
  pub after : List Report
  pub split : rs ≡ before ++ (burst ++ after)
  pub no_success : All (λ r. is_reset r ≡ false) burst
  pub enough : 5 ≤ strikes burst

-- A start of the reports that completes a burst with the strikes before it.
record IsLead (n : ℕ) (rs : List Report) : Type 0 where
  lead : List Report
  others : List Report
  parts : rs ≡ lead ++ others
  quiet : All (λ r. is_reset r ≡ false) lead
  reached : 5 ≤ n + strikes lead

reaches→lead : (rs : List Report) (n : ℕ) → reaches_threshold n rs ≡ true → IsLead n rs ⊎ IsBurst rs
reaches→lead [] n h = absurd (cc)
reaches→lead (r ∷ rs) n h = elim (Bool-cases (is_reset r)) [
  | inl reset ↦ elim (reaches→lead rs 0 (let k = rw reset at h in k)) [
    | inl l ↦ inr (record {
      before = r ∷ [];
      burst = l.lead;
      after = l.others;
      split = ap (λ t. r ∷ t) l.parts;
      no_success = l.quiet;
      enough = omega (arith, l.reached);
    })
    | inr b ↦ inr (later b)
  ]
  | inr kept ↦ elim (Bool-cases (leb 5 (streak_of n r))) [
    | inl full ↦ inl (record {
      lead = r ∷ [];
      others = rs;
      parts = refl;
      quiet = (kept, tt);
      reached = ground (arith, kept, full);
    })
    | inr few ↦ elim (reaches→lead rs (streak_of n r) (let k = rw few at h in k)) [
      | inl l ↦ inl (record {
        lead = r ∷ l.lead;
        others = l.others;
        parts = ap (λ t. r ∷ t) l.parts;
        quiet = (kept, l.quiet);
        reached = ground (arith, kept, l.reached);
      })
      | inr b ↦ inr (later b)
    ]
  ]
]
  where
    later : IsBurst rs → IsBurst (r ∷ rs)
    later b = record {
      before = r ∷ b.before;
      burst = b.burst;
      after = b.after;
      split = ap (λ t. r ∷ t) b.split;
      no_success = b.no_success;
      enough = b.enough;
    }

lead→reaches :
    (lead others : List Report) (n : ℕ)
    → n < 5
    → All (λ r. is_reset r ≡ false) lead
    → 5 ≤ n + strikes lead
    → reaches_threshold n (lead ++ others) ≡ true
lead→reaches [] others n small quiet reached = absurd (omega arith)
lead→reaches (r ∷ lead) others n small quiet reached = elim (Bool-cases (leb 5 (streak_of n r))) [
  | inl full ↦ rw full refl
  | inr few ↦ rw few (
      lead→reaches lead others (streak_of n r) (ground (arith, few)) quiet.1
        (ground (arith, quiet.0, reached)))
]

burst→reaches :
    (before burst after : List Report) (n : ℕ)
    → n < 5
    → All (λ r. is_reset r ≡ false) burst
    → 5 ≤ strikes burst
    → reaches_threshold n (before ++ (burst ++ after)) ≡ true
burst→reaches [] burst after n small quiet enough =
    lead→reaches burst after n small quiet (omega arith)
burst→reaches (r ∷ before) burst after n small quiet enough =
    elim (Bool-cases (leb 5 (streak_of n r))) [
      | inl full ↦ rw full refl
      | inr few ↦
          rw few
            (burst→reaches before burst after (streak_of n r) (ground (arith, few)) quiet enough)
    ]

pub trips_iff : (rs : List Report) → (is_some (report_all rs fresh_run).breaker ≡ true) ↔ IsBurst rs
trips_iff rs =
    let same = report_all-reaches rs fresh_run refl (omega arith) in
    (
      λ tripped. elim (reaches→lead rs 0 (sym same ∙ tripped)) [
        | inl l ↦ record {
          before = [];
          burst = l.lead;
          after = l.others;
          split = l.parts;
          no_success = l.quiet;
          enough = omega (arith, l.reached);
        }
        | inr b ↦ b
      ],
      λ b.
          same
          ∙ rw b.split
              (burst→reaches b.before b.burst b.after 0 (omega arith) b.no_success b.enough),
    )
