-- ===== src/Coordinator/Folders/Tracks.antt =====
-- The folders together hold what the counters hold, field by field, also where sums saturate.
use bigcp.Base.{
  ℕ, suc, ◌+◌, ◌≤◌, min, ◌≡◌, refl, sym, subst, ◌∙◌, true, List, [], ◌∷◌, ok, err, arith, ◌==◌,
  Bool-cases, inl, inr, if◌then◌else◌,
}
use bigcp.Base.Bytes.{Bytes}
use bigcp.Base.TreeMap.{values, IsSorted, bytes_ord, insert-IsSorted}
use bigcp.Counters.{
  u64_max, saturating_add, FileOutcome, copied_new_file, Counters, zero_counters,
  note_file_discovered, apply_file, count_outcome,
}
use bigcp.Coordinator.Folders.{
  FolderSummary, empty_summary, count_folder, Folders, record_folder_outcome, add_summary,
  sum_summaries, totals_match, folders_do_not_reconcile, reconcile_folders,
}
use bigcp.Coordinator.Folders.Sums.{folder_sum, record_folder-Tracks}
use bigcp.Coordinator.Folders.Fields.{
  Field, news, replacements, sames, differents, repairs, failures, exclusions, unattempted,
  bytes_found, bytes_moved, summary_of, counter_of, grown, grown-counter, grown-summary,
}

-- What the coordinator does about files: a discovery, or an outcome under a folder.
pub data RunEvent : Type 0 where
  found : (bytes : ℕ) → RunEvent
  settled_in : (folder : Bytes) → FileOutcome → RunEvent

-- The folders and the counters of a `Runner`, and the part of `record_file` that accounts.
unfoldable pub account_run : List RunEvent → Folders × Counters → Folders × Counters
account_run [] state = state
account_run (found bytes ∷ events) (folders, c) =
    account_run events (folders, note_file_discovered bytes c)
account_run (settled_in folder outcome ∷ events) (folders, c) =
    account_run events (record_folder_outcome folder outcome folders, apply_file outcome c)

-- Every counter of outcomes is the sum over the folders.
pub record Tracked (events_settled : ℕ) (folders : Folders) (c : Counters) : Type 0 where
  pub sorted : IsSorted folders
  pub fields : (f : Field) → min (folder_sum (summary_of f) folders) u64_max ≡ counter_of f c
  pub files :
      min (folder_sum (λ s. s.files_discovered) folders) u64_max ≡ min events_settled u64_max

abbrev pub settlements : List RunEvent → ℕ
settlements [] = 0
settlements (found _ ∷ events) = settlements events
settlements (settled_in _ _ ∷ events) = suc (settlements events)

abbrev pub findings : List RunEvent → ℕ
findings [] = 0
findings (found _ ∷ events) = suc (findings events)
findings (settled_in _ _ ∷ events) = findings events

count_folder-files :
    (outcome : FileOutcome) (s : FolderSummary)
    → min (count_folder outcome s).files_discovered u64_max ≡ saturating_add s.files_discovered 1
unfolding count_folder
count_folder-files (copied_new_file _ _) s = omega arith
count_folder-files _ s = omega arith

empty-field : (f : Field) → summary_of f empty_summary ≡ 0
empty-field news = refl
empty-field _ = refl

found-field :
    (f : Field) (bytes : ℕ) (c : Counters)
    → counter_of f (note_file_discovered bytes c) ≡ counter_of f c
unfolding note_file_discovered
found-field news bytes c = refl
found-field _ bytes c = refl

record-Tracked :
    (n : ℕ) (folder : Bytes) (outcome : FileOutcome) (folders : Folders) (c : Counters)
    → Tracked n folders c
    → Tracked (suc n) (record_folder_outcome folder outcome folders) (apply_file outcome c)
record-Tracked n folder outcome folders c t = record {
  sorted = unfold record_folder_outcome in insert-IsSorted folder _ folders t.sorted;
  fields = λ f.
      record_folder-Tracks (summary_of f) folder outcome (counter_of f c) (grown f outcome) folders
        t.sorted (empty-field f) (grown-summary f outcome) (t.fields f)
      ∙ sym (grown-counter f outcome c (omega (arith, t.fields f)));
  files =
      record_folder-Tracks (λ s. s.files_discovered) folder outcome (min n u64_max) 1 folders
        t.sorted refl (count_folder-files outcome) t.files
      ∙ omega arith;
}

account_run-Tracked :
    (events : List RunEvent) (n : ℕ) (folders : Folders) (c : Counters)
    → Tracked n folders c
    → Tracked
        (n + settlements events)
        (account_run events (folders, c)).0
        (account_run events (folders, c)).1
unfolding account_run
account_run-Tracked [] n folders c t = subst (λ (m : ℕ). Tracked m folders c) (omega arith) t
account_run-Tracked (found bytes ∷ events) n folders c t =
    account_run-Tracked events n folders _ (record {
      sorted = t.sorted;
      fields = λ f. t.fields f ∙ sym (found-field f bytes c);
      files = t.files;
    })
account_run-Tracked (settled_in folder outcome ∷ events) n folders c t =
    let rest =
      account_run-Tracked events (suc n) _ _ (record-Tracked n folder outcome folders c t) in
    subst
      (λ (m : ℕ).
        Tracked m (account_run (settled_in folder outcome ∷ events) (folders, c)).0
          (account_run (settled_in folder outcome ∷ events) (folders, c)).1)
      (omega arith) rest

apply_file-discovered :
    (outcome : FileOutcome) (c : Counters)
    → (apply_file outcome c).files_discovered ≡ c.files_discovered
unfolding apply_file count_outcome
apply_file-discovered (copied_new_file _ _) c = refl
apply_file-discovered _ c = refl

account_run-discovered :
    (events : List RunEvent) (folders : Folders) (c : Counters)
    → c.files_discovered ≤ u64_max
    → (account_run events (folders, c)).1.files_discovered
      ≡ min (c.files_discovered + findings events) u64_max
unfolding account_run note_file_discovered
account_run-discovered [] folders c h = omega arith
account_run-discovered (found bytes ∷ events) folders c h =
    account_run-discovered events folders (note_file_discovered bytes c) (omega arith) ∙ omega arith
account_run-discovered (settled_in folder outcome ∷ events) folders c h =
    let same = apply_file-discovered outcome c in
    account_run-discovered events _ (apply_file outcome c) (omega arith) ∙ omega arith

-- The loop over the folders sums every field, saturated.
add_summary-field :
    (f : Field) (total s : FolderSummary)
    → summary_of f (add_summary total s) ≡ saturating_add (summary_of f total) (summary_of f s)
unfolding add_summary
add_summary-field news total s = refl
add_summary-field _ total s = refl

sum_summaries-field :
    (field : FolderSummary → ℕ) (m : Folders) (total : FolderSummary)
    → ((t s : FolderSummary) → field (add_summary t s) ≡ saturating_add (field t) (field s))
    → field total ≤ u64_max
    → field (sum_summaries total (values m)) ≡ min (field total + folder_sum field m) u64_max
unfolding sum_summaries folder_sum
sum_summaries-field field [] total adds h = omega arith
sum_summaries-field field ((j, s) ∷ m) total adds h =
    let added = adds total s in
    sum_summaries-field field m (add_summary total s) adds (omega arith) ∙ omega arith

add_summary-files :
    (total s : FolderSummary)
    → (add_summary total s).files_discovered
      ≡ saturating_add total.files_discovered s.files_discovered
unfolding add_summary
add_summary-files total s = refl

eq_test : (a b : ℕ) → a ≡ b → (a == b) ≡ true
eq_test a b e = ground arith

module _ (folders : Folders) (c : Counters) (n : ℕ) (t : Tracked n folders c) where
  field_matches :
      (f : Field)
      → (summary_of f (sum_summaries empty_summary (values folders)) == counter_of f c) ≡ true
  field_matches f =
      let zero_field = empty-field f in
      let summed =
        sum_summaries-field (summary_of f) folders empty_summary (add_summary-field f)
          (omega arith) in
      eq_test _ _ (omega (arith, t.fields f))

  reconcile_folders-Tracked :
      reconcile_folders folders c
      ≡ (if min n u64_max == c.files_discovered then ok tt else err folders_do_not_reconcile)
  unfolding reconcile_folders totals_match
  reconcile_folders-Tracked =
      let total = sum_summaries empty_summary (values folders) in
      let summed =
        sum_summaries-field (λ s. s.files_discovered) folders empty_summary add_summary-files
          (omega arith) in
      let files : total.files_discovered ≡ min n u64_max = omega (arith, summed, t.files) in
      rw
        (
          files,
          field_matches news,
          field_matches replacements,
          field_matches sames,
          field_matches differents,
          field_matches repairs,
          field_matches failures,
          field_matches exclusions,
          field_matches unattempted,
          field_matches bytes_found,
          field_matches bytes_moved,
        )
        (elim (Bool-cases (min n u64_max == c.files_discovered)) [
          | inl same ↦ rw same refl
          | inr differ ↦ rw differ refl
        ])

start-field : (f : Field) → min (folder_sum (summary_of f) []) u64_max ≡ counter_of f zero_counters
unfolding folder_sum
start-field news = refl
start-field _ = refl

-- Whatever files are discovered and settled, under whatever folders and in whatever order, fewer than
-- 2 ^ 64 of each: the summaries of the folders reconcile with the counters exactly if there were as
-- many outcomes as discoveries, also where sums of bytes saturate.
pub reconcile_folders-account_run :
    (events : List RunEvent)
    → settlements events ≤ u64_max
    → findings events ≤ u64_max
    → reconcile_folders
        (account_run events ([], zero_counters)).0
        (account_run events ([], zero_counters)).1
      ≡ (if settlements events == findings events then ok tt else err folders_do_not_reconcile)
reconcile_folders-account_run events hs hf =
    let start : Tracked 0 [] zero_counters = record {
      sorted = tt;
      fields = start-field;
      files = unfold folder_sum in refl;
    } in
    let t = account_run-Tracked events 0 [] zero_counters start in
    let settled : min (0 + settlements events) u64_max ≡ settlements events = omega arith in
    let discovered : (account_run events ([], zero_counters)).1.files_discovered ≡ findings events =
      account_run-discovered events [] zero_counters (omega arith) ∙ omega arith in
    reconcile_folders-Tracked _ _ _ t ∙ rw (settled, discovered) refl
