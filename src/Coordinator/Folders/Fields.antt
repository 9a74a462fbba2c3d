-- ===== src/Coordinator/Folders/Fields.antt =====
-- The fields of a summary with their counters, and how an outcome grows both.
use bigcp.Base.{ℕ, ◌≤◌, min, ◌≡◌, arith}
use bigcp.Base.TreeMap.{bytes_ord}
use bigcp.Counters.{u64_max, saturating_add, FileOutcome, copied_new_file, Counters, apply_file}
use bigcp.Coordinator.Folders.{FolderSummary, empty_summary, count_folder}

-- The fields but `files_discovered`, each with its counter.
pub data Field : Type 0 where
  news replacements sames differents repairs failures exclusions unattempted : Field
  bytes_found bytes_moved : Field

abbrev pub summary_of : Field → FolderSummary → ℕ
summary_of news s = s.copied_new
summary_of replacements s = s.copied_replaced
summary_of sames s = s.skipped_same
summary_of differents s = s.skipped_diff
summary_of repairs s = s.meta_fixed
summary_of failures s = s.failed
summary_of exclusions s = s.excluded
summary_of unattempted s = s.not_attempted
summary_of bytes_found s = s.logical_bytes_discovered
summary_of bytes_moved s = s.logical_bytes_copied

abbrev pub counter_of : Field → Counters → ℕ
counter_of news c = c.copied_new
counter_of replacements c = c.copied_replaced
counter_of sames c = c.skipped_same
counter_of differents c = c.skipped_diff
counter_of repairs c = c.meta_fixed
counter_of failures c = c.failed
counter_of exclusions c = c.excluded
counter_of unattempted c = c.not_attempted
counter_of bytes_found c = c.bytes_logical_discovered
counter_of bytes_moved c = c.bytes_logical_copied

-- By how much an outcome grows a field.
unfoldable pub grown : Field → FileOutcome → ℕ
unfolding count_folder
grown f outcome = summary_of f (count_folder outcome empty_summary)

pub grown-counter :
    (f : Field) (outcome : FileOutcome) (c : Counters)
    → counter_of f c ≤ u64_max
    → counter_of f (apply_file outcome c) ≡ saturating_add (counter_of f c) (grown f outcome)
unfolding grown apply_file
grown-counter news (copied_new_file _ _) c h = omega arith
grown-counter news _ c h = omega arith
grown-counter replacements (copied_new_file _ _) c h = omega arith
grown-counter replacements _ c h = omega arith
grown-counter sames (copied_new_file _ _) c h = omega arith
grown-counter sames _ c h = omega arith
grown-counter differents (copied_new_file _ _) c h = omega arith
grown-counter differents _ c h = omega arith
grown-counter repairs (copied_new_file _ _) c h = omega arith
grown-counter repairs _ c h = omega arith
grown-counter failures (copied_new_file _ _) c h = omega arith
grown-counter failures _ c h = omega arith
grown-counter exclusions (copied_new_file _ _) c h = omega arith
grown-counter exclusions _ c h = omega arith
grown-counter unattempted (copied_new_file _ _) c h = omega arith
grown-counter unattempted _ c h = omega arith
grown-counter bytes_found (copied_new_file _ _) c h = omega arith
grown-counter bytes_found _ c h = omega arith
grown-counter bytes_moved (copied_new_file _ _) c h = omega arith
grown-counter bytes_moved _ c h = omega arith

pub grown-summary :
    (f : Field) (outcome : FileOutcome) (s : FolderSummary)
    → min (summary_of f (count_folder outcome s)) u64_max
      ≡ saturating_add (summary_of f s) (grown f outcome)
unfolding grown count_folder
grown-summary news (copied_new_file _ _) s = omega arith
grown-summary news _ s = omega arith
grown-summary replacements (copied_new_file _ _) s = omega arith
grown-summary replacements _ s = omega arith
grown-summary sames (copied_new_file _ _) s = omega arith
grown-summary sames _ s = omega arith
grown-summary differents (copied_new_file _ _) s = omega arith
grown-summary differents _ s = omega arith
grown-summary repairs (copied_new_file _ _) s = omega arith
grown-summary repairs _ s = omega arith
grown-summary failures (copied_new_file _ _) s = omega arith
grown-summary failures _ s = omega arith
grown-summary exclusions (copied_new_file _ _) s = omega arith
grown-summary exclusions _ s = omega arith
grown-summary unattempted (copied_new_file _ _) s = omega arith
grown-summary unattempted _ s = omega arith
grown-summary bytes_found (copied_new_file _ _) s = omega arith
grown-summary bytes_found _ s = omega arith
grown-summary bytes_moved (copied_new_file _ _) s = omega arith
grown-summary bytes_moved _ s = omega arith
