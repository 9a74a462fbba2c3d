-- ===== src/Coordinator/Folders.antt =====
-- `record_folder_outcome` and `reconcile_folders` of copy.rs, with `FolderSummary` of report.rs. A
-- folder is the top-level component of a path, as bytes.
pub mod Sums
pub mod Fields
pub mod Tracks
mod Examples
use bigcp.Base.{
  ℕ, ◌+◌, Bool, true, false, ◌&&◌, Option, none, some, List, [], ◌∷◌, Outcome, ok, err, ◌==◌,
  if◌then◌else◌,
}
use bigcp.Base.Bytes.{Bytes}
use bigcp.Base.TreeMap.{TreeMap, values, bytes_ord, get, insert}
use bigcp.Counters.{
  saturating_add, FileOutcome, copied_new_file, copied_replaced_file, skipped_same_file,
  skipped_different_file, metadata_fixed_file, failed_file, excluded_file, not_attempted_file,
  outcome_bytes, Counters, apply_file, note_file_discovered,
}

pub record FolderSummary : Type 0 where
  pub files_discovered : ℕ
  pub copied_new : ℕ
  pub copied_replaced : ℕ
  pub skipped_same : ℕ
  pub skipped_diff : ℕ
  pub meta_fixed : ℕ
  pub failed : ℕ
  pub excluded : ℕ
  pub not_attempted : ℕ
  pub logical_bytes_discovered : ℕ
  pub logical_bytes_copied : ℕ

-- `FolderSummary::default`
abbrev pub empty_summary : FolderSummary
empty_summary = record {
  files_discovered = 0;
  copied_new = 0;
  copied_replaced = 0;
  skipped_same = 0;
  skipped_diff = 0;
  meta_fixed = 0;
  failed = 0;
  excluded = 0;
  not_attempted = 0;
  logical_bytes_discovered = 0;
  logical_bytes_copied = 0;
}

-- The `match` of `record_folder_outcome`.
unfoldable pub match_outcome : FileOutcome → FolderSummary → FolderSummary
match_outcome (copied_new_file bytes _) s = record s {
  copied_new = saturating_add s.copied_new 1;
  logical_bytes_copied = saturating_add s.logical_bytes_copied bytes;
}
match_outcome (copied_replaced_file bytes _ _ _ _ _) s = record s {
  copied_replaced = saturating_add s.copied_replaced 1;
  logical_bytes_copied = saturating_add s.logical_bytes_copied bytes;
}
match_outcome (skipped_same_file _) s = record s { skipped_same = saturating_add s.skipped_same 1 }
match_outcome (skipped_different_file _ _ _ _ _) s = record s {
  skipped_diff = saturating_add s.skipped_diff 1;
}
match_outcome (metadata_fixed_file _) s = record s { meta_fixed = saturating_add s.meta_fixed 1 }
match_outcome (failed_file _ _) s = record s { failed = saturating_add s.failed 1 }
match_outcome (excluded_file _ _) s = record s { excluded = saturating_add s.excluded 1 }
match_outcome (not_attempted_file _ _) s = record s {
  not_attempted = saturating_add s.not_attempted 1;
}

unfoldable pub count_folder : FileOutcome → FolderSummary → FolderSummary
unfolding match_outcome
count_folder outcome s =
    let matched =
      match_outcome outcome (record s { files_discovered = saturating_add s.files_discovered 1 }) in
    record matched {
      logical_bytes_discovered =
          saturating_add matched.logical_bytes_discovered (outcome_bytes outcome);
    }

abbrev pub Folders : Type 0
Folders = TreeMap Bytes FolderSummary

-- `entry(folder).or_default()`
abbrev pub or_default : Option FolderSummary → FolderSummary
or_default none = empty_summary
or_default (some s) = s

unfoldable pub record_folder_outcome : Bytes → FileOutcome → Folders → Folders
record_folder_outcome folder outcome folders =
    insert folder (count_folder outcome (or_default (get folder folders))) folders

-- One round of the sum of `reconcile_folders`.
unfoldable pub add_summary : FolderSummary → FolderSummary → FolderSummary
add_summary total s = record {
  files_discovered = saturating_add total.files_discovered s.files_discovered;
  copied_new = saturating_add total.copied_new s.copied_new;
  copied_replaced = saturating_add total.copied_replaced s.copied_replaced;
  skipped_same = saturating_add total.skipped_same s.skipped_same;
  skipped_diff = saturating_add total.skipped_diff s.skipped_diff;
  meta_fixed = saturating_add total.meta_fixed s.meta_fixed;
  failed = saturating_add total.failed s.failed;
  excluded = saturating_add total.excluded s.excluded;
  not_attempted = saturating_add total.not_attempted s.not_attempted;
  logical_bytes_discovered =
      saturating_add total.logical_bytes_discovered s.logical_bytes_discovered;
  logical_bytes_copied = saturating_add total.logical_bytes_copied s.logical_bytes_copied;
}

unfoldable pub sum_summaries : FolderSummary → List FolderSummary → FolderSummary
unfolding add_summary
sum_summaries total [] = total
sum_summaries total (s ∷ rest) = sum_summaries (add_summary total s) rest

unfoldable pub totals_match : FolderSummary → Counters → Bool
totals_match total c =
    (total.files_discovered == c.files_discovered)
    && (total.copied_new == c.copied_new)
    && (total.copied_replaced == c.copied_replaced)
    && (total.skipped_same == c.skipped_same)
    && (total.skipped_diff == c.skipped_diff)
    && (total.meta_fixed == c.meta_fixed)
    && (total.failed == c.failed)
    && (total.excluded == c.excluded)
    && (total.not_attempted == c.not_attempted)
    && (total.logical_bytes_discovered == c.bytes_logical_discovered)
    && (total.logical_bytes_copied == c.bytes_logical_copied)

-- The one message of a failure.
pub data FolderMismatch : Type 0 where
  folders_do_not_reconcile : FolderMismatch

unfoldable pub reconcile_folders : Folders → Counters → Outcome FolderMismatch (Unit {0})
unfolding sum_summaries totals_match
reconcile_folders folders c =
    if totals_match (sum_summaries empty_summary (values folders)) c
    then ok tt
    else err folders_do_not_reconcile
