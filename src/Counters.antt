-- ===== src/Counters.antt =====
-- crates/core/src/model.rs: the terminal outcomes of files and the counters that account for them.
pub mod Reconcile
mod Examples
use bigcp.Base.{
  ℕ, ◌+◌, ◌-◌, ◌^◌, min, Bool, not, Option, List, [], ◌∷◌, Outcome, ok, err, ltb, ◌==◌,
  if◌then◌else◌,
}
use bigcp.Base.Bytes.{Bytes}
use bigcp.Base.Int.{ℤ}
use bigcp.Errors.{OperationError}

abbrev pub u64_max : ℕ
u64_max = 2 ^ 64 - 1

-- `u64::saturating_add`
abbrev pub saturating_add : ℕ → ℕ → ℕ
saturating_add a b = min (a + b) u64_max

pub data FileOutcome : Type 0 where
  copied_new_file : (bytes : ℕ) (digest : Option Bytes) → FileOutcome
  copied_replaced_file :
      (bytes : ℕ) (digest : Option Bytes) (destination_newer : Bool) (old_size : ℕ) (old_mtime : ℤ)
      (old_attributes : ℕ)
      → FileOutcome
  skipped_same_file : (bytes : ℕ) → FileOutcome
  skipped_different_file :
      (bytes : ℕ) (destination_newer : Bool) (old_size : ℕ) (old_mtime : ℤ) (old_attributes : ℕ)
      → FileOutcome
  metadata_fixed_file : (bytes : ℕ) → FileOutcome
  failed_file : (bytes : ℕ) (error : OperationError) → FileOutcome
  excluded_file : (bytes : ℕ) (reason : Bytes) → FileOutcome
  not_attempted_file : (bytes : ℕ) (reason : Bytes) → FileOutcome

pub record Counters : Type 0 where
  pub files_discovered : ℕ
  pub copied_new : ℕ
  pub copied_replaced : ℕ
  pub skipped_same : ℕ
  pub skipped_diff : ℕ
  pub meta_fixed : ℕ
  pub failed : ℕ
  pub excluded : ℕ
  pub not_attempted : ℕ
  pub would_copy_new : ℕ
  pub would_copy_replaced : ℕ
  pub would_meta_fix : ℕ
  pub extra : ℕ
  pub dirs_discovered : ℕ
  pub dir_done : ℕ
  pub dirs_meta_failed : ℕ
  pub dirs_failed : ℕ
  pub dirs_excluded : ℕ
  pub dirs_planned : ℕ
  pub links_discovered : ℕ
  pub links_copied : ℕ
  pub links_failed : ℕ
  pub links_excluded : ℕ
  pub links_not_attempted : ℕ
  pub links_skipped : ℕ
  pub links_planned : ℕ
  pub bytes_enumerated : ℕ
  pub bytes_logical_discovered : ℕ
  pub bytes_logical_copied : ℕ
  pub bytes_read_source : ℕ
  pub bytes_written_destination : ℕ
  pub bytes_verified : ℕ

-- `Counters::default`
abbrev pub zero_counters : Counters
zero_counters = record {
  files_discovered = 0;
  copied_new = 0;
  copied_replaced = 0;
  skipped_same = 0;
  skipped_diff = 0;
  meta_fixed = 0;
  failed = 0;
  excluded = 0;
  not_attempted = 0;
  would_copy_new = 0;
  would_copy_replaced = 0;
  would_meta_fix = 0;
  extra = 0;
  dirs_discovered = 0;
  dir_done = 0;
  dirs_meta_failed = 0;
  dirs_failed = 0;
  dirs_excluded = 0;
  dirs_planned = 0;
  links_discovered = 0;
  links_copied = 0;
  links_failed = 0;
  links_excluded = 0;
  links_not_attempted = 0;
  links_skipped = 0;
  links_planned = 0;
  bytes_enumerated = 0;
  bytes_logical_discovered = 0;
  bytes_logical_copied = 0;
  bytes_read_source = 0;
  bytes_written_destination = 0;
  bytes_verified = 0;
}

unfoldable pub note_file_discovered : ℕ → Counters → Counters
note_file_discovered enumerated_bytes c = record c {
  files_discovered = saturating_add c.files_discovered 1;
  bytes_enumerated = saturating_add c.bytes_enumerated enumerated_bytes;
}

abbrev pub outcome_bytes : FileOutcome → ℕ
outcome_bytes (copied_new_file bytes _) = bytes
outcome_bytes (copied_replaced_file bytes _ _ _ _ _) = bytes
outcome_bytes (skipped_same_file bytes) = bytes
outcome_bytes (skipped_different_file bytes _ _ _ _) = bytes
outcome_bytes (metadata_fixed_file bytes) = bytes
outcome_bytes (failed_file bytes _) = bytes
outcome_bytes (excluded_file bytes _) = bytes
outcome_bytes (not_attempted_file bytes _) = bytes

-- The `match` of `apply_file`: one counter grows, and copied bytes are counted.
unfoldable pub count_outcome : FileOutcome → Counters → Counters
count_outcome (copied_new_file bytes _) c = record c {
  copied_new = saturating_add c.copied_new 1;
  bytes_logical_copied = saturating_add c.bytes_logical_copied bytes;
}
count_outcome (copied_replaced_file bytes _ _ _ _ _) c = record c {
  copied_replaced = saturating_add c.copied_replaced 1;
  bytes_logical_copied = saturating_add c.bytes_logical_copied bytes;
}
count_outcome (skipped_same_file _) c = record c { skipped_same = saturating_add c.skipped_same 1 }
count_outcome (skipped_different_file _ _ _ _ _) c = record c {
  skipped_diff = saturating_add c.skipped_diff 1;
}
count_outcome (metadata_fixed_file _) c = record c { meta_fixed = saturating_add c.meta_fixed 1 }
count_outcome (failed_file _ _) c = record c { failed = saturating_add c.failed 1 }
count_outcome (excluded_file _ _) c = record c { excluded = saturating_add c.excluded 1 }
count_outcome (not_attempted_file _ _) c = record c {
  not_attempted = saturating_add c.not_attempted 1;
}

unfoldable pub apply_file : FileOutcome → Counters → Counters
unfolding count_outcome
apply_file outcome c =
    let counted = count_outcome outcome c in
    record counted {
      bytes_logical_discovered =
          saturating_add counted.bytes_logical_discovered (outcome_bytes outcome);
    }

-- The message of a failed reconciliation, with the two numbers that it prints.
pub data Mismatch : Type 0 where
  files_mismatch directories_mismatch links_mismatch copied_exceeds : (left right : ℕ) → Mismatch

unfoldable pub terminal_files : Counters → ℕ
terminal_files c =
    let two = saturating_add c.copied_new c.copied_replaced in
    let four = saturating_add (saturating_add two c.skipped_same) c.skipped_diff in
    let six = saturating_add (saturating_add four c.meta_fixed) c.failed in
    saturating_add (saturating_add six c.excluded) c.not_attempted

unfoldable pub terminal_directories : Counters → ℕ
terminal_directories c =
    let two = saturating_add c.dir_done c.dirs_meta_failed in
    saturating_add (saturating_add (saturating_add two c.dirs_failed) c.dirs_excluded)
      c.dirs_planned

unfoldable pub terminal_links : Counters → ℕ
terminal_links c =
    let two = saturating_add c.links_copied c.links_failed in
    let four = saturating_add (saturating_add two c.links_excluded) c.links_not_attempted in
    saturating_add (saturating_add four c.links_skipped) c.links_planned

unfoldable pub reconcile : Counters → Outcome Mismatch (Unit {0})
reconcile c =
    let files = terminal_files c in
    let directories = terminal_directories c in
    let links = terminal_links c in
    if not (files == c.files_discovered)
    then err (files_mismatch c.files_discovered files)
    else if not (directories == c.dirs_discovered)
    then err (directories_mismatch c.dirs_discovered directories)
    else if not (links == c.links_discovered)
    then err (links_mismatch c.links_discovered links)
    else if ltb c.bytes_logical_discovered c.bytes_logical_copied
    then err (copied_exceeds c.bytes_logical_copied c.bytes_logical_discovered)
    else ok tt
