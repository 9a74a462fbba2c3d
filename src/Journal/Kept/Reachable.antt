-- ===== src/Journal/Kept/Reachable.antt =====
-- Every journal that the operations lead to, in any order and whatever the operating system answers,
-- is in order.
use bigcp.Base.{ℕ, ◌≡◌, subst, Bool, true, false, Option, none, some, Outcome, ok, err}
use bigcp.Base.Bytes.{Bytes}
use bigcp.Errors.{BigcpError}
use bigcp.Journal.{ReclaimableTemp, JournalEvent, job, checkpoint, part_done, end, JobSignature}
use bigcp.Journal.Codec.{Json}
use bigcp.Journal.Replay.{harvest_reclaimable}
use bigcp.Journal.Keys.{Hex, OsString}
use bigcp.Journal.Temps.{position, claims, take_at, take_reclaimable_temp}
use bigcp.Journal.Handle.{
  Journal, Attempt, works, breaks, Step, and_then, try, AppendIo, remember, append, begin_job,
  harvest_journal,
}
use bigcp.Journal.Handle.Appends.{appended, not_tried, failed, append-outcome}
use bigcp.Journal.Open.{OpenIo, open_journal}
use bigcp.Journal.Compact.{
  CompactIo, compact, compact_with, replace_file, encode_all, compacted_events, publish_encoded,
}
use bigcp.Journal.Kept.{IsKept-insert, IsKept-retire}
use bigcp.Journal.Kept.Opening.{IsWellKept, KeptStep, open_journal-KeptStep}

module _ {Value : Type 0} (json : Json Value) (hex : Hex)
    (parent_is : OsString → OsString → Bool) where
  -- A journal that was opened, after any operations.
  pub data IsReached : Journal → Type 0 where
    opened :
        (calls : OpenIo) (fresh : Bool) (path disk : Bytes) (journal : Journal)
        → open_journal json calls fresh path disk ≡ some (ok tt, journal)
        → IsReached journal
    appends :
        (calls : AppendIo) (event : JournalEvent) (journal : Journal)
        → IsReached journal
        → IsReached (append json calls event journal).1
    begins :
        (calls : AppendIo) (run_id source destination options_hash timestamp : Bytes)
        (journal : Journal)
        → IsReached journal
        → IsReached
            (begin_job json calls run_id source destination options_hash timestamp journal).1
    compacts :
        (calls : CompactIo) (journal : Journal)
        → IsReached journal
        → IsReached (compact json calls journal).1
    takes :
        (name : Bytes) (directory : OsString) (journal : Journal)
        → IsReached journal
        → IsReached (take_reclaimable_temp hex parent_is name directory journal).1

  remember-IsWellKept :
      (event : JournalEvent) (journal : Journal)
      → IsWellKept journal
      → IsWellKept (remember event journal)
  unfolding remember
  remember-IsWellKept (job _ _ _ _ _) journal kept = kept
  remember-IsWellKept (checkpoint c) journal kept =
      (IsKept-insert c journal.resumable kept.0, kept.1)
  remember-IsWellKept (part_done path) journal kept =
      (IsKept-retire path journal.resumable kept.0, kept.1)
  remember-IsWellKept (end _) journal kept = kept

  append-IsWellKept :
      (calls : AppendIo) (event : JournalEvent) (journal : Journal)
      → IsWellKept journal
      → IsWellKept (append json calls event journal).1
  append-IsWellKept calls event journal kept = elim (append-outcome json event calls journal) [
    | appended line _ r ↦ rw r (remember-IsWellKept event _ kept)
    | not_tried e r ↦ rw r kept
    | failed line e after _ _ r ↦ rw r kept
  ]

  begin_with-IsWellKept :
      (step : Step) (signature : JobSignature) (r s d o t : Bytes)
      → IsWellKept step.1
      → IsWellKept
          (and_then step λ appended. (
            ok tt,
            record appended { active_job = some signature; job_record = some (job r s d o t) },
          )).1
  begin_with-IsWellKept (ok _, journal) signature r s d o t kept = (kept.0, tt)
  begin_with-IsWellKept (err e, journal) signature r s d o t kept = kept

  harvest_journal-IsWellKept :
      (b : Bool) (journal : Journal) → IsWellKept journal → IsWellKept (harvest_journal b journal)
  unfolding harvest_reclaimable
  harvest_journal-IsWellKept true journal kept = ((tt, tt), kept.1)
  harvest_journal-IsWellKept false journal kept = kept

  begin_job-IsWellKept :
      (calls : AppendIo) (r s d o t : Bytes) (journal : Journal)
      → IsWellKept journal
      → IsWellKept (begin_job json calls r s d o t journal).1
  unfolding begin_job
  begin_job-IsWellKept calls r s d o t journal kept =
      begin_with-IsWellKept _ _ r s d o t
        (append-IsWellKept calls (job r s d o t) _ (harvest_journal-IsWellKept _ journal kept))

  reopened-IsWellKept :
      (reopen seek : Attempt) (published : Outcome BigcpError (Unit {0})) (journal : Journal)
      → IsWellKept journal
      → IsWellKept
          (and_then (try "reopen compacted journal" reopen journal) λ opened.
            and_then
              (try "seek compacted journal" seek opened)
              λ sought. (published, record sought { is_open = true })).1
  reopened-IsWellKept works works published journal kept = kept
  reopened-IsWellKept works (breaks e) published journal kept = kept
  reopened-IsWellKept (breaks e) seek published journal kept = kept

  replace_file-IsWellKept :
      (calls : CompactIo) (contents : Bytes) (journal : Journal)
      → IsWellKept journal
      → IsWellKept (replace_file calls contents journal).1
  unfolding replace_file
  replace_file-IsWellKept calls contents journal kept =
      reopened-IsWellKept calls.reopen calls.seek _ _ kept

  compact_with-IsWellKept :
      (header : Option JournalEvent) (calls : CompactIo) (journal : Journal)
      → IsWellKept journal
      → IsWellKept (compact_with json header calls journal).1
  compact_with-IsWellKept none calls journal kept = kept
  compact_with-IsWellKept (some header) calls journal kept =
      go (encode_all json (compacted_events header journal.resumable))
    where
      go :
          (encoded : Outcome BigcpError Bytes)
          → IsWellKept (publish_encoded encoded calls journal).1
      go (err e) = kept
      go (ok contents) = replace_file-IsWellKept calls contents journal kept

  take-IsWellKept :
      (name : Bytes) (directory : OsString) (journal : Journal)
      → IsWellKept journal
      → IsWellKept (take_reclaimable_temp hex parent_is name directory journal).1
  unfolding take_reclaimable_temp
  take-IsWellKept name directory journal kept =
      go (position (claims hex parent_is name directory) journal.reclaimable)
    where
      go : (r : Option (ℕ × ReclaimableTemp)) → IsWellKept (take_at hex parent_is r journal).1
      go none = kept
      go (some (index, temp)) = kept

  -- Once a journal is open, whatever operations follow and whatever the operating system answers,
  -- its checkpoints are in order, each under its own path and stream, and the record that it keeps
  -- for compaction is that of a job.
  pub IsReached-IsWellKept : {journal : Journal} → IsReached journal → IsWellKept journal
  unfolding compact
  IsReached-IsWellKept (opened calls fresh path disk journal h) =
      subst KeptStep h (open_journal-KeptStep json calls fresh path disk)
  IsReached-IsWellKept (appends calls event journal r) =
      append-IsWellKept calls event journal (IsReached-IsWellKept r)
  IsReached-IsWellKept (begins calls i s d o t journal r) =
      begin_job-IsWellKept calls i s d o t journal (IsReached-IsWellKept r)
  IsReached-IsWellKept (compacts calls journal r) =
      compact_with-IsWellKept journal.job_record calls journal (IsReached-IsWellKept r)
  IsReached-IsWellKept (takes name directory journal r) =
      take-IsWellKept name directory journal (IsReached-IsWellKept r)
