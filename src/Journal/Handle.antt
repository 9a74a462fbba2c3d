-- ===== src/Journal/Handle.antt =====
-- `Journal`: an open journal and its file on disk, `append` and `begin_job`. What the operating
-- system answers to each call of an operation is an argument of that operation.
pub mod Appends
use Prim.Native.String.{String}
use bigcp.Base.{
  ℕ, Bool, true, false, Option, some, List, [], ◌∷◌, ◌++◌, Outcome, ok, err, take, last?,
  if◌then◌else◌,
}
use bigcp.Base.Bytes.{Bytes}
use bigcp.Base.TreeMap.{bytes_ord, pair_ord, insert}
use bigcp.Errors.{IoError, BigcpError, io, invariant}
use bigcp.Journal.{
  ReclaimableTemp, JournalEvent, job, checkpoint, part_done, end, JobSignature, Resumable,
  checkpoint_key,
}
use bigcp.Journal.Codec.{newline, Json, encode_record}
use bigcp.Journal.Reader.{is_newline}
use bigcp.Journal.Replay.{harvest_reclaimable, signature_changed, retire}

pub record Journal : Type 0 where
  pub path : Bytes
  pub is_open : Bool  -- whether `file` is there
  pub disk : Bytes  -- what the file holds
  pub resumable : Resumable
  pub reclaimable : List ReclaimableTemp
  pub torn_tail : Bool
  pub active_job : Option JobSignature
  pub job_record : Option JournalEvent
  pub skipped_records : ℕ

pub data Attempt : Type 0 where
  works : Attempt
  breaks : IoError → Attempt

-- `write_all` writes everything, or some bytes before it fails.
pub data WriteAttempt : Type 0 where
  whole : WriteAttempt
  partial : (written : ℕ) → IoError → WriteAttempt

abbrev pub Step : Type 0
Step = Outcome BigcpError (Unit {0}) × Journal

abbrev pub and_then : Step → (Journal → Step) → Step
and_then (ok _, journal) next = next journal
and_then (err e, journal) next = (err e, journal)

abbrev pub try : String → Attempt → Journal → Step
try context works journal = (ok tt, journal)
try context (breaks e) journal = (err (io context e), journal)

pub record AppendIo : Type 0 where
  pub seek : Attempt
  pub probe : Attempt
  pub seek_again : Attempt
  pub heal : WriteAttempt
  pub write : WriteAttempt
  pub rollback : Bool  -- whether `set_len` succeeds after a failed write
  pub flush : Attempt

abbrev pub write_newline : WriteAttempt → Journal → Step
write_newline whole journal = (ok tt, record journal { disk = journal.disk ++ newline ∷ [] })
write_newline (partial n e) journal = (
  err (io "heal journal tail" e),
  record journal { disk = journal.disk ++ take n (newline ∷ []) },
)

abbrev pub is_empty : Bytes → Bool
is_empty [] = true
is_empty (_ ∷ _) = false

-- A file that does not end in a newline gets one.
unfoldable pub heal_tail : AppendIo → Journal → Step
heal_tail calls journal =
    if is_empty journal.disk
    then (ok tt, journal)
    else and_then (try "probe journal tail" calls.probe journal) λ probed.
      and_then (try "seek journal append" calls.seek_again probed) λ sought.
        if is_newline (last? sought.disk) then (ok tt, sought) else write_newline calls.heal sought

abbrev pub write_with : WriteAttempt → Bool → Bytes → Journal → Step
write_with whole rollback line journal = (ok tt, record journal { disk = journal.disk ++ line })
write_with (partial n e) true line journal = (err (io "append journal" e), journal)
write_with (partial n e) false line journal =
    (err (io "append journal" e), record journal { disk = journal.disk ++ take n line })

-- The `match state_event`.
unfoldable pub remember : JournalEvent → Journal → Journal
remember (checkpoint c) journal = record journal {
  resumable = insert (checkpoint_key c) c journal.resumable;
}
remember (part_done relative_path) journal = record journal {
  resumable = retire relative_path journal.resumable;
}
remember (job _ _ _ _ _) journal = journal
remember (end _) journal = journal

-- The part of `append` behind the handle's check.
unfoldable pub append_line : AppendIo → JournalEvent → Bytes → Journal → Step
append_line calls event line journal =
    and_then (try "seek journal append" calls.seek journal) λ sought.
      and_then (heal_tail calls sought) λ healed.
        and_then (write_with calls.write calls.rollback line healed) λ written.
          and_then (try "flush journal" calls.flush written)
            λ flushed. (ok tt, remember event flushed)

abbrev pub harvest_journal : Bool → Journal → Journal
harvest_journal false journal = journal
harvest_journal true journal =
    let (resumable, reclaimable) = harvest_reclaimable journal.resumable journal.reclaimable in
    record journal { resumable = resumable; reclaimable = reclaimable }

module _ {Value : Type 0} (json : Json Value) where
  unfoldable pub append : AppendIo → JournalEvent → Journal → Step
  append calls event journal = elim (encode_record json event) [
    | err e ↦ (err e, journal)
    | ok line ↦
        if journal.is_open
        then append_line calls event line journal
        else (err (invariant "journal append handle is unavailable"), journal)
  ]

  unfoldable pub begin_job :
      AppendIo → (run_id source destination options_hash timestamp : Bytes) → Journal → Step
  begin_job calls run_id source destination options_hash timestamp journal =
      let signature : JobSignature = record {
        source = source;
        destination = destination;
        options_hash = options_hash;
      } in
      let header = job run_id source destination options_hash timestamp in
      let harvested = harvest_journal (signature_changed journal.active_job signature) journal in
      and_then (append calls header harvested) λ appended.
        (ok tt, record appended { active_job = some signature; job_record = some header })
