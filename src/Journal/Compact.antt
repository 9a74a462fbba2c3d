-- ===== src/Journal/Compact.antt =====
-- `Journal::compact`: the journal is replaced by its header and its live checkpoints.
pub mod Restore
pub mod Entries
pub mod Survives
use bigcp.Base.{true, false, Option, none, some, List, [], ◌∷◌, ◌++◌, map, Outcome, ok, err, ◌>>=◌}
use bigcp.Base.Bytes.{Bytes}
use bigcp.Base.TreeMap.{bytes_ord, pair_ord, values}
use bigcp.Errors.{IoError, BigcpError, io}
use bigcp.Journal.{JournalEvent, checkpoint, Resumable}
use bigcp.Journal.Codec.{Json, encode_record}
use bigcp.Journal.Handle.{Journal, Attempt, works, breaks, Step, and_then, try}

-- What the calls of one publication answer: the temporary beside the file is created and written, then
-- synchronized, kept at its close, renamed over the file, synchronized again and closed.
pub record PublishIo : Type 0 where
  pub create : Attempt
  pub write : Attempt
  pub sync : Attempt
  pub keep : Attempt
  pub rename : Attempt
  pub sync_renamed : Attempt
  pub close : Attempt

-- An outcome, and what the final path holds.
abbrev pub Published : Type 0
Published = Outcome IoError (Unit {0}) × Bytes

-- A call, and what the final path holds if it fails.
abbrev pub attempt : Attempt → Bytes → Published → Published
attempt works disk next = next
attempt (breaks e) disk next = (err e, disk)

-- `DestinationTemp::publish_artifact`. Behind the rename an error leaves the new file.
unfoldable pub publish_artifact : PublishIo → (contents disk : Bytes) → Published
publish_artifact calls contents disk = attempt calls.sync disk (
    attempt calls.keep disk (
      attempt calls.rename disk
        (attempt calls.sync_renamed contents (attempt calls.close contents (ok tt, contents)))))

unfoldable pub write_atomic_bytes : PublishIo → (contents disk : Bytes) → Published
unfolding publish_artifact
write_atomic_bytes calls contents disk =
    attempt calls.create disk (attempt calls.write disk (publish_artifact calls contents disk))

pub record CompactIo : Type 0 where
  pub publish : PublishIo
  pub reopen : Attempt
  pub seek : Attempt

abbrev pub publish_outcome : Outcome IoError (Unit {0}) → Outcome BigcpError (Unit {0})
publish_outcome (ok done) = ok done
publish_outcome (err e) = err (io "publish compacted journal" e)

abbrev pub publish_contents : PublishIo → Bytes → Journal → Step
publish_contents calls contents journal =
    let (result, disk) = write_atomic_bytes calls contents journal.disk in
    (publish_outcome result, record journal { disk = disk })

-- The handle is closed, the file replaced, and the handle opened again; the outcome of the
-- replacement is reported last.
unfoldable pub replace_file : CompactIo → Bytes → Journal → Step
replace_file calls contents journal =
    let (published, replaced) =
      publish_contents calls.publish contents (record journal { is_open = false }) in
    and_then (try "reopen compacted journal" calls.reopen replaced) λ reopened.
      and_then (try "seek compacted journal" calls.seek reopened)
        λ sought. (published, record sought { is_open = true })

abbrev pub publish_encoded : Outcome BigcpError Bytes → CompactIo → Journal → Step
publish_encoded (err e) calls journal = (err e, journal)
publish_encoded (ok contents) calls journal = replace_file calls contents journal

abbrev pub compacted_events : JournalEvent → Resumable → List JournalEvent
compacted_events header resumable = header ∷ map checkpoint (values resumable)

module _ {Value : Type 0} (json : Json Value) where
  unfoldable pub encode_all : List JournalEvent → Outcome BigcpError Bytes
  encode_all [] = ok []
  encode_all (event ∷ events) = do
    line ← encode_record json event
    rest ← encode_all events
    ok (line ++ rest)

  abbrev pub compact_with : Option JournalEvent → CompactIo → Journal → Step
  compact_with none calls journal = (ok tt, journal)
  compact_with (some header) calls journal =
      publish_encoded (encode_all (compacted_events header journal.resumable)) calls journal

  unfoldable pub compact : CompactIo → Journal → Step
  compact calls journal = compact_with journal.job_record calls journal
