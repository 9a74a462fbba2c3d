-- ===== src/Engine/Checkpoints/Examples.antt =====
-- A stream of three bytes that is copied by bursts of two, with a checkpoint at its end.
use bigcp.Base.{
  ◌≡◌, refl, true, false, none, some, Option, List, [], ◌∷◌, Outcome, ok, err, arith, HasEnded, ◌*◌,
}
use bigcp.Base.Bytes.{Bytes}
use bigcp.Base.Int.{pos}
use bigcp.Errors.{OperationError, from_io, other_kind}
use bigcp.Win.Types.{FileIdentity}
use bigcp.Profile.Data.{mib}
use bigcp.Journal.{JournalEvent, checkpoint}
use bigcp.Journal.Codec.{Json, encode_record, crc_text}
use bigcp.Journal.Handle.{works, whole, append, append_line, heal_tail, remember}
use bigcp.Transport.Burst.{
  Call, gives, interrupted, read_from, write_to, buffer_capacity, buffer_request,
}
use bigcp.Engine.Transfer.{
  StreamBuffers, same_spindle, Script, Moving, Messages, for_unnamed_stream, transfer_segment,
}
use bigcp.Engine.Checkpoints.{
  FileFacts, CheckpointIo, Log, Copying, copy_loop, start_copy, cursor_bound, next_checkpoint_after,
  checkpoint_interval, gib, checkpoint_of,
}
use bigcp.Engine.Checkpoints.Bounds.{IsBoundary, next_checkpoint_after-IsBoundary}
use bigcp.Engine.Checkpoints.Progress.{HasMoved}
use bigcp.Engine.Checkpoints.Loop.{Attested, copy_loop-Attested}
use bigcp.Engine.Checkpoints.Returns.{Answers, burst-Answers, copy_loop-returns}

abbrev an_error : OperationError
an_error = from_io [] [] [] (record { raw_os_error = none; kind = other_kind; text = [] })

abbrev texts : Messages
texts = record {
  truncated = an_error;
  read_error = λ _. an_error;
  write_error = λ _. an_error;
  pipeline_error = λ _. an_error;
}

abbrev identity : FileIdentity
identity = record { volume_serial = 1; file_id = 2 ∷ [] }

-- The digest is the bytes themselves.
abbrev facts : FileFacts
facts = record {
  relative_path = 97 ∷ [];
  source_identity = identity;
  source_mtime = pos 5;
  temp_name = some (116 ∷ []);
  hex_encode = λ bytes. bytes;
  digest = λ bytes. bytes;
  no_digest = an_error;
  bad_name = an_error;
}

abbrev digest_of : JournalEvent → Option Bytes
digest_of (checkpoint c) = some (c.watermark ∷ c.prefix_digest)
digest_of _ = none

-- A record is written as its watermark and its digest.
abbrev digests : Json Bytes
digests = record {
  from_slice = some;
  version = λ _. none;
  from_value = λ _. none;
  unsigned_to_vec = λ _ _. some [];
  stored_to_vec = λ stored. digest_of stored.event;
  crc32c = λ _. 0;
}

abbrev calls : CheckpointIo
calls = record {
  append = record {
    seek = works;
    probe = works;
    seek_again = works;
    heal = whole;
    write = whole;
    rollback = true;
    flush = works;
  };
  persists = true;
}

abbrev log : Log
log = record {
  journal = record {
    path = [];
    is_open = true;
    disk = [];
    resumable = [];
    reclaimable = [];
    torn_tail = false;
    active_job = none;
    job_record = none;
    skipped_records = 0;
  };
  has_journal = true;
  degraded = false;
  is_persistent = false;
}

abbrev buffers : StreamBuffers
buffers = same_spindle 2 2

abbrev three_bytes : Moving
three_bytes = record { rest = 7 ∷ 8 ∷ 9 ∷ []; file = []; hasher = some [] }

-- Enough for a burst, also where a call moves little.
abbrev enough : List Call
enough = gives 1 ∷ interrupted ∷ gives 2 ∷ []

abbrev whole_copy : List (Script buffers × CheckpointIo)
whole_copy = ((enough, enough), calls) ∷ ((enough, enough), calls) ∷ ((enough, enough), calls) ∷ []

none_moved : HasMoved (7 ∷ 8 ∷ 9 ∷ []) 0 three_bytes
none_moved = record { prefix = []; count = refl; left = refl; file = refl; hashed = λ fed e. cc }

next_checkpoint_after-IsBoundary_example :
    IsBoundary (300 * mib) (256 * mib) gib (next_checkpoint_after (300 * mib) (256 * mib) gib)
next_checkpoint_after-IsBoundary_example =
    next_checkpoint_after-IsBoundary (300 * mib) (256 * mib) gib (omega arith) (omega arith)
      (omega arith)

-- The last boundary is the end, and its checkpoint is written.
journal_of : Option (Outcome OperationError (Unit {0}) × Copying) → Option Bytes
journal_of none = none
journal_of (some (err _, _)) = none
journal_of (some (ok _, s)) = some s.log.journal.disk

whole_copy-journal :
    journal_of (
      copy_loop digests facts texts buffers 3 whole_copy
        (start_copy 3 1 0 (some identity) three_bytes log))
    ≡ some (3 ∷ 7 ∷ 8 ∷ 9 ∷ 10 ∷ [])
unfolding journal_of copy_loop start_copy cursor_bound transfer_segment read_from
    next_checkpoint_after checkpoint_interval write_to append encode_record crc_text append_line
    heal_tail remember checkpoint_of
whole_copy-journal = refl

copy_loop-Attested_example : Attested digests facts (7 ∷ 8 ∷ 9 ∷ []) 3 log.journal (
    copy_loop digests facts texts buffers 3 whole_copy
      (start_copy 3 1 0 (some identity) three_bytes log))
unfolding for_unnamed_stream buffer_capacity buffer_request
copy_loop-Attested_example =
    copy_loop-Attested digests facts (7 ∷ 8 ∷ 9 ∷ []) 3 true false 2 2 2 3 texts buffers whole_copy
      1 0 (some identity) three_bytes log (omega arith) (omega arith) none_moved refl

enough_Answers : Answers texts buffers (enough, enough)
enough_Answers = burst-Answers texts 2 2 enough enough (omega arith) (omega arith)

copy_loop-returns_example : HasEnded (
    copy_loop digests facts texts buffers 3 whole_copy
      (start_copy 3 1 0 (some identity) three_bytes log))
unfolding for_unnamed_stream buffer_capacity buffer_request
copy_loop-returns_example =
    copy_loop-returns digests facts (7 ∷ 8 ∷ 9 ∷ []) 3 (omega arith) true false 2 2 2 3 texts
      buffers whole_copy 1 0 (some identity) three_bytes log (omega arith) none_moved refl
      (enough_Answers, (enough_Answers, (enough_Answers, tt))) (omega arith)
