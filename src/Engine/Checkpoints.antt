-- ===== src/Engine/Checkpoints.antt =====
-- `CheckpointCursor`, `append_checkpoint` and the loop of `copy_streamed`, of engine.rs: where the
-- checkpoints of a stream are, what they record, and how a stream is moved from one to the next.
pub mod Bounds
pub mod Progress
pub mod Attested
pub mod Loop
pub mod Returns
mod Examples
use bigcp.Base.{
  ℕ, ◌+◌, ◌-◌, ◌*◌, ◌/◌, min, Bool, true, false, ◌&&◌, ◌==◌, leb, ltb, Option, none, some, List, [],
  ◌∷◌, Outcome, ok, err, if◌then◌else◌,
}
use bigcp.Base.Bytes.{Bytes}
use bigcp.Base.Int.{ℤ}
use bigcp.Counters.{u64_max}
use bigcp.Errors.{OperationError}
use bigcp.Win.Types.{FileIdentity}
use bigcp.Profile.Data.{mib}
use bigcp.Journal.{Checkpoint, checkpoint, identity_from_file}
use bigcp.Journal.Codec.{Json}
use bigcp.Journal.Handle.{Journal, AppendIo, Step, append}
use bigcp.Engine.Transfer.{StreamBuffers, Moving, Script, SegmentResult, Messages, transfer_segment}

abbrev pub gib : ℕ
gib = 1024 * mib

unfoldable pub checkpoint_interval : (logical_size : ℕ) → ℕ
checkpoint_interval logical_size =
    if leb (1024 * gib) logical_size
    then 4 * gib
    else if leb (64 * gib) logical_size
    then gib
    else 256 * mib

unfoldable pub next_checkpoint_after : (offset interval size : ℕ) → ℕ
next_checkpoint_after offset interval size =
    let quotient = if interval == 0 then 0 else offset / interval in
    min (min (min (quotient + 1) u64_max * interval) u64_max) size

pub record CheckpointCursor : Type 0 where
  pub next : Option ℕ
  pub interval : ℕ
  pub total_size : ℕ
  pub temp_identity : Option FileIdentity

-- `CheckpointCursor::new`
unfoldable pub new_cursor :
    (eligible : Bool) (position total_size : ℕ) → Option FileIdentity → CheckpointCursor
new_cursor eligible position total_size temp_identity =
    let interval = checkpoint_interval total_size in
    record {
      next = if eligible then some (next_checkpoint_after position interval total_size) else none;
      interval = interval;
      total_size = total_size;
      temp_identity = temp_identity;
    }

-- A boundary is never before the position.
unfoldable pub cursor_bound : CheckpointCursor → (position remaining : ℕ) → ℕ
cursor_bound cursor position remaining =
    min remaining (elim cursor.next [ none ↦ remaining | some boundary ↦ boundary - position ])

pub data CheckpointStatus : Type 0 where
  written disabled not_configured : CheckpointStatus

-- What a checkpoint says of the file, whatever the position. The digest of the bytes that a hasher was
-- given is that of xxhash_rust; the errors are those that the code composes.
pub record FileFacts : Type 0 where
  pub relative_path : Bytes  -- its `path_key`
  pub source_identity : FileIdentity
  pub source_mtime : ℤ
  pub temp_name : Option Bytes  -- where it is UTF-8
  pub hex_encode : Bytes → Bytes
  pub digest : Bytes → Bytes
  pub no_digest : OperationError
  pub bad_name : OperationError

-- What the calls of one `append_checkpoint` answer.
pub record CheckpointIo : Type 0 where
  pub append : AppendIo
  pub persists : Bool

-- The journal, whether the file's copy has it (it is an `Option<&mut Journal>`), and the temporary's flag.
pub record Log : Type 0 where
  pub journal : Journal
  pub has_journal : Bool
  pub degraded : Bool
  pub is_persistent : Bool

-- `append_checkpoint` behind its append: the checkpoint counts once the temporary is persistent.
unfoldable pub append_status :
    (persists : Bool) → Log → Step → Outcome OperationError CheckpointStatus × Log
append_status persists log (err _, journal) = (ok disabled, record log { journal = journal })
append_status true log (ok _, journal) =
    (ok written, record log { journal = journal; is_persistent = true })
append_status false log (ok _, journal) = (ok disabled, record log { journal = journal })

-- A stream's copy at the head of the loop.
pub record Copying : Type 0 where
  pub total : ℕ
  pub moving : Moving
  pub cursor : CheckpointCursor
  pub log : Log

-- The part of `copy_streamed` before its loop: a stream of which `total` bytes are there already.
unfoldable pub start_copy :
    (logical_size checkpoint_threshold total : ℕ) (identity : Option FileIdentity)
    → Moving
    → Log
    → Copying
unfolding new_cursor
start_copy logical_size checkpoint_threshold total identity moving log =
    let eligible = leb checkpoint_threshold logical_size && log.has_journal in
    record {
      total = total;
      moving = moving;
      cursor = new_cursor eligible total logical_size (if eligible then identity else none);
      log = record log { degraded = false };
    }

abbrev pub Advanced : Type 0
Advanced = Outcome OperationError (Unit {0}) × CheckpointCursor × Log

abbrev pub CopyResult : Type 0
CopyResult = Option (Outcome OperationError (Unit {0}) × Copying)

abbrev pub advanced : Copying → Advanced → CopyResult
advanced s (result, cursor, log) = some (result, record s { cursor = cursor; log = log })

-- The `match` of `advance`.
unfoldable pub after_status :
    (position : ℕ) → CheckpointCursor → Outcome OperationError CheckpointStatus × Log → Advanced
after_status position cursor (err e, log) = (err e, cursor, log)
after_status position cursor (ok written, log) = (
  ok tt,
  record cursor {
    next =
        if ltb position cursor.total_size
        then some (next_checkpoint_after position cursor.interval cursor.total_size)
        else none;
  },
  log,
)
after_status position cursor (ok disabled, log) =
    (ok tt, record cursor { next = none }, record log { has_journal = false; degraded = true })
after_status position cursor (ok not_configured, log) = (ok tt, record cursor { next = none }, log)

module _ {Value : Type 0} (json : Json Value) (facts : FileFacts) where
  unfoldable pub checkpoint_of :
      (stream temp_name : Bytes) → FileIdentity → (source_size watermark : ℕ) → Bytes → Checkpoint
  checkpoint_of stream temp_name temp_identity source_size watermark fed = record {
    relative_path = facts.relative_path;
    stream = stream;
    temp_name = temp_name;
    temp_identity = some (identity_from_file facts.hex_encode temp_identity);
    source_identity = some (identity_from_file facts.hex_encode facts.source_identity);
    source_size = source_size;
    source_mtime = facts.source_mtime;
    watermark = watermark;
    prefix_digest = facts.digest fed;
  }

  unfoldable pub write_checkpoint :
      CheckpointIo → Checkpoint → Log → Outcome OperationError CheckpointStatus × Log
  unfolding append_status
  write_checkpoint calls c log =
      append_status calls.persists log (append json calls.append (checkpoint c) log.journal)

  unfoldable pub append_checkpoint :
      CheckpointIo
      → (stream : Bytes) (source_size watermark : ℕ) (hasher : Option Bytes) → Option FileIdentity
      → Log
      → Outcome OperationError CheckpointStatus × Log
  unfolding write_checkpoint
  append_checkpoint calls stream source_size watermark hasher temp_identity log =
      if log.has_journal
      then elim hasher [
        | none ↦ (err facts.no_digest, log)
        | some fed ↦ elim facts.temp_name [
          | none ↦ (err facts.bad_name, log)
          | some name ↦ elim temp_identity [
            | none ↦ (ok disabled, log)
            | some identity ↦
                write_checkpoint calls
                  (checkpoint_of stream name identity source_size watermark fed) log
          ]
        ]
      ]
      else (ok not_configured, log)

  unfoldable pub advance :
      CheckpointIo
      → (stream : Bytes) (position : ℕ) (hasher : Option Bytes) → CheckpointCursor
      → Log
      → Advanced
  unfolding after_status append_checkpoint
  advance calls stream position hasher cursor log = elim cursor.next [
    | none ↦ (ok tt, cursor, log)
    | some boundary ↦
        if boundary == position
        then after_status position cursor (
            append_checkpoint calls stream cursor.total_size position hasher cursor.temp_identity
              log)
        else (ok tt, cursor, log)
  ]

  -- A round of the loop, from the segment's result.
  unfoldable pub copy_round : CheckpointIo → Copying → SegmentResult → CopyResult
  unfolding advance
  copy_round calls s none = none
  copy_round calls s (some (err e, moving)) = some (err e, record s { moving = moving })
  copy_round calls s (some (ok count, moving)) =
      let total = min (s.total + count) u64_max in
      advanced (record s { total = total; moving = moving })
        (advance calls [] total moving.hasher s.cursor s.log)

  unfoldable pub copy_loop :
      Messages
      → (buffers : StreamBuffers) (logical_size : ℕ) → List (Script buffers × CheckpointIo)
      → Copying
      → CopyResult
  unfolding copy_round
  copy_loop messages buffers logical_size [] s =
      if ltb s.total logical_size then none else some (ok tt, s)
  copy_loop messages buffers logical_size ((script, calls) ∷ rounds) s =
      let bound = cursor_bound s.cursor s.total (logical_size - s.total) in
      let more : CopyResult =
        elim (copy_round calls s (transfer_segment messages buffers script bound s.moving)) [
          | none ↦ none
          | some (err e, next) ↦ some (err e, next)
          | some (ok _, next) ↦ copy_loop messages buffers logical_size rounds next
        ] in
      if ltb s.total logical_size then more else some (ok tt, s)
