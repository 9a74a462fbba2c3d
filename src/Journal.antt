-- ===== src/Journal.antt =====
-- crates/core/src/journal.rs: the checkpoint journal, an append-only file of CRC-tagged JSON lines.
-- The data are here; the children model the record codec, the bounded reader, the tolerant loader,
-- the operations on an open journal and the keys.
pub mod Codec
pub mod Reader
pub mod Replay
pub mod Loader
pub mod Handle
pub mod Compact
pub mod Open
pub mod Kept
pub mod Keys
pub mod Temps
pub mod Samples
mod Examples
use bigcp.Base.{ℕ, ◌==◌, Bool, ◌&&◌, Option, List}
use bigcp.Base.Bytes.{Bytes, bytes_eq}
use bigcp.Base.Int.{ℤ}
use bigcp.Base.TreeMap.{TreeMap}
use bigcp.Win.Types.{FileIdentity}

-- `CheckpointFileIdentity`; the file id is the text of `hex::encode`.
pub record CheckpointFileIdentity : Type 0 where
  pub volume_serial : ℕ
  pub file_id : Bytes

pub record ReclaimableTemp : Type 0 where
  pub temp_name : Bytes
  pub temp_identity : CheckpointFileIdentity
  pub relative_path : Bytes

pub record Checkpoint : Type 0 where
  pub relative_path : Bytes
  pub stream : Bytes
  pub temp_name : Bytes
  pub temp_identity : Option CheckpointFileIdentity
  pub source_identity : Option CheckpointFileIdentity
  pub source_size : ℕ
  pub source_mtime : ℤ
  pub watermark : ℕ
  pub prefix_digest : Bytes

pub data JournalEvent : Type 0 where
  job : (run_id source destination options_hash timestamp : Bytes) → JournalEvent
  checkpoint : Checkpoint → JournalEvent
  part_done : (relative_path : Bytes) → JournalEvent
  end : (run_id : Bytes) → JournalEvent

pub record StoredRecord : Type 0 where
  pub j : ℕ
  pub event : JournalEvent
  pub crc : Bytes

pub record JobSignature : Type 0 where
  pub source : Bytes
  pub destination : Bytes
  pub options_hash : Bytes

-- `JobSignature` derives `PartialEq`.
abbrev pub signature_eq : JobSignature → JobSignature → Bool
signature_eq a b =
    bytes_eq a.source b.source
    && (bytes_eq a.destination b.destination && bytes_eq a.options_hash b.options_hash)

-- A checkpoint is kept under its path and its stream.
abbrev pub Resumable : Type 0
Resumable = TreeMap (Bytes × Bytes) Checkpoint

abbrev pub checkpoint_key : Checkpoint → Bytes × Bytes
checkpoint_key c = (c.relative_path, c.stream)

-- `crate::JOURNAL_SCHEMA_VERSION`
abbrev pub journal_schema_version : ℕ
journal_schema_version = 1

module _ (hex_encode : Bytes → Bytes) where
  unfoldable pub identity_from_file : FileIdentity → CheckpointFileIdentity
  identity_from_file identity = record {
    volume_serial = identity.volume_serial;
    file_id = hex_encode identity.file_id;
  }

  unfoldable pub identity_matches : CheckpointFileIdentity → FileIdentity → Bool
  identity_matches recorded identity =
      recorded.volume_serial == identity.volume_serial
      && bytes_eq recorded.file_id (hex_encode identity.file_id)
