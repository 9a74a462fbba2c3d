-- ===== src/Journal/Replay.antt =====
-- `LoadedState`, `harvest_reclaimable` and `apply_loaded_line`: what one line of an existing journal
-- does to the state that is recovered from it.
use bigcp.Base.{
  ℕ, Bool, true, false, not, ◌&&◌, Option, none, some, List, [], ◌∷◌, ◌++◌, Outcome, ok, err, ◌>>=◌,
  ◌==◌, any, if◌then◌else◌,
}
use bigcp.Base.Bytes.{Bytes, bytes_eq}
use bigcp.Base.TreeMap.{bytes_ord, pair_ord, values, insert, retain}
use bigcp.Counters.{saturating_add}
use bigcp.Errors.{BigcpError, format}
use bigcp.Journal.{
  CheckpointFileIdentity, ReclaimableTemp, Checkpoint, JournalEvent, job, checkpoint, part_done,
  end, StoredRecord, JobSignature, signature_eq, Resumable, checkpoint_key, journal_schema_version,
}
use bigcp.Journal.Codec.{newline, Json, crc_matches}
use bigcp.Journal.Reader.{Line}

pub record LoadedState : Type 0 where
  pub resumable : Resumable
  pub reclaimable : List ReclaimableTemp
  pub torn_tail : Bool
  pub valid_length : ℕ
  pub active_job : Option JobSignature
  pub skipped_records : ℕ
  pub records_seen : ℕ

-- `LoadedState::default`
abbrev pub empty_state : LoadedState
empty_state = record {
  resumable = [];
  reclaimable = [];
  torn_tail = false;
  valid_length = 0;
  active_job = none;
  skipped_records = 0;
  records_seen = 0;
}

abbrev pub known_temp : Bytes → List ReclaimableTemp → Bool
known_temp name reclaimable = any (λ existing. bytes_eq existing.temp_name name) reclaimable

-- One round of the loop of `harvest_reclaimable`, by the identity of the checkpoint.
abbrev pub harvest_with :
    Option CheckpointFileIdentity → Checkpoint → List ReclaimableTemp → List ReclaimableTemp
harvest_with none c reclaimable = reclaimable
harvest_with (some identity) c reclaimable =
    let temp : ReclaimableTemp = record {
      temp_name = c.temp_name;
      temp_identity = identity;
      relative_path = c.relative_path;
    } in
    if known_temp c.temp_name reclaimable then reclaimable else reclaimable ++ temp ∷ []

unfoldable pub harvest_values : List Checkpoint → List ReclaimableTemp → List ReclaimableTemp
harvest_values [] reclaimable = reclaimable
harvest_values (c ∷ cs) reclaimable = harvest_values cs (harvest_with c.temp_identity c reclaimable)

-- `harvest_reclaimable` takes the resumable map, and leaves it empty.
unfoldable pub harvest_reclaimable :
    Resumable → List ReclaimableTemp → Resumable × List ReclaimableTemp
harvest_reclaimable resumable reclaimable = ([], harvest_values (values resumable) reclaimable)

-- `LoadedState::into_reclaimable`
unfoldable pub into_reclaimable : LoadedState → List ReclaimableTemp
into_reclaimable state = (harvest_reclaimable state.resumable state.reclaimable).1

abbrev pub signature_changed : Option JobSignature → JobSignature → Bool
signature_changed none signature = false
signature_changed (some current) signature = not (signature_eq current signature)

-- A path's checkpoints, of whichever stream, are dropped.
unfoldable pub retire : Bytes → Resumable → Resumable
retire relative_path resumable =
    retain (λ (key : Bytes × Bytes). not (bytes_eq key.0 relative_path)) resumable

-- The `match stored.event`.
unfoldable pub apply_event : JournalEvent → LoadedState → LoadedState
apply_event (job _ source destination options_hash _) state =
    let signature : JobSignature = record {
      source = source;
      destination = destination;
      options_hash = options_hash;
    } in
    let (resumable, reclaimable) = harvest_reclaimable state.resumable state.reclaimable in
    if signature_changed state.active_job signature
    then record state {
      resumable = resumable;
      reclaimable = reclaimable;
      active_job = some signature;
    }
    else record state { active_job = some signature }
apply_event (checkpoint c) state = record state {
  resumable = insert (checkpoint_key c) c state.resumable;
}
apply_event (part_done relative_path) state = record state {
  resumable = retire relative_path state.resumable;
}
apply_event (end _) state = state

-- `strip_suffix(…).unwrap_or(…)` of one byte
unfoldable pub strip_last : ℕ → Bytes → Bytes
strip_last c [] = []
strip_last c (x ∷ []) = if x == c then [] else x ∷ []
strip_last c (x ∷ y ∷ ys) = x ∷ strip_last c (y ∷ ys)

abbrev pub carriage_return : ℕ
carriage_return = 13

abbrev pub strip_line : Bytes → Bytes
strip_line raw = strip_last carriage_return (strip_last newline raw)

abbrev pub future_version : Option ℕ → Bool
future_version none = false
future_version (some found) = not (found == journal_schema_version)

-- `unwrap_or(false)`
abbrev pub crc_ok : Outcome BigcpError Bool → Bool
crc_ok (ok matched) = matched
crc_ok (err _) = false

module _ {Value : Type 0} (json : Json Value) where
  -- `.filter(|stored| crc_matches(stored).unwrap_or(false))`
  abbrev pub trusted : Option StoredRecord → Option StoredRecord
  trusted none = none
  trusted (some stored) = if crc_ok (crc_matches json stored) then some stored else none

  abbrev pub parse_value : Bool → Option Value → Outcome BigcpError (Option StoredRecord)
  parse_value first_record none = ok none
  parse_value first_record (some value) =
      if first_record && future_version (json.version value)
      then err (format "unsupported journal version")
      else ok (trusted (json.from_value value))

  -- The record of a line that may be trusted, or the refusal of a newer build's journal.
  unfoldable pub parse_line : Bool → Line → Outcome BigcpError (Option StoredRecord)
  parse_line first_record line =
      if line.oversized
      then ok none
      else parse_value first_record (json.from_slice (strip_line line.retained))

  abbrev pub settle : Option StoredRecord → Bool → LoadedState → Bool × LoadedState
  settle none true state = (false, state)
  settle none false state =
      (true, record state { skipped_records = saturating_add state.skipped_records 1 })
  settle (some stored) is_last state = (true, apply_event stored.event state)

  unfoldable pub apply_loaded_line :
      Line → Bool → LoadedState → Outcome BigcpError (Bool × LoadedState)
  apply_loaded_line line is_last state =
      let first_record = state.records_seen == 0 in
      let seen = record state { records_seen = saturating_add state.records_seen 1 } in
      do parsed ← parse_line first_record line; ok (settle parsed is_last seen)
