-- ===== src/Journal/Examples/Keeping.antt =====
-- The theorems about damaged lines, keys, temporaries, compaction and reachable journals, at samples.
use bigcp.Base.{◌≡◌, refl, Bool, true, false, none, some, [], ◌∷◌, ◌++◌, ok, arith, length, ◌≤◌}
use bigcp.Base.Bytes.{Bytes, ascii, bytes_eq, bytes_cmp}
use bigcp.Base.TreeMap.{values}
use bigcp.Journal.{
  CheckpointFileIdentity, Checkpoint, JournalEvent, checkpoint, part_done, Resumable,
}
use bigcp.Journal.Codec.{newline, crc_text, encode_record, hex8}
use bigcp.Journal.Reader.{filled}
use bigcp.Journal.Reader.Lines.{clip}
use bigcp.Journal.Reader.{max_record}
use bigcp.Journal.Replay.{empty_state, parse_line, strip_last, harvest_reclaimable}
use bigcp.Journal.Loader.{load_state}
use bigcp.Journal.Loader.Recovery.{absorb}
use bigcp.Journal.Loader.Interior.{skip, load-damaged}
use bigcp.Journal.Handle.{Journal, works, whole, AppendIo, append}
use bigcp.Journal.Compact.{PublishIo, CompactIo, compact}
use bigcp.Journal.Compact.Restore.{IsKept}
use bigcp.Journal.Compact.Survives.{Compacted, compact-Compacted}
use bigcp.Journal.Keys.{Hex, OsString, path_key, key_to_path}
use bigcp.Journal.Keys.RoundTrip.{key_to_path-path_key}
use bigcp.Journal.Temps.{take_reclaimable_temp}
use bigcp.Journal.Temps.Taken.{Taken, take_reclaimable_temp-Taken}
use bigcp.Journal.Temps.Harvest.{IsHarvest, harvest_reclaimable-IsHarvest}
use bigcp.Journal.Open.{OpenIo, open_journal, recover, open_loaded}
use bigcp.Journal.Kept.Opening.{IsWellKept}
use bigcp.Journal.Kept.Reachable.{opened, appends, IsReached-IsWellKept}
use bigcp.Journal.Samples.{
  sample_json, sample_laws, sample_write, sample_parse, sample_job, sample_checkpoint,
}

abbrev event_a : JournalEvent
event_a = part_done (ascii "a")

abbrev line_a : Bytes
line_a = ascii "{pa}" ++ newline ∷ []

encoded_a : encode_record sample_json event_a ≡ ok line_a
unfolding encode_record crc_text hex8 sample_write bytes_eq
encoded_a = refl

abbrev junk : Bytes
junk = ascii "junk"

junk_unreadable :
    (first : Bool) → parse_line sample_json first (clip (junk ++ newline ∷ [])) ≡ ok none
unfolding parse_line clip strip_last sample_parse
junk_unreadable true = refl
junk_unreadable false = refl

abbrev damaged_file : Bytes
damaged_file = line_a ++ (junk ++ newline ∷ line_a)

load-damaged_example :
    load_state sample_json (filled damaged_file ∷ [])
    ≡ some (
        ok (
          absorb
            ((event_a, line_a) ∷ [])
            (skip (junk ++ newline ∷ []) (absorb ((event_a, line_a) ∷ []) empty_state))))
load-damaged_example =
    load-damaged sample_json sample_laws ((event_a, line_a) ∷ []) [] junk event_a line_a
      (filled damaged_file ∷ []) (encoded_a, omega arith, tt) (encoded_a, omega arith, tt)
      (refl, (refl, (refl, (refl, tt)))) junk_unreadable tt (omega arith) refl

-- A hex crate that leaves the bytes as they are.
abbrev sample_hex : Hex
sample_hex = record { encode = λ b. b; decode = λ b. some b }

-- `C:\é` and a lone surrogate
abbrev sample_path : OsString
sample_path = ascii "C:" ++ 92 ∷ 233 ∷ 0xD800 ∷ []

key_to_path-path_key_example :
    key_to_path sample_hex (path_key sample_hex sample_path) ≡ some sample_path
key_to_path-path_key_example =
    key_to_path-path_key sample_hex (λ bytes h. refl) sample_path
      (omega arith, (omega arith, (omega arith, (omega arith, (omega arith, tt)))))

abbrev identity : CheckpointFileIdentity
identity = record { volume_serial = 7; file_id = ascii "00ff" }

abbrev kept_checkpoint : Bytes → Bytes → Checkpoint
kept_checkpoint path name = record (sample_checkpoint path) {
  temp_name = name;
  temp_identity = some identity;
}

abbrev sample_resumable : Resumable
sample_resumable =
    ((ascii "a", []), kept_checkpoint (ascii "a") (ascii "t1"))
    ∷ ((ascii "b", []), kept_checkpoint (ascii "b") (ascii "t1"))
    ∷ []

harvest_reclaimable-IsHarvest_example :
    ((harvest_reclaimable sample_resumable []).0 ≡ [])
    × IsHarvest (values sample_resumable) [] (harvest_reclaimable sample_resumable []).1
harvest_reclaimable-IsHarvest_example = harvest_reclaimable-IsHarvest sample_resumable []

abbrev two_checkpoints : Resumable
two_checkpoints =
    ((ascii "a", []), sample_checkpoint (ascii "a"))
    ∷ ((ascii "b", []), sample_checkpoint (ascii "b"))
    ∷ []

two_checkpoints-IsKept : IsKept two_checkpoints
unfolding bytes_cmp
two_checkpoints-IsKept = (((refl, tt), (tt, tt)), (refl, (refl, tt)))

abbrev sample_journal : Journal
sample_journal = record {
  path = ascii "j";
  is_open = true;
  disk = [];
  resumable = two_checkpoints;
  reclaimable =
      record {
        temp_name = ascii "t1";
        temp_identity = identity;
        relative_path = path_key sample_hex sample_path;
      }
      ∷ [];
  torn_tail = false;
  active_job = none;
  job_record = some (sample_job (ascii "s"));
  skipped_records = 0;
}

abbrev quiet_publish : PublishIo
quiet_publish = record {
  create = works;
  write = works;
  sync = works;
  keep = works;
  rename = works;
  sync_renamed = works;
  close = works;
}

abbrev quiet_compact : CompactIo
quiet_compact = record { publish = quiet_publish; reopen = works; seek = works }

fits :
    (event : JournalEvent) (written : Bytes)
    → encode_record sample_json event ≡ ok written
    → length written ≤ max_record
    → (line : Bytes) → encode_record sample_json event ≡ ok line
    → length line ≤ max_record
fits event written e short line h = let same : line ≡ written = cc in rw same short

abbrev line_s : Bytes
line_s = ascii "{js}" ++ newline ∷ []

encoded_s : encode_record sample_json (sample_job (ascii "s")) ≡ ok line_s
unfolding encode_record crc_text hex8 sample_write bytes_eq
encoded_s = refl

encoded_checkpoint_a :
    encode_record sample_json (checkpoint (sample_checkpoint (ascii "a")))
    ≡ ok (ascii "{ca}" ++ newline ∷ [])
unfolding encode_record crc_text hex8 sample_write bytes_eq
encoded_checkpoint_a = refl

encoded_checkpoint_b :
    encode_record sample_json (checkpoint (sample_checkpoint (ascii "b")))
    ≡ ok (ascii "{cb}" ++ newline ∷ [])
unfolding encode_record crc_text hex8 sample_write bytes_eq
encoded_checkpoint_b = refl

compact-Compacted_example :
    Compacted sample_json []
      (ascii "s")
      []
      []
      []
      two_checkpoints
      sample_journal
      (compact sample_json quiet_compact sample_journal)
compact-Compacted_example =
    compact-Compacted sample_json [] (ascii "s") [] [] [] two_checkpoints sample_laws
      two_checkpoints-IsKept
      (
        fits _ _ encoded_s (omega arith),
        (
          fits _ _ encoded_checkpoint_a (omega arith),
          (fits _ _ encoded_checkpoint_b (omega arith), tt),
        ),
      )
      quiet_compact sample_journal refl refl

take_reclaimable_temp-Taken_example :
    Taken sample_hex
      (λ path directory. true)
      (ascii "t1")
      []
      sample_journal
      (take_reclaimable_temp sample_hex (λ path directory. true) (ascii "t1") [] sample_journal)
take_reclaimable_temp-Taken_example =
    take_reclaimable_temp-Taken sample_hex (λ path directory. true) (ascii "t1") [] sample_journal

abbrev opening : OpenIo
opening = record {
  create_parent = works;
  exists = false;
  open_reader = works;
  reader = [];
  open_file = works;
  set_len = works;
  seek = works;
}

abbrev appending : AppendIo
appending = record {
  seek = works;
  probe = works;
  seek_again = works;
  heal = whole;
  write = whole;
  rollback = true;
  flush = works;
}

abbrev new_journal : Journal
new_journal = record {
  path = ascii "j";
  is_open = true;
  disk = [];
  resumable = [];
  reclaimable = [];
  torn_tail = false;
  active_job = none;
  job_record = none;
  skipped_records = 0;
}

opens : open_journal sample_json opening true (ascii "j") [] ≡ some (ok tt, new_journal)
unfolding open_journal recover open_loaded
opens = refl

IsReached-IsWellKept_example :
    IsWellKept
      (append sample_json appending (checkpoint (sample_checkpoint (ascii "a"))) new_journal).1
IsReached-IsWellKept_example =
    IsReached-IsWellKept sample_json sample_hex (λ path directory. true)
      (appends appending (checkpoint (sample_checkpoint (ascii "a"))) new_journal
        (opened opening true (ascii "j") [] new_journal opens))
