-- ===== src/Journal/Examples.antt =====
-- The theorems about the journal at sample journals.
mod Keeping
use bigcp.Base.{◌≡◌, refl, true, false, none, some, List, [], ◌∷◌, ◌++◌, ok, arith, take}
use bigcp.Base.Bytes.{Bytes, ascii, bytes_eq}
use bigcp.Errors.{IoError, other_kind}
use bigcp.Journal.{JournalEvent, part_done}
use bigcp.Journal.Codec.{newline, crc_text, encode_record, hex8}
use bigcp.Journal.Reader.{filled, Reader}
use bigcp.Journal.Reader.Lines.{content}
use bigcp.Journal.Replay.{empty_state}
use bigcp.Journal.Loader.{load_state}
use bigcp.Journal.Loader.Refines.{split_lines, replay_lines, load_state-replay}
use bigcp.Journal.Loader.Recovery.{Entry, disk_of, seen, absorb, load-written}
use bigcp.Journal.Loader.Damage.{after_cut, load_cut}
use bigcp.Journal.Open.{journal_of, open_journal}
use bigcp.Journal.Open.Truncates.{working, open_torn}
use bigcp.Journal.Handle.{Journal, works, whole, partial, AppendIo, append}
use bigcp.Journal.Handle.Appends.{AppendOutcome, append-outcome}
use bigcp.Journal.Samples.{sample_json, sample_laws, sample_write}

abbrev event_a : JournalEvent
event_a = part_done (ascii "a")

abbrev event_bc : JournalEvent
event_bc = part_done (ascii "bc")

abbrev line_a : Bytes
line_a = ascii "{pa}" ++ newline ∷ []

abbrev line_bc : Bytes
line_bc = ascii "{pbc}" ++ newline ∷ []

encoded_a : encode_record sample_json event_a ≡ ok line_a
unfolding encode_record crc_text hex8 sample_write bytes_eq
encoded_a = refl

encoded_bc : encode_record sample_json event_bc ≡ ok line_bc
unfolding encode_record crc_text hex8 sample_write bytes_eq
encoded_bc = refl

abbrev entries : List Entry
entries = (event_a, line_a) ∷ (event_bc, line_bc) ∷ []

-- The file in three buffers that cut its lines.
abbrev pieces : Reader
pieces =
    filled (ascii "{pa")
    ∷ filled (ascii "}" ++ newline ∷ ascii "{")
    ∷ filled (ascii "pbc}" ++ newline ∷ [])
    ∷ []

load_state-replay_example :
    load_state sample_json pieces
    ≡ some (replay_lines sample_json none (split_lines (content pieces)) empty_state)
load_state-replay_example = load_state-replay sample_json pieces tt (omega arith)

load-written_example : load_state sample_json pieces ≡ some (ok (absorb entries empty_state))
load-written_example =
    load-written sample_json sample_laws entries pieces
      (encoded_a, omega arith, (encoded_bc, omega arith, tt)) tt (omega arith) refl

load_cut_example :
    load_state sample_json (filled (line_a ++ take 2 line_bc) ∷ [])
    ≡ some (ok (after_cut (absorb ((event_a, line_a) ∷ []) empty_state) event_bc line_bc 2))
load_cut_example =
    load_cut sample_json sample_laws ((event_a, line_a) ∷ []) event_bc line_bc 2
      (filled (line_a ++ take 2 line_bc) ∷ []) (encoded_a, omega arith, tt) encoded_bc (omega arith)
      (omega arith) tt (omega arith) refl

abbrev torn_reader : Reader
torn_reader = filled (line_a ++ take 2 line_bc) ∷ []

open_torn_example :
    open_journal sample_json (working torn_reader) false (ascii "j") (content torn_reader)
    ≡ some (
      ok tt,
      journal_of
          (ascii "j")
          (disk_of ((event_a, line_a) ∷ []))
          (record (seen (absorb ((event_a, line_a) ∷ []) empty_state)) { torn_tail = true }),
    )
open_torn_example =
    open_torn sample_json sample_laws ((event_a, line_a) ∷ []) event_bc line_bc (ascii "j") 2
      torn_reader (encoded_a, omega arith, tt) encoded_bc (omega arith) (omega arith) (omega arith)
      tt (omega arith) refl

abbrev failure : IoError
failure = record { raw_os_error = none; kind = other_kind; text = [] }

abbrev torn_journal : Journal
torn_journal = record {
  path = ascii "j";
  is_open = true;
  disk = ascii "{pa";
  resumable = [];
  reclaimable = [];
  torn_tail = false;
  active_job = none;
  job_record = none;
  skipped_records = 0;
}

abbrev failing_write : AppendIo
failing_write = record {
  seek = works;
  probe = works;
  seek_again = works;
  heal = whole;
  write = partial 2 failure;
  rollback = false;
  flush = works;
}

append-outcome_example :
    AppendOutcome sample_json event_bc torn_journal
      (append sample_json failing_write event_bc torn_journal)
append-outcome_example = append-outcome sample_json event_bc failing_write torn_journal
