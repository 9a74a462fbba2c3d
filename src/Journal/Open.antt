-- ===== src/Journal/Open.antt =====
-- `Journal::open`: recovery of what an existing file says, and the file as it is opened.
pub mod Truncates
use bigcp.Base.{Bool, true, false, Option, none, some, [], Outcome, ok, err, take, if◌then◌else◌}
use bigcp.Base.Bytes.{Bytes}
use bigcp.Base.TreeMap.{bytes_ord, pair_ord}
use bigcp.Errors.{BigcpError, io}
use bigcp.Journal.Codec.{Json}
use bigcp.Journal.Reader.{Reader}
use bigcp.Journal.Replay.{LoadedState, empty_state, into_reclaimable}
use bigcp.Journal.Loader.{load_state}
use bigcp.Journal.Handle.{Journal, Attempt, works, breaks, Step, and_then, try}

pub record OpenIo : Type 0 where
  pub create_parent : Attempt
  pub exists : Bool
  pub open_reader : Attempt
  pub reader : Reader
  pub open_file : Attempt
  pub set_len : Attempt
  pub seek : Attempt

-- `--fresh` keeps of an old journal only the temporaries that it proves.
abbrev pub harvested_state : Outcome BigcpError LoadedState → LoadedState
harvested_state (ok previous) = record empty_state { reclaimable = into_reclaimable previous }
harvested_state (err _) = empty_state

abbrev pub recovered :
    Bool → Option (Outcome BigcpError LoadedState) → Option (Outcome BigcpError LoadedState)
recovered fresh none = none
recovered false (some loaded) = some loaded
recovered true (some loaded) = some (ok (harvested_state loaded))

-- The journal that a loaded state stands for, over what the opened file holds.
abbrev pub journal_of : Bytes → Bytes → LoadedState → Journal
journal_of path disk loaded = record {
  path = path;
  is_open = true;
  disk = disk;
  resumable = loaded.resumable;
  reclaimable = loaded.reclaimable;
  torn_tail = loaded.torn_tail;
  active_job = loaded.active_job;
  job_record = none;
  skipped_records = loaded.skipped_records;
}

abbrev pub cut_tail : LoadedState → Journal → Journal
cut_tail loaded journal = record journal { disk = take loaded.valid_length journal.disk }

abbrev pub cut_if : Bool → Attempt → LoadedState → Journal → Step
cut_if false set_len loaded journal = (ok tt, journal)
cut_if true set_len loaded journal =
    and_then (try "truncate torn journal tail" set_len journal)
      λ opened. (ok tt, cut_tail loaded opened)

-- `Journal::open` over a file that holds `disk`. An error comes with the file as it is left.
unfoldable pub open_loaded : OpenIo → Bool → Bytes → Bytes → LoadedState → Step
open_loaded calls fresh path disk loaded =
    let journal = journal_of path (if fresh then [] else disk) loaded in
    let untouched = journal_of path disk loaded in
    and_then (try "open journal for append" calls.open_file untouched) λ _.
      and_then (cut_if loaded.torn_tail calls.set_len loaded journal)
        λ cut. try "seek journal" calls.seek cut

abbrev pub open_with :
    OpenIo → Bool → Bytes → Bytes → Option (Outcome BigcpError LoadedState) → Option Step
open_with calls fresh path disk none = none
open_with calls fresh path disk (some (err e)) = some (err e, journal_of path disk empty_state)
open_with calls fresh path disk (some (ok loaded)) = some (open_loaded calls fresh path disk loaded)

module _ {Value : Type 0} (json : Json Value) where
  -- `load_state` of a path: the file is opened to be read, and loaded.
  abbrev pub load_path : Attempt → Reader → Option (Outcome BigcpError LoadedState)
  load_path (breaks e) reader = some (err (io "open journal" e))
  load_path works reader = load_state json reader

  unfoldable pub recover : OpenIo → Bool → Option (Outcome BigcpError LoadedState)
  recover calls fresh =
      if calls.exists
      then recovered fresh (load_path calls.open_reader calls.reader)
      else some (ok empty_state)

  abbrev pub open_below : Attempt → OpenIo → Bool → Bytes → Bytes → Option Step
  open_below (breaks e) calls fresh path disk =
      some (err (io "create journal parent" e), journal_of path disk empty_state)
  open_below works calls fresh path disk = open_with calls fresh path disk (recover calls fresh)

  unfoldable pub open_journal : OpenIo → Bool → Bytes → Bytes → Option Step
  open_journal calls fresh path disk = open_below calls.create_parent calls fresh path disk
