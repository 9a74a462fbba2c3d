-- ===== src/Journal/Kept/Opening.antt =====
-- A journal as it is opened is in order, whatever its file holds.
use bigcp.Base.{Bool, true, false, Option, none, some, [], Outcome, ok, err, if◌then◌else◌}
use bigcp.Base.Bytes.{Bytes}
use bigcp.Errors.{BigcpError}
use bigcp.Journal.{JournalEvent, job, checkpoint, part_done, end}
use bigcp.Journal.Codec.{Json}
use bigcp.Journal.Replay.{LoadedState, empty_state}
use bigcp.Journal.Handle.{Journal, Attempt, works, breaks, Step, and_then, try}
use bigcp.Journal.Reader.{Reader}
use bigcp.Journal.Open.{
  load_path, OpenIo, open_journal, recover, recovered, open_with, open_below, open_loaded,
  journal_of, cut_if,
}
use bigcp.Journal.Compact.Restore.{IsKept}
use bigcp.Journal.Kept.Loading.{KeptLoad, load_state-KeptLoad}

abbrev pub IsJobRecord : Option JournalEvent → Type 0
IsJobRecord none = Unit
IsJobRecord (some (job _ _ _ _ _)) = Unit
IsJobRecord (some (checkpoint _)) = ⊥
IsJobRecord (some (part_done _)) = ⊥
IsJobRecord (some (end _)) = ⊥

abbrev pub IsWellKept : Journal → Type 0
IsWellKept journal = IsKept journal.resumable × IsJobRecord journal.job_record

-- What `open` gives is in order, also the journal that comes with an error.
abbrev pub KeptStep : Option Step → Type 0
KeptStep none = Unit
KeptStep (some step) = IsWellKept step.1

module _ {Value : Type 0} (json : Json Value) where
  cut_if-IsWellKept :
      (torn : Bool) (set_len : Attempt) (loaded : LoadedState) (journal : Journal)
      → IsWellKept journal
      → IsWellKept (cut_if torn set_len loaded journal).1
  cut_if-IsWellKept false set_len loaded journal kept = kept
  cut_if-IsWellKept true works loaded journal kept = kept
  cut_if-IsWellKept true (breaks e) loaded journal kept = kept

  try_after-IsWellKept :
      (step : Step) (seek : Attempt)
      → IsWellKept step.1
      → IsWellKept (and_then step λ cut. try "seek journal" seek cut).1
  try_after-IsWellKept (ok _, journal) works kept = kept
  try_after-IsWellKept (ok _, journal) (breaks e) kept = kept
  try_after-IsWellKept (err e, journal) seek kept = kept

  open_loaded-IsWellKept :
      (calls : OpenIo) (fresh : Bool) (path disk : Bytes) (loaded : LoadedState)
      → IsKept loaded.resumable
      → IsWellKept (open_loaded calls fresh path disk loaded).1
  unfolding open_loaded
  open_loaded-IsWellKept calls fresh path disk loaded kept = go calls.open_file
    where
      go :
          (open_file : Attempt)
          → IsWellKept
              (and_then (try "open journal for append" open_file (journal_of path disk loaded)) λ _.
                and_then
                  (cut_if loaded.torn_tail calls.set_len loaded
                    (journal_of path (if fresh then [] else disk) loaded))
                  λ cut. try "seek journal" calls.seek cut).1
      go (breaks e) = (kept, tt)
      go works =
          try_after-IsWellKept _ calls.seek
            (cut_if-IsWellKept loaded.torn_tail calls.set_len loaded _ (kept, tt))

  open_with-KeptStep :
      (calls : OpenIo) (fresh : Bool) (path disk : Bytes)
      (loaded : Option (Outcome BigcpError LoadedState))
      → KeptLoad loaded
      → KeptStep (open_with calls fresh path disk loaded)
  open_with-KeptStep calls fresh path disk none kept = tt
  open_with-KeptStep calls fresh path disk (some (err e)) kept = ((tt, tt), tt)
  open_with-KeptStep calls fresh path disk (some (ok loaded)) kept =
      open_loaded-IsWellKept calls fresh path disk loaded kept

  recovered-KeptLoad :
      (fresh : Bool) (loaded : Option (Outcome BigcpError LoadedState))
      → KeptLoad loaded
      → KeptLoad (recovered fresh loaded)
  recovered-KeptLoad fresh none kept = tt
  recovered-KeptLoad false (some loaded) kept = kept
  recovered-KeptLoad true (some (ok state)) kept = (tt, tt)
  recovered-KeptLoad true (some (err e)) kept = (tt, tt)

  load_path-KeptLoad :
      (opened : Attempt) (reader : Reader) → KeptLoad (load_path json opened reader)
  load_path-KeptLoad (breaks e) reader = tt
  load_path-KeptLoad works reader = load_state-KeptLoad json reader

  recover-KeptLoad : (calls : OpenIo) (fresh : Bool) → KeptLoad (recover json calls fresh)
  unfolding recover
  recover-KeptLoad calls fresh = go calls.exists
    where
      go :
          (exists : Bool)
          → KeptLoad (
              if exists
              then recovered fresh (load_path json calls.open_reader calls.reader)
              else some (ok empty_state))
      go true = recovered-KeptLoad fresh _ (load_path-KeptLoad calls.open_reader calls.reader)
      go false = (tt, tt)

  pub open_journal-KeptStep :
      (calls : OpenIo) (fresh : Bool) (path disk : Bytes)
      → KeptStep (open_journal json calls fresh path disk)
  unfolding open_journal
  open_journal-KeptStep calls fresh path disk = go calls.create_parent
    where
      go : (create : Attempt) → KeptStep (open_below json create calls fresh path disk)
      go works = open_with-KeptStep calls fresh path disk _ (recover-KeptLoad calls fresh)
      go (breaks e) = ((tt, tt), tt)
