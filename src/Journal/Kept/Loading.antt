-- ===== src/Journal/Kept/Loading.antt =====
-- The loader recovers a journal that is in order, whatever the file holds.
use bigcp.Base.{ℕ, zero, suc, Bool, true, false, Option, none, some, Outcome, ok, err, ◌>>=◌, ◌==◌}
use bigcp.Errors.{IoError, BigcpError, io}
use bigcp.Journal.{StoredRecord}
use bigcp.Journal.Codec.{Json}
use bigcp.Journal.Reader.{Reader, Line, read_bounded_record, reader_size}
use bigcp.Journal.Replay.{LoadedState, empty_state, parse_line, settle, apply_loaded_line}
use bigcp.Journal.Loader.{close_with, advance, finish, pass, load_loop, load_state}
use bigcp.Journal.Loader.Recovery.{seen}
use bigcp.Journal.Compact.Restore.{IsKept}
use bigcp.Journal.Kept.{apply_event-IsKept}

-- If a state comes out, it is in order.
abbrev pub KeptResult : Outcome BigcpError LoadedState → Type 0
KeptResult (ok state) = IsKept state.resumable
KeptResult (err _) = Unit

abbrev pub KeptLoad : Option (Outcome BigcpError LoadedState) → Type 0
KeptLoad none = Unit
KeptLoad (some result) = KeptResult result

abbrev KeptPair : Outcome BigcpError (Bool × LoadedState) → Type 0
KeptPair (ok (_, state)) = IsKept state.resumable
KeptPair (err _) = Unit

close_with-IsKept :
    (line : Line) (b : Bool) (state : LoadedState)
    → IsKept state.resumable
    → IsKept (close_with line (b, state)).resumable
close_with-IsKept line true state kept = kept
close_with-IsKept line false state kept = kept

finish_with-KeptResult :
    (line : Line) (applied : Outcome BigcpError (Bool × LoadedState))
    → KeptPair applied
    → KeptResult (do r ← applied; ok (close_with line r))
finish_with-KeptResult line (ok (b, state)) kept = close_with-IsKept line b state kept
finish_with-KeptResult line (err e) kept = tt

pass_with-KeptResult :
    (line : Line) (applied : Outcome BigcpError (Bool × LoadedState))
    → KeptPair applied
    → KeptResult (do r ← applied; ok (advance line r.1))
pass_with-KeptResult line (ok (b, state)) kept = kept
pass_with-KeptResult line (err e) kept = tt

module _ {Value : Type 0} (json : Json Value) where
  settle-KeptPair :
      (parsed : Outcome BigcpError (Option StoredRecord)) (is_last : Bool) (state : LoadedState)
      → IsKept state.resumable
      → KeptPair (do p ← parsed; ok (settle json p is_last state))
  settle-KeptPair (err e) is_last state kept = tt
  settle-KeptPair (ok none) true state kept = kept
  settle-KeptPair (ok none) false state kept = kept
  settle-KeptPair (ok (some stored)) is_last state kept = apply_event-IsKept stored.event state kept

  apply_loaded_line-KeptPair :
      (line : Line) (is_last : Bool) (state : LoadedState)
      → IsKept state.resumable
      → KeptPair (apply_loaded_line json line is_last state)
  unfolding apply_loaded_line
  apply_loaded_line-KeptPair line is_last state kept =
      settle-KeptPair (parse_line json (state.records_seen == 0) line) is_last (seen state) kept

  finish-KeptResult :
      (pending : Option Line) (state : LoadedState)
      → IsKept state.resumable
      → KeptResult (finish json pending state)
  unfolding finish
  finish-KeptResult none state kept = kept
  finish-KeptResult (some line) state kept =
      finish_with-KeptResult line (apply_loaded_line json line true state)
        (apply_loaded_line-KeptPair line true state kept)

  pass-KeptResult :
      (pending : Option Line) (state : LoadedState)
      → IsKept state.resumable
      → KeptResult (pass json pending state)
  unfolding pass
  pass-KeptResult none state kept = kept
  pass-KeptResult (some line) state kept =
      pass_with-KeptResult line (apply_loaded_line json line false state)
        (apply_loaded_line-KeptPair line false state kept)

  -- One round of the loop, by what the read and the line before it give.
  round-KeptLoad :
      (fuel : ℕ) (rest : Reader) (pending : Option Line) (state : LoadedState)
      (result : Outcome IoError (Option Line)) (passed : Outcome BigcpError LoadedState)
      → IsKept state.resumable
      → KeptResult passed
      → ((line : Line) (next : LoadedState)
          → IsKept next.resumable
          → KeptLoad (load_loop json fuel rest (some line) next))
      → KeptLoad (elim result [
        | err error ↦ some (err (io "read journal" error))
        | ok none ↦ some (finish json pending state)
        | ok (some line) ↦ elim passed [
          | err error ↦ some (err error)
          | ok next ↦ load_loop json fuel rest (some line) next
        ]
      ])
  round-KeptLoad fuel rest pending state (err e) passed kept next_kept again = tt
  round-KeptLoad fuel rest pending state (ok none) passed kept next_kept again =
      finish-KeptResult pending state kept
  round-KeptLoad fuel rest pending state (ok (some line)) (err e) kept next_kept again = tt
  round-KeptLoad fuel rest pending state (ok (some line)) (ok next) kept next_kept again =
      again line next next_kept

  load_loop-KeptLoad :
      (fuel : ℕ) (reader : Reader) (pending : Option Line) (state : LoadedState)
      → IsKept state.resumable
      → KeptLoad (load_loop json fuel reader pending state)
  unfolding load_loop
  load_loop-KeptLoad zero reader pending state kept = tt
  load_loop-KeptLoad (suc fuel) reader pending state kept =
      let (result, rest) = read_bounded_record reader in
      round-KeptLoad fuel rest pending state result (pass json pending state) kept
        (pass-KeptResult pending state kept)
        (λ line next. load_loop-KeptLoad fuel rest (some line) next)

  pub load_state-KeptLoad : (reader : Reader) → KeptLoad (load_state json reader)
  unfolding load_state
  load_state-KeptLoad reader =
      load_loop-KeptLoad (suc (reader_size reader)) reader none empty_state (tt, tt)
