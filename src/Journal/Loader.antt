-- ===== src/Journal/Loader.antt =====
-- `load_state`: the loop over the lines of a journal, with one line of lookahead, so that an invalid
-- last line is told apart from an invalid line before it. The loop runs on fuel, `none` when it is
-- out; `load_state` gives it more than the reader has bytes and buffers.
pub mod Refines
pub mod Written
pub mod Recovery
pub mod Damage
pub mod Interior
use bigcp.Base.{
  ℕ, zero, suc, ◌+◌, Bool, true, false, Option, none, some, List, [], ◌∷◌, Outcome, ok, err, ◌>>=◌,
  length,
}
use bigcp.Base.Bytes.{Bytes}
use bigcp.Counters.{saturating_add}
use bigcp.Errors.{IoError, BigcpError, io}
use bigcp.Journal.Codec.{Json}
use bigcp.Journal.Reader.{Fill, filled, fails, Reader, Line, reader_size, read_bounded_record}
use bigcp.Journal.Replay.{LoadedState, empty_state, apply_loaded_line}

abbrev pub advance : Line → LoadedState → LoadedState
advance line state = record state { valid_length = saturating_add state.valid_length line.consumed }

-- The last line is kept, or it is a torn tail.
abbrev pub close_with : Line → Bool × LoadedState → LoadedState
close_with line (true, state) = advance line state
close_with line (false, state) = record state { torn_tail = true }

module _ {Value : Type 0} (json : Json Value) where
  -- At the end of the file.
  unfoldable pub finish : Option Line → LoadedState → Outcome BigcpError LoadedState
  finish none state = ok state
  finish (some pending) state = do
    applied ← apply_loaded_line json pending true state
    ok (close_with pending applied)

  -- A line before another one.
  unfoldable pub pass : Option Line → LoadedState → Outcome BigcpError LoadedState
  pass none state = ok state
  pass (some pending) state = do
    applied ← apply_loaded_line json pending false state
    ok (advance pending applied.1)

  unfoldable pub load_loop :
      ℕ → Reader → Option Line → LoadedState → Option (Outcome BigcpError LoadedState)
  load_loop zero reader pending state = none
  load_loop (suc fuel) reader pending state =
      let (result, rest) = read_bounded_record reader in
      elim result [
        | err error ↦ some (err (io "read journal" error))
        | ok none ↦ some (finish pending state)
        | ok (some line) ↦ elim (pass pending state) [
          | err error ↦ some (err error)
          | ok next ↦ load_loop fuel rest (some line) next
        ]
      ]

  unfoldable pub load_state : Reader → Option (Outcome BigcpError LoadedState)
  unfolding load_loop finish pass
  load_state reader = load_loop (suc (reader_size reader)) reader none empty_state
