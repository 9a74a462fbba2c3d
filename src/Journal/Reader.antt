-- ===== src/Journal/Reader.antt =====
-- `read_bounded_record`: one line from a buffered reader, of which at most `max_record` bytes are
-- kept. The reader is the list of what its `fill_buf` calls return: a buffer, an empty one at the
-- end of the file, or an error. A failed allocation is not modelled.
pub mod Lines
pub mod Rounds
use bigcp.Base.{
  ℕ, zero, suc, ◌+◌, ◌-◌, ◌*◌, min, Bool, true, false, ◌||◌, Option, none, some, List, [], ◌∷◌,
  ◌++◌, Outcome, ok, err, ltb, ◌==◌, length, take, drop, last?, if◌then◌else◌,
}
use bigcp.Base.Bytes.{Bytes, ascii}
use bigcp.Counters.{u64_max}
use bigcp.Errors.{IoError, other_kind, io_error_new}
use bigcp.Journal.Codec.{newline}

-- `MAX_JOURNAL_RECORD_BYTES`
abbrev pub max_record : ℕ
max_record = 1024 * 1024

pub data Fill : Type 0 where
  filled : Bytes → Fill
  fails : IoError → Fill

abbrev pub Reader : Type 0
Reader = List Fill

-- `position(|byte| *byte == b'\n').map_or(len, |index| index + 1)`
unfoldable pub record_end : Bytes → ℕ
record_end [] = 0
record_end (b ∷ bs) = let rest = record_end bs in if b == newline then 1 else suc rest

abbrev pub is_newline : Option ℕ → Bool
is_newline none = false
is_newline (some b) = b == newline

-- What is left of a buffer after `consume`.
abbrev pub put_back : Bytes → Reader → Reader
put_back [] reader = reader
put_back (b ∷ bs) reader = filled (b ∷ bs) ∷ reader

-- A line as it was read: the bytes that were kept, how many it has on disk, and whether more were
-- dropped.
pub record Line : Type 0 where
  pub retained : Bytes
  pub consumed : ℕ
  pub oversized : Bool

abbrev pub no_line : Line
no_line = record { retained = []; consumed = 0; oversized = false }

-- `(consumed != 0).then_some(…)`
abbrev pub at_end : Line → Option Line
at_end line = if line.consumed == 0 then none else some line

abbrev pub length_overflowed : IoError
length_overflowed = io_error_new other_kind (ascii "journal record length overflowed")

-- The line after one more buffer.
unfoldable pub extend : Bytes → Line → Line
extend buffer line =
    let stop = record_end buffer in
    let keep = min stop (max_record - length line.retained) in
    record {
      retained = line.retained ++ take keep buffer;
      consumed = line.consumed + stop;
      oversized = line.oversized || ltb keep stop;
    }

-- The `loop`. A buffer with no newline is consumed whole, so the loop goes on with the next one.
unfoldable pub read_loop : Reader → Line → Outcome IoError (Option Line) × Reader
unfolding extend
read_loop [] line = (ok (at_end line), [])
read_loop (fails e ∷ reader) line = (err e, reader)
read_loop (filled [] ∷ reader) line = (ok (at_end line), reader)
read_loop (filled (b ∷ bs) ∷ reader) line =
    let buffer : Bytes = b ∷ bs in
    let stop = record_end buffer in
    let again = read_loop reader (extend buffer line) in
    if ltb u64_max (line.consumed + stop)
    then (err length_overflowed, filled buffer ∷ reader)
    else if is_newline (last? (take stop buffer))
    then (ok (some (extend buffer line)), put_back (drop stop buffer) reader)
    else again

unfoldable pub read_bounded_record : Reader → Outcome IoError (Option Line) × Reader
unfolding read_loop
read_bounded_record reader = read_loop reader no_line

-- The buffers and the bytes that a reader has left.
abbrev pub reader_size : Reader → ℕ
reader_size [] = 0
reader_size (filled buffer ∷ reader) = suc (length buffer + reader_size reader)
reader_size (fails _ ∷ reader) = suc (reader_size reader)
