-- ===== src/Engine/Segments/Copy.antt =====
-- `copy_segment_range`, `copy_segment` and `record_segment_error` of engine.rs, under any
-- interleaving of the segment threads, and the join of `copy_streamed_segmented`.
use bigcp.Base.{
  ℕ, zero, suc, ◌+◌, ◌-◌, min, max, Bool, true, false, Option, none, some, List, [], ◌∷◌, map, ◌==◌,
  length, take, if◌then◌else◌,
}
use bigcp.Base.Bytes.{Bytes}
use bigcp.Base.Store.{Contents, read_at, write_at}
use bigcp.Counters.{saturating_add}
use bigcp.Errors.{OperationError}

-- Where a segment thread stands in its code.
pub data Pc : Type 0 where
  starting : Pc  -- before the open and the two seeks
  looping : Pc  -- at the loop's head
  reading : Pc  -- behind the poll of the stop flag
  holding : Bytes → Pc  -- between the read and the write
  finished : Pc  -- returned with no error after the flush
  gave_up : Pc  -- returned early

-- One thread: its range, the positions of its two handles, and its own counters.
pub record Segment : Type 0 where
  pub pc : Pc
  pub offset : ℕ
  pub count : ℕ
  pub source_position : ℕ
  pub writer_position : ℕ
  pub remaining : ℕ
  pub bytes_read : ℕ
  pub bytes_written : ℕ

-- What the threads share: the temporary, the stop flag, and the slot of the first error.
pub record Shared : Type 0 where
  pub temp : Contents
  pub stop : Bool
  pub first_error : Option OperationError

-- What the environment answers at a thread's next call.
pub data Answer : Type 0 where
  works : Answer  -- the open, a write or the flush succeeds
  canceled : OperationError → Answer  -- the poll finds a cancellation
  moves : ℕ → Answer  -- a read returns some bytes, none at the source's end
  fails : (written : ℕ) → OperationError → Answer  -- after some bytes, where it is a write

-- A step of some thread, or an error of the coordinator's digest pass.
pub data Event : Type 0 where
  thread : (index : ℕ) → Answer → Event
  digest_fails : OperationError → Event

unfoldable pub record_segment_error : OperationError → Shared → Shared
record_segment_error error shared = record shared {
  first_error = elim shared.first_error [ none ↦ some error | some first ↦ some first ];
  stop = true;
}

unfoldable pub bounded_buffer_len : (chunk_bytes remaining : ℕ) → ℕ
bounded_buffer_len chunk_bytes remaining = max (min remaining (max chunk_bytes 1)) 1

unfoldable pub fail_segment : OperationError → Segment → Shared → Segment × Shared
fail_segment error segment shared =
    (record segment { pc = gave_up }, record_segment_error error shared)

module _ (source : Contents) (chunk_bytes : ℕ) (truncated : OperationError) where
  -- A read takes at most the buffer and what is left.
  unfoldable pub take_read : ℕ → Segment → Shared → Segment × Shared
  unfolding fail_segment
  take_read n segment shared =
      let requested = min segment.remaining (bounded_buffer_len chunk_bytes segment.count) in
      let count = min n requested in
      if count == 0 then fail_segment truncated segment shared else (
        record segment {
          pc = holding (read_at source segment.source_position count);
          source_position = segment.source_position + count;
          bytes_read = saturating_add segment.bytes_read count;
        },
        shared,
      )

  -- One step of a thread, from one call to the next.
  unfoldable pub segment_turn : Pc → Answer → Segment → Shared → Segment × Shared
  unfolding fail_segment take_read
  segment_turn starting (fails _ error) segment shared = fail_segment error segment shared
  segment_turn starting _ segment shared = (
    record segment {
      pc = looping;
      source_position = segment.offset;
      writer_position = segment.offset;
    },
    shared,
  )
  segment_turn looping answer segment shared =
      if segment.remaining == 0
      then (elim answer [
        | fails _ error ↦ fail_segment error segment shared
        | _ ↦ (record segment { pc = finished }, shared)
      ])
      else if shared.stop
      then (record segment { pc = gave_up }, shared)
      else (record segment { pc = reading }, shared)
  segment_turn reading (canceled error) segment shared = fail_segment error segment shared
  segment_turn reading (fails _ error) segment shared = fail_segment error segment shared
  segment_turn reading (moves n) segment shared = take_read n segment shared
  segment_turn reading works segment shared = take_read segment.remaining segment shared
  segment_turn (holding bytes) (fails written error) segment shared =
      fail_segment error segment
        (record shared { temp = write_at shared.temp segment.writer_position (take written bytes) })
  segment_turn (holding bytes) _ segment shared = (
    record segment {
      pc = looping;
      writer_position = segment.writer_position + length bytes;
      bytes_written = saturating_add segment.bytes_written (length bytes);
      remaining = segment.remaining - length bytes;
    },
    record shared { temp = write_at shared.temp segment.writer_position bytes },
  )
  segment_turn finished answer segment shared = (segment, shared)
  segment_turn gave_up answer segment shared = (segment, shared)

  -- A turn of the thread with a given number.
  unfoldable pub turn_of : ℕ → Answer → List Segment → Shared → List Segment × Shared
  unfolding segment_turn
  turn_of index answer [] shared = ([], shared)
  turn_of zero answer (segment ∷ rest) shared =
      let (next, shared') = segment_turn segment.pc answer segment shared in (next ∷ rest, shared')
  turn_of (suc index) answer (segment ∷ rest) shared =
      let (rest', shared') = turn_of index answer rest shared in (segment ∷ rest', shared')

  unfoldable pub handle : Event → List Segment × Shared → List Segment × Shared
  unfolding turn_of record_segment_error
  handle (thread index answer) (segments, shared) = turn_of index answer segments shared
  handle (digest_fails error) (segments, shared) = (segments, record_segment_error error shared)

  unfoldable pub run_segments : List Event → List Segment × Shared → List Segment × Shared
  unfolding handle
  run_segments [] state = state
  run_segments (event ∷ events) state = run_segments events (handle event state)

unfoldable pub spawn : ℕ × ℕ → Segment
spawn (offset, count) = record {
  pc = starting;
  offset = offset;
  count = count;
  source_position = 0;
  writer_position = 0;
  remaining = count;
  bytes_read = 0;
  bytes_written = 0;
}

-- The state behind the spawns, on a temporary whose contents are not known.
unfoldable pub spawn_all : Contents → List (ℕ × ℕ) → List Segment × Shared
unfolding spawn
spawn_all temp ranges = (map spawn ranges, record { temp = temp; stop = false; first_error = none })

abbrev pub has_ended : Pc → Bool
has_ended finished = true
has_ended gave_up = true
has_ended _ = false

-- The bytes that the threads read and wrote, when all have ended; `none` while one runs.
unfoldable pub join_all : List Segment → Option (ℕ × ℕ)
join_all [] = some (0, 0)
join_all (segment ∷ rest) =
    if has_ended segment.pc
    then (elim (join_all rest) [
      | none ↦ none
      | some (read, written) ↦
          some
            (saturating_add segment.bytes_read read, saturating_add segment.bytes_written written)
    ])
    else none
