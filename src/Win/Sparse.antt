-- ===== src/Win/Sparse.antt =====
-- crates/win/src/sparse.rs: the enumeration of a sparse file's allocated ranges. What each
-- `DeviceIoControl` answers is an argument; the loop runs on the list of the answers, and is out of
-- answers where that list ends.
pub mod Ordered
pub mod Enumerates
mod Examples
use bigcp.Base.{
  ℕ, ◌+◌, ◌-◌, ◌*◌, ◌/◌, ◌%◌, ◌^◌, Bool, true, false, not, ◌||◌, Option, none, some, List, [], ◌∷◌,
  ◌++◌, Outcome, ok, err, ◌>>=◌, ltb, leb, ◌==◌, take, if◌then◌else◌,
}
use bigcp.Base.Bytes.{ascii}
use bigcp.Base.Int.{ℤ, pos, negsuc}
use bigcp.Counters.{u64_max}
use bigcp.Errors.{IoError, other_kind, io_error_new}

-- `RANGE_BATCH`, and the bytes of a `FILE_ALLOCATED_RANGE_BUFFER`
abbrev pub range_batch : ℕ
range_batch = 1024

abbrev pub record_size : ℕ
record_size = 16

abbrev pub i64_max : ℕ
i64_max = 2 ^ 63 - 1

pub record AllocatedRange : Type 0 where
  pub offset : ℕ
  pub extent : ℕ  -- `length`

-- `FILE_ALLOCATED_RANGE_BUFFER`
pub record RawRange : Type 0 where
  pub file_offset : ℤ
  pub raw_length : ℤ

abbrev pub invalid_data : List ℕ → IoError
invalid_data text = io_error_new other_kind text

-- `u64::try_from` of an `i64`
abbrev pub try_u64 : IoError → ℤ → Outcome IoError ℕ
try_u64 e (pos n) = ok n
try_u64 e (negsuc n) = err e

-- `checked_add(…).ok_or_else(overflow)`
abbrev pub checked_end : ℕ → ℕ → Outcome IoError ℕ
checked_end offset extent =
    if ltb u64_max (offset + extent)
    then err (invalid_data (ascii "sparse range overflow"))
    else ok (offset + extent)

abbrev pub check_range : Bool → ℕ → ℕ → Outcome IoError AllocatedRange
check_range true offset extent =
    err (invalid_data (ascii "filesystem returned an invalid or overlapping sparse range"))
check_range false offset extent = ok (record { offset = offset; extent = extent })

unfoldable pub validated_range : RawRange → ℕ → ℕ → Outcome IoError AllocatedRange
validated_range raw minimum_offset logical_size = do
  offset ← try_u64 (invalid_data (ascii "negative sparse range offset")) raw.file_offset
  extent ← try_u64 (invalid_data (ascii "negative sparse range length")) raw.raw_length
  end ← checked_end offset extent
  check_range (extent == 0 || (ltb offset minimum_offset || ltb logical_size end)) offset extent

-- What one call answers: success, an error that says there is more, or another error; with the
-- bytes that it returned and the records of its buffer.
pub data Status : Type 0 where
  complete : Status
  more_data : Status
  broken : IoError → Status

pub record Answer : Type 0 where
  pub status : Status
  pub returned : ℕ
  pub output : List RawRange

abbrev pub more_of : Status → Outcome IoError Bool
more_of complete = ok false
more_of more_data = ok true
more_of (broken e) = err e

-- `for raw in &output[..count]`, with the end of the range before it.
unfoldable pub validate_all :
    List RawRange → ℕ → ℕ → List AllocatedRange → Outcome IoError (ℕ × List AllocatedRange)
validate_all [] next logical_size ranges = ok (next, ranges)
validate_all (raw ∷ raws) next logical_size ranges = do
  range ← validated_range raw next logical_size
  end ← checked_end range.offset range.extent
  validate_all raws end logical_size (ranges ++ range ∷ [])

-- Whether the loop goes on, and from where, or is done.
pub data Progress : Type 0 where
  done : List AllocatedRange → Progress
  continue_at : ℕ → List AllocatedRange → Progress

abbrev pub advance_to : ℕ → Bool → ℕ × List AllocatedRange → Outcome IoError Progress
advance_to cursor more (next, ranges) =
    if leb next cursor
    then err (invalid_data (ascii "sparse range enumeration made no progress"))
    else ok (if more then continue_at next ranges else done ranges)

abbrev pub take_records : Answer → ℕ → ℕ → List AllocatedRange → Bool → Outcome IoError Progress
take_records answer cursor logical_size ranges more =
    let count = answer.returned / record_size in
    if not (answer.returned % record_size == 0) || ltb range_batch count
    then err (invalid_data (ascii "filesystem returned malformed sparse ranges"))
    else if count == 0
    then (if more
        then err (invalid_data (ascii "filesystem reported more sparse ranges but returned none"))
        else ok (done ranges))
    else (do
      validated ← validate_all (take count answer.output) cursor logical_size ranges
      advance_to cursor more validated)

-- One round of the `while`.
abbrev pub query_once : Answer → ℕ → ℕ → List AllocatedRange → Outcome IoError Progress
query_once answer cursor logical_size ranges =
    if ltb i64_max cursor
    then err (io_error_new other_kind (ascii "sparse offset exceeds i64"))
    else if ltb i64_max (logical_size - cursor)
    then err (io_error_new other_kind (ascii "sparse length exceeds i64"))
    else (do more ← more_of answer.status; take_records answer cursor logical_size ranges more)

unfoldable pub query_loop :
    List Answer → ℕ → ℕ → List AllocatedRange → Option (Outcome IoError (List AllocatedRange))
query_loop [] cursor logical_size ranges =
    if ltb cursor logical_size then none else some (ok ranges)
query_loop (answer ∷ answers) cursor logical_size ranges =
    let round = query_once answer cursor logical_size ranges in
    if ltb cursor logical_size
    then elim round [
      | err e ↦ some (err e)
      | ok (done found) ↦ some (ok found)
      | ok (continue_at next found) ↦ query_loop answers next logical_size found
    ]
    else some (ok ranges)

-- A file of no bytes is not asked about.
unfoldable pub query_allocated_ranges :
    List Answer → ℕ → Option (Outcome IoError (List AllocatedRange))
query_allocated_ranges answers logical_size =
    if logical_size == 0 then some (ok []) else query_loop answers 0 logical_size []
