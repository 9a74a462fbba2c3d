-- ===== src/Engine/Transfer.antt =====
-- `StreamBuffers`, `transfer_segment`, `transfer_same_spindle_burst` and `transfer_redirector_segment`
-- of engine.rs: up to `bound` bytes of a stream go from the source to the destination through the
-- run's transport. The counters of actual I/O, which the transports return, are left out.
pub mod Moved
pub mod Arrives
pub mod Piped
pub mod Delivered
pub mod Examples
use bigcp.Base.{
  ℕ, zero, suc, ◌+◌, ◌-◌, min, Bool, Option, none, some, List, [], ◌∷◌, ◌++◌, Outcome, ok, err, ltb,
  ◌==◌, not, length, take, drop, if◌then◌else◌,
}
use bigcp.Base.Bytes.{Bytes}
use bigcp.Errors.{OperationError}
use bigcp.Profile.Data.{pipeline_buffers, local_pipeline_buffers}
use bigcp.Transport.Pipeline.{Turn, FailureKind, Transferred, transfer_pipelined, returned}
use bigcp.Transport.Burst.{Cause, Call, Phase, read_from, write_to, buffer_capacity, buffer_request}

pub data StreamBuffers : Type 0 where
  standard : (buffer_len : ℕ) → StreamBuffers
  pipelined : (request_bytes depth : ℕ) → StreamBuffers
  same_spindle : (capacity request_bytes : ℕ) → StreamBuffers

-- A stream on its way: what is left of the source, what the destination holds, and what the hasher was
-- given, if there is one.
pub record Moving : Type 0 where
  pub rest : Bytes
  pub file : Bytes
  pub hasher : Option Bytes

abbrev pub feed : Option Bytes → Bytes → Option Bytes
feed none bytes = none
feed (some fed) bytes = some (fed ++ bytes)

-- A round of the request-at-a-time loop. The errors are those that the code composes.
pub data Round : Type 0 where
  carries : ℕ → Round  -- a read gives bytes, and they are written
  read_fails : OperationError → Round  -- or the poll finds a cancellation
  write_fails : (n written : ℕ) → OperationError → Round

-- What the environment does during a call, by transport.
abbrev pub Script : StreamBuffers → Type 0
Script (standard _) = List Round
Script (pipelined _ _) = List Turn
Script (same_spindle _ _) = List Call × List Call

abbrev pub SegmentResult : Type 0
SegmentResult = Option (Outcome OperationError ℕ × Moving)

-- How the causes of the transports become errors, and the error of a source that ends early.
pub record Messages : Type 0 where
  pub truncated : OperationError
  pub read_error : Cause → OperationError
  pub write_error : Cause → OperationError
  pub pipeline_error : FailureKind → OperationError

module _ (messages : Messages) where
  unfoldable pub carry : ℕ → Moving → Moving
  carry count m = record m {
    rest = drop count m.rest;
    file = m.file ++ take count m.rest;
    hasher = feed m.hasher (take count m.rest);
  }

  unfoldable pub standard_loop :
      (buffer_len bound : ℕ) → List Round → (moved : ℕ) → Moving → SegmentResult
  unfolding carry
  standard_loop buffer_len bound [] moved m = if ltb moved bound then none else some (ok moved, m)
  standard_loop buffer_len bound (round ∷ rounds) moved m =
      let count = λ (n : ℕ). min (suc n) (min (min (bound - moved) buffer_len) (length m.rest)) in
      let next : SegmentResult = elim round [
        | carries n ↦
            (let more =
                standard_loop buffer_len bound rounds (moved + count n) (carry (count n) m) in
              if count n == 0 then some (err messages.truncated, m) else more)
        | read_fails e ↦ some (err e, m)
        | write_fails n written e ↦ some (
          err e,
          record m {
            rest = drop (count n) m.rest;
            file = m.file ++ take (min written (count n)) m.rest;
            hasher = feed m.hasher (take (count n) m.rest);
          },
        )
      ] in
      if ltb moved bound then next else some (ok moved, m)

  -- The write phase of a burst, with the buffer's bytes.
  unfoldable pub burst_writes : Bytes → Phase → Moving → SegmentResult
  burst_writes buffer none m = none
  burst_writes buffer (some (ok n, _, file)) m =
      some (ok n, record m { file = file; hasher = feed m.hasher buffer })
  burst_writes buffer (some (err (cause, _), _, file)) m =
      some
        (err (messages.write_error cause), record m { file = file; hasher = feed m.hasher buffer })

  unfoldable pub same_spindle_burst :
      (request_bytes requested : ℕ) → Phase → List Call → Moving → SegmentResult
  unfolding burst_writes
  same_spindle_burst request_bytes requested none writes m = none
  same_spindle_burst request_bytes requested (some (err (cause, _), _, rest)) writes m =
      some (err (messages.read_error cause), record m { rest = rest })
  same_spindle_burst request_bytes requested (some (ok n, buffer, rest)) writes m =
      if not (n == requested)
      then some (err messages.truncated, record m { rest = rest })
      else burst_writes buffer (write_to request_bytes 0 writes buffer m.file)
          (record m { rest = rest })

  unfoldable pub pipelined_segment :
      Option (Outcome (FailureKind × Transferred) Transferred) → Moving → SegmentResult
  pipelined_segment none m = none
  pipelined_segment (some (ok transfer)) m = some (ok transfer.bytes_written, m)
  pipelined_segment (some (err (kind, _))) m = some (err (messages.pipeline_error kind), m)

  unfoldable pub transfer_segment :
      (buffers : StreamBuffers) → Script buffers → (bound : ℕ) → Moving → SegmentResult
  unfolding standard_loop same_spindle_burst pipelined_segment
  transfer_segment (standard buffer_len) rounds bound m = standard_loop buffer_len bound rounds 0 m
  transfer_segment (pipelined request_bytes depth) schedule bound m =
      let pipe = transfer_pipelined m.rest bound request_bytes depth schedule in
      pipelined_segment (returned pipe) (record m {
        rest = pipe.rest;
        file = m.file ++ pipe.written;
        hasher = feed m.hasher pipe.consumed;
      })
  transfer_segment (same_spindle capacity request_bytes) (reads, writes) bound m =
      let requested = min bound capacity in
      same_spindle_burst request_bytes requested (read_from request_bytes requested reads [] m.rest)
        writes m

-- `StreamBuffers::new` and `for_unnamed_stream`; `none` is the error of a zero chunk.
unfoldable pub stream_buffers :
    (is_same_spindle is_redirector : Bool) (burst_bytes burst_request request_bytes remaining : ℕ)
    → Option StreamBuffers
stream_buffers is_same_spindle is_redirector burst_bytes burst_request request_bytes remaining =
    if is_same_spindle
    then (let capacity = buffer_capacity burst_bytes remaining in
        some (same_spindle capacity (buffer_request burst_request capacity)))
    else if is_redirector
    then some (pipelined request_bytes pipeline_buffers)
    else if request_bytes == 0
    then none
    else some (standard request_bytes)

unfoldable pub for_unnamed_stream :
    (is_same_spindle is_redirector : Bool) (burst_bytes burst_request request_bytes remaining : ℕ)
    → Option StreamBuffers
unfolding stream_buffers
for_unnamed_stream is_same_spindle is_redirector burst_bytes burst_request request_bytes remaining =
    if is_same_spindle
    then stream_buffers is_same_spindle is_redirector burst_bytes burst_request request_bytes
        remaining
    else if request_bytes == 0
    then none
    else some (
        pipelined request_bytes
          (if is_redirector then pipeline_buffers else local_pipeline_buffers))
