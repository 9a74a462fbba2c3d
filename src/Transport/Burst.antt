-- ===== src/Transport/Burst.antt =====
-- `BurstBuffer` of transport.rs: a phase of reads into one buffer, then a phase of writes from it. Each
-- round of a loop takes the answer of its poll and its call from a list; `none` means that the list is
-- at its end and the loop is not.
pub mod Phases
pub mod Ends
use bigcp.Base.{
  ℕ, zero, suc, ◌+◌, ◌-◌, min, max, Bool, Option, none, some, List, [], ◌∷◌, ◌++◌, Outcome, ok, err,
  ltb, ◌==◌, length, take, drop, if◌then◌else◌,
}
use bigcp.Base.Bytes.{Bytes}
use bigcp.Errors.{IoError}

-- `TransferFailureKind`
pub data Cause : Type 0 where
  was_canceled : Cause
  io_failed : IoError → Cause
  no_progress : Cause  -- `ErrorKind::WriteZero`

pub data Call : Type 0 where
  stops : Call  -- the poll finds a cancellation
  gives : ℕ → Call
  interrupted : Call
  breaks : IoError → Call

-- The size of the buffer, and of one request.
unfoldable pub buffer_capacity : (burst_bytes remaining : ℕ) → ℕ
buffer_capacity burst_bytes remaining = max (min burst_bytes remaining) 1

unfoldable pub buffer_request : (request_bytes capacity : ℕ) → ℕ
buffer_request request_bytes capacity = max (min request_bytes capacity) 1

-- What `read_from` and `write_to` return, with the buffer and the other side.
abbrev pub Phase : Type 0
Phase = Option (Outcome (Cause × ℕ) ℕ × Bytes × Bytes)

module _ (request_bytes : ℕ) where
  -- `filled` is in the buffer, `rest` is still in the source.
  unfoldable pub read_from : ℕ → List Call → (filled rest : Bytes) → Phase
  read_from limit [] filled rest =
      if ltb (length filled) limit then none else some (ok (length filled), filled, rest)
  read_from limit (call ∷ calls) filled rest =
      let count =
        λ (n : ℕ). min (suc n) (min (min request_bytes (limit - length filled)) (length rest)) in
      let round : Phase = elim call [
        | stops ↦ some (err (was_canceled, length filled), filled, rest)
        | gives n ↦
            (let more =
                read_from limit calls (filled ++ take (count n) rest) (drop (count n) rest) in
              if count n == 0 then some (ok (length filled), filled, rest) else more)
        | interrupted ↦ read_from limit calls filled rest
        | breaks e ↦ some (err (io_failed e, length filled), filled, rest)
      ] in
      if ltb (length filled) limit then round else some (ok (length filled), filled, rest)

  -- `left` is in the buffer and not yet written, `file` was written.
  unfoldable pub write_to : (written : ℕ) → List Call → (left file : Bytes) → Phase
  write_to written [] [] file = some (ok written, [], file)
  write_to written [] (b ∷ bs) file = none
  write_to written (call ∷ calls) [] file = some (ok written, [], file)
  write_to written (call ∷ calls) (b ∷ bs) file =
      let left = b ∷ bs in
      let count = λ (n : ℕ). min n (min request_bytes (length left)) in
      elim call [
        | stops ↦ some (err (was_canceled, written), left, file)
        | gives n ↦
            (let more =
                write_to (written + count n) calls (drop (count n) left)
                  (file ++ take (count n) left) in
              if count n == 0 then some (err (no_progress, written), left, file) else more)
        | interrupted ↦ write_to written calls left file
        | breaks e ↦ some (err (io_failed e, written), left, file)
      ]
