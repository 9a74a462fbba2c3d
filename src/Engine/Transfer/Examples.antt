-- ===== src/Engine/Transfer/Examples.antt =====
-- Segments that are transferred, and what they give.
use bigcp.Base.{◌≡◌, refl, inl, true, false, some, none, [], ◌∷◌, ok, arith}
use bigcp.Errors.{OperationError, from_io, other_kind}
use bigcp.Engine.Transfer.{
  Moving, carries, standard, same_spindle, Messages, transfer_segment, stream_buffers,
}
use bigcp.Engine.Transfer.Moved.{Delivers}
use bigcp.Engine.Transfer.Delivered.{transfer_segment-Delivers}
use bigcp.Transport.Burst.{gives, interrupted, buffer_capacity, buffer_request}

abbrev an_error : OperationError
an_error = from_io [] [] [] (record { raw_os_error = none; kind = other_kind; text = [] })

abbrev texts : Messages
texts = record {
  truncated = an_error;
  read_error = λ _. an_error;
  write_error = λ _. an_error;
  pipeline_error = λ _. an_error;
}

abbrev five_bytes : Moving
five_bytes = record { rest = 1 ∷ 2 ∷ 3 ∷ 4 ∷ 5 ∷ []; file = 9 ∷ []; hasher = some [] }

abbrev after_four : Moving
after_four = record {
  rest = 5 ∷ [];
  file = 9 ∷ 1 ∷ 2 ∷ 3 ∷ 4 ∷ [];
  hasher = some (1 ∷ 2 ∷ 3 ∷ 4 ∷ []);
}

-- Two reads, the first a short one.
by_requests :
    transfer_segment texts (standard 3) (carries 0 ∷ carries 8 ∷ []) 4 five_bytes
    ≡ some (ok 4, after_four)
unfolding transfer_segment
by_requests = refl

transfer_segment-Delivers_example : Delivers 9 five_bytes (
    transfer_segment texts
      (same_spindle 4 2)
      (gives 0 ∷ interrupted ∷ gives 9 ∷ gives 9 ∷ [], gives 2 ∷ gives 2 ∷ [])
      9
      five_bytes)
unfolding stream_buffers buffer_capacity buffer_request
transfer_segment-Delivers_example =
    transfer_segment-Delivers true false 4 2 8 100 texts (same_spindle 4 2)
      (gives 0 ∷ interrupted ∷ gives 9 ∷ gives 9 ∷ [], gives 2 ∷ gives 2 ∷ []) 9 five_bytes
      (omega arith) (inl refl)
