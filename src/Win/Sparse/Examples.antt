-- ===== src/Win/Sparse/Examples.antt =====
-- The theorem about allocated ranges, at a filesystem that reports two ranges in two answers.
use bigcp.Base.{◌≡◌, List, [], ◌∷◌, arith, Outcome, some}
use bigcp.Base.Int.{pos}
use bigcp.Errors.{IoError}
use bigcp.Win.Sparse.{AllocatedRange, Answer, complete, more_data, query_allocated_ranges}
use bigcp.Win.Sparse.Ordered.{AreOrdered, OkAll}
use bigcp.Win.Sparse.Enumerates.{query_allocated_ranges-AreOrdered}

abbrev one_range : Answer
one_range = record {
  status = more_data;
  returned = 16;
  output = record { file_offset = pos 0; raw_length = pos 1 } ∷ [];
}

abbrev last_range : Answer
last_range = record {
  status = complete;
  returned = 16;
  output = record { file_offset = pos 2; raw_length = pos 1 } ∷ [];
}

abbrev answers : List Answer
answers = one_range ∷ last_range ∷ last_range ∷ last_range ∷ []

query_allocated_ranges-AreOrdered_example :
    (result : Outcome IoError (List AllocatedRange)) × (query_allocated_ranges answers 4
      ≡ some result)
    × OkAll (λ ranges. AreOrdered 0 ranges 4) result
query_allocated_ranges-AreOrdered_example =
    query_allocated_ranges-AreOrdered answers 4 (omega arith)
