-- ===== src/Win/Sparse/Enumerates.antt =====
-- The enumeration of allocated ranges: it ends, and what it reports is in order.
use bigcp.Base.{
  ℕ, ◌+◌, ◌≤◌, ◌<◌, ◌≡◌, refl, inl, inr, Option, none, some, List, [], ◌∷◌, Outcome, ok, err, arith,
  ltb, ◌==◌, length, Bool-cases,
}
use bigcp.Errors.{IoError}
use bigcp.Win.Sparse.{
  AllocatedRange, Answer, Progress, done, continue_at, query_once, query_loop,
  query_allocated_ranges,
}
use bigcp.Win.Sparse.Ordered.{
  AreOrdered, AreOrdered-le, OkAll, is_ok, is_err, Advanced, query_once-Advanced,
}

module _ (logical_size : ℕ) where
  -- The ranges are in order if the loop returns some, and it is out of answers only if there are
  -- fewer of them than bytes left.
  abbrev Enumerated : ℕ → List Answer → Option (Outcome IoError (List AllocatedRange)) → Type 0
  Enumerated cursor answers none = cursor + length answers < logical_size
  Enumerated cursor answers (some result) = OkAll (λ rs. AreOrdered 0 rs logical_size) result

  fewer :
      (cursor next : ℕ) (answer : Answer) (answers : List Answer)
      (result : Option (Outcome IoError (List AllocatedRange)))
      → cursor < next
      → Enumerated next answers result
      → Enumerated cursor (answer ∷ answers) result
  fewer cursor next answer answers none l h = omega arith
  fewer cursor next answer answers (some result) l h = h

  query_loop-Enumerated :
      (answers : List Answer) (cursor : ℕ) (ranges : List AllocatedRange)
      → AreOrdered 0 ranges cursor
      → cursor ≤ logical_size
      → Enumerated cursor answers (query_loop answers cursor logical_size ranges)
  unfolding query_loop
  query_loop-Enumerated [] cursor ranges ordered inside =
      elim (Bool-cases (ltb cursor logical_size)) [
        | inl b ↦ rw b (ground arith)
        | inr b ↦ rw b (is_ok (AreOrdered-le 0 ranges cursor logical_size ordered inside))
      ]
  query_loop-Enumerated (answer ∷ answers) cursor ranges ordered inside =
      elim (Bool-cases (ltb cursor logical_size)) [
        | inr b ↦ rw b (is_ok (AreOrdered-le 0 ranges cursor logical_size ordered inside))
        | inl b ↦ rw b (
            go (query_once answer cursor logical_size ranges)
              (query_once-Advanced logical_size cursor ranges ordered inside answer)
              (query_loop-Enumerated answers))
      ]
    where
      go :
          (round : Outcome IoError Progress)
          → OkAll (Advanced logical_size cursor) round
          → ((next : ℕ) (found : List AllocatedRange)
              → AreOrdered 0 found next
              → next ≤ logical_size
              → Enumerated next answers (query_loop answers next logical_size found))
          → Enumerated cursor (answer ∷ answers) (elim round [
            | err e ↦ some (err e)
            | ok (done found) ↦ some (ok found)
            | ok (continue_at next found) ↦ query_loop answers next logical_size found
          ])
      go _ is_err again = is_err
      go (ok (done found)) (is_ok h) again = is_ok h
      go (ok (continue_at next found)) (is_ok h) again =
          fewer cursor next answer answers _ h.2 (again next found h.0 h.1)

query-Enumerated :
    (answers : List Answer) (logical_size : ℕ)
    → Enumerated logical_size 0 answers (query_allocated_ranges answers logical_size)
unfolding query_allocated_ranges
query-Enumerated answers logical_size = elim (Bool-cases (logical_size == 0)) [
  | inl z ↦ rw z (is_ok (omega arith))
  | inr z ↦ rw z (query_loop-Enumerated logical_size answers 0 [] (omega arith) (omega arith))
]

ends :
    (answers : List Answer) (logical_size : ℕ) (r : Option (Outcome IoError (List AllocatedRange)))
    → logical_size ≤ length answers
    → Enumerated logical_size 0 answers r
    → (result : Outcome IoError (List AllocatedRange)) × (r ≡ some result)
      × OkAll (λ ranges. AreOrdered 0 ranges logical_size) result
ends answers logical_size none enough h = absurd (omega arith)
ends answers logical_size (some result) enough h = (result, refl, h)

-- Whatever the filesystem answers, with as many answers as the file has bytes at hand the enumeration
-- ends; the ranges that it returns are not empty, in order, apart, and inside the file.
pub query_allocated_ranges-AreOrdered :
    (answers : List Answer) (logical_size : ℕ)
    → logical_size ≤ length answers
    → (result : Outcome IoError (List AllocatedRange)) × (query_allocated_ranges answers
          logical_size
        ≡ some result)
      × OkAll (λ ranges. AreOrdered 0 ranges logical_size) result
query_allocated_ranges-AreOrdered answers logical_size enough =
    ends answers logical_size _ enough (query-Enumerated answers logical_size)
