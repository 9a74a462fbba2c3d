-- ===== src/Engine/Routing.antt =====
-- `route_streams`, the promotion of `open_file`, and the choice of `copy_file`.
use bigcp.Base.{
  ℕ, suc, ◌-◌, ◌^◌, min, max, Bool, false, not, ◌&&◌, ◌||◌, Option, none, some, List, [], ◌∷◌, ltb,
  leb, any, if◌then◌else◌,
}
use bigcp.Engine.Segments.{SegmentFacts, segment_plan}

-- `StreamInfo`, as far as routing reads it.
pub record StreamInfo : Type 0 where
  pub is_unnamed : Bool
  pub size : ℕ

pub record StreamRouting : Type 0 where
  pub largest_representable : ℕ
  pub checkpoint_eligible : Bool
  pub named_streams : ℕ
  pub named_streams_dropped : ℕ

-- The streams that the destination can hold.
unfoldable pub representable : Bool → List StreamInfo → List StreamInfo
representable supports [] = []
representable supports (stream ∷ streams) =
    let rest = representable supports streams in
    if supports || stream.is_unnamed then stream ∷ rest else rest

-- `max().unwrap_or(unnamed_size)`
unfoldable pub largest_size : ℕ → List StreamInfo → ℕ
largest_size unnamed_size [] = unnamed_size
largest_size unnamed_size (stream ∷ []) = stream.size
largest_size unnamed_size (stream ∷ next ∷ streams) =
    max stream.size (largest_size unnamed_size (next ∷ streams))

unfoldable pub count_named : List StreamInfo → ℕ
count_named [] = 0
count_named (stream ∷ streams) =
    if stream.is_unnamed then count_named streams else suc (count_named streams)

unfoldable pub route_streams :
    List StreamInfo
    → (unnamed_size : ℕ) → (supports journal : Bool) → (checkpoint_threshold : ℕ) → StreamRouting
route_streams streams unnamed_size supports journal_available checkpoint_threshold =
    let held = representable supports streams in
    record {
      largest_representable = largest_size unnamed_size held;
      checkpoint_eligible =
          journal_available && any (λ stream. leb checkpoint_threshold stream.size) held;
      named_streams = count_named streams;
      named_streams_dropped = if supports then 0 else min (count_named streams) (2 ^ 32 - 1);
    }

-- Whether `open_file` gives the file back to the coordinator.
unfoldable pub is_promoted : Option ℕ → StreamRouting → Bool
is_promoted none routing = false
is_promoted (some threshold) routing = leb threshold routing.largest_representable

pub data Strategy : Type 0 where
  sparse : Strategy
  plain_small : Strategy
  segmented : List (ℕ × ℕ) → Strategy
  streamed : Strategy

-- The branches of `copy_file`; the facts of a plan come with the file's own.
unfoldable pub choose_strategy :
    (is_sparse has_auxiliary : Bool)
    → (large_threshold : ℕ) → StreamRouting
    → SegmentFacts
    → Strategy
choose_strategy is_sparse has_auxiliary large_threshold routing facts =
    if is_sparse
    then sparse
    else if ltb routing.largest_representable large_threshold
        && not routing.checkpoint_eligible
        && not has_auxiliary
    then plain_small
    else elim (segment_plan facts) [ none ↦ streamed | some ranges ↦ segmented ranges ]
