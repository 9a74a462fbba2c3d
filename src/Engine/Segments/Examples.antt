-- ===== src/Engine/Segments/Examples.antt =====
-- Two segment threads that copy eight bytes.
use bigcp.Base.{ℕ, ◌+◌, ◌≡◌, refl, true, false, none, some, List, [], ◌∷◌, ◌++◌, arith}
use bigcp.Base.Store.{Contents, read_at}
use bigcp.Profile.Data.{wsl_pipeline}
use bigcp.Errors.{OperationError, source_changed}
use bigcp.Engine.Segments.{
  SegmentFacts, segment_plan, is_ineligible, segment_base, segment_count, segment_ranges,
}
use bigcp.Engine.Segments.Tiles.{IsPlan, segment_plan-IsPlan}
use bigcp.Engine.Segments.Copy.{
  Answer, works, moves, Event, thread, Segment, Shared, reading, spawn_all, run_segments, join_all,
  has_ended, bounded_buffer_len,
}
use bigcp.Engine.Segments.Complete.{segmented-Copied}
use bigcp.Engine.Segments.Stop.{own_turns, stopped-has_ended}

abbrev small_file : SegmentFacts
small_file = record {
  transport = record { kind = wsl_pipeline; burst_bytes = 2 };
  source_is_wsl = true;
  source_is_remote = true;
  destination_is_wsl = false;
  destination_is_remote = false;
  preserve_sparse = false;
  streams_unnamed = true ∷ [];
  size = 9;
  threshold = 4;
  chunk_bytes = 2;
  checkpoint_eligible = false;
  resume_candidate = false;
}

abbrev two_ranges : List (ℕ × ℕ)
two_ranges = (0, 4) ∷ (4, 5) ∷ []

small_file-planned : segment_plan small_file ≡ some two_ranges
unfolding segment_plan is_ineligible segment_base segment_count segment_ranges
small_file-planned = refl

segment_plan-IsPlan_example : IsPlan small_file two_ranges
segment_plan-IsPlan_example = segment_plan-IsPlan small_file two_ranges small_file-planned

abbrev truncated : OperationError
truncated = record {
  category = source_changed;
  operation = [];
  path_of = [];
  code = none;
  message = [];
  hint = "";
}

abbrev offsets_source : Contents
offsets_source p = p + 65

abbrev zeros : Contents
zeros p = 0

-- A chunk of one thread: the poll, the read and the write.
abbrev chunk_of : ℕ → List Event
chunk_of i = thread i works ∷ thread i (moves 2) ∷ thread i works ∷ []

abbrev interleaved : List Event
interleaved =
    thread 1 works
    ∷ thread 0 works
    ∷ (chunk_of 1
        ++ (chunk_of 0
            ++ (chunk_of 1
                ++ (chunk_of 1 ++ (chunk_of 0 ++ thread 0 works ∷ thread 1 works ∷ [])))))

all_joined :
    join_all (run_segments offsets_source 2 truncated interleaved (spawn_all zeros two_ranges)).0
    ≡ some (9, 9)
unfolding run_segments spawn_all join_all bounded_buffer_len read_at
all_joined = refl

no_error :
    (run_segments offsets_source 2 truncated interleaved (spawn_all zeros two_ranges)).1.first_error
    ≡ none
unfolding run_segments spawn_all bounded_buffer_len read_at
no_error = refl

segmented-Copied_example :
    (run_segments offsets_source 2 truncated interleaved (spawn_all zeros two_ranges)).1.temp 8
    ≡ offsets_source 8
segmented-Copied_example =
    segmented-Copied small_file two_ranges offsets_source zeros truncated interleaved (9, 9)
      small_file-planned all_joined no_error 8 (omega arith)

abbrev mid_read : Segment
mid_read = record {
  pc = reading;
  offset = 4;
  count = 5;
  source_position = 6;
  writer_position = 6;
  remaining = 3;
  bytes_read = 2;
  bytes_written = 2;
}

abbrev stopped : Shared
stopped = record { temp = zeros; stop = true; first_error = some truncated }

abbrev three_turns : List (Answer × Shared)
three_turns = (moves 2, stopped) ∷ (works, stopped) ∷ (works, stopped) ∷ []

stopped-has_ended_example :
    has_ended (own_turns offsets_source 2 truncated three_turns mid_read).pc ≡ true
stopped-has_ended_example =
    stopped-has_ended offsets_source 2 truncated three_turns mid_read (refl, (refl, (refl, tt)))
      (omega arith)
