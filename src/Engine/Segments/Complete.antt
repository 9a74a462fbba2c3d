-- ===== src/Engine/Segments/Complete.antt =====
-- What the temporary holds when every segment thread has ended with no error.
use bigcp.Base.{
  ℕ, zero, suc, ◌+◌, ◌<◌, ◌≡◌, refl, sym, ap, subst, ◌∙◌, inl, inr, Bool, true, false, none, some,
  List, [], ◌∷◌, map, min, arith, ltb, ◌==◌, Bool-cases, Option-cases, if◌then◌else◌,
}
use bigcp.Base.Store.{Contents, read_at}
use bigcp.Counters.{saturating_add}
use bigcp.Errors.{OperationError}
use bigcp.Engine.Segments.{SegmentFacts, segment_plan}
use bigcp.Engine.Segments.Tiles.{Tiles, segment_plan-IsPlan}
use bigcp.Engine.Segments.Copy.{
  Pc, starting, looping, reading, holding, finished, gave_up, Segment, Shared, Answer, works,
  canceled, moves, fails, record_segment_error, fail_segment, take_read, segment_turn, turn_of,
  Event, thread, digest_fails, run_segments, spawn, spawn_all, join_all, has_ended,
  bounded_buffer_len,
}
use bigcp.Engine.Segments.Sound.{Copied, Held, AllHeld, run_segments-AllHeld}

abbrev range_of : Segment → ℕ × ℕ
range_of s = (s.offset, s.count)

-- The stop flag is set only with an error.
abbrev Flagged : Shared → Type 0
Flagged shared = (shared.stop ≡ true) → (e : OperationError) × (shared.first_error ≡ some e)

module _ (source : Contents) (chunk_bytes : ℕ) (truncated : OperationError) where
  record_error-Flagged :
      (error : OperationError) (shared : Shared) → Flagged (record_segment_error error shared)
  unfolding record_segment_error
  record_error-Flagged error shared _ =
      elim shared.first_error
        as (λ o.
          (e : OperationError) × (elim o [ none ↦ some error | some first ↦ some first ]
            ≡ some e)) [ none ↦ (error, refl) | some first ↦ (first, refl) ]

  record Steady (s : Segment) (turned : Segment × Shared) : Type 0 where
    same_range : range_of turned.0 ≡ range_of s
    flagged : Flagged turned.1

  fail-Steady :
      (error : OperationError) (s : Segment) (shared : Shared)
      → Steady s (fail_segment error s shared)
  unfolding fail_segment
  fail-Steady error s shared = record {
    same_range = refl;
    flagged = record_error-Flagged error shared;
  }

  if_Steady :
      (b : Bool) (s : Segment) (x y : Segment × Shared)
      → Steady s x
      → Steady s y
      → Steady s (if b then x else y)
  if_Steady true s x y h k = h
  if_Steady false s x y h k = k

  kept :
      (pc : Pc) (s : Segment) (shared : Shared)
      → Flagged shared
      → Steady s (record s { pc = pc }, shared)
  kept pc s shared f = record { same_range = refl; flagged = f }

  loop_head-Steady :
      (s : Segment) (shared : Shared) (flushed : Segment × Shared)
      → Flagged shared
      → Steady s flushed
      → Steady s (
          if s.remaining == 0
          then flushed
          else if shared.stop
          then (record s { pc = gave_up }, shared)
          else (record s { pc = reading }, shared))
  loop_head-Steady s shared flushed f h =
      if_Steady (s.remaining == 0) s flushed _ h
        (if_Steady shared.stop s _ _ (kept gave_up s shared f) (kept reading s shared f))

  take_read-Steady :
      (n : ℕ) (s : Segment) (shared : Shared)
      → Flagged shared
      → Steady s (take_read source chunk_bytes truncated n s shared)
  unfolding take_read
  take_read-Steady n s shared f =
      let count = min n (min s.remaining (bounded_buffer_len chunk_bytes s.count)) in
      if_Steady (count == 0) s (fail_segment truncated s shared)
        (
          record s {
            pc = holding (read_at source s.source_position count);
            source_position = s.source_position + count;
            bytes_read = saturating_add s.bytes_read count;
          },
          shared,
        )
        (fail-Steady truncated s shared) (record { same_range = refl; flagged = f })

  segment_turn-Steady :
      (pc : Pc) (answer : Answer) (s : Segment) (shared : Shared)
      → Flagged shared
      → Steady s (segment_turn source chunk_bytes truncated pc answer s shared)
  unfolding segment_turn
  segment_turn-Steady starting works s shared f = record { same_range = refl; flagged = f }
  segment_turn-Steady starting (canceled _) s shared f = record { same_range = refl; flagged = f }
  segment_turn-Steady starting (moves _) s shared f = record { same_range = refl; flagged = f }
  segment_turn-Steady starting (fails _ error) s shared f = fail-Steady error s shared
  segment_turn-Steady looping works s shared f =
      loop_head-Steady s shared _ f (kept finished s shared f)
  segment_turn-Steady looping (canceled _) s shared f =
      loop_head-Steady s shared _ f (kept finished s shared f)
  segment_turn-Steady looping (moves _) s shared f =
      loop_head-Steady s shared _ f (kept finished s shared f)
  segment_turn-Steady looping (fails _ error) s shared f =
      loop_head-Steady s shared _ f (fail-Steady error s shared)
  segment_turn-Steady reading works s shared f = take_read-Steady s.remaining s shared f
  segment_turn-Steady reading (canceled error) s shared f = fail-Steady error s shared
  segment_turn-Steady reading (moves n) s shared f = take_read-Steady n s shared f
  segment_turn-Steady reading (fails _ error) s shared f = fail-Steady error s shared
  segment_turn-Steady (holding bytes) works s shared f = record { same_range = refl; flagged = f }
  segment_turn-Steady (holding bytes) (canceled _) s shared f = record {
    same_range = refl;
    flagged = f;
  }
  segment_turn-Steady (holding bytes) (moves _) s shared f = record {
    same_range = refl;
    flagged = f;
  }
  segment_turn-Steady (holding bytes) (fails written error) s shared f = fail-Steady error s _
  segment_turn-Steady finished answer s shared f = record { same_range = refl; flagged = f }
  segment_turn-Steady gave_up answer s shared f = record { same_range = refl; flagged = f }

  turn_of-Steady :
      (index : ℕ) (answer : Answer) (segments : List Segment) (shared : Shared)
      → Flagged shared
      → (map range_of (turn_of source chunk_bytes truncated index answer segments shared).0
          ≡ map range_of segments)
        × Flagged (turn_of source chunk_bytes truncated index answer segments shared).1
  unfolding turn_of
  turn_of-Steady index answer [] shared f = (refl, f)
  turn_of-Steady zero answer (s ∷ rest) shared f =
      let turned = segment_turn-Steady s.pc answer s shared f in
      (ap (λ r. r ∷ map range_of rest) turned.same_range, turned.flagged)
  turn_of-Steady (suc index) answer (s ∷ rest) shared f =
      let (same, f') = turn_of-Steady index answer rest shared f in
      (ap (λ r. range_of s ∷ r) same, f')

  run_segments-Steady :
      (events : List Event) (segments : List Segment) (shared : Shared)
      → Flagged shared
      → (map range_of (run_segments source chunk_bytes truncated events (segments, shared)).0
          ≡ map range_of segments)
        × Flagged (run_segments source chunk_bytes truncated events (segments, shared)).1
  unfolding run_segments
  run_segments-Steady [] segments shared f = (refl, f)
  run_segments-Steady (thread index answer ∷ events) segments shared f =
      let (same, f') = turn_of-Steady index answer segments shared f in
      let (more, f'') = run_segments-Steady events _ _ f' in (more ∙ same, f'')
  run_segments-Steady (digest_fails error ∷ events) segments shared f =
      run_segments-Steady events segments _ (record_error-Flagged error shared)

-- A thread that ended while the stop flag was down has copied its range.
ended-Copied :
    (source : Contents) (pc : Pc) (s : Segment) (shared : Shared)
    → Held source pc s shared
    → shared.stop ≡ false
    → has_ended pc ≡ true
    → Copied source shared.temp s.offset (s.offset + s.count)
ended-Copied source finished s shared (placed, none_left) running e =
    λ p low high. placed.copied p low (omega (arith, placed.inside))
ended-Copied source gave_up s shared h running e = absurd (cc)
ended-Copied source starting s shared h running e = absurd (cc)
ended-Copied source looping s shared h running e = absurd (cc)
ended-Copied source reading s shared h running e = absurd (cc)
ended-Copied source (holding bytes) s shared h running e = absurd (cc)

join_all-ended :
    (s : Segment) (rest : List Segment) (counts : ℕ × ℕ)
    → join_all (s ∷ rest) ≡ some counts
    → (has_ended s.pc ≡ true) × ((others : ℕ × ℕ) × (join_all rest ≡ some others))
unfolding join_all
join_all-ended s rest counts e = elim (Bool-cases (has_ended s.pc)) [
  | inl ended ↦ (
    ended,
    elim (Option-cases (join_all rest)) [
      | inl missing ↦ absurd (let bad = rw (ended, missing) at e in cc)
      | inr found ↦ found
    ],
  )
  | inr runs ↦ absurd (let bad = rw runs at e in cc)
]

-- Ranges that tile the file up to its end, each copied: the whole rest is copied.
joined-Copied :
    (source : Contents) (chunk size at : ℕ) (segments : List Segment) (shared : Shared)
    (counts : ℕ × ℕ)
    → AllHeld source segments shared
    → shared.stop ≡ false
    → join_all segments ≡ some counts
    → Tiles chunk size at (map range_of segments)
    → Copied source shared.temp at size
joined-Copied source chunk size at [] shared counts h running e t =
    λ p low high. absurd (omega (arith, t))
joined-Copied source chunk size at (s ∷ rest) shared counts h running e t = λ p low high.
    let (ended, (others, joined)) = join_all-ended s rest counts e in
    let here = ended-Copied source s.pc s shared h.0 running ended in
    elim (Bool-cases (ltb p (at + s.count))) [
      | inl before ↦ here p (omega (arith, t.0)) (ground (arith, t.0))
      | inr behind ↦
          joined-Copied source chunk size (at + s.count) rest shared others h.1 running joined t.3 p
            (ground arith) high
    ]

spawn_all-ranges : (ranges : List (ℕ × ℕ)) → map range_of (map spawn ranges) ≡ ranges
unfolding spawn
spawn_all-ranges [] = refl
spawn_all-ranges ((offset, count) ∷ rest) = ap (λ r. (offset, count) ∷ r) (spawn_all-ranges rest)

spawn_all-AllHeld :
    (source : Contents) (ranges : List (ℕ × ℕ)) (shared : Shared)
    → AllHeld source (map spawn ranges) shared
unfolding spawn
spawn_all-AllHeld source [] shared = tt
spawn_all-AllHeld source ((offset, count) ∷ rest) shared =
    (refl, spawn_all-AllHeld source rest shared)

-- Whatever the order in which the threads of a plan run, and whatever their calls answer: when all of
-- them have ended and no error is recorded, the temporary holds the source's bytes over the whole file.
pub segmented-Copied :
    (f : SegmentFacts) (ranges : List (ℕ × ℕ)) (source temp : Contents) (truncated : OperationError)
    (events : List Event) (counts : ℕ × ℕ)
    → segment_plan f ≡ some ranges
    → join_all (run_segments source f.chunk_bytes truncated events (spawn_all temp ranges)).0
      ≡ some counts
    → (run_segments source f.chunk_bytes truncated events (spawn_all temp ranges)).1.first_error
      ≡ none
    → (p : ℕ) → p < f.size
    → (run_segments source f.chunk_bytes truncated events (spawn_all temp ranges)).1.temp p
      ≡ source p
unfolding spawn_all
segmented-Copied f ranges source temp truncated events counts planned joined clean p below =
    let fresh : Shared = record { temp = temp; stop = false; first_error = none } in
    let final = run_segments source f.chunk_bytes truncated events (map spawn ranges, fresh) in
    let (same, flagged) =
      run_segments-Steady source f.chunk_bytes truncated events (map spawn ranges) fresh
        (λ e. absurd (cc)) in
    let held =
      run_segments-AllHeld source f.chunk_bytes truncated events (map spawn ranges) fresh
        (spawn_all-AllHeld source ranges fresh) in
    let running : final.1.stop ≡ false = elim (Bool-cases final.1.stop) [
      | inl stopped ↦
          let (e, recorded) = flagged stopped in absurd (let bad = sym clean ∙ recorded in cc)
      | inr runs ↦ runs
    ] in
    joined-Copied source f.chunk_bytes f.size 0 final.0 final.1 counts held running joined
      (subst (Tiles f.chunk_bytes f.size 0) (sym (same ∙ spawn_all-ranges ranges))
        (segment_plan-IsPlan f ranges planned).tiled)
      p (omega arith) below
