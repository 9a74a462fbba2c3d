-- ===== src/Engine/Segments/Stop.antt =====
-- How soon a segment thread ends once the stop flag is up.
use bigcp.Base.{
  ℕ, ◌-◌, ◌≤◌, ◌≡◌, refl, inl, inr, Bool-cases, true, List, [], ◌∷◌, arith, ◌==◌, min, length, All,
  if◌then◌else◌,
}
use bigcp.Base.Store.{Contents}
use bigcp.Errors.{OperationError}
use bigcp.Engine.Segments.Copy.{
  Pc, starting, looping, reading, holding, finished, gave_up, Segment, Shared, Answer, works,
  canceled, moves, fails, fail_segment, take_read, segment_turn, has_ended, bounded_buffer_len,
}

module _ (source : Contents) (chunk_bytes : ℕ) (truncated : OperationError) where
  -- The turns of one thread; between them the others may change what is shared.
  unfoldable pub own_turns : List (Answer × Shared) → Segment → Segment
  own_turns [] s = s
  own_turns ((answer, shared) ∷ turns) s =
      own_turns turns (segment_turn source chunk_bytes truncated s.pc answer s shared).0

  abbrev turns_left : Pc → ℕ
  turns_left starting = 2
  turns_left looping = 1
  turns_left reading = 3
  turns_left (holding _) = 2
  turns_left finished = 0
  turns_left gave_up = 0

  take_read-turns :
      (n : ℕ) (s : Segment) (shared : Shared)
      → turns_left (take_read source chunk_bytes truncated n s shared).0.pc ≤ 2
  unfolding take_read
  take_read-turns n s shared =
      elim (Bool-cases (min n (min s.remaining (bounded_buffer_len chunk_bytes s.count)) == 0)) [
        | inl empty ↦ rw empty (omega arith)
        | inr more ↦ rw more (omega arith)
      ]

  loop_lowers :
      (s : Segment) (shared : Shared) (flushed : Segment × Shared)
      → shared.stop ≡ true
      → turns_left flushed.0.pc ≤ 0
      → turns_left
          (if s.remaining == 0
            then flushed
            else if shared.stop
            then (record s { pc = gave_up }, shared)
            else (record s { pc = reading }, shared)).0.pc
        ≤ 0
  loop_lowers s shared flushed up h = elim (Bool-cases (s.remaining == 0)) [
    | inl done ↦ rw done h
    | inr more ↦ simp (more, up) (omega arith)
  ]

  turn_lowers :
      (pc : Pc) (answer : Answer) (s : Segment) (shared : Shared)
      → s.pc ≡ pc
      → shared.stop ≡ true
      → turns_left (segment_turn source chunk_bytes truncated pc answer s shared).0.pc
        ≤ turns_left pc - 1
  unfolding segment_turn
  turn_lowers starting works s shared e up = omega arith
  turn_lowers starting (canceled _) s shared e up = omega arith
  turn_lowers starting (moves _) s shared e up = omega arith
  turn_lowers starting (fails _ error) s shared e up = omega arith
  turn_lowers looping works s shared e up =
      loop_lowers s shared (record s { pc = finished }, shared) up (omega arith)
  turn_lowers looping (canceled _) s shared e up =
      loop_lowers s shared (record s { pc = finished }, shared) up (omega arith)
  turn_lowers looping (moves _) s shared e up =
      loop_lowers s shared (record s { pc = finished }, shared) up (omega arith)
  turn_lowers looping (fails _ error) s shared e up =
      loop_lowers s shared (fail_segment error s shared) up (omega arith)
  turn_lowers reading works s shared e up = take_read-turns s.remaining s shared
  turn_lowers reading (canceled error) s shared e up = omega arith
  turn_lowers reading (moves n) s shared e up = take_read-turns n s shared
  turn_lowers reading (fails _ error) s shared e up = omega arith
  turn_lowers (holding bytes) works s shared e up = omega arith
  turn_lowers (holding bytes) (canceled _) s shared e up = omega arith
  turn_lowers (holding bytes) (moves _) s shared e up = omega arith
  turn_lowers (holding bytes) (fails written error) s shared e up = omega arith
  turn_lowers finished answer s shared e up = rw e (omega arith)
  turn_lowers gave_up answer s shared e up = rw e (omega arith)

  no_turns_left : (pc : Pc) → turns_left pc ≡ 0 → has_ended pc ≡ true
  no_turns_left starting e = absurd (omega arith)
  no_turns_left looping e = absurd (omega arith)
  no_turns_left reading e = absurd (omega arith)
  no_turns_left (holding _) e = absurd (omega arith)
  no_turns_left finished e = refl
  no_turns_left gave_up e = refl

  turns_suffice :
      (turns : List (Answer × Shared)) (s : Segment)
      → All (λ turn. turn.1.stop ≡ true) turns
      → turns_left s.pc ≤ length turns
      → has_ended (own_turns turns s).pc ≡ true
  unfolding own_turns
  turns_suffice [] s up enough = no_turns_left s.pc (omega arith)
  turns_suffice ((answer, shared) ∷ turns) s up enough =
      turns_suffice turns (segment_turn source chunk_bytes truncated s.pc answer s shared).0 up.1
        (omega (arith, turn_lowers s.pc answer s shared refl up.0))

  turns_bound : (pc : Pc) → turns_left pc ≤ 3
  turns_bound starting = omega arith
  turns_bound looping = omega arith
  turns_bound reading = omega arith
  turns_bound (holding _) = omega arith
  turns_bound finished = omega arith
  turns_bound gave_up = omega arith

  -- Once the stop flag is up, a segment thread has ended after three turns of its own, wherever it
  -- stands, whatever its calls answer, and whatever the other threads do between its turns.
  pub stopped-has_ended :
      (turns : List (Answer × Shared)) (s : Segment)
      → All (λ turn. turn.1.stop ≡ true) turns
      → 3 ≤ length turns
      → has_ended (own_turns turns s).pc ≡ true
  stopped-has_ended turns s up enough = turns_suffice turns s up (omega (arith, turns_bound s.pc))
