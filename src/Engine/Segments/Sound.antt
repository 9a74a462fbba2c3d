-- ===== src/Engine/Segments/Sound.antt =====
-- What every step of the segment threads keeps.
use bigcp.Base.{
  if_elim, ℕ, zero, suc, ◌+◌, ◌-◌, ◌≤◌, ◌<◌, min, ◌≡◌, refl, sym, ap, subst, ◌∙◌, inl, inr, true,
  false, List, [], ◌∷◌, arith, ltb, ◌==◌, length, take, All, Bool-cases, ==_iff, if◌then◌else◌,
}
use bigcp.Base.Bytes.{Bytes}
use bigcp.Base.Store.{Contents, read_at, write_at, length-read_at, take-read_at, copied-agrees}
use bigcp.Counters.{saturating_add}
use bigcp.Errors.{OperationError}
use bigcp.Engine.Segments.Copy.{
  Pc, starting, looping, reading, holding, finished, gave_up, Segment, Shared, Answer, works,
  canceled, moves, fails, record_segment_error, fail_segment, take_read, segment_turn, turn_of,
  Event, thread, digest_fails, run_segments, bounded_buffer_len,
}

module _ (source : Contents) where
  -- The temporary holds the source's bytes there.
  abbrev pub Copied : Contents → (from to : ℕ) → Type 0
  Copied temp from to = (p : ℕ) → from ≤ p → p < to → temp p ≡ source p

  pub record Placed (s : Segment) (temp : Contents) : Type 0 where
    pub inside : s.writer_position + s.remaining ≡ s.offset + s.count
    pub after : s.offset ≤ s.writer_position
    pub copied : Copied temp s.offset s.writer_position

  -- What a thread has done, by where it stands.
  abbrev pub Held : Pc → Segment → Shared → Type 0
  Held starting s shared = s.remaining ≡ s.count
  Held looping s shared = Placed s shared.temp × (s.source_position ≡ s.writer_position)
  Held reading s shared = Placed s shared.temp × (s.source_position ≡ s.writer_position)
  Held (holding bytes) s shared =
      Placed s shared.temp
      × ((n : ℕ) × (bytes ≡ read_at source s.writer_position n)
          × (n ≤ s.remaining)
          × (s.source_position ≡ s.writer_position + n))
  Held finished s shared = Placed s shared.temp × (s.remaining ≡ 0)
  Held gave_up s shared = shared.stop ≡ true

  -- What a step of any thread leaves to the others.
  pub record Keeps (before after : Shared) : Type 0 where
    pub agrees : (p : ℕ) → before.temp p ≡ source p → after.temp p ≡ source p
    pub stays : before.stop ≡ true → after.stop ≡ true

  Keeps-Placed :
      (s : Segment) (before after : Shared)
      → Keeps before after
      → Placed s before.temp
      → Placed s after.temp
  Keeps-Placed s before after k p = record {
    inside = p.inside;
    after = p.after;
    copied = λ q low high. k.agrees q (p.copied q low high);
  }

  pub Keeps-Held :
      (pc : Pc) (s : Segment) (before after : Shared)
      → Keeps before after
      → Held pc s before
      → Held pc s after
  Keeps-Held starting s before after k h = h
  Keeps-Held looping s before after k h = (Keeps-Placed s before after k h.0, h.1)
  Keeps-Held reading s before after k h = (Keeps-Placed s before after k h.0, h.1)
  Keeps-Held (holding bytes) s before after k h = (Keeps-Placed s before after k h.0, h.1)
  Keeps-Held finished s before after k h = (Keeps-Placed s before after k h.0, h.1)
  Keeps-Held gave_up s before after k h = k.stays h

  Keeps-refl : (shared : Shared) → Keeps shared shared
  Keeps-refl shared = record { agrees = λ p e. e; stays = λ e. e }

  pub record_error-Keeps :
      (error : OperationError) (shared : Shared) → Keeps shared (record_segment_error error shared)
  unfolding record_segment_error
  record_error-Keeps error shared = record { agrees = λ p e. e; stays = λ _. refl }

  write-Keeps :
      (shared : Shared) (at n : ℕ)
      → Keeps shared (record shared { temp = write_at shared.temp at (read_at source at n) })
  write-Keeps shared at n = record {
    agrees = λ p e. copied-agrees source shared.temp at n p (inr e);
    stays = λ e. e;
  }

  -- A turn's outcome: the thread is sound again, and what it leaves to the others.
  abbrev Turned : Shared → Segment × Shared → Type 0
  Turned before (s, after) = Held s.pc s after × Keeps before after

  fail-Turned :
      (error : OperationError) (s : Segment) (before shared : Shared)
      → Keeps before shared
      → Turned before (fail_segment error s shared)
  unfolding fail_segment record_segment_error
  fail-Turned error s before shared k = (refl, record { agrees = k.agrees; stays = λ _. refl })

  -- `Placed` reads no program counter.
  again :
      (s : Segment) (pc : Pc) (shared : Shared)
      → Placed s shared.temp
      → Placed (record s { pc = pc }) shared.temp
  again s pc shared p = record { inside = p.inside; after = p.after; copied = p.copied }

  started :
      (s : Segment) (shared : Shared)
      → Held starting s shared
      → Turned shared (
        record s { pc = looping; source_position = s.offset; writer_position = s.offset },
        shared,
      )
  started s shared h = (
    (
      record {
        inside = ap (λ (n : ℕ). s.offset + n) h;
        after = omega arith;
        copied = λ p low high. absurd (omega arith);
      },
      refl,
    ),
    Keeps-refl shared,
  )

  -- A whole write advances the copied part by what was read.
  wrote :
      (bytes : Bytes) (s : Segment) (shared : Shared)
      → Held (holding bytes) s shared
      → Turned shared (
        record s {
          pc = looping;
          writer_position = s.writer_position + length bytes;
          bytes_written = saturating_add s.bytes_written (length bytes);
          remaining = s.remaining - length bytes;
        },
        record shared { temp = write_at shared.temp s.writer_position bytes },
      )
  wrote bytes s shared (placed, (n, e, fits, ahead)) =
      let count : length bytes ≡ n = ap length e ∙ length-read_at source s.writer_position n in
      (
        (
          record {
            inside = omega (arith, placed.inside);
            after = omega (arith, placed.after);
            copied = λ p low high. rw e (
                copied-agrees source shared.temp s.writer_position n p
                  (elim (Bool-cases (ltb p s.writer_position)) [
                    | inl before ↦ inr (placed.copied p low (ground (arith, before)))
                    | inr behind ↦ inl (ground (arith, behind), omega arith)
                  ]));
          },
          omega arith,
        ),
        rw e (write-Keeps shared s.writer_position n),
      )

  -- Every thread is sound.
  abbrev pub AllHeld : List Segment → Shared → Type 0
  AllHeld segments shared = All (λ s. Held s.pc s shared) segments

  Keeps-AllHeld :
      (segments : List Segment) (before after : Shared)
      → Keeps before after
      → AllHeld segments before
      → AllHeld segments after
  Keeps-AllHeld [] before after k h = h
  Keeps-AllHeld (s ∷ rest) before after k h =
      (Keeps-Held s.pc s before after k h.0, Keeps-AllHeld rest before after k h.1)

  module _ (chunk_bytes : ℕ) (truncated : OperationError) where
    take_read-Turned :
        (n : ℕ) (s : Segment) (shared : Shared)
        → Held reading s shared
        → Turned shared (take_read source chunk_bytes truncated n s shared)
    unfolding take_read
    take_read-Turned n s shared (placed, same) =
        let count = min n (min s.remaining (bounded_buffer_len chunk_bytes s.count)) in
        elim (Bool-cases (count == 0)) [
          | inl empty ↦ rw empty (fail-Turned truncated s shared shared (Keeps-refl shared))
          | inr more ↦ rw more (
            (
              record { inside = placed.inside; after = placed.after; copied = placed.copied },
              (
                count,
                ap (λ (at : ℕ). read_at source at count) same,
                omega arith,
                ap (λ (at : ℕ). at + count) same,
              ),
            ),
            Keeps-refl shared,
          )
        ]

    ended :
        (s : Segment) (shared : Shared)
        → Held looping s shared
        → (s.remaining == 0) ≡ true
        → Turned shared (record s { pc = finished }, shared)
    ended s shared h e =
        ((again s finished shared h.0, (==_iff s.remaining 0).0 e), Keeps-refl shared)

    stop_poll :
        (s : Segment) (shared : Shared)
        → Held looping s shared
        → (s.remaining == 0) ≡ false
        → Turned shared (
            if shared.stop
            then (record s { pc = gave_up }, shared)
            else (record s { pc = reading }, shared))
    stop_poll s shared h _ =
        if_elim (Turned shared) shared.stop _ _ (λ stopped. (stopped, Keeps-refl shared))
          (λ _. ((again s reading shared h.0, h.1), Keeps-refl shared))

    loop_head :
        (answer : Answer) (s : Segment) (shared : Shared)
        → Held looping s shared
        → Turned shared (segment_turn source chunk_bytes truncated looping answer s shared)
    unfolding segment_turn
    loop_head works s shared h =
        if_elim (Turned shared) _ _ _ (ended s shared h) (stop_poll s shared h)
    loop_head (canceled _) s shared h =
        if_elim (Turned shared) _ _ _ (ended s shared h) (stop_poll s shared h)
    loop_head (moves n) s shared h =
        if_elim (Turned shared) _ _ _ (ended s shared h) (stop_poll s shared h)
    loop_head (fails _ error) s shared h =
        if_elim (Turned shared) _ _ _ (λ _. fail-Turned error s shared shared (Keeps-refl shared))
          (stop_poll s shared h)

    pub segment_turn-Turned :
        (pc : Pc) (answer : Answer) (s : Segment) (shared : Shared)
        → s.pc ≡ pc
        → Held pc s shared
        → Turned shared (segment_turn source chunk_bytes truncated pc answer s shared)
    unfolding segment_turn
    segment_turn-Turned starting works s shared e h = started s shared h
    segment_turn-Turned starting (canceled error) s shared e h = started s shared h
    segment_turn-Turned starting (moves n) s shared e h = started s shared h
    segment_turn-Turned starting (fails _ error) s shared e h =
        fail-Turned error s shared shared (Keeps-refl shared)
    segment_turn-Turned looping answer s shared e h = loop_head answer s shared h
    segment_turn-Turned reading works s shared e h = take_read-Turned s.remaining s shared h
    segment_turn-Turned reading (canceled error) s shared e h =
        fail-Turned error s shared shared (Keeps-refl shared)
    segment_turn-Turned reading (moves n) s shared e h = take_read-Turned n s shared h
    segment_turn-Turned reading (fails _ error) s shared e h =
        fail-Turned error s shared shared (Keeps-refl shared)
    segment_turn-Turned (holding bytes) works s shared e h = wrote bytes s shared h
    segment_turn-Turned (holding bytes) (canceled error) s shared e h = wrote bytes s shared h
    segment_turn-Turned (holding bytes) (moves n) s shared e h = wrote bytes s shared h
    segment_turn-Turned (holding bytes) (fails written error) s shared e h =
        let (shorter, same) = take-read_at source s.writer_position h.1.0 written in
        fail-Turned error s shared
          (record shared { temp = write_at shared.temp s.writer_position (take written bytes) })
          (rw (h.1.1, same) (write-Keeps shared s.writer_position shorter))
    segment_turn-Turned finished answer s shared e h =
        (subst (λ pc. Held pc s shared) (sym e) h, Keeps-refl shared)
    segment_turn-Turned gave_up answer s shared e h =
        (subst (λ pc. Held pc s shared) (sym e) h, Keeps-refl shared)

    turn_of-AllHeld :
        (index : ℕ) (answer : Answer) (segments : List Segment) (shared : Shared)
        → AllHeld segments shared
        → AllHeld
            (turn_of source chunk_bytes truncated index answer segments shared).0
            (turn_of source chunk_bytes truncated index answer segments shared).1
          × Keeps shared (turn_of source chunk_bytes truncated index answer segments shared).1
    unfolding turn_of
    turn_of-AllHeld index answer [] shared h = (tt, Keeps-refl shared)
    turn_of-AllHeld zero answer (s ∷ rest) shared h =
        let (here, keeps) = segment_turn-Turned s.pc answer s shared refl h.0 in
        ((here, Keeps-AllHeld rest shared _ keeps h.1), keeps)
    turn_of-AllHeld (suc index) answer (s ∷ rest) shared h =
        let (others, keeps) = turn_of-AllHeld index answer rest shared h.1 in
        ((Keeps-Held s.pc s shared _ keeps h.0, others), keeps)

    pub run_segments-AllHeld :
        (events : List Event) (segments : List Segment) (shared : Shared)
        → AllHeld segments shared
        → AllHeld
            (run_segments source chunk_bytes truncated events (segments, shared)).0
            (run_segments source chunk_bytes truncated events (segments, shared)).1
    unfolding run_segments
    run_segments-AllHeld [] segments shared h = h
    run_segments-AllHeld (thread index answer ∷ events) segments shared h =
        run_segments-AllHeld events _ _ (turn_of-AllHeld index answer segments shared h).0
    run_segments-AllHeld (digest_fails error ∷ events) segments shared h =
        run_segments-AllHeld events segments _
          (Keeps-AllHeld segments shared _ (record_error-Keeps error shared) h)
