-- ===== src/Engine/Checkpoints/Returns.antt =====
-- The loop of a stream's copy comes to its end.
use bigcp.Base.{
  if_elim, ℕ, ◌+◌, ◌-◌, ◌^◌, ◌≤◌, ◌<◌, min, ◌≡◌, refl, Bool, inr, Option, none, some, List, [], ◌∷◌,
  ok, err, arith, ltb, ◌==◌, not, length, HasEnded,
}
use bigcp.Base.Bytes.{Bytes}
use bigcp.Counters.{u64_max}
use bigcp.Win.Types.{FileIdentity}
use bigcp.Journal.Codec.{Json}
use bigcp.Journal.Handle.{Journal}
use bigcp.Transport.Burst.{Call, Phase, read_from}
use bigcp.Transport.Burst.Phases.{read_from-IsRead}
use bigcp.Transport.Burst.Ends.{effective, read_from-HasEnded, write_to-HasEnded}
use bigcp.Engine.Transfer.{
  StreamBuffers, same_spindle, Moving, Script, SegmentResult, Messages, burst_writes,
  same_spindle_burst, transfer_segment, for_unnamed_stream,
}
use bigcp.Engine.Transfer.Moved.{Delivers}
use bigcp.Engine.Transfer.Delivered.{transfer_segment-Delivers}
use bigcp.Engine.Checkpoints.{
  cursor_bound, FileFacts, CheckpointIo, Log, Copying, start_copy, Advanced, CopyResult, advanced,
  copy_round, copy_loop,
}
use bigcp.Engine.Checkpoints.Bounds.{cursor_bound-IsBound}
use bigcp.Engine.Checkpoints.Progress.{HasMoved}
use bigcp.Engine.Checkpoints.Loop.{IsGoing, Going, copy_round-Going, start_copy-IsGoing}

-- The environment lets a segment come to its end, with success or an error.
abbrev pub Answers : Messages → (buffers : StreamBuffers) → Script buffers → Type 0
Answers messages buffers script =
    (bound : ℕ) (m : Moving)
    → 0 < bound
    → HasEnded (transfer_segment messages buffers script bound m)

abbrev pub AllAnswer :
    Messages → (buffers : StreamBuffers) → List (Script buffers × CheckpointIo) → Type 0
AllAnswer messages buffers [] = Unit
AllAnswer messages buffers ((script, _) ∷ rounds) =
    Answers messages buffers script × AllAnswer messages buffers rounds

abbrev Progress : ℕ → CopyResult → Type 0
Progress total none = ⊥
Progress total (some (err _, _)) = Unit
Progress total (some (ok _, s)) = total < s.total

advanced-Progress :
    (total : ℕ) (s : Copying) (r : Advanced) → total < s.total → Progress total (advanced s r)
advanced-Progress total s (err e, cursor, log) h = tt
advanced-Progress total s (ok _, cursor, log) h = h

-- A burst does not need more calls than its buffer has bytes, besides those that are interrupted.
module _ (messages : Messages) (capacity request_bytes : ℕ) where
  writes_end :
      (p : Phase) (buffer : Bytes) (m : Moving)
      → HasEnded p
      → HasEnded (burst_writes messages buffer p m)
  unfolding burst_writes
  writes_end none buffer m h = absurd h
  writes_end (some (ok n, _, file)) buffer m h = tt
  writes_end (some (err (cause, _), _, file)) buffer m h = tt

  burst_ends :
      (requested : ℕ) (read_calls write_calls : List Call) (m : Moving) (p : Phase)
      → read_from request_bytes requested read_calls [] m.rest ≡ p
      → HasEnded p
      → requested ≤ effective write_calls
      → HasEnded (same_spindle_burst messages request_bytes requested p write_calls m)
  unfolding same_spindle_burst
  burst_ends requested read_calls write_calls m none e ended h = absurd ended
  burst_ends requested read_calls write_calls m (some (err (cause, _), _, rest)) e ended h = tt
  burst_ends requested read_calls write_calls m (some (ok n, buffer, rest)) e ended h =
      let r = read_from-IsRead request_bytes requested read_calls m.rest (ok n, buffer, rest) e in
      if_elim HasEnded (not (n == requested)) _ _ (λ _. tt)
        (λ _. writes_end _ buffer _ (
          write_to-HasEnded request_bytes 0 write_calls buffer m.file
            (omega (arith, h, r.bounded))))

  pub burst-Answers :
      (read_calls write_calls : List Call)
      → capacity ≤ effective read_calls
      → capacity ≤ effective write_calls
      → Answers messages (same_spindle capacity request_bytes) (read_calls, write_calls)
  unfolding transfer_segment
  burst-Answers read_calls write_calls reads_enough writes_enough bound m positive =
      burst_ends (min bound capacity) read_calls write_calls m _ refl
        (read_from-HasEnded request_bytes (min bound capacity) read_calls [] m.rest
          (omega (arith, reads_enough)))
        (omega (arith, writes_enough))

module _ {Value : Type 0} (json : Json Value) (facts : FileFacts) (source : Bytes)
    (logical_size : ℕ) (small : logical_size ≤ u64_max) where
  copy_round-Progress :
      (calls : CheckpointIo) (start : Journal) (s : Copying) (r : SegmentResult)
      → s.total < logical_size
      → IsGoing json facts source logical_size start s
      → Delivers (cursor_bound s.cursor s.total (logical_size - s.total)) s.moving r
      → HasEnded r
      → Progress s.total (copy_round json facts calls s r)
  unfolding copy_round
  copy_round-Progress calls start s none before i d ended = absurd ended
  copy_round-Progress calls start s (some (err e, moving)) before i d ended = tt
  copy_round-Progress calls start s (some (ok count, moving)) before i (_, at_most, positive)
        ended =
      let bound = cursor_bound-IsBound s.total logical_size s.cursor i.track in
      let some_bytes = positive (bound.progress before) in
      let room = bound.within in
      advanced-Progress s.total
        (record s { total = min (s.total + count) u64_max; moving = moving }) _
        (omega (arith, some_bytes, room, before, at_most, small))

  on_round :
      (start : Journal) (total : ℕ) (r : CopyResult) (rest : Copying → CopyResult)
      → Going json facts source logical_size start r
      → Progress total r
      → ((s : Copying)
          → IsGoing json facts source logical_size start s
          → total < s.total
          → HasEnded (rest s))
      → HasEnded (elim r as (λ _. CopyResult) [
        | none ↦ none
        | some (err e, s) ↦ some (err e, s)
        | some (ok _, s) ↦ rest s
      ])
  on_round start total none rest g p f = absurd p
  on_round start total (some (err e, s)) rest g p f = tt
  on_round start total (some (ok _, s)) rest g p f = f s g p

  copy_loop-HasEnded :
      (messages : Messages) (buffers : StreamBuffers)
      → ((script : Script buffers) (bound : ℕ) (m : Moving)
          → bound < 2 ^ 64
          → Delivers bound m (transfer_segment messages buffers script bound m))
      → (rounds : List (Script buffers × CheckpointIo)) (start : Journal) (s : Copying)
      → IsGoing json facts source logical_size start s
      → AllAnswer messages buffers rounds
      → logical_size ≤ s.total + length rounds
      → HasEnded (copy_loop json facts messages buffers logical_size rounds s)
  unfolding copy_loop
  copy_loop-HasEnded messages buffers delivers [] start s i answers enough =
      if_elim HasEnded (ltb s.total logical_size) _ _
        (λ more. absurd (ground (arith, more, enough))) (λ _. tt)
  copy_loop-HasEnded messages buffers delivers ((script, calls) ∷ rounds) start s i
        (answer, answers) enough =
      let bound = cursor_bound s.cursor s.total (logical_size - s.total) in
      if_elim HasEnded (ltb s.total logical_size) _ _
        (λ more.
          let before : s.total < logical_size = ground (arith, more) in
          let fits = cursor_bound-IsBound s.total logical_size s.cursor i.track in
          let room = fits.within in
          let moved = delivers script bound s.moving (omega (arith, room, before, small)) in
          on_round start s.total _ _
            (copy_round-Going json facts source logical_size small calls start s _ before i moved)
            (copy_round-Progress calls start s _ before i moved
              (answer bound s.moving (fits.progress before)))
            (λ next going progress.
              copy_loop-HasEnded messages buffers delivers rounds start next going answers
                (omega (arith, progress, enough))))
        (λ _. tt)

  module _ (is_same_spindle is_redirector : Bool)
      (burst_bytes burst_request request_bytes remaining : ℕ) where
    -- A loop for whose segments the environment lets every transfer come to its end ends, with success or
    -- an error, after at most as many rounds as bytes are left: every segment is asked for at least a byte
    -- and moves at least one, also next to a checkpoint.
    pub copy_loop-returns :
        (messages : Messages) (buffers : StreamBuffers)
        (rounds : List (Script buffers × CheckpointIo)) (threshold total : ℕ)
        (identity : Option FileIdentity) (moving : Moving) (log : Log)
        → total ≤ logical_size
        → HasMoved source total moving
        → for_unnamed_stream is_same_spindle is_redirector burst_bytes burst_request request_bytes
            remaining
          ≡ some buffers
        → AllAnswer messages buffers rounds
        → logical_size ≤ total + length rounds
        → HasEnded (
            copy_loop json facts messages buffers logical_size rounds
              (start_copy logical_size threshold total identity moving log))
    unfolding start_copy
    copy_loop-returns messages buffers rounds threshold total identity moving log within moved
          chosen answers enough =
        copy_loop-HasEnded messages buffers
          (λ script bound m short.
            transfer_segment-Delivers is_same_spindle is_redirector burst_bytes burst_request
              request_bytes remaining messages buffers script bound m short (inr chosen))
          rounds log.journal _
          (start_copy-IsGoing json facts source logical_size small threshold total identity moving
            log moved within)
          answers enough
