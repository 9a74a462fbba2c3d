-- ===== src/Engine/Checkpoints/Loop.antt =====
-- The whole loop of a stream's copy: what it records, what it leaves, and that it ends.
use bigcp.Base.{
  if_elim, ℕ, ◌+◌, ◌-◌, ◌^◌, ◌≤◌, ◌<◌, min, ◌≡◌, refl, ap, ◌∙◌, inr, Bool, Option, none, some, List,
  [], ◌∷◌, ok, err, arith, leb, ltb, ◌&&◌, length, take, if◌then◌else◌,
}
use bigcp.Base.Bytes.{Bytes}
use bigcp.Counters.{u64_max}
use bigcp.Win.Types.{FileIdentity}
use bigcp.Journal.Codec.{Json}
use bigcp.Journal.Handle.{Journal}
use bigcp.Engine.Transfer.{StreamBuffers, Moving, Script, SegmentResult, Messages, transfer_segment}
use bigcp.Engine.Transfer.Moved.{Delivers}
use bigcp.Engine.Checkpoints.{
  new_cursor, cursor_bound, FileFacts, CheckpointIo, Log, Copying, start_copy, Advanced, CopyResult,
  advanced, copy_round, copy_loop,
}
use bigcp.Engine.Checkpoints.Bounds.{
  IsOnTrack, scheduled-IsOnTrack, cursor_bound-IsBound, checkpoint_interval-positive,
}
use bigcp.Engine.Transfer.{for_unnamed_stream}
use bigcp.Engine.Transfer.Delivered.{transfer_segment-Delivers}
use bigcp.Engine.Checkpoints.Progress.{HasMoved, Moved-HasMoved}
use bigcp.Engine.Checkpoints.Attested.{
  IsRecorded, unchanged, taken, GoesOn, IsReached, advance-GoesOn,
}

module _ {Value : Type 0} (json : Json Value) (facts : FileFacts) (source : Bytes)
    (logical_size : ℕ) where
  -- A copy at the head of its loop.
  pub record IsGoing (start : Journal) (s : Copying) : Type 0 where
    pub moved : HasMoved source s.total s.moving
    pub within : s.total ≤ logical_size
    pub track : IsOnTrack s.total logical_size s.cursor
    pub recorded : IsRecorded json facts source logical_size start s.log.journal

  abbrev pub Going : Journal → CopyResult → Type 0
  Going start none = Unit
  Going start (some (err _, s)) = IsRecorded json facts source logical_size start s.log.journal
  Going start (some (ok _, s)) = IsGoing start s

  advanced-Going :
      (start : Journal) (s : Copying) (r : Advanced)
      → HasMoved source s.total s.moving
      → s.total ≤ logical_size
      → GoesOn json facts source logical_size start s.total r.0 r.1 r.2
      → Going start (advanced s r)
  advanced-Going start s (err e, cursor, log) moved within h = h.recorded
  advanced-Going start s (ok done, cursor, log) moved within h = record {
    moved = moved;
    within = within;
    track = h.track done refl;
    recorded = h.recorded;
  }

  module _ (small : logical_size ≤ u64_max) where
    pub copy_round-Going :
        (calls : CheckpointIo) (start : Journal) (s : Copying) (r : SegmentResult)
        → s.total < logical_size
        → IsGoing start s
        → Delivers (cursor_bound s.cursor s.total (logical_size - s.total)) s.moving r
        → Going start (copy_round json facts calls s r)
    unfolding copy_round
    copy_round-Going calls start s none before i d = tt
    copy_round-Going calls start s (some (err e, moving)) before i d = i.recorded
    copy_round-Going calls start s (some (ok count, moving)) before i (moved, at_most, _) =
        let bound = cursor_bound-IsBound s.total logical_size s.cursor i.track in
        let room = bound.within in
        let total : min (s.total + count) u64_max ≡ s.total + count =
          omega (arith, room, at_most, before, small) in
        let now = Moved-HasMoved source s.total count s.moving moving i.moved moved in
        let within : s.total + count ≤ logical_size = omega (arith, room, at_most, before) in
        let reached : IsReached json facts source logical_size (s.total + count) s.cursor = record {
          sized = i.track.sized;
          spaced = i.track.spaced;
          not_past = λ b e. let f = bound.no_further b e before in omega (arith, f, at_most);
          inside = i.track.inside;
        } in
        rw total (
          advanced-Going start (record s { total = s.total + count; moving = moving }) _ now within
            (advance-GoesOn json facts source logical_size calls start (s.total + count) moving
              s.cursor s.log now within reached small i.recorded))

    abbrev Ends : Journal → CopyResult → Type 0
    Ends start none = Unit
    Ends start (some (err _, s)) = IsRecorded json facts source logical_size start s.log.journal
    Ends start (some (ok _, s)) = IsGoing start s × (s.total ≡ logical_size)

    on_round :
        (start : Journal) (r : CopyResult) (rest : Copying → CopyResult)
        → Going start r
        → ((s : Copying) → IsGoing start s → Ends start (rest s))
        → Ends start
            (elim r [ none ↦ none | some (err e, s) ↦ some (err e, s) | some (ok _, s) ↦ rest s ])
    on_round start none rest g f = tt
    on_round start (some (err e, s)) rest g f = g
    on_round start (some (ok _, s)) rest g f = f s g

    copy_loop-Ends :
        (messages : Messages) (buffers : StreamBuffers)
        → ((script : Script buffers) (bound : ℕ) (m : Moving)
            → bound < 2 ^ 64
            → Delivers bound m (transfer_segment messages buffers script bound m))
        → (rounds : List (Script buffers × CheckpointIo)) (start : Journal) (s : Copying)
        → IsGoing start s
        → Ends start (copy_loop json facts messages buffers logical_size rounds s)
    unfolding copy_loop
    copy_loop-Ends messages buffers delivers [] start s i =
        if_elim (Ends start) (ltb s.total logical_size) _ _ (λ _. tt)
          (λ full. (i, let w = i.within in ground (arith, full, w)))
    copy_loop-Ends messages buffers delivers ((script, calls) ∷ rounds) start s i =
        let bound = cursor_bound s.cursor s.total (logical_size - s.total) in
        if_elim (Ends start) (ltb s.total logical_size) _ _
          (λ more.
            let before : s.total < logical_size = ground (arith, more) in
            let room = (cursor_bound-IsBound s.total logical_size s.cursor i.track).within in
            on_round start _ _
              (copy_round-Going calls start s _ before i
                (delivers script bound s.moving (omega (arith, room, before, small))))
              (λ next going. copy_loop-Ends messages buffers delivers rounds start next going))
          (λ full. (i, let w = i.within in ground (arith, full, w)))

    pub start_copy-IsGoing :
        (threshold total : ℕ) (identity : Option FileIdentity) (moving : Moving) (log : Log)
        → HasMoved source total moving
        → total ≤ logical_size
        → IsGoing log.journal (start_copy logical_size threshold total identity moving log)
    unfolding start_copy new_cursor
    start_copy-IsGoing threshold total identity moving log moved within =
        let eligible = leb threshold logical_size && log.has_journal in
        record {
          moved = moved;
          within = within;
          track =
              scheduled-IsOnTrack eligible total
                (new_cursor eligible total logical_size (if eligible then identity else none))
                (checkpoint_interval-positive logical_size) small;
          recorded = unchanged;
        }

  -- A stream whose copy is over.
  pub record IsWhole (s : Copying) : Type 0 where
    pub file : s.moving.file ≡ take logical_size source
    pub long_enough : logical_size ≤ length source
    pub digest : (fed : Bytes) → s.moving.hasher ≡ some fed → fed ≡ take logical_size source

  abbrev pub Attested : Journal → CopyResult → Type 0
  Attested start none = Unit
  Attested start (some (err _, s)) = IsRecorded json facts source logical_size start s.log.journal
  Attested start (some (ok _, s)) =
      IsRecorded json facts source logical_size start s.log.journal × IsWhole s

  module _ (is_same_spindle is_redirector : Bool)
      (burst_bytes burst_request request_bytes remaining : ℕ) where
    -- The copy of an unnamed stream of at most `u64_max` bytes, from its beginning or from a prefix that
    -- the temporary has, whatever its transport, the calls and the schedules: the journal is changed
    -- only by appends of checkpoints, each of which attests with its digest the first `watermark` bytes
    -- of the source, in a temporary and for a file that are named truly. If the loop ends with success,
    -- the temporary holds the first `logical_size` bytes of the source, and so many there are, and the
    -- digest is over the same.
    pub copy_loop-Attested :
        (messages : Messages) (buffers : StreamBuffers)
        (rounds : List (Script buffers × CheckpointIo)) (threshold total : ℕ)
        (identity : Option FileIdentity) (moving : Moving) (log : Log)
        → logical_size ≤ u64_max
        → total ≤ logical_size
        → HasMoved source total moving
        → for_unnamed_stream is_same_spindle is_redirector burst_bytes burst_request request_bytes
            remaining
          ≡ some buffers
        → Attested log.journal (
            copy_loop json facts messages buffers logical_size rounds
              (start_copy logical_size threshold total identity moving log))
    copy_loop-Attested messages buffers rounds threshold total identity moving log small within
          moved chosen =
        attested log.journal _ (
          copy_loop-Ends small messages buffers
            (λ script bound m short.
              transfer_segment-Delivers is_same_spindle is_redirector burst_bytes burst_request
                request_bytes remaining messages buffers script bound m short (inr chosen))
            rounds log.journal _
            (start_copy-IsGoing small threshold total identity moving log moved within))
      where
        attested : (start : Journal) (r : CopyResult) → Ends small start r → Attested start r
        attested start none h = tt
        attested start (some (err _, s)) h = h
        attested start (some (ok _, s)) (i, full) =
            let (prefix, there) = taken json facts source logical_size s.total s.moving i.moved in
            let same : i.moved.prefix ≡ take logical_size source =
              prefix ∙ ap (λ (n : ℕ). take n source) full in
            (
              i.recorded,
              record {
                file = i.moved.file ∙ same;
                long_enough = omega (arith, there, full);
                digest = λ fed e. i.moved.hashed fed e ∙ same;
              },
            )
