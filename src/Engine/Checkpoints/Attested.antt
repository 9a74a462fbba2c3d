-- ===== src/Engine/Checkpoints/Attested.antt =====
-- What the checkpoints of a stream say, and what its copy is at the end.
use bigcp.Base.{
  ℕ, ◌≤◌, ◌<◌, ◌≡◌, refl, sym, ap, subst, ◌∙◌, inl, inr, Bool, true, false, Option, none, some, [],
  Outcome, ok, err, arith, ltb, ◌==◌, length, take, length-append, take-length-append, Bool-cases,
  if◌then◌else◌,
}
use bigcp.Base.Bytes.{Bytes}
use bigcp.Counters.{u64_max}
use bigcp.Errors.{OperationError}
use bigcp.Win.Types.{FileIdentity}
use bigcp.Journal.{Checkpoint, checkpoint}
use bigcp.Journal.Codec.{Json}
use bigcp.Journal.Handle.{Journal, AppendIo, Step, append}
use bigcp.Engine.Transfer.{Moving}
use bigcp.Engine.Checkpoints.{
  CheckpointCursor, CheckpointStatus, written, disabled, not_configured, FileFacts, CheckpointIo,
  Log, Advanced, append_status, checkpoint_of, write_checkpoint, append_checkpoint, after_status,
  advance,
}
use bigcp.Engine.Checkpoints.Bounds.{IsOnTrack, scheduled-IsOnTrack}
use bigcp.Engine.Checkpoints.Progress.{HasMoved}

module _ (facts : FileFacts) (source : Bytes) (logical_size : ℕ) where
  -- A checkpoint that attests a prefix of the source: its digest is that of the first `watermark` bytes.
  pub record IsTruthful (c : Checkpoint) : Type 0 where
    pub there : c.watermark ≤ length source
    pub within : c.watermark ≤ logical_size
    pub digest : c.prefix_digest ≡ facts.digest (take c.watermark source)
    pub sized : c.source_size ≡ logical_size
    pub dated : c.source_mtime ≡ facts.source_mtime
    pub named : facts.temp_name ≡ some c.temp_name
    pub owned : c.relative_path ≡ facts.relative_path

append_status-journal :
    (persists : Bool) (log : Log) (r : Step) → (append_status persists log r).1.journal ≡ r.1
unfolding append_status
append_status-journal persists log (err _, journal) = refl
append_status-journal true log (ok _, journal) = refl
append_status-journal false log (ok _, journal) = refl

module _ {Value : Type 0} (json : Json Value) (facts : FileFacts) (source : Bytes)
    (logical_size : ℕ) where
  -- A journal after appends of such checkpoints, which may fail, and nothing else.
  pub data IsRecorded (start : Journal) : Journal → Type 0 where
    unchanged : IsRecorded start start
    appends :
        (calls : AppendIo) (c : Checkpoint) (journal : Journal)
        → IsTruthful facts source logical_size c
        → IsRecorded start journal
        → IsRecorded start (append json calls (checkpoint c) journal).1

  pub taken :
      (total : ℕ) (m : Moving) (h : HasMoved source total m)
      → (h.prefix ≡ take total source) × (total ≤ length source)
  taken total m h = (
    rw (← h.left, ← h.count) (sym (take-length-append h.prefix m.rest)),
    omega (arith, h.count, ap length h.left, length-append h.prefix m.rest),
  )

  append_checkpoint-IsRecorded :
      (calls : CheckpointIo) (total : ℕ) (m : Moving) (identity : Option FileIdentity)
      (start : Journal) (log : Log)
      → HasMoved source total m
      → total ≤ logical_size
      → IsRecorded start log.journal
      → IsRecorded start
          (append_checkpoint json facts calls [] logical_size total m.hasher identity log).1.journal
  unfolding append_checkpoint write_checkpoint checkpoint_of
  append_checkpoint-IsRecorded calls total m identity start log h within i =
      elim (Bool-cases log.has_journal) [
        | inr n ↦ rw n i
        | inl y ↦ rw y (go m.hasher refl facts.temp_name refl identity)
      ]
    where
      go :
          (hasher : Option Bytes)
          → m.hasher ≡ hasher
          → (temp_name : Option Bytes) → facts.temp_name ≡ temp_name
          → (identity : Option FileIdentity)
          → IsRecorded start (
              (elim hasher as (λ _. Outcome OperationError CheckpointStatus × Log) [
                | none ↦ (err facts.no_digest, log)
                | some fed ↦ elim temp_name [
                  | none ↦ (err facts.bad_name, log)
                  | some name ↦ elim identity [
                    | none ↦ (ok disabled, log)
                    | some known ↦
                        write_checkpoint json facts calls
                          (checkpoint_of json facts [] name known logical_size total fed)
                          log
                  ]
                ]
              ]).1.journal)
      go none e temp_name t identity = i
      go (some fed) e none t identity = i
      go (some fed) e (some name) t none = i
      go (some fed) e (some name) t (some known) =
          let (prefix, there) = taken total m h in
          let c = checkpoint_of json facts [] name known logical_size total fed in
          let now = append json calls.append (checkpoint c) log.journal in
          let truth : IsTruthful facts source logical_size c = record {
            there = there;
            within = within;
            digest = ap facts.digest (h.hashed fed e ∙ prefix);
            sized = refl;
            dated = refl;
            named = t;
            owned = refl;
          } in
          subst (IsRecorded start) (sym (append_status-journal calls.persists log now))
            (appends calls.append c log.journal truth i)

  -- A round's outcome, which goes on from `total` if it is a success.
  pub record GoesOn (start : Journal) (total : ℕ) (r : Outcome OperationError (Unit {0}))
      (cursor : CheckpointCursor) (log : Log) : Type 0 where
    pub recorded : IsRecorded start log.journal
    pub track : (done : Unit {0}) → r ≡ ok done → IsOnTrack total logical_size cursor

  -- The cursor behind a segment.
  pub record IsReached (total : ℕ) (cursor : CheckpointCursor) : Type 0 where
    pub sized : cursor.total_size ≡ logical_size
    pub spaced : 0 < cursor.interval
    pub not_past : (b : ℕ) → cursor.next ≡ some b → total ≤ b
    pub inside : (b : ℕ) → cursor.next ≡ some b → b ≤ logical_size

  unscheduled :
      (total : ℕ) (cursor : CheckpointCursor)
      → IsReached total cursor
      → IsOnTrack total logical_size (record cursor { next = none })
  unscheduled total cursor h = record {
    sized = h.sized;
    spaced = h.spaced;
    ahead = λ b e. absurd (cc);
    inside = λ b e. absurd (cc);
  }

  after_status-GoesOn :
      (start : Journal) (total : ℕ) (cursor : CheckpointCursor)
      (r : Outcome OperationError CheckpointStatus × Log)
      → IsReached total cursor
      → logical_size ≤ u64_max
      → IsRecorded start r.1.journal
      → let (result, next, log) = after_status total cursor r in GoesOn start total result next log
  unfolding after_status
  after_status-GoesOn start total cursor (err e, log) h small i = record {
    recorded = i;
    track = λ done x. absurd (cc);
  }
  after_status-GoesOn start total cursor (ok written, log) h small i = record {
    recorded = i;
    track = λ done x.
        subst (λ (n : ℕ). IsOnTrack total n (after_status total cursor (ok written, log)).1) h.sized
          (scheduled-IsOnTrack (ltb total cursor.total_size) total cursor h.spaced
            (omega (arith, h.sized, small)));
  }
  after_status-GoesOn start total cursor (ok disabled, log) h small i = record {
    recorded = i;
    track = λ done x. unscheduled total cursor h;
  }
  after_status-GoesOn start total cursor (ok not_configured, log) h small i = record {
    recorded = i;
    track = λ done x. unscheduled total cursor h;
  }

  pub advance-GoesOn :
      (calls : CheckpointIo) (start : Journal) (total : ℕ) (m : Moving) (cursor : CheckpointCursor)
      (log : Log)
      → HasMoved source total m
      → total ≤ logical_size
      → IsReached total cursor
      → logical_size ≤ u64_max
      → IsRecorded start log.journal
      → let (result, next, after) = advance json facts calls [] total m.hasher cursor log in
        GoesOn start total result next after
  unfolding advance
  advance-GoesOn calls start total m cursor log moved within h small i = go cursor.next refl
    where
      ahead_of :
          (boundary b : ℕ)
          → cursor.next ≡ some boundary
          → cursor.next ≡ some b
          → (boundary == total) ≡ false
          → total < b
      ahead_of boundary b e x other =
          let same : boundary ≡ b = let both = sym e ∙ x in cc in
          let reached = h.not_past b x in ground (arith, same, reached, other)

      go :
          (next : Option ℕ)
          → cursor.next ≡ next
          → let (result, after_cursor, after) : Advanced = elim next [
            | none ↦ (ok tt, cursor, log)
            | some boundary ↦
                if boundary == total
                then after_status total cursor (
                    append_checkpoint json facts calls [] cursor.total_size total m.hasher
                      cursor.temp_identity log)
                else (ok tt, cursor, log)
          ] in
            GoesOn start total result after_cursor after
      go none e = record {
        recorded = i;
        track = λ done x. record {
          sized = h.sized;
          spaced = h.spaced;
          ahead = λ b x before. absurd (let bad = sym e ∙ x in cc);
          inside = h.inside;
        };
      }
      go (some boundary) e = elim (Bool-cases (boundary == total)) [
        | inl here ↦ rw here (
            after_status-GoesOn start total cursor _ h small (
              subst
                (λ (n : ℕ).
                  IsRecorded start
                    (append_checkpoint json facts calls [] n total m.hasher cursor.temp_identity
                      log).1.journal)
                (sym h.sized)
                (append_checkpoint-IsRecorded calls total m cursor.temp_identity start log moved
                  within i)))
        | inr not_here ↦ rw not_here (record {
          recorded = i;
          track = λ done x. record {
            sized = h.sized;
            spaced = h.spaced;
            ahead = λ b x before. ahead_of boundary b e x not_here;
            inside = h.inside;
          };
        })
      ]
