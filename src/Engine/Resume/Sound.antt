-- ===== src/Engine/Resume/Sound.antt =====
-- A temporary that is taken up holds the beginning of the source.
use bigcp.Base.{
  both, ==_iff, if_elim, ℕ, ◌≤◌, max, ◌≡◌, refl, sym, ap, ◌∙◌, ◌⊎◌, inl, inr, Bool, true, false,
  not, ◌&&◌, ◌||◌, leb, Option, none, some, [], Outcome, ok, err, arith, length, take, drop,
  length-take, take-append-drop, Bool-cases, HasEnded,
}
use bigcp.Base.Bytes.{Bytes, bytes_eq, bytes_eq_sound}
use bigcp.Errors.{OperationError}
use bigcp.Win.Types.{FileIdentity}
use bigcp.Journal.{Checkpoint, CheckpointFileIdentity, identity_from_file, identity_matches}
use bigcp.Engine.Checkpoints.{FileFacts}
use bigcp.Engine.Checkpoints.Progress.{HasMoved}
use bigcp.Engine.Checkpoints.Attested.{IsTruthful}
use bigcp.Engine.Resume.{
  Temp, ResumeIo, Resumption, ResumeStep, Prefix, verified, ended, failed, read_prefix,
  discard_temp, source_matches, checkpoint_matches_temp, take_up, after_prefix, resume_unnamed,
}
use bigcp.Engine.Resume.Prefixes.{
  IsPrefix, Reads, prefix_taken, read_prefix-Reads, read_prefix-HasEnded,
}

identity_matches-from_file :
    (hex_encode : Bytes → Bytes) (recorded : CheckpointFileIdentity) (actual : FileIdentity)
    → identity_matches hex_encode recorded actual ≡ true
    → recorded ≡ identity_from_file hex_encode actual
unfolding identity_matches identity_from_file
identity_matches-from_file hex_encode recorded actual h =
    let (serial, id) = both _ _ h in
    rw
      (
        ← (==_iff recorded.volume_serial actual.volume_serial).0 serial,
        ← bytes_eq_sound recorded.file_id (hex_encode actual.file_id) id,
      )
      refl

module _ (facts : FileFacts) (logical_size : ℕ) (c : Checkpoint) where
  matches-recorded :
      (temp : Temp)
      → checkpoint_matches_temp facts logical_size c temp ≡ true
      → (actual : FileIdentity) × (temp.identity ≡ some actual)
        × (c.temp_identity ≡ some (identity_from_file facts.hex_encode actual))
  unfolding checkpoint_matches_temp
  matches-recorded temp h = go c.temp_identity temp.identity refl refl h
    where
      go :
          (recorded : Option CheckpointFileIdentity) (actual : Option FileIdentity)
          → c.temp_identity ≡ recorded
          → temp.identity ≡ actual
          → (elim recorded as (λ _. Bool) [
            | none ↦ false
            | some expected ↦ elim actual [
              | none ↦ false
              | some found ↦ identity_matches facts.hex_encode expected found
            ]
          ])
            ≡ true
          → (found : FileIdentity) × (temp.identity ≡ some found)
            × (c.temp_identity ≡ some (identity_from_file facts.hex_encode found))
      go none actual r a e = absurd (cc)
      go (some expected) none r a e = absurd (cc)
      go (some expected) (some found) r a e =
          (found, a, r ∙ ap some (identity_matches-from_file facts.hex_encode expected found e))

  matches-source :
      source_matches facts logical_size c ≡ true
      → c.source_identity ≡ some (identity_from_file facts.hex_encode facts.source_identity)
  unfolding source_matches
  matches-source h = go c.source_identity refl (both _ _ (both _ _ (both _ _ h).1).1).0
    where
      go :
          (recorded : Option CheckpointFileIdentity)
          → c.source_identity ≡ recorded
          → (elim recorded as (λ _. Bool) [
            | none ↦ false
            | some identity ↦ identity_matches facts.hex_encode identity facts.source_identity
          ])
            ≡ true
          → c.source_identity ≡ some (identity_from_file facts.hex_encode facts.source_identity)
      go none r e = absurd (cc)
      go (some identity) r e =
          r ∙ ap some (identity_matches-from_file facts.hex_encode identity facts.source_identity e)

module _ (facts : FileFacts) (source : Bytes) (logical_size : ℕ) (c : Checkpoint)
    (temp : Temp) where
  -- The temporary is the one that the checkpoint recorded.
  abbrev pub IsRecorded : Type 0
  IsRecorded =
      (actual : FileIdentity) × (temp.identity ≡ some actual)
      × (c.temp_identity ≡ some (identity_from_file facts.hex_encode actual))

  -- A copy goes on behind the watermark, in a temporary that holds the source up to there, with a
  -- hasher that was given the same, and only of the recorded source.
  pub record IsTakenUp (r : Resumption) (after : Temp) : Type 0 where
    pub total : r.total ≡ c.watermark
    pub within : r.total ≤ logical_size
    pub moved : HasMoved source r.total r.moving
    pub hasher : r.moving.hasher ≡ some (take c.watermark source)
    pub file : after ≡ record temp { contents = r.moving.file }
    pub same_source :
        c.source_identity ≡ some (identity_from_file facts.hex_encode facts.source_identity)

  abbrev pub Taken : Outcome OperationError (Option Resumption) → Temp → Type 0
  Taken (err _) after =
      (after.contents ≡ temp.contents) ⊎ (after.contents ≡ take c.watermark temp.contents)
  Taken (ok none) after = after.contents ≡ temp.contents
  Taken (ok (some r)) after = IsTakenUp r after

  abbrev pub IsSound : Option ResumeStep → Type 0
  IsSound none = Unit
  IsSound (some (result, after)) = ((after ≡ temp) ⊎ IsRecorded) × Taken result after

  module _ (matched : IsRecorded) where
    discarded : (discard : Option OperationError) → IsSound (some (discard_temp discard temp))
    discarded none = (inr matched, refl)
    discarded (some e) = (inr matched, inl refl)

    taken_up :
        (calls : ResumeIo) (fed : Bytes)
        → HasMoved source c.watermark (record {
          rest = drop c.watermark source;
          file = take c.watermark temp.contents;
          hasher = some fed;
        })
        → fed ≡ take c.watermark source
        → c.watermark ≤ logical_size
        → c.source_identity ≡ some (identity_from_file facts.hex_encode facts.source_identity)
        → IsSound (some (take_up facts logical_size c source calls temp fed))
    unfolding take_up
    taken_up calls fed moved whole within same = go calls.set_len calls.seek_temp calls.seek_source
      where
        go :
            (set_len seek_temp seek_source : Option OperationError)
            → IsSound (
                some (elim set_len as (λ _. ResumeStep) [
                  | some e ↦ (err e, temp)
                  | none ↦ elim seek_temp [
                    | some e ↦ (err e, record temp { contents = take c.watermark temp.contents })
                    | none ↦ elim seek_source [
                      | some e ↦ (err e, record temp { contents = take c.watermark temp.contents })
                      | none ↦ (
                        ok (
                            some (record {
                              total = c.watermark;
                              moving = record {
                                rest = drop c.watermark source;
                                file = take c.watermark temp.contents;
                                hasher = some fed;
                              };
                            })),
                        record temp { contents = take c.watermark temp.contents },
                      )
                    ]
                  ]
                ]))
        go (some e) seek_temp seek_source = (inr matched, inl refl)
        go none (some e) seek_source = (inr matched, inr refl)
        go none none (some e) = (inr matched, inr refl)
        go none none none = (
          inr matched,
          record {
            total = refl;
            within = within;
            moved = moved;
            hasher = ap some whole;
            file = refl;
            same_source = same;
          },
        )

    module _ (truth : IsTruthful facts source logical_size c)
        (no_collision : facts.digest (take c.watermark temp.contents)
            ≡ facts.digest (take c.watermark source)
          → take c.watermark temp.contents ≡ take c.watermark source) where
      same_prefix :
          (fed : Bytes)
          → IsPrefix c.watermark temp.contents [] fed
          → facts.digest fed ≡ c.prefix_digest
          → (fed ≡ take c.watermark source)
            × HasMoved source c.watermark (record {
              rest = drop c.watermark source;
              file = take c.watermark temp.contents;
              hasher = some fed;
            })
      same_prefix fed p same_digest =
          let read : fed ≡ take c.watermark temp.contents =
            p.all ∙ prefix_taken c.watermark temp.contents fed p in
          let equal : take c.watermark temp.contents ≡ take c.watermark source =
            no_collision (sym (ap facts.digest read) ∙ same_digest ∙ truth.digest) in
          let there = truth.there in
          (
            read ∙ equal,
            record {
              prefix = take c.watermark source;
              count = omega (arith, there, length-take c.watermark source);
              left = take-append-drop c.watermark source;
              file = equal;
              hashed = λ fed_too e. let same : fed_too ≡ fed = cc in same ∙ read ∙ equal;
            },
          )

      after_prefix-IsSound :
          (calls : ResumeIo) (p : Option Prefix)
          → c.source_identity ≡ some (identity_from_file facts.hex_encode facts.source_identity)
          → Reads c.watermark temp.contents [] p
          → IsSound (after_prefix facts logical_size c source calls temp p)
      unfolding after_prefix
      after_prefix-IsSound calls none same_source r = tt
      after_prefix-IsSound calls (some (failed e)) same_source r = (inr matched, inl refl)
      after_prefix-IsSound calls (some ended) same_source r = discarded calls.discard
      after_prefix-IsSound calls (some (verified fed)) same_source r =
          elim (Bool-cases (bytes_eq (facts.digest fed) c.prefix_digest)) [
            | inl same ↦ rw same (
                let (whole, moved) =
                  same_prefix fed r (bytes_eq_sound (facts.digest fed) c.prefix_digest same) in
                taken_up calls fed moved whole truth.within same_source)
            | inr other ↦ rw other (discarded calls.discard)
          ]

module _ (facts : FileFacts) (source : Bytes) (logical_size : ℕ) where
  ends_after :
      (c : Checkpoint) (temp : Temp) (calls : ResumeIo) (p : Option Prefix)
      → HasEnded p
      → HasEnded (after_prefix facts logical_size c source calls temp p)
  unfolding after_prefix
  ends_after c temp calls none h = absurd h
  ends_after c temp calls (some (failed e)) h = tt
  ends_after c temp calls (some ended) h = tt
  ends_after c temp calls (some (verified fed)) h =
      if_elim HasEnded (bytes_eq (facts.digest fed) c.prefix_digest) _ _ (λ _. tt) (λ _. tt)

  resume_ends :
      (c : Checkpoint) (temp : Temp) (chunk_bytes : ℕ) (calls : ResumeIo)
      → c.watermark ≤ length calls.reads
      → HasEnded (resume_unnamed facts logical_size c source chunk_bytes calls temp)
  unfolding resume_unnamed
  resume_ends c temp chunk_bytes calls enough =
      if_elim HasEnded (not (checkpoint_matches_temp facts logical_size c temp)) _ _ (λ _. tt)
        (λ _.
          if_elim HasEnded
            (not (source_matches facts logical_size c)
              || not (calls.length_known && leb c.watermark (length temp.contents)))
            _ _ (λ _. tt) (λ _. go calls.seek_start))
    where
      go :
          (seek_start : Option OperationError)
          → HasEnded (elim seek_start as (λ _. Option ResumeStep) [
            | some e ↦ some (err e, temp)
            | none ↦
                after_prefix facts logical_size c source calls temp
                  (read_prefix (max chunk_bytes 65536) calls.reads c.watermark temp.contents [])
          ])
      go (some e) = tt
      go none = ends_after c temp calls _ (
          read_prefix-HasEnded (max chunk_bytes 65536) calls.reads c.watermark temp.contents []
            enough)

  taken_or_left :
      (c : Checkpoint) (temp : Temp) (chunk_bytes : ℕ) (calls : ResumeIo)
      → IsTruthful facts source logical_size c
      → (facts.digest (take c.watermark temp.contents) ≡ facts.digest (take c.watermark source)
          → take c.watermark temp.contents ≡ take c.watermark source)
      → IsSound facts source logical_size c temp
          (resume_unnamed facts logical_size c source chunk_bytes calls temp)
  unfolding resume_unnamed
  taken_or_left c temp chunk_bytes calls truth no_collision =
      if_elim (IsSound facts source logical_size c temp)
        (not (checkpoint_matches_temp facts logical_size c temp)) _ _ (λ _. (inl refl, refl))
        (λ matches.
          let matched = matches-recorded facts logical_size c temp (not_false _ matches) in
          if_elim (IsSound facts source logical_size c temp)
            (not (source_matches facts logical_size c)
              || not (calls.length_known && leb c.watermark (length temp.contents)))
            (some (discard_temp calls.discard temp)) _
            (λ _. discarded facts source logical_size c temp matched calls.discard)
            (λ sourced.
              go matched (matches-source facts logical_size c (left_false _ _ sourced))
                calls.seek_start))
    where
      not_false : (b : Bool) → not b ≡ false → b ≡ true
      not_false true e = refl
      not_false false e = absurd (cc)

      left_false : (a b : Bool) → (not a || b) ≡ false → a ≡ true
      left_false true b e = refl
      left_false false b e = absurd (cc)

      go :
          IsRecorded facts source logical_size c temp
          → c.source_identity ≡ some (identity_from_file facts.hex_encode facts.source_identity)
          → (seek_start : Option OperationError)
          → IsSound facts source logical_size c temp (elim seek_start as (λ _. Option ResumeStep) [
            | some e ↦ some (err e, temp)
            | none ↦
                after_prefix facts logical_size c source calls temp
                  (read_prefix (max chunk_bytes 65536) calls.reads c.watermark temp.contents [])
          ])
      go matched same_source (some e) = (inl refl, inl refl)
      go matched same_source none =
          after_prefix-IsSound facts source logical_size c temp matched truth no_collision calls _
            same_source
            (read_prefix-Reads (max chunk_bytes 65536) calls.reads c.watermark temp.contents [])

  -- A checkpoint that was written for a source that is the same now, and a temporary at its name,
  -- whose first `watermark` bytes do not collide with the source's under the digest, but may be any:
  -- whatever the calls answer, of which as many reads as bytes are enough, there is a result, and the
  -- temporary is neither changed nor discarded unless its identity is the recorded one, and bytes of
  -- it are cut off only behind the watermark. If it is taken up, the copy goes on exactly at the
  -- watermark: the temporary holds just the first `watermark` bytes of the source, the hasher was
  -- given these, the source stands behind them, and its identity is the recorded one.
  pub resume_unnamed-IsSound :
      (c : Checkpoint) (temp : Temp) (chunk_bytes : ℕ) (calls : ResumeIo)
      → IsTruthful facts source logical_size c
      → (facts.digest (take c.watermark temp.contents) ≡ facts.digest (take c.watermark source)
          → take c.watermark temp.contents ≡ take c.watermark source)
      → c.watermark ≤ length calls.reads
      → let result = resume_unnamed facts logical_size c source chunk_bytes calls temp in
        HasEnded result × IsSound facts source logical_size c temp result
  resume_unnamed-IsSound c temp chunk_bytes calls truth no_collision enough = (
    resume_ends c temp chunk_bytes calls enough,
    taken_or_left c temp chunk_bytes calls truth no_collision,
  )
