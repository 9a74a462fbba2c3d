-- ===== src/Engine/Resume/Examples.antt =====
-- A temporary of two good bytes and a stray one, taken up again.
use bigcp.Base.{◌≡◌, refl, true, false, none, some, [], ◌∷◌, ok, arith, HasEnded}
use bigcp.Base.Bytes.{bytes_eq}
use bigcp.Base.Int.{pos}
use bigcp.Errors.{OperationError, from_io, other_kind}
use bigcp.Win.Types.{FileIdentity}
use bigcp.Journal.{Checkpoint, CheckpointFileIdentity, identity_from_file, identity_matches}
use bigcp.Engine.Checkpoints.{FileFacts}
use bigcp.Engine.Checkpoints.Attested.{IsTruthful}
use bigcp.Engine.Resume.{
  Temp, gives, ResumeIo, source_matches, checkpoint_matches_temp, read_prefix, after_prefix,
  take_up, resume_unnamed,
}
use bigcp.Engine.Resume.Unchanged.{working, behind, resume_unnamed-unchanged}
use bigcp.Engine.Resume.Sound.{IsSound, resume_unnamed-IsSound}

abbrev an_error : OperationError
an_error = from_io [] [] [] (record { raw_os_error = none; kind = other_kind; text = [] })

abbrev identity : FileIdentity
identity = record { volume_serial = 1; file_id = 2 ∷ [] }

abbrev recorded_identity : CheckpointFileIdentity
recorded_identity = record { volume_serial = 1; file_id = 2 ∷ [] }

-- The digest is the bytes themselves.
abbrev facts : FileFacts
facts = record {
  relative_path = 97 ∷ [];
  source_identity = identity;
  source_mtime = pos 5;
  temp_name = some (116 ∷ []);
  hex_encode = λ bytes. bytes;
  digest = λ bytes. bytes;
  no_digest = an_error;
  bad_name = an_error;
}

abbrev half_done : Checkpoint
half_done = record {
  relative_path = 97 ∷ [];
  stream = [];
  temp_name = 116 ∷ [];
  temp_identity = some recorded_identity;
  source_identity = some recorded_identity;
  source_size = 3;
  source_mtime = pos 5;
  watermark = 2;
  prefix_digest = 7 ∷ 8 ∷ [];
}

half_done-IsTruthful : IsTruthful facts (7 ∷ 8 ∷ 9 ∷ []) 3 half_done
half_done-IsTruthful = record {
  there = omega arith;
  within = omega arith;
  digest = refl;
  sized = refl;
  dated = refl;
  named = refl;
  owned = refl;
}

abbrev left_over : Temp
left_over = record { contents = 7 ∷ 8 ∷ 99 ∷ []; identity = some identity; is_discarded = false }

abbrev calls : ResumeIo
calls = record {
  length_known = true;
  discard = none;
  seek_start = none;
  reads = gives 0 ∷ gives 5 ∷ [];
  set_len = none;
  seek_temp = none;
  seek_source = none;
}

-- It goes on behind the second byte.
taken_up_again :
    resume_unnamed facts 3 half_done (7 ∷ 8 ∷ 9 ∷ []) 4 calls left_over
    ≡ some (
      ok (
          some (record {
            total = 2;
            moving = record { rest = 9 ∷ []; file = 7 ∷ 8 ∷ []; hasher = some (7 ∷ 8 ∷ []) };
          })),
      record left_over { contents = 7 ∷ 8 ∷ [] },
    )
unfolding resume_unnamed source_matches checkpoint_matches_temp identity_matches bytes_eq
    read_prefix after_prefix take_up
taken_up_again = refl

resume_unnamed-IsSound_example :
    let result = resume_unnamed facts 3 half_done (7 ∷ 8 ∷ 9 ∷ []) 4 calls left_over in
    HasEnded result × IsSound facts (7 ∷ 8 ∷ 9 ∷ []) 3 half_done left_over result
resume_unnamed-IsSound_example =
    resume_unnamed-IsSound facts (7 ∷ 8 ∷ 9 ∷ []) 3 half_done left_over 4 calls half_done-IsTruthful
      (λ e. e) (omega arith)

resume_unnamed-unchanged_example :
    resume_unnamed facts 3 half_done (7 ∷ 8 ∷ 9 ∷ []) 4 (working (0 ∷ 5 ∷ [])) left_over
    ≡ some (ok (some (behind 2 (7 ∷ 8 ∷ 9 ∷ []))), record left_over { contents = 7 ∷ 8 ∷ [] })
unfolding identity_from_file
resume_unnamed-unchanged_example =
    resume_unnamed-unchanged facts (7 ∷ 8 ∷ 9 ∷ []) 3 half_done left_over 4 (0 ∷ 5 ∷ [])
      half_done-IsTruthful (identity, refl, refl) refl refl (omega arith) (omega arith)
