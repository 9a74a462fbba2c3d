-- ===== src/Engine/Resume/Unchanged.antt =====
-- A temporary that still holds what its checkpoint attests is taken up.
use bigcp.Base.{
  ℕ, suc, ◌-◌, ◌≤◌, ◌<◌, min, max, ◌≡◌, refl, sym, ap, ◌∙◌, true, ◌==◌, ==_iff, leb, Option, none,
  some, List, [], ◌∷◌, ◌++◌, map, ok, arith, length, take, drop, length-drop, if_elim,
}
use bigcp.Base.Bytes.{Bytes, bytes_eq_refl, bytes_eq_iff}
use bigcp.Base.Int.{eqb_ℤ_iff}
use bigcp.Win.Types.{FileIdentity}
use bigcp.Journal.{Checkpoint, identity_from_file, identity_matches}
use bigcp.Engine.Checkpoints.{FileFacts}
use bigcp.Engine.Checkpoints.Attested.{IsTruthful}
use bigcp.Engine.Resume.{
  Temp, gives, ResumeIo, Resumption, Prefix, verified, ended, failed, read_prefix, source_matches,
  checkpoint_matches_temp, take_up, after_prefix, resume_unnamed,
}
use bigcp.Engine.Resume.Prefixes.{Reads, read_prefix-Reads, prefix_taken}
use bigcp.Engine.Resume.Sound.{IsRecorded}

abbrev IsVerified : Option Prefix → Type 0
IsVerified none = ⊥
IsVerified (some ended) = ⊥
IsVerified (some (failed _)) = ⊥
IsVerified (some (verified _)) = Unit

read_prefix-IsVerified :
    (chunk : ℕ) (counts : List ℕ) (remaining : ℕ) (unread fed : Bytes)
    → 0 < chunk
    → remaining ≤ length counts
    → remaining ≤ length unread
    → IsVerified (read_prefix chunk (map gives counts) remaining unread fed)
unfolding read_prefix
read_prefix-IsVerified chunk [] remaining unread fed positive enough there =
    if_elim IsVerified (remaining == 0) _ _ (λ _. tt)
      (λ more. absurd (ground (arith, more, enough)))
read_prefix-IsVerified chunk (n ∷ counts) remaining unread fed positive enough there =
    let count = min (suc n) (min (min remaining chunk) (length unread)) in
    if_elim IsVerified (remaining == 0) _ _ (λ _. tt)
      (λ more.
        let some_left : 0 < remaining = ground (arith, more) in
        if_elim IsVerified (count == 0) _ _
          (λ nothing. absurd (
            let bad : count ≡ 0 = (==_iff count 0).0 nothing in
            omega (arith, bad, positive, there, some_left)))
          (λ some_bytes.
            let progress : 0 < count = ground (arith, some_bytes) in
            read_prefix-IsVerified chunk counts (remaining - count) (drop count unread)
              (fed ++ take count unread) positive (omega (arith, enough, progress))
              (omega (arith, there, length-drop count unread))))

verified_as :
    (w : ℕ) (contents : Bytes) (p : Option Prefix)
    → IsVerified p
    → Reads w contents [] p
    → p ≡ some (verified (take w contents))
verified_as w contents none v r = absurd v
verified_as w contents (some ended) v r = absurd v
verified_as w contents (some (failed _)) v r = absurd v
verified_as w contents (some (verified out)) v r =
    ap (λ o. some (verified o)) (r.all ∙ prefix_taken w contents out r)

identity_matches-same :
    (hex_encode : Bytes → Bytes) (actual : FileIdentity)
    → identity_matches hex_encode (identity_from_file hex_encode actual) actual ≡ true
unfolding identity_matches identity_from_file
identity_matches-same hex_encode actual =
    let serial = (==_iff actual.volume_serial actual.volume_serial).1 refl in
    rw (serial, bytes_eq_refl (hex_encode actual.file_id)) refl

-- No call fails, and the reads give what they like.
abbrev pub working : List ℕ → ResumeIo
working counts = record {
  length_known = true;
  discard = none;
  seek_start = none;
  reads = map gives counts;
  set_len = none;
  seek_temp = none;
  seek_source = none;
}

-- A resumption at an offset of a source, with a hasher.
abbrev pub behind : ℕ → Bytes → Resumption
behind offset source = record {
  total = offset;
  moving = record {
    rest = drop offset source;
    file = take offset source;
    hasher = some (take offset source);
  };
}

module _ (facts : FileFacts) (source : Bytes) (logical_size : ℕ) (c : Checkpoint)
    (temp : Temp) where
  recorded-matches :
      IsRecorded facts source logical_size c temp
      → checkpoint_matches_temp facts logical_size c temp ≡ true
  unfolding checkpoint_matches_temp
  recorded-matches (actual, found, recorded) =
      rw (found, recorded) (identity_matches-same facts.hex_encode actual)

  source-matches :
      IsTruthful facts source logical_size c
      → c.source_identity ≡ some (identity_from_file facts.hex_encode facts.source_identity)
      → source_matches facts logical_size c ≡ true
  unfolding source_matches
  source-matches truth same =
      let sized = (==_iff c.source_size logical_size).1 truth.sized in
      let dated = (eqb_ℤ_iff c.source_mtime facts.source_mtime).1 truth.dated in
      let id = identity_matches-same facts.hex_encode facts.source_identity in
      let within : leb c.watermark c.source_size ≡ true =
        (let h = truth.within in let s = truth.sized in ground (arith, h, s)) in
      rw (sized, dated, same, id, within) refl

  -- A checkpoint of a source that is the same now, in a temporary with the recorded identity that still
  -- holds the source up to the watermark, whatever comes behind it, is used: if no call fails and there
  -- are as many reads as bytes, however short, the copy goes on exactly at the watermark, in a
  -- temporary that is cut off there, with a hasher that was given what it holds.
  pub resume_unnamed-unchanged :
      (chunk_bytes : ℕ) (counts : List ℕ)
      → IsTruthful facts source logical_size c
      → IsRecorded facts source logical_size c temp
      → c.source_identity ≡ some (identity_from_file facts.hex_encode facts.source_identity)
      → take c.watermark temp.contents ≡ take c.watermark source
      → c.watermark ≤ length temp.contents
      → c.watermark ≤ length counts
      → resume_unnamed facts logical_size c source chunk_bytes (working counts) temp
        ≡ some (
          ok (some (behind c.watermark source)),
          record temp { contents = take c.watermark source },
        )
  unfolding resume_unnamed after_prefix take_up
  resume_unnamed-unchanged chunk_bytes counts truth recorded same_source same there enough =
      let chunk = max chunk_bytes 65536 in
      let prefix =
        verified_as c.watermark temp.contents _
          (read_prefix-IsVerified chunk counts c.watermark temp.contents [] (omega arith) enough
            there)
          (read_prefix-Reads chunk (map gives counts) c.watermark temp.contents []) in
      let long_enough : leb c.watermark (length temp.contents) ≡ true = ground (arith, there) in
      let digest =
        (bytes_eq_iff (facts.digest (take c.watermark source)) c.prefix_digest).1
          (sym truth.digest) in
      rw
        (
          recorded-matches recorded,
          source-matches truth same_source,
          long_enough,
          prefix,
          same,
          digest,
        )
        refl
