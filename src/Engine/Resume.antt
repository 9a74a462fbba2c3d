-- ===== src/Engine/Resume.antt =====
-- `resume_unnamed` and `checkpoint_matches_temp` of engine.rs: whether the temporary that a checkpoint
-- names is taken up again.
pub mod Prefixes
pub mod Sound
pub mod Unchanged
mod Examples
use bigcp.Base.{
  ℕ, suc, ◌-◌, min, max, Bool, true, false, not, ◌&&◌, ◌||◌, ◌==◌, leb, Option, none, some, List,
  [], ◌∷◌, ◌++◌, Outcome, ok, err, length, take, drop, if◌then◌else◌,
}
use bigcp.Base.Bytes.{Bytes, bytes_eq}
use bigcp.Base.Int.{eqb_ℤ}
use bigcp.Errors.{OperationError}
use bigcp.Win.Types.{FileIdentity}
use bigcp.Journal.{Checkpoint, identity_matches}
use bigcp.Engine.Transfer.{Moving}
use bigcp.Engine.Checkpoints.{FileFacts}

-- A temporary; its identity where the query for it succeeds.
pub record Temp : Type 0 where
  pub contents : Bytes
  pub identity : Option FileIdentity
  pub is_discarded : Bool

pub data PrefixRead : Type 0 where
  gives : ℕ → PrefixRead
  breaks : OperationError → PrefixRead

-- What the calls answer, in their order; `none` is a success. The errors are those that the code composes.
pub record ResumeIo : Type 0 where
  pub length_known : Bool
  pub discard : Option OperationError
  pub seek_start : Option OperationError
  pub reads : List PrefixRead
  pub set_len : Option OperationError
  pub seek_temp : Option OperationError
  pub seek_source : Option OperationError

-- A copy that goes on behind its prefix.
pub record Resumption : Type 0 where
  pub total : ℕ
  pub moving : Moving

abbrev pub ResumeStep : Type 0
ResumeStep = Outcome OperationError (Option Resumption) × Temp

pub data Prefix : Type 0 where
  verified : (fed : Bytes) → Prefix
  ended : Prefix
  failed : OperationError → Prefix

-- The loop over the prefix: `unread` is the file from the position on.
unfoldable pub read_prefix :
    (chunk : ℕ) → List PrefixRead → (remaining : ℕ) (unread fed : Bytes) → Option Prefix
read_prefix chunk [] remaining unread fed = if remaining == 0 then some (verified fed) else none
read_prefix chunk (read ∷ reads) remaining unread fed =
    let count = λ (n : ℕ). min (suc n) (min (min remaining chunk) (length unread)) in
    let round : Option Prefix = elim read [
      | gives n ↦
          (let more =
              read_prefix chunk reads (remaining - count n) (drop (count n) unread)
                (fed ++ take (count n) unread) in
            if count n == 0 then some ended else more)
      | breaks e ↦ some (failed e)
    ] in
    if remaining == 0 then some (verified fed) else round

abbrev pub discard_temp : Option OperationError → Temp → ResumeStep
discard_temp none temp = (ok none, record temp { is_discarded = true })
discard_temp (some e) temp = (err e, temp)

module _ (facts : FileFacts) (logical_size : ℕ) (c : Checkpoint) where
  unfoldable pub source_matches : Bool
  source_matches =
      (c.source_size == logical_size)
      && (eqb_ℤ c.source_mtime facts.source_mtime
          && (elim c.source_identity [
            | none ↦ false
            | some identity ↦ identity_matches facts.hex_encode identity facts.source_identity
          ]
              && leb c.watermark c.source_size))

  unfoldable pub checkpoint_matches_temp : Temp → Bool
  checkpoint_matches_temp temp = elim c.temp_identity [
    | none ↦ false
    | some expected ↦ elim temp.identity [
      | none ↦ false
      | some actual ↦ identity_matches facts.hex_encode expected actual
    ]
  ]

  -- From `set_len` on.
  unfoldable pub take_up : (source : Bytes) → ResumeIo → Temp → (fed : Bytes) → ResumeStep
  take_up source calls temp fed =
      let cut = record temp { contents = take c.watermark temp.contents } in
      let moving : Moving = record {
        rest = drop c.watermark source;
        file = cut.contents;
        hasher = some fed;
      } in
      elim calls.set_len [
        | some e ↦ (err e, temp)
        | none ↦ elim calls.seek_temp [
          | some e ↦ (err e, cut)
          | none ↦ elim calls.seek_source [
            | some e ↦ (err e, cut)
            | none ↦ (ok (some (record { total = c.watermark; moving = moving })), cut)
          ]
        ]
      ]

  unfoldable pub after_prefix :
      (source : Bytes) → ResumeIo → Temp → Option Prefix → Option ResumeStep
  unfolding take_up
  after_prefix source calls temp none = none
  after_prefix source calls temp (some (failed e)) = some (err e, temp)
  after_prefix source calls temp (some ended) = some (discard_temp calls.discard temp)
  after_prefix source calls temp (some (verified fed)) =
      if bytes_eq (facts.digest fed) c.prefix_digest
      then some (take_up source calls temp fed)
      else some (discard_temp calls.discard temp)

  -- `resume_unnamed` once it has opened the temporary; a failed open gives a clean copy.
  unfoldable pub resume_unnamed :
      (source : Bytes) (chunk_bytes : ℕ) → ResumeIo → Temp → Option ResumeStep
  unfolding source_matches checkpoint_matches_temp after_prefix
  resume_unnamed source chunk_bytes calls temp =
      let long_enough = calls.length_known && leb c.watermark (length temp.contents) in
      let prefix : Option ResumeStep = elim calls.seek_start [
        | some e ↦ some (err e, temp)
        | none ↦
            after_prefix source calls temp
              (read_prefix (max chunk_bytes 65536) calls.reads c.watermark temp.contents [])
      ] in
      if not (checkpoint_matches_temp temp)
      then some (ok none, temp)
      else if not source_matches || not long_enough
      then some (discard_temp calls.discard temp)
      else prefix
