-- ===== src/Journal/Compact/Survives.antt =====
-- A compacted journal, loaded again, gives the checkpoints and the job that it was written from.
use bigcp.Base.{
  ◌≤◌, ◌≡◌, refl, sym, ap, subst, ◌∙◌, ◌⊎◌, inl, inr, true, false, some, [], ◌∷◌, ◌++◌, map,
  Outcome, ok, err, Outcome-cases, length,
}
use bigcp.Base.Bytes.{Bytes}
use bigcp.Base.TreeMap.{values}
use bigcp.Counters.{u64_max}
use bigcp.Errors.{IoError, BigcpError, io}
use bigcp.Journal.{JournalEvent, job, checkpoint, JobSignature, Resumable}
use bigcp.Journal.Codec.{Json, JsonLaws}
use bigcp.Journal.Reader.{Reader}
use bigcp.Journal.Reader.Lines.{content, IsSound}
use bigcp.Journal.Replay.{LoadedState, empty_state, apply_event}
use bigcp.Journal.Loader.{load_state}
use bigcp.Journal.Loader.Recovery.{absorb, absorb_one, load-written}
use bigcp.Journal.Handle.{Journal, Attempt, works, breaks, Step, and_then, try}
use bigcp.Journal.Compact.{
  PublishIo, attempt, publish_outcome, publish_artifact, write_atomic_bytes, CompactIo,
  replace_file, compacted_events, encode_all, compact_with, compact,
}
use bigcp.Journal.Compact.Restore.{restore-values, IsKept}
use bigcp.Journal.Compact.Entries.{Fits, encode_all-IsEncoded, encode_all-AreEntries}

-- What a load gives after a compaction: the checkpoints and the job, and nothing else.
pub record IsRecovered (resumable : Resumable) (signature : JobSignature) (state : LoadedState)
    : Type 0 where
  pub same_resumable : state.resumable ≡ resumable
  pub same_job : state.active_job ≡ some signature
  pub no_reclaimable : state.reclaimable ≡ []
  pub no_torn_tail : state.torn_tail ≡ false
  pub none_skipped : state.skipped_records ≡ 0

-- A publication replaces the file with all of the contents, or fails and leaves it.
write_atomic_bytes-outcome :
    (calls : PublishIo) (contents disk : Bytes)
    → let (result, after) = write_atomic_bytes calls contents disk in
      ((e : IoError) × (result ≡ err e) × (after ≡ disk)) ⊎ (after ≡ contents)
unfolding write_atomic_bytes publish_artifact
write_atomic_bytes-outcome calls contents disk =
    go calls.create calls.write calls.sync calls.keep calls.rename calls.sync_renamed calls.close
  where
    go :
        (create write sync keep rename sync_renamed close : Attempt)
        → let (result, after) = attempt create disk (
            attempt write disk (
              attempt sync disk (
                attempt keep disk (
                  attempt rename disk (
                    attempt sync_renamed contents (attempt close contents (ok tt, contents))))))) in
          ((e : IoError) × (result ≡ err e) × (after ≡ disk)) ⊎ (after ≡ contents)
    go (breaks e) write sync keep rename sync_renamed close = inl (e, refl, refl)
    go works (breaks e) sync keep rename sync_renamed close = inl (e, refl, refl)
    go works works (breaks e) keep rename sync_renamed close = inl (e, refl, refl)
    go works works works (breaks e) rename sync_renamed close = inl (e, refl, refl)
    go works works works works (breaks e) sync_renamed close = inl (e, refl, refl)
    go works works works works works (breaks e) close = inr refl
    go works works works works works works (breaks e) = inr refl
    go works works works works works works works = inr refl

module _ {Value : Type 0} (json : Json Value)
    (run_id source destination options_hash timestamp : Bytes) (resumable : Resumable) where
  abbrev pub header : JournalEvent
  header = job run_id source destination options_hash timestamp

  abbrev pub signature : JobSignature
  signature = record { source = source; destination = destination; options_hash = options_hash }

  -- A file with these contents is loaded as the journal that they were written from.
  abbrev pub Recovers : Bytes → Type 0
  Recovers contents =
      (reader : Reader)
      → IsSound reader
      → length (content reader) ≤ u64_max
      → content reader ≡ contents
      → (state : LoadedState) × (load_state json reader ≡ some (ok state))
        × IsRecovered resumable signature state

  -- Whatever the operating system answers: the file is as it was and an error is reported, or the
  -- file is the compacted one.
  abbrev pub Compacted : Journal → Step → Type 0
  Compacted journal r =
      ((e : BigcpError) × (r.0 ≡ err e) × (r.1.disk ≡ journal.disk)) ⊎ Recovers r.1.disk

  module _ (laws : JsonLaws json) (kept : IsKept resumable)
      (fits : Fits json (compacted_events header resumable)) where
    Recovers-contents :
        (contents : Bytes)
        → encode_all json (compacted_events header resumable) ≡ ok contents
        → Recovers contents
    unfolding apply_event
    Recovers-contents contents enc reader s h c =
        let e = encode_all-IsEncoded json header (map checkpoint (values resumable)) contents enc in
        let es = encode_all-AreEntries json (values resumable) e.rest fits.1 e.rest_is in
        let begun = absorb_one (header, e.line) empty_state in
        let r = es.effect begun in
        (
          absorb es.entries begun,
          load-written json laws ((header, e.line) ∷ es.entries) reader
              (e.line_is, fits.0 e.line e.line_is, es.written) s h
              (c ∙ e.contents_is ∙ ap (λ d. e.line ++ d) es.disk_is),
          record {
            same_resumable = r.resumable_is ∙ restore-values resumable kept;
            same_job = r.job_is;
            no_reclaimable = r.reclaimable_is;
            no_torn_tail = r.torn_is;
            none_skipped = r.skipped_is;
          },
        )

    reopened :
        (reopen seek : Attempt) (published : Outcome BigcpError (Unit {0})) (before now : Journal)
        → ((e : BigcpError) × (published ≡ err e) × (now.disk ≡ before.disk)) ⊎ Recovers now.disk
        → Compacted before (
            and_then (try "reopen compacted journal" reopen now) λ opened.
              and_then
                (try "seek compacted journal" seek opened)
                λ sought. (published, record sought { is_open = true }))
    reopened works works published before now h = h
    reopened works (breaks f) published before now (inl (_, _, same)) =
        inl (io "seek compacted journal" f, refl, same)
    reopened works (breaks f) published before now (inr h) = inr h
    reopened (breaks f) seek published before now (inl (_, _, same)) =
        inl (io "reopen compacted journal" f, refl, same)
    reopened (breaks f) seek published before now (inr h) = inr h

    replaced :
        (calls : CompactIo) (contents : Bytes) (journal : Journal)
        → Recovers contents
        → Compacted journal (replace_file calls contents journal)
    unfolding replace_file
    replaced calls contents journal h =
        reopened calls.reopen calls.seek _ journal _
          (elim (write_atomic_bytes-outcome calls.publish contents journal.disk) [
            | inl (e, failed, same) ↦
                inl (io "publish compacted journal" e, ap publish_outcome failed, same)
            | inr new ↦ inr (subst Recovers (sym new) h)
          ])

    compact_with-Compacted :
        (calls : CompactIo) (journal : Journal)
        → journal.resumable ≡ resumable
        → Compacted journal (compact_with json (some header) calls journal)
    compact_with-Compacted calls journal same =
        elim (Outcome-cases (encode_all json (compacted_events header journal.resumable))) [
          | inr (e, p) ↦ rw p (inl (e, refl, refl))
          | inl (contents, p) ↦ rw p (
              replaced calls contents journal (
                Recovers-contents contents
                  (ap (λ r. encode_all json (compacted_events header r)) (sym same) ∙ p)))
        ]

    -- Of a journal whose job has begun, whose checkpoints are in order under their own keys, and
    -- whose records keep to the limit: whatever the operating system answers, a compaction either
    -- reports an error and leaves the file as it was, or, also where an error of its last calls is
    -- reported, leaves a file from which a load without
    -- read errors recovers exactly the checkpoints and the job.
    pub compact-Compacted :
        (calls : CompactIo) (journal : Journal)
        → journal.resumable ≡ resumable
        → journal.job_record ≡ some header
        → Compacted journal (compact json calls journal)
    unfolding compact
    compact-Compacted calls journal same header_is =
        subst (λ h. Compacted journal (compact_with json h calls journal)) (sym header_is)
          (compact_with-Compacted calls journal same)
