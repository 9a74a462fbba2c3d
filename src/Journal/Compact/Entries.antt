-- ===== src/Journal/Compact/Entries.antt =====
-- The text of a compacted journal, as the entries that it consists of and what they restore.
use bigcp.Base.{
  ◌≤◌, ◌≡◌, refl, ap, ◌∙◌, inl, inr, List, [], ◌∷◌, ◌++◌, map, ok, Outcome-cases, arith, length,
  All,
}
use bigcp.Base.Bytes.{Bytes}
use bigcp.Base.TreeMap.{bytes_ord, pair_ord}
use bigcp.Journal.{Checkpoint, JournalEvent, checkpoint}
use bigcp.Journal.Codec.{Json, encode_record}
use bigcp.Journal.Reader.{max_record}
use bigcp.Journal.Replay.{LoadedState, apply_event}
use bigcp.Journal.Loader.Recovery.{Entry, disk_of, absorb, absorb_one, AreWritten}
use bigcp.Journal.Compact.{encode_all}
use bigcp.Journal.Compact.Restore.{restore}

-- Only the checkpoints differ.
pub record IsRestored (cs : List Checkpoint) (before after : LoadedState) : Type 0 where
  pub resumable_is : after.resumable ≡ restore cs before.resumable
  pub job_is : after.active_job ≡ before.active_job
  pub reclaimable_is : after.reclaimable ≡ before.reclaimable
  pub torn_is : after.torn_tail ≡ before.torn_tail
  pub skipped_is : after.skipped_records ≡ before.skipped_records

absorb_checkpoint :
    (c : Checkpoint) (line : Bytes) (cs : List Checkpoint) (state after : LoadedState)
    → IsRestored cs (absorb_one (checkpoint c, line) state) after
    → IsRestored (c ∷ cs) state after
unfolding apply_event
absorb_checkpoint c line cs state after r = record {
  resumable_is = r.resumable_is;
  job_is = r.job_is;
  reclaimable_is = r.reclaimable_is;
  torn_is = r.torn_is;
  skipped_is = r.skipped_is;
}

module _ {Value : Type 0} (json : Json Value) where
  -- The records of the events keep to the limit of a line.
  abbrev pub Fits : List JournalEvent → Type 0
  Fits events =
      All (λ event. (line : Bytes) → encode_record json event ≡ ok line → length line ≤ max_record)
        events

  pub record IsEncoded (event : JournalEvent) (events : List JournalEvent) (contents : Bytes)
      : Type 0 where
    pub line : Bytes
    pub rest : Bytes
    pub line_is : encode_record json event ≡ ok line
    pub rest_is : encode_all json events ≡ ok rest
    pub contents_is : contents ≡ line ++ rest

  pub encode_all-IsEncoded :
      (event : JournalEvent) (events : List JournalEvent) (contents : Bytes)
      → encode_all json (event ∷ events) ≡ ok contents
      → IsEncoded event events contents
  unfolding encode_all
  encode_all-IsEncoded event events contents h = elim (Outcome-cases (encode_record json event)) [
    | inr (e, p) ↦ absurd (ground arith)
    | inl (line, p) ↦ elim (Outcome-cases (encode_all json events)) [
      | inr (e, q) ↦ absurd (ground arith)
      | inl (rest, q) ↦ record {
        line = line;
        rest = rest;
        line_is = p;
        rest_is = q;
        contents_is = ground arith;
      }
    ]
  ]

  -- The entries of a text of checkpoints.
  pub record AreEntries (cs : List Checkpoint) (contents : Bytes) : Type 0 where
    pub entries : List Entry
    pub disk_is : contents ≡ disk_of entries
    pub written : AreWritten json entries
    pub effect : (state : LoadedState) → IsRestored cs state (absorb entries state)

  pub encode_all-AreEntries :
      (cs : List Checkpoint) (contents : Bytes)
      → Fits (map checkpoint cs)
      → encode_all json (map checkpoint cs) ≡ ok contents
      → AreEntries cs contents
  unfolding encode_all
  encode_all-AreEntries [] contents fits h = record {
    entries = [];
    disk_is = cc;
    written = tt;
    effect = λ state. record {
      resumable_is = refl;
      job_is = refl;
      reclaimable_is = refl;
      torn_is = refl;
      skipped_is = refl;
    };
  }
  encode_all-AreEntries (c ∷ cs) contents fits h =
      let e = encode_all-IsEncoded (checkpoint c) (map checkpoint cs) contents h in
      let later = encode_all-AreEntries cs e.rest fits.1 e.rest_is in
      record {
        entries = (checkpoint c, e.line) ∷ later.entries;
        disk_is = e.contents_is ∙ ap (λ r. e.line ++ r) later.disk_is;
        written = (e.line_is, fits.0 e.line e.line_is, later.written);
        effect = λ state.
            absorb_checkpoint c e.line cs state _
              (later.effect (absorb_one (checkpoint c, e.line) state));
      }
