-- ===== src/Journal/Open/Truncates.antt =====
-- A journal that is opened over a torn tail: exactly the tail is cut off.
use bigcp.Base.{
  ℕ, suc, ◌+◌, ◌≤◌, ◌<◌, ◌≡◌, refl, ap, ◌∙◌, true, false, some, List, inl, inr, Bool-cases, [], ◌∷◌,
  ◌++◌, ok, arith, ◌==◌, length, length-append, take, take-length-append,
}
use bigcp.Base.Bytes.{Bytes}
use bigcp.Counters.{u64_max, saturating_add}
use bigcp.Journal.{JournalEvent, job, checkpoint, part_done, end}
use bigcp.Journal.Codec.{Json, JsonLaws, encode_record}
use bigcp.Journal.Reader.{max_record, Reader}
use bigcp.Journal.Reader.Lines.{content, IsSound, clip}
use bigcp.Journal.Replay.{LoadedState, empty_state, apply_event, signature_changed}
use bigcp.Journal.Loader.{load_state}
use bigcp.Journal.Loader.Recovery.{Entry, disk_of, seen, absorb, absorb_one, AreWritten}
use bigcp.Journal.Loader.Damage.{after_cut, load_cut}
use bigcp.Journal.Handle.{works}
use bigcp.Journal.Open.{
  OpenIo, journal_of, open_journal, recover, recovered, open_loaded, open_with,
}

-- Every call works, and the file is there.
abbrev pub working : Reader → OpenIo
working reader = record {
  create_parent = works;
  exists = true;
  open_reader = works;
  reader = reader;
  open_file = works;
  set_len = works;
  seek = works;
}

apply_event-length :
    (event : JournalEvent) (state : LoadedState)
    → (apply_event event state).valid_length ≡ state.valid_length
unfolding apply_event
apply_event-length (job r s d o t) state =
    elim (Bool-cases (
      signature_changed state.active_job
        (record { source = s; destination = d; options_hash = o }))) [
          | inl e ↦ rw e refl
          | inr e ↦ rw e refl
        ]
apply_event-length (checkpoint c) state = refl
apply_event-length (part_done p) state = refl
apply_event-length (end r) state = refl

absorb-length :
    (entries : List Entry) (state : LoadedState)
    → state.valid_length + length (disk_of entries) ≤ u64_max
    → (absorb entries state).valid_length ≡ state.valid_length + length (disk_of entries)
unfolding clip
absorb-length [] state h = omega arith
absorb-length ((event, line) ∷ entries) state h =
    let one : (absorb_one (event, line) state).valid_length ≡ state.valid_length + length line =
      ap (λ v. saturating_add v (length line)) (apply_event-length event (seen state))
      ∙ omega (arith, length-append line (disk_of entries)) in
    omega (
      arith,
      one,
      length-append line (disk_of entries),
      absorb-length entries (absorb_one (event, line) state)
          (omega (arith, one, length-append line (disk_of entries))),
    )

after_cut-torn :
    (state : LoadedState) (event : JournalEvent) (line : Bytes) (n : ℕ)
    → 0 < n
    → suc n < length line
    → after_cut state event line n ≡ record (seen state) { torn_tail = true }
after_cut-torn state event line n p l =
    let some_bytes : (n == 0) ≡ false = ground arith in
    let not_all : (suc n == length line) ≡ false = ground arith in rw (some_bytes, not_all) refl

module _ {Value : Type 0} (json : Json Value) (laws : JsonLaws json) where
  open_with_loaded :
      (reader : Reader) (path disk : Bytes) (state : LoadedState)
      → load_state json reader ≡ some (ok (record (seen state) { torn_tail = true }))
      → open_journal json (working reader) false path disk
        ≡ some (
          ok tt,
          journal_of path (take state.valid_length disk) (record (seen state) { torn_tail = true }),
        )
  unfolding open_journal recover open_loaded
  open_with_loaded reader path disk state e =
      ap (λ loaded. open_with (working reader) false path disk (recovered false loaded)) e

  -- A journal below 2 ^ 64 bytes whose last append was cut short inside its text, opened with no
  -- failing call: the whole lines, which this build wrote within the record limit, are kept on disk
  -- and in memory, and exactly the rest is cut off.
  pub open_torn :
      (entries : List Entry) (event : JournalEvent) (line path : Bytes) (n : ℕ) (reader : Reader)
      → AreWritten json entries
      → encode_record json event ≡ ok line
      → length line ≤ max_record
      → 0 < n
      → suc n < length line
      → IsSound reader
      → length (content reader) ≤ u64_max
      → content reader ≡ disk_of entries ++ take n line
      → open_journal json (working reader) false path (content reader)
        ≡ some (
          ok tt,
          journal_of path
              (disk_of entries)
              (record (seen (absorb entries empty_state)) { torn_tail = true }),
        )
  open_torn entries event line path n reader w enc fits p l s h c =
      open_with_loaded reader path (content reader) (absorb entries empty_state) (
        load_cut json laws entries event line n reader w enc fits (omega arith) s h c
        ∙ ap (λ r. some (ok r)) (after_cut-torn (absorb entries empty_state) event line n p l))
      ∙ ap
          (λ d. some (
            ok tt,
            journal_of path d (record (seen (absorb entries empty_state)) { torn_tail = true }),
          ))
          (ap (take (absorb entries empty_state).valid_length) c ∙ kept)
    where
      short : length (disk_of entries) ≤ u64_max
      short =
          omega
            (arith, length-append (disk_of entries) (take n line), ap (λ (d : Bytes). length d) c)

      counted : (absorb entries empty_state).valid_length ≡ length (disk_of entries)
      counted = omega (arith, short, absorb-length entries empty_state (omega (arith, short)))

      kept :
          take (absorb entries empty_state).valid_length (disk_of entries ++ take n line)
          ≡ disk_of entries
      kept =
          ap (λ v. take v (disk_of entries ++ take n line)) counted
          ∙ take-length-append (disk_of entries) (take n line)
