-- ===== src/Journal/Loader/Damage.antt =====
-- Recovery from a journal with a line that was cut off at its end.
use bigcp.Base.{
  ℕ, zero, suc, ◌≤◌, ◌<◌, ◌≡◌, ◌≢◌, refl, ap, ◌∙◌, inl, inr, Bool, true, false, none, some, List,
  [], ◌∷◌, ◌++◌, ok, arith, ltb, ◌==◌, length, take, All, length-append, length-take, take_all,
  decided_of_iff, ==_iff, if◌then◌else◌,
}
use bigcp.Base.Bytes.{Bytes}
use bigcp.Counters.{u64_max}
use bigcp.Journal.{JournalEvent}
use bigcp.Journal.Codec.{newline, Json, JsonLaws, encode_record}
use bigcp.Journal.Reader.{max_record, Reader}
use bigcp.Journal.Reader.Lines.{content, IsSound, clip}
use bigcp.Journal.Replay.{LoadedState, empty_state, apply_event, parse_line, apply_loaded_line}
use bigcp.Journal.Loader.{advance, finish, load_state}
use bigcp.Journal.Loader.Refines.{split_lines}
use bigcp.Journal.Loader.Written.{
  Encoded, encode_record-Encoded, stored_as, parse_line-written, parse_line-cut, All-take,
}
use bigcp.Journal.Loader.Recovery.{
  Entry, disk_of, seen, absorb, AreWritten, direct, split_lines-fragment, load_behind,
  finish-trusted,
}

-- The state behind a last append of which `n` bytes reached the disk: nothing of it, the record
-- without its newline, or a torn tail.
abbrev pub after_cut : LoadedState → JournalEvent → Bytes → ℕ → LoadedState
after_cut state event line n =
    if n == 0
    then state
    else if suc n == length line
    then advance (clip (take n line)) (apply_event event (seen state))
    else record (seen state) { torn_tail = true }

take-append : (n : ℕ) (l r : Bytes) → n ≤ length l → take n (l ++ r) ≡ take n l
take-append zero l r h = refl
take-append (suc n) [] r h = absurd (omega arith)
take-append (suc n) (x ∷ l) r h = ap (λ t. x ∷ t) (take-append n l r (omega arith))

module _ {Value : Type 0} (json : Json Value) (laws : JsonLaws json) where
  -- The rest of the file is the fragment, as a last line of its own.
  direct-fragment :
      (fragment : Bytes) (state : LoadedState)
      → 0 < length fragment
      → All (λ b. ltb b 32 ≡ false) fragment
      → direct json (split_lines fragment) state ≡ finish json (some (clip fragment)) state
  direct-fragment [] state h c = absurd (omega arith)
  direct-fragment (x ∷ text) state h c =
      ap (λ ls. direct json ls state) (split_lines-fragment x text c) ∙ unfold direct in refl

  finish-untrusted :
      (l : Bytes) (state : LoadedState)
      → ((first : Bool) → parse_line json first (clip l) ≡ ok none)
      → finish json (some (clip l)) state ≡ ok (record (seen state) { torn_tail = true })
  unfolding finish apply_loaded_line
  finish-untrusted l state p = rw (p (state.records_seen == 0))

  module _ (event : JournalEvent) (line : Bytes) (e : Encoded json event line)
      (fits : length line ≤ max_record) where
    line-length : length line ≡ suc (length e.text)
    line-length =
        omega (arith, ap (λ (l : Bytes). length l) e.line_is, length-append e.text (newline ∷ []))

    take-text : (n : ℕ) → n < length line → take n line ≡ take n e.text
    take-text n h =
        ap (take n) e.line_is ∙ take-append n e.text (newline ∷ []) (omega (arith, line-length))

    direct-cut :
        (n : ℕ) (state : LoadedState)
        → n < length line
        → direct json (split_lines (take n line)) state ≡ ok (after_cut state event line n)
    direct-cut zero state h = unfold split_lines direct in refl
    direct-cut (suc n) state h =
        direct-fragment (take (suc n) line) state some_bytes clean ∙ last_line
      where
        same : take (suc n) line ≡ take (suc n) e.text
        same = take-text (suc n) h

        not_zero : (suc n == 0) ≡ false
        not_zero = ground arith

        some_bytes : 0 < length (take (suc n) line)
        some_bytes = omega (arith, length-take (suc n) line)

        clean : All (λ b. ltb b 32 ≡ false) (take (suc n) line)
        clean = rw same (
            All-take _ (suc n) e.text
              (laws.no_control (stored_as json laws event line e) e.text e.text_is))

        whole_text :
            suc (suc n) ≡ length line
            → (first : Bool)
            → parse_line json first (clip (take (suc n) line))
              ≡ ok (some (stored_as json laws event line e))
        whole_text l first =
            parse_line-written json laws event line e first (take (suc n) line)
              (omega (arith, length-take (suc n) line))
              (inr (same ∙ take_all (suc n) e.text (omega (arith, line-length))))

        part_of_text :
            suc (suc n) ≢ length line
            → (first : Bool) → parse_line json first (clip (take (suc n) line)) ≡ ok none
        part_of_text l first = rw same (
            parse_line-cut json laws event line e first (suc n) (omega (arith, line-length))
              (omega (arith, line-length)))

        last_line :
            finish json (some (clip (take (suc n) line))) state
            ≡ ok (after_cut state event line (suc n))
        last_line = elim (decided_of_iff _ (==_iff (suc (suc n)) (length line))) [
          | inl (t, l) ↦
              finish-trusted json (take (suc n) line) state (stored_as json laws event line e)
                (whole_text l)
              ∙ rw (not_zero, t)
          | inr (t, l) ↦
              finish-untrusted (take (suc n) line) state (part_of_text l) ∙ rw (not_zero, t)
        ]

  -- Of a journal below 2 ^ 64 bytes that is read without errors, whose whole lines this build wrote
  -- within the record limit, and of whose last line only a beginning reached the disk, at whichever
  -- byte: every event whose line is whole is recovered. Of the last one nothing counts unless all
  -- of it but the newline is there; a torn tail is noted.
  pub load_cut :
      (entries : List Entry) (event : JournalEvent) (line : Bytes) (n : ℕ) (reader : Reader)
      → AreWritten json entries
      → encode_record json event ≡ ok line
      → length line ≤ max_record
      → n < length line
      → IsSound reader
      → length (content reader) ≤ u64_max
      → content reader ≡ disk_of entries ++ take n line
      → load_state json reader ≡ some (ok (after_cut (absorb entries empty_state) event line n))
  load_cut entries event line n reader w enc fits lt s h c =
      load_behind json laws entries (take n line) reader w s h c
      ∙ ap some (
          direct-cut event line (encode_record-Encoded json event line enc) fits n
            (absorb entries empty_state) lt)
