-- ===== src/Journal/Loader/Interior.antt =====
-- A damaged line before others: what it costs, and that what was recorded after it survives.
use bigcp.Base.{
  ◌≤◌, ◌≡◌, refl, sym, ap, ◌∙◌, Bool, false, none, some, List, [], ◌∷◌, ◌++◌, append-nil, ok, ◌==◌,
  length, All,
}
use bigcp.Base.Bytes.{Bytes}
use bigcp.Counters.{u64_max, saturating_add}
use bigcp.Journal.{JournalEvent}
use bigcp.Journal.Codec.{newline, Json, JsonLaws}
use bigcp.Journal.Reader.{Reader}
use bigcp.Journal.Reader.Lines.{content, IsSound, clip}
use bigcp.Journal.Replay.{LoadedState, empty_state, parse_line, apply_loaded_line}
use bigcp.Journal.Loader.{advance, pass, load_state}
use bigcp.Journal.Loader.Refines.{add_to_line, split_lines}
use bigcp.Journal.Loader.Recovery.{
  Entry, disk_of, seen, absorb, AreWritten, direct, lines_of, direct-written, split_lines-written,
  load_behind,
}

-- The line is counted, and nothing else comes of it.
abbrev pub skip : Bytes → LoadedState → LoadedState
skip line state =
    advance (clip line)
      (record (seen state) { skipped_records = saturating_add state.skipped_records 1 })

split_lines-damaged :
    (text rest : Bytes)
    → All (λ b. (b == newline) ≡ false) text
    → split_lines (text ++ newline ∷ rest) ≡ (text ++ newline ∷ []) ∷ split_lines rest
unfolding split_lines
split_lines-damaged [] rest h = refl
split_lines-damaged (x ∷ text) rest h =
    rw h.0 (ap (add_to_line x) (split_lines-damaged text rest h.1))

module _ {Value : Type 0} (json : Json Value) (laws : JsonLaws json) where
  module _ (line : Bytes)
      (unreadable : (first : Bool) → parse_line json first (clip line) ≡ ok none) where
    pass-damaged : (state : LoadedState) → pass json (some (clip line)) state ≡ ok (skip line state)
    unfolding pass apply_loaded_line
    pass-damaged state = rw (unreadable (state.records_seen == 0))

    direct-damaged :
        (next : Bytes) (ls : List Bytes) (state : LoadedState)
        → direct json (line ∷ next ∷ ls) state ≡ direct json (next ∷ ls) (skip line state)
    unfolding direct
    direct-damaged next ls state = rw (pass-damaged state)

  -- Of a journal below 2 ^ 64 bytes that is read without errors: a line that no record can be read
  -- from, between written lines within the record limit and before at least one, is skipped and
  -- counted; every event recorded before or after it is recovered.
  pub load-damaged :
      (before after : List Entry) (text : Bytes) (event : JournalEvent) (line : Bytes)
      (reader : Reader)
      → AreWritten json before
      → AreWritten json ((event, line) ∷ after)
      → All (λ b. (b == newline) ≡ false) text
      → ((first : Bool) → parse_line json first (clip (text ++ newline ∷ [])) ≡ ok none)
      → IsSound reader
      → length (content reader) ≤ u64_max
      → content reader ≡ disk_of before ++ (text ++ newline ∷ disk_of ((event, line) ∷ after))
      → load_state json reader
        ≡ some (
            ok (
              absorb
                ((event, line) ∷ after)
                (skip (text ++ newline ∷ []) (absorb before empty_state))))
  load-damaged before after text event line reader wb wa clean bad s h c =
      load_behind json laws before _ reader wb s h c
      ∙ ap some (
          ap (λ ls. direct json ls (absorb before empty_state))
            (split_lines-damaged text (disk_of later) clean
              ∙ ap (λ ls. (text ++ newline ∷ []) ∷ ls) (split_later))
          ∙ direct-damaged (text ++ newline ∷ []) bad line (lines_of after) _
          ∙ (ap (λ ls. direct json ls skipped) (sym (append-nil (lines_of later)))
              ∙ direct-written json laws later [] skipped wa
              ∙ unfold direct in refl))
    where
      later : List Entry
      later = (event, line) ∷ after

      skipped : LoadedState
      skipped = skip (text ++ newline ∷ []) (absorb before empty_state)

      split_later : split_lines (disk_of later) ≡ lines_of later
      split_later =
          ap split_lines (sym (append-nil (disk_of later)))
          ∙ split_lines-written json laws later [] wa
          ∙ unfold split_lines in append-nil (lines_of later)
