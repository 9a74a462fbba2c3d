-- ===== src/Journal/Loader/Recovery.antt =====
-- What is recovered from the lines of a journal that the program wrote.
use mathlib.Core.Path.{fun_ext}
use bigcp.Base.{
  ℕ, ◌≤◌, ◌≡◌, refl, sym, ap, ◌∙◌, inl, Bool, false, none, some, List, [], ◌∷◌, ◌++◌, append-nil,
  append_assoc, Outcome, ok, ◌>>=◌, arith, ltb, ◌==◌, length, All,
}
use bigcp.Base.Bytes.{Bytes}
use bigcp.Counters.{u64_max, saturating_add}
use bigcp.Errors.{BigcpError}
use bigcp.Journal.{JournalEvent, StoredRecord}
use bigcp.Journal.Codec.{newline, Json, JsonLaws, encode_record}
use bigcp.Journal.Reader.{max_record, Reader}
use bigcp.Journal.Reader.Lines.{content, IsSound, clip}
use bigcp.Journal.Replay.{LoadedState, empty_state, apply_event, parse_line, apply_loaded_line}
use bigcp.Journal.Loader.{advance, finish, pass, load_state}
use bigcp.Journal.Loader.Refines.{add_to_line, split_lines, replay_lines, load_state-replay}
use bigcp.Journal.Loader.Written.{Encoded, encode_record-Encoded, stored_as, parse_line-written}

-- An event with the line that it was written as.
abbrev pub Entry : Type 0
Entry = JournalEvent × Bytes

abbrev pub disk_of : List Entry → Bytes
disk_of [] = []
disk_of ((_, line) ∷ entries) = line ++ disk_of entries

abbrev pub seen : LoadedState → LoadedState
seen state = record state { records_seen = saturating_add state.records_seen 1 }

-- What one recorded event does to the recovered state, and what a list of them does.
abbrev pub absorb_one : Entry → LoadedState → LoadedState
absorb_one (event, line) state = advance (clip line) (apply_event event (seen state))

abbrev pub absorb : List Entry → LoadedState → LoadedState
absorb [] state = state
absorb (entry ∷ entries) state = absorb entries (absorb_one entry state)

module _ {Value : Type 0} (json : Json Value) where
  -- The entries were encoded by this build, and their lines keep to the record limit.
  abbrev pub AreWritten : List Entry → Type 0
  AreWritten [] = Unit
  AreWritten ((event, line) ∷ entries) =
      (encode_record json event ≡ ok line) × (length line ≤ max_record) × AreWritten entries

  -- The replay with no lookahead: a line is the last one if no other follows.
  unfoldable pub direct : List Bytes → LoadedState → Outcome BigcpError LoadedState
  direct [] state = ok state
  direct (l ∷ []) state = finish json (some (clip l)) state
  direct (l ∷ k ∷ ls) state = do next ← pass json (some (clip l)) state; direct (k ∷ ls) next

  replay-direct :
      (l : Bytes) (ls : List Bytes) (state : LoadedState)
      → replay_lines json (some (clip l)) ls state ≡ direct (l ∷ ls) state
  unfolding direct replay_lines
  replay-direct l [] state = refl
  replay-direct l (k ∷ ls) state =
      ap (λ f. pass json (some (clip l)) state >>= f) (fun_ext λ next. replay-direct k ls next)

  replay_lines-direct :
      (ls : List Bytes) (state : LoadedState) → replay_lines json none ls state ≡ direct ls state
  unfolding direct replay_lines finish pass
  replay_lines-direct [] state = refl
  replay_lines-direct (l ∷ ls) state = replay-direct l ls state

  -- A trusted line does the same as a last line and before others.
  module _ (l : Bytes) (state : LoadedState) (stored : StoredRecord)
      (p : (first : Bool) → parse_line json first (clip l) ≡ ok (some stored)) where
    pub finish-trusted :
        finish json (some (clip l)) state
        ≡ ok (advance (clip l) (apply_event stored.event (seen state)))
    unfolding finish apply_loaded_line
    finish-trusted = rw (p (state.records_seen == 0))

    pub pass-trusted :
        pass json (some (clip l)) state
        ≡ ok (advance (clip l) (apply_event stored.event (seen state)))
    unfolding pass apply_loaded_line
    pass-trusted = rw (p (state.records_seen == 0))

    pub direct-trusted :
        (ls : List Bytes)
        → direct (l ∷ ls) state
          ≡ direct ls (advance (clip l) (apply_event stored.event (seen state)))
    unfolding direct
    direct-trusted [] = finish-trusted
    direct-trusted (k ∷ ls) = rw pass-trusted

abbrev pub lines_of : List Entry → List Bytes
lines_of [] = []
lines_of ((_, line) ∷ entries) = line ∷ lines_of entries

split_lines-line :
    (text rest : Bytes)
    → All (λ b. ltb b 32 ≡ false) text
    → split_lines (text ++ newline ∷ rest) ≡ (text ++ newline ∷ []) ∷ split_lines rest
unfolding split_lines
split_lines-line [] rest h = refl
split_lines-line (x ∷ text) rest h =
    let other : (x == newline) ≡ false = ground (arith, h.0) in
    rw other (ap (add_to_line x) (split_lines-line text rest h.1))

pub split_lines-fragment :
    (x : ℕ) (text : Bytes)
    → All (λ b. ltb b 32 ≡ false) (x ∷ text)
    → split_lines (x ∷ text) ≡ (x ∷ text) ∷ []
unfolding split_lines
split_lines-fragment x [] h = let other : (x == newline) ≡ false = ground (arith, h.0) in rw other
split_lines-fragment x (y ∷ text) h =
    let other : (x == newline) ≡ false = ground (arith, h.0) in
    rw other (ap (add_to_line x) (split_lines-fragment y text h.1))

module _ {Value : Type 0} (json : Json Value) (laws : JsonLaws json) where
  written-parses :
      (event : JournalEvent) (line : Bytes)
      → (encoded : Encoded json event line) → length line ≤ max_record
      → (first : Bool)
      → parse_line json first (clip line) ≡ ok (some (stored_as json laws event line encoded))
  written-parses event line encoded h first =
      parse_line-written json laws event line encoded first line h (inl refl)

  pub direct-written :
      (entries : List Entry) (tail : List Bytes) (state : LoadedState)
      → AreWritten json entries
      → direct json (lines_of entries ++ tail) state ≡ direct json tail (absorb entries state)
  direct-written [] tail state w = refl
  direct-written ((event, line) ∷ entries) tail state w =
      let encoded = encode_record-Encoded json event line w.0 in
      direct-trusted json line state (stored_as json laws event line encoded)
        (written-parses event line encoded w.1) (lines_of entries ++ tail)
      ∙ direct-written entries tail (absorb_one (event, line) state) w.2

  pub split_lines-written :
      (entries : List Entry) (rest : Bytes)
      → AreWritten json entries
      → split_lines (disk_of entries ++ rest) ≡ lines_of entries ++ split_lines rest
  split_lines-written [] rest w = refl
  split_lines-written ((event, line) ∷ entries) rest w =
      let e = encode_record-Encoded json event line w.0 in
      let stored = stored_as json laws event line e in
      ap split_lines (
        append_assoc line (disk_of entries) rest
        ∙ ap (λ l. l ++ (disk_of entries ++ rest)) e.line_is
        ∙ append_assoc e.text (newline ∷ []) (disk_of entries ++ rest))
      ∙ split_lines-line e.text (disk_of entries ++ rest) (laws.no_control stored e.text e.text_is)
      ∙ ap (λ l. l ∷ split_lines (disk_of entries ++ rest)) (sym e.line_is)
      ∙ ap (λ ls. line ∷ ls) (split_lines-written entries rest w.2)

  -- The loader on a file of whole lines and a rest, once the rest is split.
  pub load_behind :
      (entries : List Entry) (rest : Bytes) (reader : Reader)
      → AreWritten json entries
      → IsSound reader
      → length (content reader) ≤ u64_max
      → content reader ≡ disk_of entries ++ rest
      → load_state json reader ≡ some (direct json (split_lines rest) (absorb entries empty_state))
  load_behind entries rest reader w s h c =
      load_state-replay json reader s h
      ∙ ap some (
          replay_lines-direct json (split_lines (content reader)) empty_state
          ∙ ap (λ ls. direct json ls empty_state)
              (ap split_lines c ∙ split_lines-written entries rest w)
          ∙ direct-written entries (split_lines rest) empty_state w)

  -- A journal below 2 ^ 64 bytes of whole lines that this build wrote within the record limit, read
  -- without errors, is recovered as the events that the lines record, in order.
  pub load-written :
      (entries : List Entry) (reader : Reader)
      → AreWritten json entries
      → IsSound reader
      → length (content reader) ≤ u64_max
      → content reader ≡ disk_of entries
      → load_state json reader ≡ some (ok (absorb entries empty_state))
  load-written entries reader w s h c =
      load_behind entries [] reader w s h (c ∙ sym (append-nil (disk_of entries)))
      ∙ unfold split_lines direct in refl
