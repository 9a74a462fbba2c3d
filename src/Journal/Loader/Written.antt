-- ===== src/Journal/Loader/Written.antt =====
-- Lines that the journal itself wrote are recovered as the events that they record.
use bigcp.Base.{
  ℕ, zero, suc, ◌≤◌, ◌<◌, ◌≡◌, refl, ap, ◌⊎◌, inl, inr, Bool, true, false, none, some, [], ◌∷◌,
  ◌++◌, ok, Outcome-cases, Option-cases, arith, ltb, not_ltb, length, take, take_all, length-take,
  All,
}
use bigcp.Base.Bytes.{Bytes, bytes_eq_refl}
use bigcp.Journal.{JournalEvent, StoredRecord, journal_schema_version}
use bigcp.Journal.Codec.{newline, Json, JsonLaws, crc_text, encode_record, crc_matches}
use bigcp.Journal.Reader.{max_record}
use bigcp.Journal.Reader.Lines.{clip}
use bigcp.Journal.Replay.{strip_last, carriage_return, strip_line, trusted, parse_value, parse_line}

strip_last-append : (c : ℕ) (l : Bytes) → strip_last c (l ++ c ∷ []) ≡ l
unfolding strip_last
strip_last-append c [] = ground arith
strip_last-append c (x ∷ []) = ap (λ r. x ∷ r) (strip_last-append c [])
strip_last-append c (x ∷ y ∷ ys) = ap (λ r. x ∷ r) (strip_last-append c (y ∷ ys))

strip_last-clean : (c : ℕ) (l : Bytes) → c < 32 → All (λ b. ltb b 32 ≡ false) l → strip_last c l ≡ l
unfolding strip_last
strip_last-clean c [] lt h = refl
strip_last-clean c (x ∷ []) lt h = ground arith
strip_last-clean c (x ∷ y ∷ ys) lt h = ap (λ r. x ∷ r) (strip_last-clean c (y ∷ ys) lt h.1)

pub All-take : (P : ℕ → Type 0) (n : ℕ) (l : Bytes) → All P l → All P (take n l)
All-take P zero l h = tt
All-take P (suc n) [] h = tt
All-take P (suc n) (x ∷ l) h = (h.0, All-take P n l h.1)

strip_line-clean : (l : Bytes) → All (λ b. ltb b 32 ≡ false) l → strip_line l ≡ l
strip_line-clean l h =
    rw (strip_last-clean newline l (omega arith) h)
      (strip_last-clean carriage_return l (omega arith) h)

module _ {Value : Type 0} (json : Json Value) where
  -- An encoded event, taken apart.
  pub record Encoded (event : JournalEvent) (line : Bytes) : Type 0 where
    pub crc : Bytes
    pub text : Bytes
    pub crc_is : crc_text json journal_schema_version event ≡ ok crc
    pub text_is :
        json.stored_to_vec (record { j = journal_schema_version; event = event; crc = crc })
        ≡ some text
    pub line_is : line ≡ text ++ newline ∷ []

  pub encode_record-Encoded :
      (event : JournalEvent) (line : Bytes)
      → encode_record json event ≡ ok line
      → Encoded event line
  unfolding encode_record
  encode_record-Encoded event line h =
      elim (Outcome-cases (crc_text json journal_schema_version event)) [
        | inr (e, c) ↦ absurd (ground arith)
        | inl (crc, c) ↦
            elim (Option-cases (
              json.stored_to_vec
                (record { j = journal_schema_version; event = event; crc = crc }))) [
                  | inl t ↦ absurd (ground arith)
                  | inr (text, t) ↦ record {
                    crc = crc;
                    text = text;
                    crc_is = c;
                    text_is = t;
                    line_is = ground arith;
                  }
                ]
      ]

  module _ (laws : JsonLaws json) (event : JournalEvent) (line : Bytes)
      (e : Encoded event line) where
    abbrev pub stored_as : StoredRecord
    stored_as = record { j = journal_schema_version; event = event; crc = e.crc }

    strip-line : strip_line line ≡ e.text
    strip-line =
        rw (e.line_is, strip_last-append newline e.text)
          (strip_last-clean carriage_return e.text (omega arith)
            (laws.no_control stored_as e.text e.text_is))

    crc-trusted : trusted json (some stored_as) ≡ some stored_as
    unfolding crc_matches
    crc-trusted = rw e.crc_is (rw (bytes_eq_refl e.crc))

    -- The text parses to the record, as a first line too.
    parse-text :
        (first : Bool) → parse_value json first (json.from_slice e.text) ≡ ok (some stored_as)
    parse-text true =
        let (value, parsed, v, typed) = laws.reads_back stored_as e.text e.text_is in
        rw (parsed, v, typed) (ap ok crc-trusted)
    parse-text false =
        let (value, parsed, v, typed) = laws.reads_back stored_as e.text e.text_is in
        rw (parsed, typed) (ap ok crc-trusted)

    clip-fits :
        (bytes : Bytes)
        → length bytes ≤ max_record
        → clip bytes ≡ record { retained = bytes; consumed = length bytes; oversized = false }
    unfolding clip
    clip-fits bytes h = λ i. record {
      retained = take_all max_record bytes h i;
      consumed = length bytes;
      oversized = not_ltb max_record (length bytes) h i;
    }

    -- A whole line, or one that lacks only its newline, is trusted.
    pub parse_line-written :
        (first : Bool) (bytes : Bytes)
        → length bytes ≤ max_record
        → (bytes ≡ line) ⊎ (bytes ≡ e.text)
        → parse_line json first (clip bytes) ≡ ok (some stored_as)
    unfolding parse_line
    parse_line-written first bytes h (inl b) =
        rw (clip-fits bytes h) (rw (b, strip-line) (parse-text first))
    parse_line-written first bytes h (inr b) = rw (clip-fits bytes h) (
        rw (b, strip_line-clean e.text (laws.no_control stored_as e.text e.text_is))
          (parse-text first))

    -- What is cut off inside the text is not trusted, and no sign of another version.
    pub parse_line-cut :
        (first : Bool) (n : ℕ)
        → n < length e.text
        → length e.text ≤ max_record
        → parse_line json first (clip (take n e.text)) ≡ ok none
    unfolding parse_line
    parse_line-cut first n lt h =
        let clean = All-take _ n e.text (laws.no_control stored_as e.text e.text_is) in
        let short : length (take n e.text) ≤ max_record = omega (arith, length-take n e.text) in
        rw (clip-fits (take n e.text) short) (
          rw (
            strip_line-clean (take n e.text) clean,
            laws.cut_fails stored_as e.text n e.text_is lt,
          ))
