-- ===== src/Journal/Codec.antt =====
-- One line of the journal: JSON with a checksum of the record that lacks it. `serde_json` and
-- `crc32c` are a parameter.
use bigcp.Base.{
  ℕ, suc, zero, ◌+◌, ◌/◌, ◌%◌, ◌≡◌, ◌<◌, Bool, Option, none, some, [], ◌∷◌, ◌++◌, Outcome, ok, err,
  ◌>>=◌, ltb, All, false, length, take, if◌then◌else◌,
}
use bigcp.Base.Bytes.{Bytes, bytes_eq}
use bigcp.Errors.{BigcpError, format}
use bigcp.Journal.{JournalEvent, StoredRecord, journal_schema_version}

abbrev pub newline : ℕ
newline = 10

-- What the journal uses of the two crates: a parse of a line into a JSON value, the number under
-- the key `j`, the typed parse of a value, the two serializations and the checksum.
pub record Json (Value : Type 0) : Type 0 where
  pub from_slice : Bytes → Option Value
  pub version : Value → Option ℕ
  pub from_value : Value → Option StoredRecord
  pub unsigned_to_vec : ℕ → JournalEvent → Option Bytes
  pub stored_to_vec : StoredRecord → Option Bytes
  pub crc32c : Bytes → ℕ

-- `0` to `9`, `a` to `f`
abbrev hex_digit : ℕ → ℕ
hex_digit d = if ltb d 10 then 48 + d else 87 + d

hex_digits : ℕ → ℕ → Bytes
hex_digits zero n = []
hex_digits (suc k) n = hex_digits k (n / 16) ++ hex_digit (n % 16) ∷ []

-- `format!("{:08x}", n)` of a `u32`
unfoldable pub hex8 : ℕ → Bytes
unfolding hex_digits
hex8 n = hex_digits 8 n

module _ {Value : Type 0} (json : Json Value) where
  -- The text of the checksum of an event under a version, or a serialization error.
  unfoldable pub crc_text : ℕ → JournalEvent → Outcome BigcpError Bytes
  crc_text j event = elim (json.unsigned_to_vec j event) [
    | none ↦ err (format "serialize journal CRC input")
    | some bytes ↦ ok (hex8 (json.crc32c bytes))
  ]

  unfoldable pub encode_record : JournalEvent → Outcome BigcpError Bytes
  encode_record event = do
    crc ← crc_text journal_schema_version event
    let stored : StoredRecord = record { j = journal_schema_version; event = event; crc = crc }
    elim (json.stored_to_vec stored) [
      | none ↦ err (format "serialize journal record")
      | some line ↦ ok (line ++ newline ∷ [])
    ]

  unfoldable pub crc_matches : StoredRecord → Outcome BigcpError Bool
  crc_matches stored = do crc ← crc_text stored.j stored.event; ok (bytes_eq stored.crc crc)

-- What `serde_json` promises of the texts that it writes: they have no control characters, parse
-- back to the record that was written, and cut short they are no JSON.
pub record JsonLaws {Value : Type 0} (json : Json Value) : Type 0 where
  pub no_control :
      (stored : StoredRecord) (text : Bytes)
      → json.stored_to_vec stored ≡ some text
      → All (λ b. ltb b 32 ≡ false) text
  pub reads_back :
      (stored : StoredRecord) (text : Bytes)
      → json.stored_to_vec stored ≡ some text
      → (value : Value) × (json.from_slice text ≡ some value)
        × (json.version value ≡ some stored.j)
        × (json.from_value value ≡ some stored)
  pub cut_fails :
      (stored : StoredRecord) (text : Bytes) (n : ℕ)
      → json.stored_to_vec stored ≡ some text
      → n < length text
      → json.from_slice (take n text) ≡ none
