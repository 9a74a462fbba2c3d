-- ===== src/Win/Ea.antt =====
-- crates/win/src/ea.rs: the building of an EA payload from pairs, and the validation of a payload
-- that a provider returned. `FILE_NEED_EA` comes from `windows_sys` and is a parameter. Lengths
-- do not overflow a `usize`, since each is checked before it is added.
pub mod Record
pub mod RoundTrip
pub mod Total
mod Examples
use bigcp.Base.{
  ℕ, zero, suc, ◌+◌, ◌-◌, ◌*◌, ◌/◌, ◌%◌, ◌^◌, Bool, true, false, not, ◌&&◌, ◌||◌, Option, none,
  some, List, [], ◌∷◌, ◌++◌, Outcome, ok, err, ◌>>=◌, ◌>>◌, ltb, leb, ◌==◌, any, length, take, drop,
  if◌then◌else◌,
}
use bigcp.Base.Bytes.{Bytes, ascii}
use bigcp.Errors.{IoError, ErrorKind, invalid_input, other_kind, io_error_new}

abbrev pub header_bytes : ℕ
header_bytes = 8

-- `MAX_EA_PAYLOAD_BYTES`
abbrev pub max_payload : ℕ
max_payload = 1024 * 1024

-- `\ / : * ? " < > | , + = [ ] ;`
abbrev pub reserved_bytes : Bytes
reserved_bytes = 92 ∷ 47 ∷ 58 ∷ 42 ∷ 63 ∷ 34 ∷ 60 ∷ 62 ∷ 124 ∷ 44 ∷ 43 ∷ 61 ∷ 91 ∷ 93 ∷ 59 ∷ []

abbrev pub is_plain : ℕ → Bool
is_plain b = ltb 31 b && not (any (λ r. r == b) reserved_bytes)

abbrev pub is_nil : Bytes → Bool
is_nil [] = true
is_nil (_ ∷ _) = false

unfoldable pub valid_ea_name : Bytes → Bool
valid_ea_name name = not (is_nil name) && not (any (λ b. not (is_plain b)) name)

abbrev pub Pair : Type 0
Pair = Bytes × Bytes

abbrev pub raw_length : Pair → ℕ
raw_length (name, value) = header_bytes + length name + 1 + length value

-- `next_multiple_of(4)`
abbrev pub padded : ℕ → ℕ
padded n = (n + 3) / 4 * 4

-- The first loop of `from_pairs`, which adds up the lengths.
unfoldable pub check_pairs : List Pair → ℕ → Outcome IoError (Unit {0})
check_pairs [] total = ok tt
check_pairs ((name, value) ∷ pairs) total =
    let sum = total + padded (raw_length (name, value)) in
    let rest = check_pairs pairs sum in
    if not (valid_ea_name name)
    then err (io_error_new invalid_input (ascii "EA name is empty or contains a reserved byte"))
    else if ltb 255 (length name)
    then err (io_error_new invalid_input (ascii "EA name exceeds 255 bytes"))
    else if ltb 65535 (length value)
    then err (io_error_new invalid_input (ascii "EA value exceeds 65535 bytes"))
    else if ltb max_payload sum
    then err (io_error_new invalid_input (ascii "EA set exceeds the one MiB safety limit"))
    else rest

abbrev pub zeros : ℕ → Bytes
zeros zero = []
zeros (suc n) = 0 ∷ zeros n

-- One record, with the offset of the next one in little-endian order.
unfoldable pub write_record : ℕ → Pair → Bytes
write_record next (name, value) =
    (next % 256)
    ∷ (next / 256 % 256)
    ∷ (next / 65536 % 256)
    ∷ (next / 16777216 % 256)
    ∷ 0
    ∷ length name
    ∷ (length value % 256)
    ∷ (length value / 256)
    ∷ (name ++ 0 ∷ (value ++ zeros (padded (raw_length (name, value)) - raw_length (name, value))))

-- The second loop of `from_pairs`.
unfoldable pub write_records : List Pair → Bytes
write_records [] = []
write_records (pair ∷ []) = write_record 0 pair
write_records (pair ∷ other ∷ pairs) =
    write_record (padded (raw_length pair)) pair ++ write_records (other ∷ pairs)

unfoldable pub from_pairs : List Pair → Outcome IoError Bytes
from_pairs pairs = check_pairs pairs 0 >> ok (write_records pairs)

abbrev pub invalid : Bytes → IoError
invalid text = io_error_new other_kind text

-- The fields of a record, and the bytes behind its header.
pub record Header : Type 0 where
  pub next : ℕ
  pub flags : ℕ
  pub name_length : ℕ
  pub value_length : ℕ
  pub body : Bytes

unfoldable pub read_header : Bytes → Outcome IoError Header
read_header (a ∷ b ∷ c ∷ d ∷ flags ∷ name_length ∷ low ∷ high ∷ body) = ok (record {
  next = a + 256 * b + 65536 * c + 16777216 * d;
  flags = flags;
  name_length = name_length;
  value_length = low + 256 * high;
  body = body;
})
read_header _ = err (invalid (ascii "truncated FILE_FULL_EA_INFORMATION header"))

-- Where the record ends, of `left` bytes from its beginning on.
unfoldable pub end_of_record : ℕ → ℕ → Outcome IoError ℕ
end_of_record next left =
    if next == 0
    then ok left
    else if not (next % 4 == 0) || ltb next header_bytes
    then err (invalid (ascii "invalid EA next offset"))
    else if ltb left next
    then err (invalid (ascii "invalid EA next offset"))
    else ok next

abbrev pub is_terminator : Bytes → Bool
is_terminator [] = false
is_terminator (b ∷ _) = b == 0

abbrev pub name_of : Header → Bytes
name_of h = take h.name_length h.body

unfoldable pub is_malformed : Header → ℕ → Bool
is_malformed h end =
    let name_end = header_bytes + h.name_length in
    h.name_length == 0
    || (leb end name_end
        || (not (is_terminator (drop h.name_length h.body))
            || (not (valid_ea_name (name_of h)) || ltb end (name_end + 1 + h.value_length))))

abbrev pub value_end : Header → ℕ
value_end h = header_bytes + h.name_length + 1 + h.value_length

-- The bytes of the next record, if there is one.
unfoldable pub hop : Header → ℕ → Bytes → Outcome IoError (Option Bytes)
hop h end rest =
    if h.next == 0
    then (if leb 4 (end - value_end h)
        then err (invalid (ascii "EA payload has bytes beyond terminal alignment padding"))
        else ok none)
    else if end == length rest
    then err (invalid (ascii "EA next offset does not leave room for another record"))
    else ok (some (drop end rest))

module _ (file_need_ea : ℕ) where
  abbrev pub check_flags : Header → Outcome IoError (Unit {0})
  check_flags h =
      if not (h.flags == 0) && not (h.flags == file_need_ea)
      then err (invalid (ascii "EA record contains unsupported flags"))
      else ok tt

  abbrev pub check_record : Header → ℕ → Outcome IoError (Unit {0})
  check_record h end =
      if is_malformed h end
      then err (invalid (ascii "invalid, truncated, or unterminated EA record"))
      else ok tt

  -- One round of the loop: flags and name of a record, and the bytes of the next one.
  unfoldable pub parse_record : Bytes → Outcome IoError ((ℕ × Bytes) × Option Bytes)
  parse_record rest = do
    h ← read_header rest
    _ ← check_flags h
    end ← end_of_record h.next (length rest)
    _ ← check_record h end
    more ← hop h end rest
    ok ((h.flags, name_of h), more)

  abbrev pub push :
      ℕ × Bytes
      → Option (Outcome IoError (List (ℕ × Bytes)))
      → Option (Outcome IoError (List (ℕ × Bytes)))
  push r none = none
  push r (some (err e)) = some (err e)
  push r (some (ok rs)) = some (ok (r ∷ rs))

  unfoldable pub parse_loop : ℕ → Bytes → Option (Outcome IoError (List (ℕ × Bytes)))
  parse_loop zero rest = none
  parse_loop (suc fuel) rest = elim (parse_record rest) [
    | err e ↦ some (err e)
    | ok (r, none) ↦ some (ok (r ∷ []))
    | ok (r, some more) ↦ push r (parse_loop fuel more)
  ]

  -- On fuel: a record takes at least the bytes of its header.
  unfoldable pub parse_ea_records : Bytes → Option (Outcome IoError (List (ℕ × Bytes)))
  parse_ea_records payload =
      if is_nil payload then some (ok []) else parse_loop (suc (length payload)) payload
