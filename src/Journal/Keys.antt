-- ===== src/Journal/Keys.antt =====
-- `utf16le_hex`, `path_key`, `stream_key` and `key_to_path`: an OS string, a list of UTF-16 units, as
-- lossless text. The hex crate is a parameter.
pub mod RoundTrip
use bigcp.Base.{
  ℕ, ◌+◌, ◌*◌, ◌/◌, ◌%◌, ◌≡◌, ◌<◌, Bool, Option, none, some, List, [], ◌∷◌, ◌++◌, All, ◌==◌, length,
  if◌then◌else◌,
}
use bigcp.Base.Bytes.{Bytes, ascii}

pub record Hex : Type 0 where
  pub encode : Bytes → Bytes
  pub decode : Bytes → Option Bytes

-- The crate decodes what it encoded.
abbrev pub HexLaw : Hex → Type 0
HexLaw hex = (bytes : Bytes) → All (λ b. b < 256) bytes → hex.decode (hex.encode bytes) ≡ some bytes

-- `OsStr`, `Path`
abbrev pub OsString : Type 0
OsString = List ℕ

-- `u16::to_le_bytes` of each unit
unfoldable pub to_le_bytes : OsString → Bytes
to_le_bytes [] = []
to_le_bytes (u ∷ us) = (u % 256) ∷ (u / 256) ∷ to_le_bytes us

-- `chunks_exact(2)`, `u16::from_le_bytes` of each
unfoldable pub from_le_bytes : Bytes → OsString
from_le_bytes [] = []
from_le_bytes (low ∷ []) = []
from_le_bytes (low ∷ high ∷ bytes) = (low + 256 * high) ∷ from_le_bytes bytes

abbrev pub key_prefix : Bytes
key_prefix = ascii "u16:"

-- `str::strip_prefix`
unfoldable pub strip_prefix : Bytes → Bytes → Option Bytes
strip_prefix [] text = some text
strip_prefix (p ∷ ps) [] = none
strip_prefix (p ∷ ps) (c ∷ cs) = let rest = strip_prefix ps cs in if p == c then rest else none

abbrev pub units_of : Option Bytes → Option OsString
units_of none = none
units_of (some bytes) = if length bytes % 2 == 0 then some (from_le_bytes bytes) else none

module _ (hex : Hex) where
  unfoldable pub utf16le_hex : OsString → Bytes
  utf16le_hex value = hex.encode (to_le_bytes value)

  unfoldable pub path_key : OsString → Bytes
  path_key path = key_prefix ++ utf16le_hex path

  unfoldable pub stream_key : OsString → Bytes
  stream_key stream = key_prefix ++ utf16le_hex stream

  abbrev pub decoded : Option Bytes → Option OsString
  decoded none = none
  decoded (some text) = units_of (hex.decode text)

  unfoldable pub key_to_path : Bytes → Option OsString
  key_to_path key = decoded (strip_prefix key_prefix key)
