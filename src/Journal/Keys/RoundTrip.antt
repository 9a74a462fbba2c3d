-- ===== src/Journal/Keys/RoundTrip.antt =====
-- A journal key stands for exactly one path.
use bigcp.Base.{◌%◌, ◌≡◌, ◌<◌, refl, sym, ap, ◌∙◌, some, [], ◌∷◌, ◌++◌, All, arith, length}
use bigcp.Base.Bytes.{Bytes}
use bigcp.Journal.Keys.{
  Hex, HexLaw, OsString, to_le_bytes, from_le_bytes, key_prefix, strip_prefix, units_of, path_key,
  utf16le_hex, key_to_path, decoded,
}

abbrev pub AreUnits : OsString → Type 0
AreUnits path = All (λ u. u < 65536) path

strip_prefix-append : (p text : Bytes) → strip_prefix p (p ++ text) ≡ some text
unfolding strip_prefix
strip_prefix-append [] text = refl
strip_prefix-append (c ∷ p) text = ground (arith, strip_prefix-append p text)

from_le_bytes-to_le_bytes : (us : OsString) → from_le_bytes (to_le_bytes us) ≡ us
unfolding from_le_bytes to_le_bytes
from_le_bytes-to_le_bytes [] = refl
from_le_bytes-to_le_bytes (u ∷ us) = grind (arith, from_le_bytes-to_le_bytes us)

to_le_bytes_even : (us : OsString) → length (to_le_bytes us) % 2 ≡ 0
unfolding to_le_bytes
to_le_bytes_even [] = refl
to_le_bytes_even (u ∷ us) = omega (arith, to_le_bytes_even us)

to_le_bytes_small : (us : OsString) → AreUnits us → All (λ b. b < 256) (to_le_bytes us)
unfolding to_le_bytes
to_le_bytes_small [] h = tt
to_le_bytes_small (u ∷ us) h = (omega arith, (omega (arith, h.0), to_le_bytes_small us h.1))

some_injective : {a b : OsString} → some a ≡ some b → a ≡ b
some_injective e = cc

module _ (hex : Hex) (law : HexLaw hex) where
  -- If the hex crate decodes what it encodes, the key of a path decodes to the path, whatever its
  -- UTF-16 units are.
  pub key_to_path-path_key :
      (path : OsString) → AreUnits path → key_to_path hex (path_key hex path) ≡ some path
  unfolding key_to_path path_key utf16le_hex
  key_to_path-path_key path h =
      ap (decoded hex) (strip_prefix-append key_prefix (hex.encode (to_le_bytes path)))
      ∙ ap units_of (law (to_le_bytes path) (to_le_bytes_small path h))
      ∙ rw (to_le_bytes_even path) (ap some (from_le_bytes-to_le_bytes path))

  -- Two paths with one key are one path.
  pub path_key_injective :
      (a b : OsString) → AreUnits a → AreUnits b → path_key hex a ≡ path_key hex b → a ≡ b
  path_key_injective a b ha hb e =
      some_injective
        (sym (key_to_path-path_key a ha) ∙ ap (key_to_path hex) e ∙ key_to_path-path_key b hb)
