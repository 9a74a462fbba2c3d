-- ===== src/Win/Ea/Examples.antt =====
-- The theorem about EA payloads, at two attributes.
use bigcp.Base.{◌≡◌, refl, some, [], ◌∷◌, ok, List}
use bigcp.Base.Bytes.{Bytes, ascii}
use bigcp.Win.Ea.{
  Pair, from_pairs, check_pairs, write_records, write_record, valid_ea_name, parse_ea_records,
}
use bigcp.Win.Ea.RoundTrip.{parse-from_pairs}
use bigcp.Win.Ea.Total.{Ends, parse_ea_records-Ends}

abbrev attributes : List Pair
attributes = (ascii "A", ascii "x") ∷ (ascii "BC", []) ∷ []

abbrev payload : Bytes
payload =
    12 ∷ 0 ∷ 0 ∷ 0 ∷ 0 ∷ 1 ∷ 1 ∷ 0 ∷ 65 ∷ 0 ∷ 120 ∷ 0 ∷ 0 ∷ 0 ∷ 0 ∷ 0 ∷ 0 ∷ 2 ∷ 0 ∷ 0 ∷ 66 ∷ 67 ∷ 0
    ∷ 0 ∷ []

is_built : from_pairs attributes ≡ ok payload
unfolding from_pairs check_pairs write_records write_record valid_ea_name
is_built = refl

parse-from_pairs_example :
    parse_ea_records 128 payload ≡ some (ok ((0, ascii "A") ∷ (0, ascii "BC") ∷ []))
parse-from_pairs_example = parse-from_pairs 128 attributes payload is_built

-- An offset that points past the end.
parse_ea_records-Ends_example : Ends 128 (parse_ea_records 128 (255 ∷ 255 ∷ 0 ∷ 0 ∷ []))
parse_ea_records-Ends_example = parse_ea_records-Ends 128 (255 ∷ 255 ∷ 0 ∷ 0 ∷ [])
