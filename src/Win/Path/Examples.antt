-- ===== src/Win/Path/Examples.antt =====
-- The theorems about paths, at the spellings of a WSL share and of a local directory.
use bigcp.Base.{◌≡◌, ◌≢◌, ◌↔◌, refl, Bool, true, ok, ◌∷◌, ◌++◌, Outcome}
use bigcp.Base.Bytes.{ascii}
use bigcp.Errors.{IoError}
use bigcp.Win.Types.{wsl_unc}
use bigcp.Win.Path.{
  Wide, backslash, comparison_key, extended, display_path, classify_endpoint, unc_body, starts_with,
  starts_with_ascii_case_insensitive, ascii_upper, is_same_or_descendant_with,
}
use bigcp.Win.Path.Extended.{extended_idempotent, classify-extended, display-extended}
use bigcp.Win.Path.Nesting.{IsWithin, IsTrimmed, is_same_or_descendant_iff}

-- `\\WSL$\home` and `C:\data`
abbrev wsl_share : Wide
wsl_share = backslash ∷ backslash ∷ (ascii "WSL$" ++ backslash ∷ ascii "home")

abbrev local_directory : Wide
local_directory = ascii "C:" ++ backslash ∷ ascii "data"

extended_idempotent_example : extended (extended wsl_share) ≡ extended wsl_share
unfolding starts_with_ascii_case_insensitive ascii_upper
extended_idempotent_example = extended_idempotent wsl_share refl

classify-extended_example : classify_endpoint (extended wsl_share) ≡ classify_endpoint wsl_share
unfolding starts_with_ascii_case_insensitive ascii_upper
classify-extended_example = classify-extended wsl_share refl

not_wsl : classify_endpoint local_directory ≢ wsl_unc
unfolding classify_endpoint unc_body starts_with_ascii_case_insensitive ascii_upper starts_with
not_wsl h = cc

display-extended_example : display_path (extended local_directory) ≡ local_directory
unfolding starts_with_ascii_case_insensitive ascii_upper starts_with
display-extended_example = display-extended local_directory refl refl refl not_wsl

abbrev no_folding : Wide → Outcome IoError Wide
no_folding name = ok name

is_same_or_descendant_iff_example :
    (answer : Bool) × (trimmed : Wide) × (is_same_or_descendant_with no_folding
        (ascii "ab")
        (ascii "a")
        true
      ≡ ok answer)
    × IsTrimmed (ascii "a") trimmed
    × ((answer ≡ true) ↔ IsWithin (ascii "ab") trimmed)
unfolding comparison_key
is_same_or_descendant_iff_example =
    is_same_or_descendant_iff no_folding (ascii "ab") (ascii "a") true (ascii "ab") (ascii "a") refl
      refl
