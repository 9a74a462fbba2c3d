-- ===== src/Win/Path.antt =====
-- crates/win/src/path.rs and endpoint.rs: paths as UTF-16 units, their extended form, the aliases of
-- the WSL server, the nesting test and the kind of an endpoint. What the Win32 calls answer is an
-- argument.
pub mod Prefix
pub mod Canonical
pub mod Extended
pub mod Nesting
mod Examples
use bigcp.Base.{
  ℕ, ◌-◌, Bool, true, false, not, ◌&&◌, ◌||◌, Option, none, some, List, [], ◌∷◌, ◌++◌, Outcome, ok,
  err, ◌>>=◌, ltb, leb, ◌==◌, any, take, drop, if◌then◌else◌,
}
use bigcp.Base.Bytes.{Bytes, ascii, bytes_eq}
use bigcp.Errors.{IoError, invalid_input, other_kind, io_error_new}
use bigcp.Win.Types.{EndpointKind, local, unc, wsl_unc}

-- `OsStr`, `Path`, `Vec<u16>`
abbrev pub Wide : Type 0
Wide = List ℕ

abbrev pub backslash : ℕ
backslash = 92

-- `\\`, `\\?\` and `\\?\UNC\`
abbrev pub unc_prefix : Wide
unc_prefix = backslash ∷ backslash ∷ []

abbrev pub extended_prefix : Wide
extended_prefix = backslash ∷ backslash ∷ 63 ∷ backslash ∷ []

abbrev pub extended_unc_prefix : Wide
extended_unc_prefix = extended_prefix ++ (ascii "UNC" ++ backslash ∷ [])

unfoldable pub ascii_upper : ℕ → ℕ
ascii_upper value = if leb 97 value && leb value 122 then value - 32 else value

unfoldable pub starts_with : Wide → Wide → Bool
starts_with value [] = true
starts_with [] (p ∷ ps) = false
starts_with (v ∷ vs) (p ∷ ps) = v == p && starts_with vs ps

unfoldable pub starts_with_ascii_case_insensitive : Wide → Wide → Bool
starts_with_ascii_case_insensitive value [] = true
starts_with_ascii_case_insensitive [] (p ∷ ps) = false
starts_with_ascii_case_insensitive (v ∷ vs) (p ∷ ps) =
    ascii_upper v == ascii_upper p && starts_with_ascii_case_insensitive vs ps

-- Equal lengths, and equal units up to ASCII case.
unfoldable pub ascii_eq : Wide → Wide → Bool
ascii_eq [] [] = true
ascii_eq [] (e ∷ es) = false
ascii_eq (u ∷ us) [] = false
ascii_eq (u ∷ us) (e ∷ es) = ascii_upper u == ascii_upper e && ascii_eq us es

-- `position(backslash).unwrap_or(len)`: what stands before it, and the rest from it on.
unfoldable pub server_of : Wide → Wide
server_of [] = []
server_of (u ∷ us) = let rest = server_of us in if u == backslash then [] else u ∷ rest

unfoldable pub behind_server : Wide → Wide
behind_server [] = []
behind_server (u ∷ us) = let rest = behind_server us in if u == backslash then u ∷ us else rest

abbrev pub wsl_localhost : Wide
wsl_localhost = ascii "wsl.localhost"

unfoldable pub is_wsl_server : Wide → Bool
is_wsl_server server = ascii_eq server (ascii "wsl$") || ascii_eq server wsl_localhost

unfoldable pub canonicalize_wsl_server : Wide → Wide
canonicalize_wsl_server value =
    let body = drop 8 value in
    if starts_with_ascii_case_insensitive value extended_unc_prefix
    then (if is_wsl_server (server_of body)
        then extended_unc_prefix ++ (wsl_localhost ++ behind_server body)
        else value)
    else value

-- The end of `absolute_extended`: the extended form of a full path.
unfoldable pub extended : Wide → Wide
extended buffer =
    if starts_with_ascii_case_insensitive buffer extended_unc_prefix
    then canonicalize_wsl_server buffer
    else if starts_with buffer unc_prefix && not (starts_with buffer extended_prefix)
    then canonicalize_wsl_server (extended_unc_prefix ++ drop 2 buffer)
    else if not (starts_with buffer extended_prefix)
    then extended_prefix ++ buffer
    else buffer

-- `wide_null` of util.rs
unfoldable pub wide_null : Wide → Outcome IoError Wide
wide_null value =
    if any (λ u. u == 0) value
    then err (io_error_new invalid_input (ascii "Win32 string contains an embedded NUL"))
    else ok (value ++ 0 ∷ [])

-- What the two calls of `GetFullPathNameW` or `GetFinalPathNameByHandleW` answer: the size that is
-- asked for, the units written into the buffer, their number, and the last error of each call.
pub record NameCall : Type 0 where
  pub required : ℕ
  pub size_error : IoError
  pub buffer : Wide
  pub written : ℕ
  pub write_error : IoError

abbrev is_empty : Wide → Bool
is_empty [] = true
is_empty (_ ∷ _) = false

abbrev pub full_name : NameCall → Outcome IoError Wide
full_name call =
    if call.required == 0
    then err call.size_error
    else if call.written == 0
    then err call.write_error
    else if leb call.required call.written
    then err (io_error_new other_kind (ascii "absolute path changed while it was being resolved"))
    else ok (extended (take call.written call.buffer))

unfoldable pub absolute_extended : (Wide → NameCall) → Wide → Outcome IoError Wide
absolute_extended get_full_path_name path =
    if is_empty path
    then err (io_error_new invalid_input (ascii "path must not be empty"))
    else (do input ← wide_null path; full_name (get_full_path_name input))

-- The buffer has one unit more than is asked for.
unfoldable pub final_path : NameCall → Outcome IoError Wide
final_path call =
    if call.required == 0
    then err call.size_error
    else if call.written == 0
    then err call.write_error
    else if ltb call.required call.written
    then err
        (io_error_new other_kind (ascii "final path exceeded the buffer size reported by Windows"))
    else ok (canonicalize_wsl_server (take call.written call.buffer))

unfoldable pub display_path : Wide → Wide
display_path wide =
    if starts_with_ascii_case_insensitive wide extended_unc_prefix
    then unc_prefix ++ drop 8 wide
    else if starts_with wide extended_prefix
    then drop 4 wide
    else wide

-- `comparison_key`, with the ordinal case key of Windows as an argument.
unfoldable pub comparison_key : (Wide → Outcome IoError Wide) → Wide → Bool → Outcome IoError Wide
comparison_key ordinal_case_key name true = ok name
comparison_key ordinal_case_key name false = ordinal_case_key name

-- Backslashes at the end are popped.
abbrev pub keep_unit : ℕ → Wide → Wide
keep_unit u [] = if u == backslash then [] else u ∷ []
keep_unit u (v ∷ vs) = u ∷ v ∷ vs

unfoldable pub trim_end : Wide → Wide
trim_end [] = []
trim_end (u ∷ us) = keep_unit u (trim_end us)

-- The unit at the index `length root` is a backslash, behind the root.
unfoldable pub is_nested : Wide → Wide → Bool
is_nested candidate [] = elim candidate [ [] ↦ false | c ∷ _ ↦ c == backslash ]
is_nested [] (r ∷ rs) = false
is_nested (c ∷ cs) (r ∷ rs) = c == r && is_nested cs rs

unfoldable pub is_same_or_descendant_with :
    (Wide → Outcome IoError Wide) → Wide → Wide → Bool → Outcome IoError Bool
is_same_or_descendant_with ordinal_case_key candidate root case_sensitive = do
  candidate_key ← comparison_key ordinal_case_key candidate case_sensitive
  root_key ← comparison_key ordinal_case_key root case_sensitive
  ok (bytes_eq candidate_key (trim_end root_key) || is_nested candidate_key (trim_end root_key))

-- `unc_body` and `classify_endpoint` of endpoint.rs
unfoldable pub unc_body : Wide → Option Wide
unc_body units =
    if starts_with_ascii_case_insensitive units extended_unc_prefix
    then some (drop 8 units)
    else if starts_with units unc_prefix && not (starts_with units extended_prefix)
    then some (drop 2 units)
    else none

abbrev pub kind_of_body : Option Wide → EndpointKind
kind_of_body none = local
kind_of_body (some body) = if is_wsl_server (server_of body) then wsl_unc else unc

unfoldable pub classify_endpoint : Wide → EndpointKind
classify_endpoint path = kind_of_body (unc_body path)
