-- ===== src/Win/Path/Prefix.antt =====
-- Prefixes of paths, and the server in front of a path.
use bigcp.Base.{
  ◌≡◌, refl, ap, ◌⊎◌, inl, inr, true, [], ◌∷◌, ◌++◌, arith, ◌==◌, drop, Bool-cases, ==_iff,
}
use bigcp.Base.Bytes.{ascii}
use bigcp.Win.Path.{
  Wide, backslash, extended_prefix, extended_unc_prefix, unc_prefix, ascii_upper, starts_with,
  starts_with_ascii_case_insensitive, ascii_eq, server_of, behind_server, wsl_localhost,
  is_wsl_server,
}

pub nocase-unc :
    (body : Wide)
    → starts_with_ascii_case_insensitive (extended_unc_prefix ++ body) extended_unc_prefix ≡ true
unfolding starts_with_ascii_case_insensitive ascii_upper
nocase-unc body = refl

pub nocase-extended :
    (b : Wide)
    → starts_with_ascii_case_insensitive (extended_prefix ++ b) extended_unc_prefix
      ≡ starts_with_ascii_case_insensitive b (ascii "UNC" ++ backslash ∷ [])
unfolding starts_with_ascii_case_insensitive ascii_upper
nocase-extended b = refl

pub starts_with-extended : (b : Wide) → starts_with (extended_prefix ++ b) extended_prefix ≡ true
unfolding starts_with
starts_with-extended b = refl

pub starts_with-unc : (b : Wide) → starts_with (extended_prefix ++ b) unc_prefix ≡ true
unfolding starts_with
starts_with-unc b = refl

pub starts_with_two : (b : Wide) → starts_with b unc_prefix ≡ true → b ≡ unc_prefix ++ drop 2 b
unfolding starts_with
starts_with_two [] h = cc
starts_with_two (x ∷ []) h = ground arith
starts_with_two (x ∷ y ∷ b) h = ground arith

-- The rest behind a server is empty or starts with a backslash.
pub behind_server-cases :
    (body : Wide) → (behind_server body ≡ []) ⊎ ((r : Wide) × (behind_server body ≡ backslash ∷ r))
unfolding behind_server
behind_server-cases [] = inl refl
behind_server-cases (u ∷ us) = elim (Bool-cases (u == backslash)) [
  | inl e ↦ inr (us, rw e (ap (λ c. c ∷ us) ((==_iff u backslash).0 e)))
  | inr e ↦ rw e (behind_server-cases us)
]

-- A rest that does not run into the server.
abbrev pub IsRest : Wide → Type 0
IsRest rest = (rest ≡ []) ⊎ ((r : Wide) × (rest ≡ backslash ∷ r))

pub server_of-wsl : (rest : Wide) → IsRest rest → server_of (wsl_localhost ++ rest) ≡ wsl_localhost
unfolding server_of
server_of-wsl rest (inl e) = rw e refl
server_of-wsl rest (inr (r, e)) = rw e refl

pub behind_server-wsl : (rest : Wide) → IsRest rest → behind_server (wsl_localhost ++ rest) ≡ rest
unfolding behind_server
behind_server-wsl rest (inl e) = rw e refl
behind_server-wsl rest (inr (r, e)) = rw e refl

pub is_wsl-localhost : is_wsl_server wsl_localhost ≡ true
unfolding is_wsl_server ascii_eq ascii_upper
is_wsl-localhost = refl
