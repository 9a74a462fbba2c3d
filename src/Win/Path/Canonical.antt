-- ===== src/Win/Path/Canonical.antt =====
-- Giving the WSL server its current name happens once, and does not change the kind of the endpoint.
use bigcp.Base.{◌≡◌, refl, sym, ◌∙◌, inl, inr, Bool, true, some, ◌++◌, drop, Bool-cases}
use bigcp.Win.Types.{wsl_unc}
use bigcp.Win.Path.{
  Wide, extended_unc_prefix, starts_with_ascii_case_insensitive, server_of, behind_server,
  wsl_localhost, is_wsl_server, canonicalize_wsl_server, unc_body, kind_of_body, classify_endpoint,
}
use bigcp.Win.Path.Prefix.{
  nocase-unc, IsRest, behind_server-cases, server_of-wsl, behind_server-wsl, is_wsl-localhost,
}

abbrev pub is_extended_unc : Wide → Bool
is_extended_unc v = starts_with_ascii_case_insensitive v extended_unc_prefix

-- What canonicalization does to a path.
pub data Canonicalized (v : Wide) : Wide → Type 0 where
  same : Canonicalized v v
  renamed :
      (rest : Wide)
      → is_extended_unc v ≡ true
      → is_wsl_server (server_of (drop 8 v)) ≡ true
      → IsRest rest
      → Canonicalized v (extended_unc_prefix ++ (wsl_localhost ++ rest))

pub canonicalize-Canonicalized : (v : Wide) → Canonicalized v (canonicalize_wsl_server v)
unfolding canonicalize_wsl_server
canonicalize-Canonicalized v = elim (Bool-cases (is_extended_unc v)) [
  | inr u ↦ rw u same
  | inl u ↦ elim (Bool-cases (is_wsl_server (server_of (drop 8 v)))) [
    | inr w ↦ rw (u, w) same
    | inl w ↦ rw (u, w) (renamed (behind_server (drop 8 v)) u w (behind_server-cases (drop 8 v)))
  ]
]

canonical_stays :
    (rest : Wide)
    → IsRest rest
    → canonicalize_wsl_server (extended_unc_prefix ++ (wsl_localhost ++ rest))
      ≡ extended_unc_prefix ++ (wsl_localhost ++ rest)
unfolding canonicalize_wsl_server
canonical_stays rest r =
    rw
      (
        nocase-unc (wsl_localhost ++ rest),
        server_of-wsl rest r,
        is_wsl-localhost,
        behind_server-wsl rest r,
      )
      refl

pub canonicalize_idempotent :
    (v : Wide) → canonicalize_wsl_server (canonicalize_wsl_server v) ≡ canonicalize_wsl_server v
canonicalize_idempotent v = go (canonicalize_wsl_server v) refl (canonicalize-Canonicalized v)
  where
    go :
        (c : Wide)
        → canonicalize_wsl_server v ≡ c
        → Canonicalized v c
        → canonicalize_wsl_server c ≡ c
    go c e same = e
    go c e (renamed rest u w r) = canonical_stays rest r

pub canonicalize-nocase :
    (v : Wide) → is_extended_unc v ≡ true → is_extended_unc (canonicalize_wsl_server v) ≡ true
canonicalize-nocase v h = go (canonicalize-Canonicalized v)
  where
    go : {c : Wide} → Canonicalized v c → is_extended_unc c ≡ true
    go same = h
    go (renamed rest u w r) = nocase-unc (wsl_localhost ++ rest)

pub classify-unc :
    (body : Wide) → classify_endpoint (extended_unc_prefix ++ body) ≡ kind_of_body (some body)
unfolding classify_endpoint unc_body
classify-unc body = rw (nocase-unc body) refl

classify-renamed :
    (v : Wide)
    → is_extended_unc v ≡ true
    → is_wsl_server (server_of (drop 8 v)) ≡ true
    → classify_endpoint v ≡ wsl_unc
unfolding classify_endpoint unc_body
classify-renamed v u w = rw (u, w) refl

-- Giving the WSL server its current name does not change the kind of the endpoint.
pub classify-canonicalize :
    (v : Wide) → classify_endpoint (canonicalize_wsl_server v) ≡ classify_endpoint v
classify-canonicalize v = go (canonicalize-Canonicalized v)
  where
    go : {c : Wide} → Canonicalized v c → classify_endpoint c ≡ classify_endpoint v
    go same = refl
    go (renamed rest u w r) =
        classify-unc (wsl_localhost ++ rest)
        ∙ rw (server_of-wsl rest r, is_wsl-localhost) refl
        ∙ sym (classify-renamed v u w)
