-- ===== src/Win/Path/Extended.antt =====
-- Extending a full path happens once, does not change the kind of the endpoint, and is undone for
-- display.
use bigcp.Base.{
  ◌≡◌, ◌≢◌, refl, sym, ◌∙◌, inl, inr, true, false, not, ◌&&◌, some, [], ◌∷◌, ◌++◌, drop, Bool-cases,
}
use bigcp.Base.Bytes.{ascii}
use bigcp.Win.Types.{wsl_unc}
use bigcp.Win.Path.{
  Wide, backslash, extended_prefix, extended_unc_prefix, unc_prefix, starts_with,
  starts_with_ascii_case_insensitive, server_of, is_wsl_server, canonicalize_wsl_server, extended,
  display_path, unc_body, kind_of_body, classify_endpoint,
}
use bigcp.Win.Path.Prefix.{
  nocase-unc, nocase-extended, starts_with-extended, starts_with-unc, starts_with_two,
}
use bigcp.Win.Path.Canonical.{
  is_extended_unc, Canonicalized, same, renamed, canonicalize-Canonicalized,
  canonicalize_idempotent, canonicalize-nocase, classify-unc, classify-canonicalize,
}

-- No `UNC\` in front, which a full path does not have: it begins with a drive or a backslash.
abbrev pub IsFull : Wide → Type 0
IsFull b = starts_with_ascii_case_insensitive b (ascii "UNC" ++ backslash ∷ []) ≡ false

-- The four ways in which a full path is extended.
data Extension (b : Wide) : Wide → Type 0 where
  as_unc : is_extended_unc b ≡ true → Extension b (canonicalize_wsl_server b)
  from_unc :
      is_extended_unc b ≡ false
      → starts_with b unc_prefix ≡ true
      → starts_with b extended_prefix ≡ false
      → Extension b (canonicalize_wsl_server (extended_unc_prefix ++ drop 2 b))
  prefixed :
      is_extended_unc b ≡ false
      → (starts_with b unc_prefix && not (starts_with b extended_prefix)) ≡ false
      → starts_with b extended_prefix ≡ false
      → Extension b (extended_prefix ++ b)
  as_given : is_extended_unc b ≡ false → starts_with b extended_prefix ≡ true → Extension b b

extended-Extension : (b : Wide) → Extension b (extended b)
unfolding extended
extended-Extension b = elim (Bool-cases (is_extended_unc b)) [
  | inl u ↦ rw u (as_unc u)
  | inr u ↦ elim (Bool-cases (starts_with b extended_prefix)) [
    | inl e ↦ elim (Bool-cases (starts_with b unc_prefix)) [
      | inl t ↦ rw (u, e, t) (as_given u e)
      | inr t ↦ rw (u, e, t) (as_given u e)
    ]
    | inr e ↦ elim (Bool-cases (starts_with b unc_prefix)) [
      | inl t ↦ rw (u, e, t) (from_unc u t e)
      | inr t ↦ rw (u, e, t) (prefixed u (rw t refl) e)
    ]
  ]
]

extended-nocase : (b : Wide) → is_extended_unc b ≡ true → extended b ≡ canonicalize_wsl_server b
unfolding extended
extended-nocase b h = rw h refl

extended-given :
    (b : Wide) → is_extended_unc b ≡ false → starts_with b extended_prefix ≡ true → extended b ≡ b
unfolding extended
extended-given b u e = elim (Bool-cases (starts_with b unc_prefix)) [
  | inl t ↦ rw (u, e, t) refl
  | inr t ↦ rw (u, e, t) refl
]

canonical_extended :
    (v : Wide)
    → is_extended_unc v ≡ true
    → extended (canonicalize_wsl_server v) ≡ canonicalize_wsl_server v
canonical_extended v h =
    extended-nocase (canonicalize_wsl_server v) (canonicalize-nocase v h)
    ∙ canonicalize_idempotent v

-- A path that does not begin with `UNC\`, once extended and its WSL server renamed, is not changed
-- by being extended again.
pub extended_idempotent : (b : Wide) → IsFull b → extended (extended b) ≡ extended b
extended_idempotent b full = go (extended-Extension b)
  where
    go : {x : Wide} → Extension b x → extended x ≡ x
    go (as_unc u) = canonical_extended b u
    go (from_unc u t e) =
        canonical_extended (extended_unc_prefix ++ drop 2 b) (nocase-unc (drop 2 b))
    go (prefixed u g e) =
        extended-given (extended_prefix ++ b) (nocase-extended b ∙ full) (starts_with-extended b)
    go (as_given u e) = extended-given b u e

-- Extending a path that does not begin with `UNC\` does not change the kind of its endpoint.
pub classify-extended : (b : Wide) → IsFull b → classify_endpoint (extended b) ≡ classify_endpoint b
unfolding classify_endpoint unc_body
classify-extended b full = go (extended-Extension b)
  where
    go : {x : Wide} → Extension b x → classify_endpoint x ≡ classify_endpoint b
    go (as_unc u) = classify-canonicalize b
    go (from_unc u t e) =
        classify-canonicalize (extended_unc_prefix ++ drop 2 b)
        ∙ classify-unc (drop 2 b)
        ∙ rw (u, t, e) refl
    go (prefixed u g e) =
        rw (nocase-extended b, full, starts_with-extended b, starts_with-unc b, u, g) refl
    go (as_given u e) = refl

classify-plain_unc :
    (b : Wide)
    → is_extended_unc b ≡ false
    → starts_with b unc_prefix ≡ true
    → starts_with b extended_prefix ≡ false
    → classify_endpoint b ≡ kind_of_body (some (drop 2 b))
unfolding classify_endpoint unc_body
classify-plain_unc b u t e = rw (u, t, e) refl

display-unc : (body : Wide) → display_path (extended_unc_prefix ++ body) ≡ unc_prefix ++ body
unfolding display_path
display-unc body = rw (nocase-unc body) refl

display-other_server :
    (b : Wide)
    → starts_with b unc_prefix ≡ true
    → is_wsl_server (server_of (drop 2 b)) ≢ true
    → display_path (canonicalize_wsl_server (extended_unc_prefix ++ drop 2 b)) ≡ b
display-other_server b t not_wsl = go (canonicalize-Canonicalized (extended_unc_prefix ++ drop 2 b))
  where
    go : {c : Wide} → Canonicalized (extended_unc_prefix ++ drop 2 b) c → display_path c ≡ b
    go same = display-unc (drop 2 b) ∙ sym (starts_with_two b t)
    go (renamed rest u w r) = absurd (not_wsl w)

-- A path without an extended prefix, that does not begin with `UNC\` and is not of the WSL server,
-- is displayed after its extension as it was given.
pub display-extended :
    (b : Wide)
    → IsFull b
    → is_extended_unc b ≡ false
    → starts_with b extended_prefix ≡ false
    → classify_endpoint b ≢ wsl_unc
    → display_path (extended b) ≡ b
unfolding display_path
display-extended b full u e not_wsl = go (extended-Extension b)
  where
    go : {x : Wide} → Extension b x → display_path x ≡ b
    go (as_unc u') = absurd (cc)
    go (from_unc u' t e') =
        display-other_server b t λ w. not_wsl (classify-plain_unc b u t e ∙ rw w refl)
    go (prefixed u' g e') = rw (nocase-extended b, full, starts_with-extended b) refl
    go (as_given u' e') = absurd (cc)
