-- ===== src/Win/Path/Nesting.antt =====
-- The nesting test observes the boundaries of components.
use bigcp.Base.{
  ℕ, ◌≡◌, ◌≢◌, refl, ap, ◌⊎◌, inl, inr, ◌↔◌, Bool, true, ◌||◌, some, [], ◌∷◌, ◌++◌, arith, zero,
  suc, Bool-cases, ok, Outcome, ◌==◌, ==_iff, last?,
}
use bigcp.Base.Bytes.{bytes_eq, bytes_eq_sound, bytes_eq_refl}
use bigcp.Errors.{IoError}
use bigcp.Win.Path.{
  Wide, backslash, comparison_key, keep_unit, trim_end, is_nested, is_same_or_descendant_with,
}

-- The root itself, or a path below it.
abbrev pub IsWithin : Wide → Wide → Type 0
IsWithin candidate root =
    (candidate ≡ root) ⊎ ((rest : Wide) × (candidate ≡ root ++ backslash ∷ rest))

is_nested_sound : (c r : Wide) → is_nested c r ≡ true → (rest : Wide) × (c ≡ r ++ backslash ∷ rest)
unfolding is_nested
is_nested_sound [] [] h = absurd (cc)
is_nested_sound (x ∷ c) [] h = (c, ap (λ y. y ∷ c) ((==_iff x backslash).0 h))
is_nested_sound [] (y ∷ r) h = absurd (cc)
is_nested_sound (x ∷ c) (y ∷ r) h =
    let head : x ≡ y = ground arith in
    let (rest, e) = is_nested_sound c r (ground arith) in (rest, rw (head, e) refl)

is_nested-append : (r rest : Wide) → is_nested (r ++ backslash ∷ rest) r ≡ true
unfolding is_nested
is_nested-append [] rest = refl
is_nested-append (y ∷ r) rest = ground (arith, is_nested-append r rest)

-- `n` backslashes.
abbrev pub backslashes : ℕ → Wide
backslashes zero = []
backslashes (suc n) = backslash ∷ backslashes n

-- A root without the backslashes at its end.
pub record IsTrimmed (root trimmed : Wide) : Type 0 where
  pub count : ℕ
  pub root_is : root ≡ trimmed ++ backslashes count
  pub end_is : last? trimmed ≢ some backslash

keep_unit-IsTrimmed :
    (u : ℕ) (us : Wide) (trimmed : Wide)
    → IsTrimmed us trimmed
    → IsTrimmed (u ∷ us) (keep_unit u trimmed)
keep_unit-IsTrimmed u us [] t = elim (Bool-cases (u == backslash)) [
  | inl e ↦ rw e (record {
    count = suc t.count;
    root_is = λ i. (==_iff u backslash).0 e i ∷ t.root_is i;
    end_is = λ h. cc;
  })
  | inr e ↦
      rw e (record {
        count = t.count;
        root_is = ap (λ r. u ∷ r) t.root_is;
        end_is = λ h. ground arith;
      })
]
keep_unit-IsTrimmed u us (v ∷ vs) t = record {
  count = t.count;
  root_is = ap (λ r. u ∷ r) t.root_is;
  end_is = t.end_is;
}

trim_end-IsTrimmed : (root : Wide) → IsTrimmed root (trim_end root)
unfolding trim_end
trim_end-IsTrimmed [] = record { count = 0; root_is = refl; end_is = λ e. cc }
trim_end-IsTrimmed (u ∷ us) = keep_unit-IsTrimmed u us (trim_end us) (trim_end-IsTrimmed us)

IsWithin-iff : (c r : Wide) → ((bytes_eq c r || is_nested c r) ≡ true) ↔ IsWithin c r
IsWithin-iff c r = (forth, back)
  where
    forth : (bytes_eq c r || is_nested c r) ≡ true → IsWithin c r
    forth h = elim (Bool-cases (bytes_eq c r)) [
      | inl e ↦ inl (bytes_eq_sound c r e)
      | inr e ↦ inr (is_nested_sound c r (ground arith))
    ]

    back : IsWithin c r → (bytes_eq c r || is_nested c r) ≡ true
    back (inl e) = rw e (rw (bytes_eq_refl r) refl)
    back (inr (rest, e)) = rw e (rw (is_nested-append r rest) (ground arith))

-- For two paths whose comparison keys are given, the nesting test answers whether the key of the
-- candidate is that of the root, without the backslashes at its end, or goes on behind it with a
-- backslash.
pub is_same_or_descendant_iff :
    (ordinal_case_key : Wide → Outcome IoError Wide) (candidate root : Wide) (case_sensitive : Bool)
    (candidate_key root_key : Wide)
    → comparison_key ordinal_case_key candidate case_sensitive ≡ ok candidate_key
    → comparison_key ordinal_case_key root case_sensitive ≡ ok root_key
    → (answer : Bool) × (trimmed : Wide) × (is_same_or_descendant_with ordinal_case_key candidate
          root case_sensitive
        ≡ ok answer)
      × IsTrimmed root_key trimmed
      × ((answer ≡ true) ↔ IsWithin candidate_key trimmed)
unfolding is_same_or_descendant_with
is_same_or_descendant_iff ordinal_case_key candidate root case_sensitive ck rk hc hr = (
  bytes_eq ck (trim_end rk) || is_nested ck (trim_end rk),
  trim_end rk,
  rw (hc, hr) refl,
  trim_end-IsTrimmed rk,
  IsWithin-iff ck (trim_end rk),
)
