-- ===== src/Win/Ea/Total.antt =====
-- The validation of a payload ends, whatever bytes a provider returned.
use bigcp.Base.{
  ℕ, zero, suc, ◌-◌, ◌%◌, ◌<◌, ◌≡◌, refl, inl, inr, not, ◌||◌, Option, none, some, List, [], ◌∷◌,
  Outcome, ok, err, ◌>>=◌, arith, ltb, leb, ◌==◌, length, length-drop, Bool-cases,
}
use bigcp.Base.Bytes.{Bytes}
use bigcp.Errors.{IoError}
use bigcp.Win.Ea.{
  is_nil, Header, read_header, end_of_record, value_end, hop, check_flags, check_record,
  parse_record, push, parse_loop, parse_ea_records,
}

-- What is returned without an error has the property.
data Holds {A : Type 0} (P : A → Type 0) : Outcome IoError A → Type 0 where
  is_ok : {a : A} → P a → Holds P (ok a)
  is_err : {e : IoError} → Holds P (err e)

bind-Holds :
    {A B : Type 0} {P : A → Type 0} {Q : B → Type 0} (m : Outcome IoError A)
    {f : A → Outcome IoError B}
    → Holds P m
    → ((a : A) → P a → Holds Q (f a))
    → Holds Q (m >>= f)
bind-Holds (ok a) (is_ok p) h = h a p
bind-Holds (err e) m h = is_err

anything : {A : Type 0} (m : Outcome IoError A) → Holds (λ _. Unit {0}) m
anything (ok a) = is_ok tt
anything (err e) = is_err

-- The bytes that are left to parse are fewer.
abbrev IsFewer : ℕ → Option Bytes → Type 0
IsFewer n none = Unit
IsFewer n (some more) = length more < n

read_header-some : (rest : Bytes) → Holds (λ _. 0 < length rest) (read_header rest)
unfolding read_header
read_header-some [] = is_err
read_header-some (a ∷ []) = is_err
read_header-some (a ∷ b ∷ []) = is_err
read_header-some (a ∷ b ∷ c ∷ []) = is_err
read_header-some (a ∷ b ∷ c ∷ d ∷ []) = is_err
read_header-some (a ∷ b ∷ c ∷ d ∷ e ∷ []) = is_err
read_header-some (a ∷ b ∷ c ∷ d ∷ e ∷ f ∷ []) = is_err
read_header-some (a ∷ b ∷ c ∷ d ∷ e ∷ f ∷ g ∷ []) = is_err
read_header-some (a ∷ b ∷ c ∷ d ∷ e ∷ f ∷ g ∷ h ∷ body) = is_ok (omega arith)

end_of_record-pos : (next left : ℕ) → 0 < left → Holds (λ end. 0 < end) (end_of_record next left)
unfolding end_of_record
end_of_record-pos next left p = elim (Bool-cases (next == 0)) [
  | inl z ↦ rw z (is_ok p)
  | inr z ↦ elim (Bool-cases (not (next % 4 == 0) || ltb next 8)) [
    | inl a ↦ rw (z, a) is_err
    | inr a ↦ elim (Bool-cases (ltb left next)) [
      | inl l ↦ rw (z, a, l) is_err
      | inr l ↦ rw (z, a, l) (is_ok (ground arith))
    ]
  ]
]

hop-IsFewer :
    (h : Header) (end : ℕ) (rest : Bytes)
    → 0 < end
    → 0 < length rest
    → Holds (IsFewer (length rest)) (hop h end rest)
unfolding hop
hop-IsFewer h end rest p q = elim (Bool-cases (h.next == 0)) [
  | inl z ↦ elim (Bool-cases (leb 4 (end - value_end h))) [
    | inl l ↦ rw (z, l) is_err
    | inr l ↦ rw (z, l) (is_ok tt)
  ]
  | inr z ↦ elim (Bool-cases (end == length rest)) [
    | inl l ↦ rw (z, l) is_err
    | inr l ↦ rw (z, l) (is_ok (omega (arith, length-drop end rest)))
  ]
]

module _ (need : ℕ) where
  parse_record-IsFewer :
      (rest : Bytes) → Holds (λ r. IsFewer (length rest) r.1) (parse_record need rest)
  unfolding parse_record
  parse_record-IsFewer rest = bind-Holds (read_header rest) (read_header-some rest) λ h some_left.
      bind-Holds (check_flags need h) (anything (check_flags need h)) λ _ _.
        bind-Holds (end_of_record h.next (length rest))
          (end_of_record-pos h.next (length rest) some_left)
          λ end p. bind-Holds (check_record need h end) (anything (check_record need h end)) λ _ _.
            bind-Holds (hop h end rest) (hop-IsFewer h end rest p some_left) λ more f. is_ok f

  -- A loop that ends.
  abbrev pub Ends : Option (Outcome IoError (List (ℕ × Bytes))) → Type 0
  Ends r = (result : Outcome IoError (List (ℕ × Bytes))) × (r ≡ some result)

  push-Ends :
      (r : ℕ × Bytes) (o : Option (Outcome IoError (List (ℕ × Bytes))))
      → Ends o
      → Ends (push need r o)
  push-Ends r none (result, e) = absurd (cc)
  push-Ends r (some (ok rs)) e = (ok (r ∷ rs), refl)
  push-Ends r (some (err x)) e = (err x, refl)

  parse_loop-Ends :
      (fuel : ℕ) (rest : Bytes) → length rest < fuel → Ends (parse_loop need fuel rest)
  unfolding parse_loop
  parse_loop-Ends zero rest f = absurd (omega arith)
  parse_loop-Ends (suc fuel) rest f =
      go (parse_record need rest) (parse_record-IsFewer rest) (parse_loop-Ends fuel)
    where
      go :
          (step : Outcome IoError ((ℕ × Bytes) × Option Bytes))
          → Holds (λ r. IsFewer (length rest) r.1) step
          → ((more : Bytes) → length more < fuel → Ends (parse_loop need fuel more))
          → Ends (elim step [
            | err e ↦ some (err e)
            | ok (r, none) ↦ some (ok (r ∷ []))
            | ok (r, some more) ↦ push need r (parse_loop need fuel more)
          ])
      go (err e) h again = (err e, refl)
      go (ok (r, none)) h again = (ok (r ∷ []), refl)
      go (ok (r, some more)) (is_ok h) again = push-Ends r _ (again more (omega arith))

  -- The validation returns records or an error, whatever the payload is.
  pub parse_ea_records-Ends : (payload : Bytes) → Ends (parse_ea_records need payload)
  unfolding parse_ea_records
  parse_ea_records-Ends payload = elim (Bool-cases (is_nil payload)) [
    | inl n ↦ rw n (ok [], refl)
    | inr n ↦ rw n (parse_loop-Ends (suc (length payload)) payload (omega arith))
  ]
