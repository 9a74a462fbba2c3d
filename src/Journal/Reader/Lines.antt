-- ===== src/Journal/Reader/Lines.antt =====
-- What the bounded reader returns, as a function of the bytes of the file alone.
use bigcp.Base.{
  ℕ, zero, suc, ◌+◌, ◌-◌, ◌≤◌, min, ◌≡◌, refl, ap, ◌∙◌, ◌⊎◌, inl, inr, true, false, ◌||◌, [], ◌∷◌,
  ◌++◌, arith, ltb, ◌==◌, length, take, drop, last?, length-append, length-take, Bool-cases,
}
use bigcp.Base.Bytes.{Bytes}
use bigcp.Journal.Codec.{newline}
use bigcp.Journal.Reader.{max_record, filled, fails, Reader, record_end, is_newline, Line, extend}

-- The bytes that the buffers hold.
abbrev pub content : Reader → Bytes
content [] = []
content (filled buffer ∷ reader) = buffer ++ content reader
content (fails _ ∷ reader) = content reader

-- Every call of `fill_buf` up to the end of the file succeeds, with some bytes.
abbrev pub IsSound : Reader → Type 0
IsSound [] = Unit
IsSound (filled [] ∷ reader) = ⊥
IsSound (filled (_ ∷ _) ∷ reader) = IsSound reader
IsSound (fails _ ∷ reader) = ⊥

-- A line as the reader hands it on.
unfoldable pub clip : Bytes → Line
clip bytes = record {
  retained = take max_record bytes;
  consumed = length bytes;
  oversized = ltb max_record (length bytes);
}

abbrev pub first_line : Bytes → Bytes
first_line bytes = take (record_end bytes) bytes

abbrev pub other_lines : Bytes → Bytes
other_lines bytes = drop (record_end bytes) bytes

pub record_end-le : (bytes : Bytes) → record_end bytes ≤ length bytes
unfolding record_end
record_end-le [] = omega arith
record_end-le (b ∷ bs) = ground (arith, record_end-le bs)

take_capped :
    (m : ℕ) (pre more : Bytes)
    → take m pre ++ take (m - length (take m pre)) more ≡ take m (pre ++ more)
take_capped zero [] more = refl
take_capped zero (x ∷ pre) more = refl
take_capped (suc m) [] more = let e : suc m - 0 ≡ suc m = omega arith in rw e
take_capped (suc m) (x ∷ pre) more =
    let e : suc m - suc (length (take m pre)) ≡ m - length (take m pre) = omega arith in
    rw e (ap (λ r. x ∷ r) (take_capped m pre more))

take-nil : (n : ℕ) → take {A = ℕ} n [] ≡ []
take-nil zero = refl
take-nil (suc n) = refl

take-min : (a b : ℕ) (bytes : Bytes) → take (min a b) bytes ≡ take b (take a bytes)
take-min a b [] = simp take-nil
take-min zero b (x ∷ bs) = let e : min 0 b ≡ 0 = omega arith in rw e (rw take-nil)
take-min (suc a) zero (x ∷ bs) = let e : min (suc a) 0 ≡ 0 = omega arith in rw e
take-min (suc a) (suc b) (x ∷ bs) =
    let e : min (suc a) (suc b) ≡ suc (min a b) = omega arith in
    rw e (ap (λ r. x ∷ r) (take-min a b bs))

capped_oversized :
    (m a stop : ℕ) → (ltb m a || ltb (min stop (m - min m a)) stop) ≡ ltb m (a + stop)
capped_oversized m a stop = ground arith

pub extend-clip : (pre buffer : Bytes) → extend buffer (clip pre) ≡ clip (pre ++ first_line buffer)
unfolding extend clip
extend-clip pre buffer =
    λ i. record { retained = kept i; consumed = eaten i; oversized = dropped i }
  where
    kept :
        take max_record pre
          ++ take (min (record_end buffer) (max_record - length (take max_record pre))) buffer
        ≡ take max_record (pre ++ first_line buffer)
    kept = rw take-min (take_capped max_record pre (first_line buffer))

    eaten : length pre + record_end buffer ≡ length (pre ++ first_line buffer)
    eaten = omega (
      arith,
      length-append pre (first_line buffer),
      length-take (record_end buffer) buffer,
      record_end-le buffer,
    )

    dropped :
        (ltb max_record (length pre)
          || ltb
              (min (record_end buffer) (max_record - length (take max_record pre)))
              (record_end buffer))
        ≡ ltb max_record (length (pre ++ first_line buffer))
    dropped = rw (length-take max_record pre) (
        capped_oversized max_record (length pre) (record_end buffer)
        ∙ ap (λ n. ltb max_record n) eaten)

-- A buffer that ends the line that stands at its start.
pub record Closing (buffer : Bytes) : Type 0 where
  pub ends : is_newline (last? (first_line buffer)) ≡ true
  pub first : (more : Bytes) → first_line (buffer ++ more) ≡ first_line buffer
  pub others : (more : Bytes) → other_lines (buffer ++ more) ≡ other_lines buffer ++ more

-- A buffer inside a line.
pub record Inside (buffer : Bytes) : Type 0 where
  pub ends : is_newline (last? (first_line buffer)) ≡ false
  pub whole : first_line buffer ≡ buffer
  pub first : (more : Bytes) → first_line (buffer ++ more) ≡ buffer ++ first_line more
  pub others : (more : Bytes) → other_lines (buffer ++ more) ≡ other_lines more

last?-cons :
    (x : ℕ) (l : Bytes) → (x == newline) ≡ false → is_newline (last? (x ∷ l)) ≡ is_newline (last? l)
last?-cons x [] e = e
last?-cons x (y ∷ l) e = refl

module _ (x : ℕ) (bs : Bytes) where
  record_end-newline : (x == newline) ≡ true → record_end (x ∷ bs) ≡ 1
  unfolding record_end
  record_end-newline e = rw e

  record_end-other : (x == newline) ≡ false → record_end (x ∷ bs) ≡ suc (record_end bs)
  unfolding record_end
  record_end-other e = rw e

pub buffer_cases : (buffer : Bytes) → Closing buffer ⊎ Inside buffer
buffer_cases [] = inr (
    unfold record_end in
    record { ends = refl; whole = refl; first = λ more. refl; others = λ more. refl })
buffer_cases (x ∷ bs) = elim (Bool-cases (x == newline)) [
  | inl e ↦ inl record {
    ends = rw (record_end-newline x bs e) e;
    first = λ more. rw (record_end-newline x bs e, record_end-newline x (bs ++ more) e);
    others = λ more. rw (record_end-newline x bs e, record_end-newline x (bs ++ more) e);
  }
  | inr e ↦ elim (buffer_cases bs) [
    | inl c ↦ inl record {
      ends = rw (record_end-other x bs e) (last?-cons x (first_line bs) e ∙ c.ends);
      first = λ more.
          rw (record_end-other x bs e, record_end-other x (bs ++ more) e)
            (ap (λ r. x ∷ r) (c.first more));
      others =
          λ more. rw (record_end-other x bs e, record_end-other x (bs ++ more) e) (c.others more);
    }
    | inr c ↦ inr record {
      ends = rw (record_end-other x bs e) (last?-cons x (first_line bs) e ∙ c.ends);
      whole = rw (record_end-other x bs e) (ap (λ r. x ∷ r) c.whole);
      first = λ more. rw (record_end-other x (bs ++ more) e) (ap (λ r. x ∷ r) (c.first more));
      others = λ more. rw (record_end-other x (bs ++ more) e) (c.others more);
    }
  ]
]
