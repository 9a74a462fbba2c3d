-- ===== src/Win/Sparse/Ordered.antt =====
-- One round of the enumeration, whatever the filesystem answers: the ranges lie in the file, in order
-- and apart, and the round gets further.
use bigcp.Base.{
  ◌||◌, ℕ, ◌+◌, ◌-◌, ◌≤◌, ◌<◌, ◌≡◌, inl, inr, Bool, true, false, List, [], ◌∷◌, ◌++◌, Outcome, ok,
  err, ◌>>=◌, arith, ltb, leb, ◌==◌, if◌then◌else◌, Bool-cases,
}
use bigcp.Base.Int.{ℤ, pos, negsuc}
use bigcp.Counters.{u64_max}
use bigcp.Errors.{IoError}
use bigcp.Win.Sparse.{
  AllocatedRange, RawRange, validated_range, checked_end, Answer, more_of, validate_all, Progress,
  done, continue_at, advance_to, take_records, query_once, i64_max, check_range,
}

-- The ranges are not empty, each begins where the one before has ended or later, from `start` on,
-- and none ends behind `limit`.
abbrev pub AreOrdered : ℕ → List AllocatedRange → ℕ → Type 0
AreOrdered start [] limit = start ≤ limit
AreOrdered start (r ∷ rs) limit =
    (start ≤ r.offset) × (0 < r.extent) × AreOrdered (r.offset + r.extent) rs limit

AreOrdered-snoc :
    (start : ℕ) (rs : List AllocatedRange) (middle limit : ℕ) (r : AllocatedRange)
    → AreOrdered start rs middle
    → middle ≤ r.offset
    → 0 < r.extent
    → r.offset + r.extent ≤ limit
    → AreOrdered start (rs ++ r ∷ []) (r.offset + r.extent)
AreOrdered-snoc start [] middle limit r h m p l = (omega arith, p, omega arith)
AreOrdered-snoc start (x ∷ rs) middle limit r h m p l =
    (h.0, h.1, AreOrdered-snoc (x.offset + x.extent) rs middle limit r h.2 m p l)

-- A range that passed validation.
record IsValid (minimum logical_size : ℕ) (r : AllocatedRange) : Type 0 where
  above : minimum ≤ r.offset
  not_empty : 0 < r.extent
  inside : r.offset + r.extent ≤ logical_size

-- What is returned without an error has the property.
pub data OkAll {A : Type 0} (P : A → Type 0) : Outcome IoError A → Type 0 where
  is_ok : {a : A} → P a → OkAll P (ok a)
  is_err : {e : IoError} → OkAll P (err e)

branch-OkAll :
    {A : Type 0} {P : A → Type 0} (b : Bool) {x y : Outcome IoError A}
    → OkAll P x
    → OkAll P y
    → OkAll P (if b then x else y)
branch-OkAll true hx hy = hx
branch-OkAll false hx hy = hy

bind-OkAll :
    {A B : Type 0} {P : B → Type 0} (m : Outcome IoError A) {f : A → Outcome IoError B}
    → ((a : A) → OkAll P (f a))
    → OkAll P (m >>= f)
bind-OkAll (ok a) h = h a
bind-OkAll (err e) h = is_err

validated_range-IsValid :
    (raw : RawRange) (minimum logical_size : ℕ)
    → OkAll (IsValid minimum logical_size) (validated_range raw minimum logical_size)
unfolding validated_range
validated_range-IsValid raw minimum logical_size = go raw.file_offset raw.raw_length
  where
    check :
        (o e : ℕ)
        → OkAll
            (IsValid minimum logical_size)
            (check_range (e == 0 || (ltb o minimum || ltb logical_size (o + e))) o e)
    check o e = elim (Bool-cases (e == 0 || (ltb o minimum || ltb logical_size (o + e)))) [
      | inl c ↦ rw c is_err
      | inr c ↦
          rw c (
            is_ok
              (record { above = ground arith; not_empty = ground arith; inside = ground arith }))
    ]

    go :
        (offset extent : ℤ)
        → OkAll (IsValid minimum logical_size) (
            validated_range
              (record { file_offset = offset; raw_length = extent })
              minimum
              logical_size)
    go (negsuc o) extent = is_err
    go (pos o) (negsuc e) = is_err
    go (pos o) (pos e) = elim (Bool-cases (ltb u64_max (o + e))) [
      | inl t ↦ rw t is_err
      | inr t ↦ rw t (check o e)
    ]

pub AreOrdered-le :
    (start : ℕ) (rs : List AllocatedRange) (middle limit : ℕ)
    → AreOrdered start rs middle
    → middle ≤ limit
    → AreOrdered start rs limit
AreOrdered-le start [] middle limit h l = omega arith
AreOrdered-le start (x ∷ rs) middle limit h l =
    (h.0, h.1, AreOrdered-le (x.offset + x.extent) rs middle limit h.2 l)

module _ (logical_size : ℕ) where
  -- Ranges found so far, up to `next`.
  abbrev Found : ℕ → ℕ × List AllocatedRange → Type 0
  Found cursor (next, ranges) = AreOrdered 0 ranges next × (next ≤ logical_size) × (cursor ≤ next)

  module _ (next : ℕ) (ranges : List AllocatedRange) (ordered : AreOrdered 0 ranges next)
      (inside : next ≤ logical_size) where
    Found-step :
        (raws : List RawRange) (validated : Outcome IoError AllocatedRange)
        → OkAll (IsValid next logical_size) validated
        → ((end : ℕ) (found : List AllocatedRange)
            → AreOrdered 0 found end
            → end ≤ logical_size
            → next ≤ end
            → OkAll (Found next) (validate_all raws end logical_size found))
        → OkAll (Found next) (do
          range ← validated
          end ← checked_end range.offset range.extent
          validate_all raws end logical_size (ranges ++ range ∷ []))
    Found-step raws _ is_err later = is_err
    Found-step raws (ok r) (is_ok valid) later =
        elim (Bool-cases (ltb u64_max (r.offset + r.extent))) [
          | inl o ↦ rw o is_err
          | inr o ↦ rw o (
              later (r.offset + r.extent) (ranges ++ r ∷ [])
                (AreOrdered-snoc 0 ranges next logical_size r ordered valid.above valid.not_empty
                  valid.inside)
                valid.inside (omega (arith, valid.above)))
        ]

  Found-le :
      (cursor next : ℕ) (r : Outcome IoError (ℕ × List AllocatedRange))
      → cursor ≤ next
      → OkAll (Found next) r
      → OkAll (Found cursor) r
  Found-le cursor next _ l is_err = is_err
  Found-le cursor next _ l (is_ok h) = is_ok (h.0, h.1, omega (arith, h.2))

  validate_all-Found :
      (raws : List RawRange) (next : ℕ) (ranges : List AllocatedRange)
      → AreOrdered 0 ranges next
      → next ≤ logical_size
      → OkAll (Found next) (validate_all raws next logical_size ranges)
  unfolding validate_all
  validate_all-Found [] next ranges ordered inside = is_ok (ordered, inside, omega arith)
  validate_all-Found (raw ∷ raws) next ranges ordered inside =
      Found-step next ranges ordered inside raws (validated_range raw next logical_size)
        (validated_range-IsValid raw next logical_size)
        λ end found o l up. Found-le next end _ up (validate_all-Found raws end found o l)

  -- One round ends with ordered ranges, or goes on with them from further on.
  abbrev pub Advanced : ℕ → Progress → Type 0
  Advanced cursor (done ranges) = AreOrdered 0 ranges logical_size
  Advanced cursor (continue_at next ranges) =
      AreOrdered 0 ranges next × (next ≤ logical_size) × (cursor < next)

  module _ (cursor : ℕ) (ranges : List AllocatedRange) (ordered : AreOrdered 0 ranges cursor)
      (inside : cursor ≤ logical_size) where
    advance_to-Advanced :
        (more : Bool) (found : Outcome IoError (ℕ × List AllocatedRange))
        → OkAll (Found cursor) found
        → OkAll (Advanced cursor) (do validated ← found; advance_to cursor more validated)
    advance_to-Advanced more _ is_err = is_err
    advance_to-Advanced more (ok (next, rs)) (is_ok h) = elim (Bool-cases (leb next cursor)) [
      | inl l ↦ rw l is_err
      | inr l ↦ rw l (is_ok (go l more))
    ]
      where
        go :
            leb next cursor ≡ false
            → (b : Bool) → Advanced cursor (if b then continue_at next rs else done rs)
        go l true = (h.0, h.1, ground arith)
        go l false = AreOrdered-le 0 rs next logical_size h.0 h.1

    take_records-Advanced :
        (answer : Answer) (more : Bool)
        → OkAll (Advanced cursor) (take_records answer cursor logical_size ranges more)
    take_records-Advanced answer more = branch-OkAll _ is_err (
        branch-OkAll _
          (branch-OkAll more is_err
            (is_ok (AreOrdered-le 0 ranges cursor logical_size ordered inside)))
          (advance_to-Advanced more _ (validate_all-Found _ cursor ranges ordered inside)))

    pub query_once-Advanced :
        (answer : Answer) → OkAll (Advanced cursor) (query_once answer cursor logical_size ranges)
    query_once-Advanced answer = branch-OkAll (ltb i64_max cursor) is_err (
        branch-OkAll (ltb i64_max (logical_size - cursor)) is_err
          (bind-OkAll (more_of answer.status) (take_records-Advanced answer)))
