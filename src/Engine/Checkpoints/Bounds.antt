-- ===== src/Engine/Checkpoints/Bounds.antt =====
-- Where the boundaries of a stream are, and how far a segment goes.
use native.Mathlib.Nat.{le-div_iff_mul-le, div-le_self, mul-le-mul_right}
use bigcp.Base.{
  ℕ, ◌+◌, ◌-◌, ◌*◌, ◌/◌, ◌≤◌, ◌<◌, min, max, ◌≡◌, refl, subst, ◌⊎◌, inl, inr, ◌==◌, Bool, true,
  false, Option, none, some, Bool-cases, leb, if◌then◌else◌, arith,
}
use bigcp.Counters.{u64_max}
use bigcp.Engine.Checkpoints.{
  CheckpointCursor, checkpoint_interval, next_checkpoint_after, cursor_bound, gib,
}

-- The least multiple of the interval behind an offset, or the size.
pub record IsBoundary (offset interval size boundary : ℕ) : Type 0 where
  pub ahead : offset < boundary
  pub inside : boundary ≤ size
  pub aligned : (boundary ≡ size) ⊎ ((m : ℕ) × (boundary ≡ m * interval))
  pub least : (m : ℕ) → offset < m * interval → boundary ≤ m * interval

compare_le : (a b : ℕ) → (a ≤ b) ⊎ (b < a)
compare_le a b = ground arith

past_quotient : (offset interval : ℕ) → 0 < interval → offset < (offset / interval + 1) * interval
past_quotient offset interval positive =
    let not_more : ¬ ((offset / interval + 1) ≤ offset / interval) = λ h. omega (arith, h) in
    elim (compare_le ((offset / interval + 1) * interval) offset) [
      | inl h ↦ absurd (not_more ((le-div_iff_mul-le positive).1 h))
      | inr h ↦ h
    ]

least_multiple :
    (offset interval m : ℕ)
    → 0 < interval
    → offset < m * interval
    → (offset / interval + 1) * interval ≤ m * interval
least_multiple offset interval m positive h =
    mul-le-mul_right interval (elim (compare_le m (offset / interval)) [
      | inl le ↦ absurd (
          let bad : m * interval ≤ offset = (le-div_iff_mul-le positive).0 le in
          omega (arith, bad, h))
      | inr lt ↦ omega (arith, lt)
    ])

-- Of a stream of at most `u64_max` bytes and an interval that is not 0: the next boundary behind an
-- offset before the end is the least multiple of the interval that is greater than the offset, or the
-- size if this is less. The saturation of the product does not matter.
pub next_checkpoint_after-IsBoundary :
    (offset interval size : ℕ)
    → 0 < interval
    → offset < size
    → size ≤ u64_max
    → IsBoundary offset interval size (next_checkpoint_after offset interval size)
unfolding next_checkpoint_after
next_checkpoint_after-IsBoundary offset interval size positive before small =
    let q = offset / interval in
    let low : q ≤ offset = div-le_self offset interval in
    let nonzero : (interval == 0) ≡ false = ground (arith, positive) in
    let full : min (q + 1) u64_max ≡ q + 1 = omega arith in
    let same : next_checkpoint_after offset interval size ≡ min ((q + 1) * interval) size =
      rw (nonzero, full) (omega arith) in
    let past = past_quotient offset interval positive in
    rw same (record {
      ahead = omega (arith, past, before);
      inside = omega arith;
      aligned = elim (compare_le size ((q + 1) * interval)) [
        | inl h ↦ inl (omega (arith, h))
        | inr h ↦ inr (q + 1, omega (arith, h))
      ];
      least = λ m h. let l = least_multiple offset interval m positive h in omega (arith, l);
    })

next_checkpoint_after_inside :
    (offset interval size : ℕ) → next_checkpoint_after offset interval size ≤ size
unfolding next_checkpoint_after
next_checkpoint_after_inside offset interval size = omega arith

some_inj : {a b : ℕ} → some a ≡ some b → a ≡ b
some_inj e = cc

-- The cursor of a stream whose copy is at a position.
pub record IsOnTrack (total logical_size : ℕ) (cursor : CheckpointCursor) : Type 0 where
  pub sized : cursor.total_size ≡ logical_size
  pub spaced : 0 < cursor.interval
  pub ahead : (b : ℕ) → cursor.next ≡ some b → total < logical_size → total < b
  pub inside : (b : ℕ) → cursor.next ≡ some b → b ≤ logical_size

pub checkpoint_interval-positive : (size : ℕ) → 0 < checkpoint_interval size
unfolding checkpoint_interval
checkpoint_interval-positive size = elim (Bool-cases (leb (1024 * gib) size)) [
  | inl huge ↦ rw huge (omega arith)
  | inr h ↦ rw h (elim (Bool-cases (leb (64 * gib) size)) [
    | inl large ↦ rw large (omega arith)
    | inr k ↦ rw k (omega arith)
  ])
]

-- A cursor that is scheduled again, or not.
pub scheduled-IsOnTrack :
    (again : Bool) (position : ℕ) (cursor : CheckpointCursor)
    → 0 < cursor.interval
    → cursor.total_size ≤ u64_max
    → IsOnTrack position cursor.total_size (record cursor {
      next =
          if again
          then some (next_checkpoint_after position cursor.interval cursor.total_size)
          else none;
    })
scheduled-IsOnTrack true position cursor positive small = record {
  sized = refl;
  spaced = positive;
  ahead = λ b e before.
      let next =
        next_checkpoint_after-IsBoundary position cursor.interval cursor.total_size positive before
          small in
      subst (λ (x : ℕ). position < x) (some_inj e) next.ahead;
  inside = λ b e.
      subst (λ (x : ℕ). x ≤ cursor.total_size) (some_inj e)
        (next_checkpoint_after_inside position cursor.interval cursor.total_size);
}
scheduled-IsOnTrack false position cursor positive small = record {
  sized = refl;
  spaced = positive;
  ahead = λ b e. absurd (cc);
  inside = λ b e. absurd (cc);
}

-- A segment goes on by at least a byte before the end, and not past the end or the next boundary.
pub record IsBound (total logical_size bound : ℕ) (next : Option ℕ) : Type 0 where
  pub progress : total < logical_size → 0 < bound
  pub within : total + bound ≤ max logical_size total
  pub no_further : (b : ℕ) → next ≡ some b → total < logical_size → total + bound ≤ b

pub cursor_bound-IsBound :
    (total logical_size : ℕ) (cursor : CheckpointCursor)
    → IsOnTrack total logical_size cursor
    → IsBound total logical_size (cursor_bound cursor total (logical_size - total)) cursor.next
unfolding cursor_bound
cursor_bound-IsBound total logical_size cursor track = go cursor.next refl
  where
    go :
        (next : Option ℕ)
        → cursor.next ≡ next
        → IsBound total logical_size
            (min
              (logical_size - total)
              (elim next [ none ↦ logical_size - total | some boundary ↦ boundary - total ]))
            next
    go none e = record {
      progress = λ before. omega (arith, before);
      within = omega arith;
      no_further = λ b h. absurd (cc);
    }
    go (some boundary) e = record {
      progress = λ before. let a = track.ahead boundary e before in omega (arith, before, a);
      within = omega arith;
      no_further = λ b h before.
          let a = track.ahead boundary e before in
          let same : boundary ≡ b = some_inj h in omega (arith, before, a, same);
    }
