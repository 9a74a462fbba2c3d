-- ===== src/Engine/Segments/Tiles.antt =====
-- The ranges of a plan cover the file, without a gap or an overlap.
use bigcp.Base.{
  ℕ, zero, suc, ◌+◌, ◌-◌, ◌*◌, ◌/◌, ◌%◌, ◌≤◌, ◌<◌, ◌≡◌, refl, ap, subst, true, false, Bool, none,
  some, List, [], ◌∷◌, arith, ◌==◌, length, if◌then◌else◌,
}
use bigcp.Engine.Segments.{
  SegmentFacts, segment_count, segment_base, segment_ranges, segment_plan, is_ineligible,
  segment_min, segment_max,
}
use native.Mathlib.Nat.{
  div-mul-le_self, mul-div-le, mul-mod_left, mul_assoc, le_trans, mul-le-mul_left,
}

-- Ranges that follow each other from `at` to `size`, each with some bytes and at a whole chunk.
abbrev pub Tiles : (chunk size at : ℕ) → List (ℕ × ℕ) → Type 0
Tiles chunk size at [] = at ≡ size
Tiles chunk size at ((offset, count) ∷ rest) =
    (offset ≡ at) × (0 < count) × (offset % chunk ≡ 0) × Tiles chunk size (at + count) rest

length-segment_ranges :
    (size base segments index rounds : ℕ)
    → length (segment_ranges size base segments index rounds) ≡ rounds
unfolding segment_ranges
length-segment_ranges size base segments index zero = refl
length-segment_ranges size base segments index (suc rounds) =
    omega (arith, length-segment_ranges size base segments (suc index) rounds)

segment_count_bounds :
    (size threshold : ℕ) → (2 ≤ segment_count size threshold) × (segment_count size threshold ≤ 8)
unfolding segment_count
segment_count_bounds size threshold = omega arith

module _ (chunk size base segments : ℕ) (aligned : (index : ℕ) → index * base % chunk ≡ 0)
    (some_bytes : 0 < base) (fits : segments * base ≤ size) where
  suc-mul : (n : ℕ) → suc n * base ≡ n * base + base
  suc-mul n = grind arith

  last_fits : (index : ℕ) → index + 1 ≡ segments → index * base + base ≤ size
  last_fits index e = omega (arith, suc-mul index, ap (λ (n : ℕ). n * base) e)

  ranges-Tiles :
      (index rounds : ℕ)
      → index + suc rounds ≡ segments
      → Tiles chunk size (index * base) (segment_ranges size base segments index (suc rounds))
  unfolding segment_ranges
  ranges-Tiles index zero e =
      let is_last : (index == segments - 1) ≡ true = ground arith in
      rw is_last
        (refl, omega (arith, last_fits index e), aligned index, omega (arith, last_fits index e))
  ranges-Tiles index (suc rounds) e =
      let not_last : (index == segments - 1) ≡ false = ground arith in
      rw not_last (
        refl,
        some_bytes,
        aligned index,
        subst
            (λ (at : ℕ).
              Tiles chunk size at (segment_ranges size base segments (suc index) (suc rounds)))
            (suc-mul index) (ranges-Tiles (suc index) rounds (omega (arith, e))),
      )

-- What a plan promises.
pub record IsPlan (f : SegmentFacts) (ranges : List (ℕ × ℕ)) : Type 0 where
  pub tiled : Tiles f.chunk_bytes f.size 0 ranges
  pub at_least : segment_min ≤ length ranges
  pub at_most : length ranges ≤ segment_max
  pub eligible : is_ineligible f ≡ false

segment_base-fits : (size segments chunk : ℕ) → segments * segment_base size segments chunk ≤ size
unfolding segment_base
segment_base-fits size segments chunk =
    le_trans (mul-le-mul_left segments (div-mul-le_self (size / segments) chunk))
      (mul-div-le size segments)

segment_base-aligned :
    (size segments chunk index : ℕ) → index * segment_base size segments chunk % chunk ≡ 0
unfolding segment_base
segment_base-aligned size segments chunk index =
    rw (← mul_assoc index (size / segments / chunk) chunk) (mul-mod_left _ chunk)

counted-Tiles :
    (size chunk segments : ℕ)
    → 0 < segments
    → (segment_base size segments chunk == 0) ≡ false
    → Tiles chunk size 0
        (segment_ranges size (segment_base size segments chunk) segments 0 segments)
counted-Tiles size chunk zero pos e = absurd (omega arith)
counted-Tiles size chunk (suc rounds) pos e =
    let base = segment_base size (suc rounds) chunk in
    let from_zero : 0 * base ≡ 0 = omega arith in
    subst (λ (at : ℕ). Tiles chunk size at (segment_ranges size base (suc rounds) 0 (suc rounds)))
      from_zero
      (ranges-Tiles chunk size base (suc rounds) (segment_base-aligned size (suc rounds) chunk)
        (ground arith) (segment_base-fits size (suc rounds) chunk) 0 rounds (omega arith))

guarded-some :
    (a b : Bool) (ranges result : List (ℕ × ℕ))
    → (if a then none else if b then none else some ranges) ≡ some result
    → (a ≡ false) × (b ≡ false) × (ranges ≡ result)
guarded-some true b ranges result e = absurd (cc)
guarded-some false true ranges result e = absurd (cc)
guarded-some false false ranges result e = (refl, refl, cc)

-- A plan is made only for an eligible file. Its ranges, two to eight, start at whole chunks, hold some
-- bytes each, and follow each other without a gap or an overlap from the start of the file to its end.
pub segment_plan-IsPlan :
    (f : SegmentFacts) (ranges : List (ℕ × ℕ)) → segment_plan f ≡ some ranges → IsPlan f ranges
unfolding segment_plan
segment_plan-IsPlan f ranges e =
    let segments = segment_count f.size f.threshold in
    let base = segment_base f.size segments f.chunk_bytes in
    let bounds = segment_count_bounds f.size f.threshold in
    let made = segment_ranges f.size base segments 0 segments in
    let count : length made ≡ segments = length-segment_ranges f.size base segments 0 segments in
    let (eligible, not_zero, same) = guarded-some (is_ineligible f) (base == 0) made ranges e in
    subst (IsPlan f) same (record {
      tiled = counted-Tiles f.size f.chunk_bytes segments (omega arith) not_zero;
      at_least = omega arith;
      at_most = omega arith;
      eligible = eligible;
    })
