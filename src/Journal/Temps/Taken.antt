-- ===== src/Journal/Temps/Taken.antt =====
-- What `take_reclaimable_temp` gives away, and what it leaves.
use mathlib.Core.List.{Perm}
use mathlib.Core.List.Perm
use bigcp.Base.{
  ℕ, suc, ◌≡◌, refl, both, inl, inr, Bool, true, false, Option, none, some, List, [], ◌∷◌, All,
  Bool-cases,
}
use bigcp.Base.Bytes.{Bytes, bytes_eq_sound, bytes_eq_iff}
use bigcp.Journal.{ReclaimableTemp}
use bigcp.Journal.Handle.{Journal}
use bigcp.Journal.Keys.{Hex, OsString, key_to_path}
use bigcp.Journal.Temps.{
  position, one_further, put_second, last_first, swap_remove, lies_in, claims, take_at,
  take_reclaimable_temp,
}

module _ {A : Type 0} where
  put_second-perm : (x : A) (l : List A) → Perm (x ∷ l) (put_second x l)
  put_second-perm x [] = Perm.refl (x ∷ [])
  put_second-perm x (first ∷ rest) = Perm.swap first x rest

  last_first-perm : (x : A) (ys : List A) → Perm (x ∷ ys) (last_first x ys)
  unfolding last_first
  last_first-perm x [] = Perm.refl (x ∷ [])
  last_first-perm x (y ∷ ys) =
      Perm.trans (Perm.cons x (last_first-perm y ys)) (put_second-perm x (last_first y ys))

  -- What a search finds passes the test, and removing it leaves the others.
  data Found (p : A → Bool) (xs : List A) : Option (ℕ × A) → Type 0 where
    nowhere : All (λ x. p x ≡ false) xs → Found p xs none
    at : (i : ℕ) (x : A) → p x ≡ true → Perm xs (x ∷ swap_remove i xs) → Found p xs (some (i, x))

  swap_remove-head : (x : A) (xs : List A) → Perm (x ∷ xs) (x ∷ swap_remove 0 (x ∷ xs))
  unfolding swap_remove
  swap_remove-head x [] = Perm.refl (x ∷ [])
  swap_remove-head x (y ∷ ys) = Perm.cons x (last_first-perm y ys)

  further :
      (p : A → Bool) (x : A) (xs : List A) {r : Option (ℕ × A)}
      → p x ≡ false
      → Found p xs r
      → Found p (x ∷ xs) (one_further r)
  unfolding swap_remove
  further p x xs h (nowhere all) = nowhere (h, all)
  further p x xs h (at i found passes perm) =
      at (suc i) found passes (Perm.trans (Perm.cons x perm) (Perm.swap found x (swap_remove i xs)))

  position-Found : (p : A → Bool) (xs : List A) → Found p xs (position p xs)
  unfolding position
  position-Found p [] = nowhere tt
  position-Found p (x ∷ xs) = elim (Bool-cases (p x)) [
    | inl h ↦ rw h (at 0 x h (swap_remove-head x xs))
    | inr h ↦ rw h (further p x xs h (position-Found p xs))
  ]

-- Of a temporary: it has the name, and the key of its file is that of a path whose parent is the
-- directory.
pub record IsOf (hex : Hex) (parent_is : OsString → OsString → Bool) (name : Bytes)
    (directory : OsString) (temp : ReclaimableTemp) : Type 0 where
  pub named : temp.temp_name ≡ name
  pub path : OsString
  pub of_path : key_to_path hex temp.relative_path ≡ some path
  pub inside : parent_is path directory ≡ true

lies_in-inside :
    (hex : Hex) (parent_is : OsString → OsString → Bool) (directory : OsString)
    (found : Option OsString)
    → lies_in hex parent_is directory found ≡ true
    → (path : OsString) × (found ≡ some path) × (parent_is path directory ≡ true)
lies_in-inside hex parent_is directory none h = absurd (cc)
lies_in-inside hex parent_is directory (some path) h = (path, refl, h)

module _ (hex : Hex) (parent_is : OsString → OsString → Bool) (name : Bytes) (directory : OsString)
    (temp : ReclaimableTemp) where
  claims-IsOf :
      claims hex parent_is name directory temp ≡ true → IsOf hex parent_is name directory temp
  unfolding claims
  claims-IsOf h =
      let (named, inside) = both _ _ h in
      let (path, of_path, inside) = lies_in-inside hex parent_is directory _ inside in
      record {
        named = bytes_eq_sound temp.temp_name name named;
        path = path;
        of_path = of_path;
        inside = inside;
      }

  IsOf-claims :
      IsOf hex parent_is name directory temp → claims hex parent_is name directory temp ≡ true
  unfolding claims
  IsOf-claims i =
      let same = (bytes_eq_iff temp.temp_name name).1 i.named in rw (same, i.of_path) i.inside

module _ (hex : Hex) (parent_is : OsString → OsString → Bool) (name : Bytes) (directory : OsString)
    (journal : Journal) where
  -- The temporaries that the journal still answers for, besides the one that was taken.
  pub data Taken : Option ReclaimableTemp × Journal → Type 0 where
    nothing :
        All (λ temp. ¬ IsOf hex parent_is name directory temp) journal.reclaimable
        → Taken (none, journal)
    taken :
        (temp : ReclaimableTemp) (left : List ReclaimableTemp)
        → IsOf hex parent_is name directory temp
        → Perm journal.reclaimable (temp ∷ left)
        → Taken (some temp, record journal { reclaimable = left })

  none_IsOf :
      (temps : List ReclaimableTemp)
      → All (λ temp. claims hex parent_is name directory temp ≡ false) temps
      → All (λ temp. ¬ IsOf hex parent_is name directory temp) temps
  none_IsOf [] all = tt
  none_IsOf (temp ∷ temps) (fails, all) =
      (λ i. let passes = IsOf-claims hex parent_is name directory temp i in cc, none_IsOf temps all)

  take_at-Taken :
      {r : Option (ℕ × ReclaimableTemp)}
      → Found (claims hex parent_is name directory) journal.reclaimable r
      → Taken (take_at hex parent_is r journal)
  take_at-Taken (nowhere all) = nothing (none_IsOf journal.reclaimable all)
  take_at-Taken (at i temp passes perm) =
      taken temp (swap_remove i journal.reclaimable)
        (claims-IsOf hex parent_is name directory temp passes) perm

  -- A temporary is given away only if it has the name and its final file lies in the directory; it
  -- is then forgotten, once, and the others are kept. If there is none, nothing changes.
  pub take_reclaimable_temp-Taken :
      Taken (take_reclaimable_temp hex parent_is name directory journal)
  unfolding take_reclaimable_temp
  take_reclaimable_temp-Taken =
      take_at-Taken (position-Found (claims hex parent_is name directory) journal.reclaimable)
