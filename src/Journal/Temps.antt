-- ===== src/Journal/Temps.antt =====
-- The lookups of checkpoints and of harvested temporaries: `checkpoint`, `resume_temp_record`,
-- `take_reclaimable_temp`, `has_temp_records`. Whether the parent of a path is a directory is a
-- test of the standard library's `Path`, and a parameter.
pub mod Harvest
pub mod Taken
use bigcp.Base.{
  ℕ, zero, suc, Bool, true, false, not, ◌&&◌, ◌||◌, Option, none, some, List, [], ◌∷◌,
  if◌then◌else◌,
}
use bigcp.Base.Bytes.{Bytes, bytes_eq}
use bigcp.Base.TreeMap.{bytes_ord, pair_ord, values, get}
use bigcp.Journal.{ReclaimableTemp, Checkpoint}
use bigcp.Journal.Keys.{Hex, OsString, key_to_path}
use bigcp.Journal.Handle.{Journal}

unfoldable pub checkpoint_of : Bytes → Bytes → Journal → Option Checkpoint
checkpoint_of relative_path stream journal = get (relative_path, stream) journal.resumable

module _ {A : Type 0} where
  -- `Iterator::find`
  unfoldable pub find : (A → Bool) → List A → Option A
  find p [] = none
  find p (x ∷ xs) = let rest = find p xs in if p x then some x else rest

  -- The first element that passes, with its index: `position`, and what stands there.
  abbrev pub one_further : Option (ℕ × A) → Option (ℕ × A)
  one_further none = none
  one_further (some (i, x)) = some (suc i, x)

  unfoldable pub position : (A → Bool) → List A → Option (ℕ × A)
  position p [] = none
  position p (x ∷ xs) = let rest = position p xs in if p x then some (0, x) else one_further rest

  abbrev pub put_second : A → List A → List A
  put_second x [] = x ∷ []
  put_second x (first ∷ rest) = first ∷ x ∷ rest

  -- The list with its last element in front.
  unfoldable pub last_first : A → List A → List A
  last_first x [] = x ∷ []
  last_first x (y ∷ ys) = put_second x (last_first y ys)

  -- What `Vec::swap_remove` leaves: the last element moves to the index.
  unfoldable pub swap_remove : ℕ → List A → List A
  swap_remove i [] = []
  swap_remove zero (x ∷ []) = []
  swap_remove zero (x ∷ y ∷ ys) = last_first y ys
  swap_remove (suc i) (x ∷ xs) = x ∷ swap_remove i xs

unfoldable pub resume_temp_record : Bytes → Journal → Option Checkpoint
resume_temp_record name journal =
    find (λ (c : Checkpoint). bytes_eq c.temp_name name) (values journal.resumable)

abbrev is_empty_list {ℓ} : {A : Type ℓ} → List A → Bool
is_empty_list [] = true
is_empty_list (_ ∷ _) = false

unfoldable pub has_temp_records : Journal → Bool
has_temp_records journal =
    not (is_empty_list journal.resumable) || not (is_empty_list journal.reclaimable)

-- `hex` decodes keys; `parent_is path directory` is `path.parent() == Some(directory)`.
module _ (hex : Hex) (parent_is : OsString → OsString → Bool) where
  abbrev pub lies_in : OsString → Option OsString → Bool
  lies_in directory none = false
  lies_in directory (some path) = parent_is path directory

  -- A temporary of that name whose final file lies in the directory.
  unfoldable pub claims : Bytes → OsString → ReclaimableTemp → Bool
  claims name directory temp =
      bytes_eq temp.temp_name name && lies_in directory (key_to_path hex temp.relative_path)

  abbrev pub take_at : Option (ℕ × ReclaimableTemp) → Journal → Option ReclaimableTemp × Journal
  take_at none journal = (none, journal)
  take_at (some (index, temp)) journal =
      (some temp, record journal { reclaimable = swap_remove index journal.reclaimable })

  unfoldable pub take_reclaimable_temp :
      Bytes → OsString → Journal → Option ReclaimableTemp × Journal
  take_reclaimable_temp name directory journal =
      take_at (position (claims name directory) journal.reclaimable) journal
