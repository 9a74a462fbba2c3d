-- ===== src/Coordinator/Folders/Sums.antt =====
-- One field, summed over the folders.
use bigcp.Base.{ℕ, ◌+◌, ◌≤◌, min, ◌≡◌, refl, none, [], ◌∷◌, arith}
use bigcp.Base.Bytes.{Bytes}
use bigcp.Base.TreeMap.{IsSorted, Above, bytes_ord, get, insert}
use Prim.Native.Nat.{Ordering}
use Prim.Native.Nat.Ordering.{lt, eq, gt}
use bigcp.Counters.{u64_max, saturating_add, FileOutcome}
use bigcp.Coordinator.Folders.{
  FolderSummary, empty_summary, count_folder, Folders, or_default, record_folder_outcome,
}

Above-Above : (k j : Bytes) (m : Folders) → bytes_ord.cmp k j ≡ lt → Above j m → Above k m
Above-Above k j [] h a = tt
Above-Above k j ((i, s) ∷ m) h a = (bytes_ord.lt_trans k j i h a.0, Above-Above k j m h a.1)

get-Above : (k : Bytes) (m : Folders) → Above k m → get k m ≡ none
unfolding get
get-Above k [] h = refl
get-Above k ((j, s) ∷ m) h = ground (arith, h.0, get-Above k m h.1)

module _ (field : FolderSummary → ℕ) where
  -- The sum over the folders, not saturated.
  unfoldable pub folder_sum : Folders → ℕ
  folder_sum [] = 0
  folder_sum ((_, s) ∷ m) = field s + folder_sum m

  folder_sum-insert :
      (k : Bytes) (s : FolderSummary) (m : Folders)
      → IsSorted m
      → field empty_summary ≡ 0
      → folder_sum (insert k s m) + field (or_default (get k m)) ≡ folder_sum m + field s
  unfolding folder_sum insert get
  folder_sum-insert k s [] sorted e = omega arith
  folder_sum-insert k s ((j, w) ∷ m) sorted e =
      at (bytes_ord.cmp k j) refl (folder_sum-insert k s m sorted.1 e)
    where
      at :
          (c : Ordering)
          → bytes_ord.cmp k j ≡ c
          → folder_sum (insert k s m) + field (or_default (get k m)) ≡ folder_sum m + field s
          → folder_sum (insert k s ((j, w) ∷ m)) + field (or_default (get k ((j, w) ∷ m)))
            ≡ folder_sum ((j, w) ∷ m) + field s
      at lt h ih =
          let missing : get k m ≡ none = get-Above k m (Above-Above k j m h sorted.0) in
          ground (arith, h, missing, e)
      at eq h ih = ground (arith, h)
      at gt h ih = ground (arith, h, ih)

  get-le-folder_sum :
      (k : Bytes) (m : Folders)
      → field empty_summary ≡ 0
      → field (or_default (get k m)) ≤ folder_sum m
  unfolding folder_sum get
  get-le-folder_sum k [] e = omega arith
  get-le-folder_sum k ((j, w) ∷ m) e = at (bytes_ord.cmp k j) refl (get-le-folder_sum k m e)
    where
      at :
          (c : Ordering)
          → bytes_ord.cmp k j ≡ c
          → field (or_default (get k m)) ≤ folder_sum m
          → field (or_default (get k ((j, w) ∷ m))) ≤ folder_sum ((j, w) ∷ m)
      at lt h ih = ground (arith, h, ih)
      at eq h ih = ground (arith, h)
      at gt h ih = ground (arith, h, ih)

  -- The counter is the sum over the folders, saturated.
  abbrev pub Tracks : ℕ → Folders → Type 0
  Tracks count m = min (folder_sum m) u64_max ≡ count

  pub record_folder-Tracks :
      (folder : Bytes) (outcome : FileOutcome) (count grown : ℕ) (m : Folders)
      → IsSorted m
      → field empty_summary ≡ 0
      → ((s : FolderSummary)
          → min (field (count_folder outcome s)) u64_max ≡ saturating_add (field s) grown)
      → Tracks count m
      → Tracks (saturating_add count grown) (record_folder_outcome folder outcome m)
  unfolding record_folder_outcome
  record_folder-Tracks folder outcome count grown m sorted e grows t =
      let old = or_default (get folder m) in
      omega (
        arith,
        t,
        grows old,
        get-le-folder_sum folder m e,
        folder_sum-insert folder (count_folder outcome old) m sorted e,
      )
