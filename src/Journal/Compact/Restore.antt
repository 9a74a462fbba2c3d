-- ===== src/Journal/Compact/Restore.antt =====
-- Checkpoints inserted in the order of their keys, as a compacted journal lists them, give the map
-- that they were taken from.
use Prim.Native.Nat.Ordering.{lt, gt}
use bigcp.Base.{
  ◌≡◌, refl, sym, ap, ◌∙◌, List, [], ◌∷◌, ◌++◌, append-nil, append_assoc, arith, All, All-append,
}
use bigcp.Base.Bytes.{Bytes}
use bigcp.Base.TreeMap.{Ord, TreeMap, Above, IsSorted, insert, bytes_ord, pair_ord, values}
use bigcp.Journal.{Checkpoint, Resumable, checkpoint_key}

module _ {K : Type 0} ⦃o : Ord K⦄ where
  gt_of_lt : (a b : K) → o.cmp a b ≡ lt → o.cmp b a ≡ gt
  gt_of_lt a b h =
      ground
        (arith, o.lt_trans b a b, o.cmp_refl b, o.eq_of_cmp b a, o.cmp_refl a, o.lt_trans a b a)

module _ {K V : Type 0} ⦃o : Ord K⦄ where
  -- Every key of the map is below `k`.
  abbrev pub Below : K → TreeMap K V → Type 0
  Below k m = All (λ e. o.cmp e.0 k ≡ lt) m

  insert_last : (k : K) (v : V) (m : TreeMap K V) → Below k m → insert k v m ≡ m ++ (k, v) ∷ []
  unfolding insert
  insert_last k v [] h = refl
  insert_last k v ((i, w) ∷ m) h =
      rw (gt_of_lt i k h.0, insert) (ap (λ r. (i, w) ∷ r) (insert_last k v m h.1))

-- Checkpoints inserted one by one.
abbrev pub restore : List Checkpoint → Resumable → Resumable
restore [] resumable = resumable
restore (c ∷ cs) resumable = restore cs (insert (checkpoint_key c) c resumable)

-- A map of checkpoints as the journal keeps it: in order, each under its own key.
abbrev pub IsKept : Resumable → Type 0
IsKept resumable = IsSorted resumable × All (λ e. e.0 ≡ checkpoint_key e.1) resumable

ahead-snoc :
    (k : Bytes × Bytes) (c : Checkpoint) (front back : Resumable)
    → All (λ e. Below e.0 front) back
    → Above k back
    → All (λ e. Below e.0 (front ++ (k, c) ∷ [])) back
ahead-snoc k c front [] h a = tt
ahead-snoc k c front ((j, d) ∷ back) h a =
    (All-append _ front ((k, c) ∷ []) h.0 (a.0, tt), ahead-snoc k c front back h.1 a.1)

restore-append :
    (back front : Resumable)
    → IsKept back
    → All (λ e. Below e.0 front) back
    → restore (values back) front ≡ front ++ back
restore-append [] front kept ahead = sym (append-nil front)
restore-append ((k, c) ∷ back) front kept ahead =
    ap (restore (values back))
      (ap (λ j. insert j c front) (sym kept.1.0) ∙ insert_last k c front ahead.0)
    ∙ restore-append back (front ++ (k, c) ∷ []) (kept.0.1, kept.1.1)
        (ahead-snoc k c front back ahead.1 kept.0.0)
    ∙ append_assoc front ((k, c) ∷ []) back

Below-nothing : (m : Resumable) → All (λ e. Below {V = Checkpoint} e.0 []) m
Below-nothing [] = tt
Below-nothing (e ∷ m) = (tt, Below-nothing m)

pub restore-values : (m : Resumable) → IsKept m → restore (values m) [] ≡ m
restore-values m kept = restore-append m [] kept (Below-nothing m)
