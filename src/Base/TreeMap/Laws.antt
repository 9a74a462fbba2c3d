-- ===== src/Base/TreeMap/Laws.antt =====
-- What the operations of the map do, and that they keep its keys in order.
use Prim.Native.Nat.Ordering.{lt, eq}
use mathlib.Core.Path.{◌≡◌}
use mathlib.Core.Bool.{Bool}
use mathlib.Core.Option.{none, some}
use mathlib.Core.List.{[], ◌∷◌}
use native.Mathlib.Omega.{arith}
use bigcp.Base.Tests.{if◌then◌else◌}
use bigcp.Base.TreeMap.Defs.{Ord, TreeMap, Above, IsSorted, insert, get, retain}

module _ {K V : Type 0} ⦃o : Ord K⦄ where
  pub get-insert :
      (k j : K) (v : V) (m : TreeMap K V)
      → get j (insert k v m) ≡ (elim (o.cmp j k) [ eq ↦ some v | _ ↦ get j m ])
  unfolding insert get
  get-insert k j v [] = ground arith
  get-insert k j v ((i, w) ∷ m) = ground (
    arith,
    get-insert k j v m,
    o.eq_of_cmp k i,
    o.eq_of_cmp j k,
    o.eq_of_cmp j i,
    o.cmp_refl j,
    o.cmp_refl k,
    o.cmp_refl i,
  )

  Above-insert :
      (a k : K) (v : V) (m : TreeMap K V) → o.cmp a k ≡ lt → Above a m → Above a (insert k v m)
  unfolding insert
  Above-insert a k v [] h t = (h, tt)
  Above-insert a k v ((i, w) ∷ m) h t = ground (arith, Above-insert a k v m)

  Above-trans : (a b : K) (m : TreeMap K V) → o.cmp a b ≡ lt → Above b m → Above a m
  Above-trans a b [] h t = tt
  Above-trans a b ((i, w) ∷ m) h t = (o.lt_trans a b i h t.0, Above-trans a b m h t.1)

  pub insert-IsSorted : (k : K) (v : V) (m : TreeMap K V) → IsSorted m → IsSorted (insert k v m)
  unfolding insert
  insert-IsSorted k v [] s = (tt, tt)
  insert-IsSorted k v ((i, w) ∷ m) s = ground (
    arith,
    insert-IsSorted k v m,
    Above-trans k i m,
    Above-insert i k v m,
    o.eq_of_cmp k i,
    o.lt_of_gt k i,
  )

  Above-retain : (a : K) (p : K → Bool) (m : TreeMap K V) → Above a m → Above a (retain p m)
  unfolding retain
  Above-retain a p [] t = tt
  Above-retain a p ((i, w) ∷ m) t = ground (arith, Above-retain a p m)

  pub retain-IsSorted : (p : K → Bool) (m : TreeMap K V) → IsSorted m → IsSorted (retain p m)
  unfolding retain
  retain-IsSorted p [] s = tt
  retain-IsSorted p ((i, w) ∷ m) s = ground (arith, retain-IsSorted p m, Above-retain i p m)

  pub get-retain :
      (p : K → Bool) (j : K) (m : TreeMap K V)
      → get j (retain p m) ≡ (if p j then get j m else none)
  unfolding get retain
  get-retain p j [] = ground arith
  get-retain p j ((i, w) ∷ m) = ground (arith, get-retain p j m, o.eq_of_cmp j i, o.cmp_refl j)
