-- ===== src/Base/TreeMap/Defs.antt =====
-- `Ord`, its instances for byte strings and pairs, and the operations of the map.
use Prim.Native.Nat.{Ordering}
use Prim.Native.Nat.Ordering.{lt, eq, gt}
use mathlib.Core.Path.{◌≡◌}
use mathlib.Core.Bool.{Bool}
use mathlib.Core.Option.{Option, none, some}
use mathlib.Core.List.{List, [], ◌∷◌, map}
use native.Mathlib.Omega.{arith}
use bigcp.Base.Tests.{if◌then◌else◌}
use bigcp.Base.Lists.{All}
use bigcp.Base.Bytes.{
  Bytes, then_with, bytes_cmp, bytes_cmp_refl, eq_of_bytes_cmp, bytes_cmp-lt_of_gt, bytes_cmp_trans,
}

-- A comparison, with the laws of a total order that the map needs.
pub record Ord (Key : Type 0) : Type 0 where
  pub cmp : Key → Key → Ordering
  pub lt_trans : (x y z : Key) → cmp x y ≡ lt → cmp y z ≡ lt → cmp x z ≡ lt
  pub lt_of_gt : (x y : Key) → cmp x y ≡ gt → cmp y x ≡ lt
  pub cmp_refl : (x : Key) → cmp x x ≡ eq
  pub eq_of_cmp : (x y : Key) → cmp x y ≡ eq → x ≡ y

instance abbrev pub bytes_ord : Ord Bytes
bytes_ord = record {
  cmp = bytes_cmp;
  cmp_refl = bytes_cmp_refl;
  eq_of_cmp = eq_of_bytes_cmp;
  lt_of_gt = bytes_cmp-lt_of_gt;
  lt_trans = bytes_cmp_trans;
}

module _ {A B : Type 0} ⦃a : Ord A⦄ ⦃b : Ord B⦄ where
  -- Tuples compare lexicographically.
  abbrev pub pair_cmp : A × B → A × B → Ordering
  pair_cmp x y = then_with (a.cmp x.0 y.0) (b.cmp x.1 y.1)

  pub pair_cmp_refl : (x : A × B) → pair_cmp x x ≡ eq
  pair_cmp_refl x = simp (a.cmp_refl, b.cmp_refl)

  pub eq_of_pair_cmp : (x y : A × B) → pair_cmp x y ≡ eq → x ≡ y
  eq_of_pair_cmp x y = ground (arith, a.eq_of_cmp x.0 y.0, b.eq_of_cmp x.1 y.1)

  pub pair_cmp-lt_of_gt : (x y : A × B) → pair_cmp x y ≡ gt → pair_cmp y x ≡ lt
  pair_cmp-lt_of_gt x y =
      ground (arith, a.eq_of_cmp x.0 y.0, a.cmp_refl x.0, a.lt_of_gt x.0 y.0, b.lt_of_gt x.1 y.1)

  pub pair_cmp_trans : (x y z : A × B) → pair_cmp x y ≡ lt → pair_cmp y z ≡ lt → pair_cmp x z ≡ lt
  pair_cmp_trans x y z = ground (
    arith,
    a.eq_of_cmp x.0 y.0,
    a.eq_of_cmp y.0 z.0,
    a.cmp_refl x.0,
    a.lt_trans x.0 y.0 z.0,
    b.lt_trans x.1 y.1 z.1,
  )

  instance abbrev pub pair_ord : Ord (A × B)
  pair_ord = record {
    cmp = pair_cmp;
    cmp_refl = pair_cmp_refl;
    eq_of_cmp = eq_of_pair_cmp;
    lt_of_gt = pair_cmp-lt_of_gt;
    lt_trans = pair_cmp_trans;
  }

abbrev pub TreeMap : Type 0 → Type 0 → Type 0
TreeMap K V = List (K × V)

abbrev pub values : {K V : Type 0} → TreeMap K V → List V
values m = map (λ e. e.1) m

module _ {K V : Type 0} ⦃o : Ord K⦄ where
  -- Every key of the map is above `k`.
  abbrev pub Above : K → TreeMap K V → Type 0
  Above k m = All (λ e. o.cmp k e.0 ≡ lt) m

  abbrev pub IsSorted : TreeMap K V → Type 0
  IsSorted [] = Unit
  IsSorted (e ∷ m) = Above e.0 m × IsSorted m

  unfoldable pub insert : K → V → TreeMap K V → TreeMap K V
  insert k v [] = (k, v) ∷ []
  insert k v ((j, w) ∷ m) = elim (o.cmp k j) [
    | lt ↦ (k, v) ∷ (j, w) ∷ m
    | eq ↦ (k, v) ∷ m
    | gt ↦ (j, w) ∷ insert k v m
  ]

  unfoldable pub get : K → TreeMap K V → Option V
  get k [] = none
  get k ((j, w) ∷ m) = elim (o.cmp k j) [ eq ↦ some w | _ ↦ get k m ]

-- `retain`, with a test of the key as its callers have it.
module _ {K V : Type 0} where
  unfoldable pub retain : (K → Bool) → TreeMap K V → TreeMap K V
  retain p [] = []
  retain p ((j, w) ∷ m) = let rest = retain p m in if p j then (j, w) ∷ rest else rest
