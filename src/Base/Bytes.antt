-- ===== src/Base/Bytes.antt =====
-- Strings of bytes (`String`, `Vec<u8>`) and of UTF-16 units (`OsStr`), as lists of numbers, with
-- equality and the lexicographic order of `Ord`.
use Prim.Native.Nat.{ℕ, compare, Ordering}
use Prim.Native.Nat.Ordering.{lt, eq, gt}
use Prim.Native.Char.{code}
use Prim.Native.String.{String}
use mathlib.Core.Path.{◌≡◌, refl}
use mathlib.Core.Logic.{◌↔◌}
use mathlib.Core.Bool.{Bool, true, false, ◌&&◌}
use mathlib.Core.List.{List, [], ◌∷◌}
use native.Mathlib.Omega.{arith}
use bigcp.Base.Tests.{◌==◌}

abbrev pub Bytes : Type 0
Bytes = List ℕ

-- An ASCII literal.
abbrev pub ascii : String → Bytes
ascii String.[] = []
ascii (String.◌∷◌ c s) = code c ∷ ascii s

unfoldable pub bytes_eq : Bytes → Bytes → Bool
bytes_eq [] [] = true
bytes_eq [] (b ∷ bs) = false
bytes_eq (a ∷ as') [] = false
bytes_eq (a ∷ as') (b ∷ bs) = a == b && bytes_eq as' bs

pub bytes_eq_sound : (a b : Bytes) → bytes_eq a b ≡ true → a ≡ b
unfolding bytes_eq
bytes_eq_sound [] [] h = refl
bytes_eq_sound [] (b ∷ bs) h = cc
bytes_eq_sound (a ∷ as') [] h = cc
bytes_eq_sound (a ∷ as') (b ∷ bs) h = ground (arith, bytes_eq_sound as' bs)

pub bytes_eq_refl : (a : Bytes) → bytes_eq a a ≡ true
unfolding bytes_eq
bytes_eq_refl [] = refl
bytes_eq_refl (a ∷ as') = ground (arith, bytes_eq_refl as')

pub bytes_eq_iff : (a b : Bytes) → (bytes_eq a b ≡ true) ↔ (a ≡ b)
bytes_eq_iff a b = (bytes_eq_sound a b, λ e. rw e (bytes_eq_refl b))

-- Lexicographic comparison.
abbrev pub then_with : Ordering → Ordering → Ordering
then_with eq second = second
then_with first _ = first

unfoldable pub bytes_cmp : Bytes → Bytes → Ordering
bytes_cmp [] [] = eq
bytes_cmp [] (b ∷ bs) = lt
bytes_cmp (a ∷ as') [] = gt
bytes_cmp (a ∷ as') (b ∷ bs) = then_with (compare a b) (bytes_cmp as' bs)

pub bytes_cmp_refl : (a : Bytes) → bytes_cmp a a ≡ eq
unfolding bytes_cmp
bytes_cmp_refl [] = refl
bytes_cmp_refl (a ∷ as') = ground (arith, bytes_cmp_refl as')

pub eq_of_bytes_cmp : (a b : Bytes) → bytes_cmp a b ≡ eq → a ≡ b
unfolding bytes_cmp
eq_of_bytes_cmp [] [] h = refl
eq_of_bytes_cmp [] (b ∷ bs) h = cc
eq_of_bytes_cmp (a ∷ as') [] h = cc
eq_of_bytes_cmp (a ∷ as') (b ∷ bs) h = ground (arith, eq_of_bytes_cmp as' bs)

pub bytes_cmp-lt_of_gt : (a b : Bytes) → bytes_cmp a b ≡ gt → bytes_cmp b a ≡ lt
unfolding bytes_cmp
bytes_cmp-lt_of_gt [] [] h = cc
bytes_cmp-lt_of_gt [] (b ∷ bs) h = cc
bytes_cmp-lt_of_gt (a ∷ as') [] h = refl
bytes_cmp-lt_of_gt (a ∷ as') (b ∷ bs) h = ground (arith, bytes_cmp-lt_of_gt as' bs)

pub bytes_cmp_trans : (a b c : Bytes) → bytes_cmp a b ≡ lt → bytes_cmp b c ≡ lt → bytes_cmp a c ≡ lt
unfolding bytes_cmp
bytes_cmp_trans [] [] c p q = cc
bytes_cmp_trans [] (b ∷ bs) [] p q = cc
bytes_cmp_trans [] (b ∷ bs) (c ∷ cs) p q = refl
bytes_cmp_trans (a ∷ as') [] c p q = cc
bytes_cmp_trans (a ∷ as') (b ∷ bs) [] p q = cc
bytes_cmp_trans (a ∷ as') (b ∷ bs) (c ∷ cs) p q = ground (arith, bytes_cmp_trans as' bs cs)
