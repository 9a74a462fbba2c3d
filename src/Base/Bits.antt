-- ===== src/Base/Bits.antt =====
-- Masking by `bit_and`: a mask applied twice is applied once.
use Prim.Native.Nat.{ℕ, zero, suc, ◌+◌, ◌*◌, ◌/◌, ◌%◌, ◌≤◌, min, bit_and, digits, bit_and-bitwise}
use mathlib.Core.Path.{◌≡◌, refl, ap}
use native.Mathlib.Omega.{arith}

-- The digits of the masked value, on a count of digits to go.
abbrev masked : (count value mask : ℕ) → ℕ
masked count value mask = digits (λ _. 0) min count value mask

masked_le : (count value mask : ℕ) → masked count value mask ≤ value
masked_le zero value mask = omega arith
masked_le (suc count) zero mask = omega arith
masked_le (suc count) (suc value) mask = omega (arith, masked_le count (suc value / 2) (mask / 2))

masked-zero : (count mask : ℕ) → masked count 0 mask ≡ 0
masked-zero zero mask = refl
masked-zero (suc count) mask = refl

masked_suc :
    (count value mask : ℕ)
    → masked (suc count) value mask
      ≡ masked count (value / 2) (mask / 2) * 2 + min (value % 2) (mask % 2)
masked_suc count zero mask = omega (arith, masked-zero count (mask / 2))
masked_suc count (suc value) mask = refl

-- Digits beyond the value's own add nothing.
masked_more :
    (count more value mask : ℕ)
    → value ≤ count
    → count ≤ more
    → masked more value mask ≡ masked count value mask
masked_more zero more zero mask h l = masked-zero more mask
masked_more zero more (suc value) mask h l = absurd (omega arith)
masked_more (suc count) zero value mask h l = absurd (omega arith)
masked_more (suc count) (suc more) value mask h l = omega (
  arith,
  masked_suc count value mask,
  masked_suc more value mask,
  masked_more count more (value / 2) (mask / 2) (omega arith) (omega arith),
)

half-masked :
    (count value mask : ℕ) → masked (suc count) value mask / 2 ≡ masked count (value / 2) (mask / 2)
half-masked count value mask = omega (arith, masked_suc count value mask)

masked_twice :
    (count value mask : ℕ) → masked count (masked count value mask) mask ≡ masked count value mask
masked_twice zero value mask = refl
masked_twice (suc count) value mask = omega (
  arith,
  masked_suc count value mask,
  masked_suc count (masked (suc count) value mask) mask,
  ap (λ half. masked count half (mask / 2)) (half-masked count value mask),
  masked_twice count (value / 2) (mask / 2),
)

pub bit_and_self_mask : (a m : ℕ) → bit_and (bit_and a m) m ≡ bit_and a m
bit_and_self_mask a m = omega (
  arith,
  bit_and-bitwise a m,
  bit_and-bitwise (bit_and a m) m,
  ap (λ r. masked r r m) (bit_and-bitwise a m),
  masked_le a a m,
  masked_more (masked a a m) a (masked a a m) m (omega arith) (masked_le a a m),
  masked_twice a a m,
)
