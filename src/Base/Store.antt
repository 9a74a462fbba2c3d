-- ===== src/Base/Store.antt =====
-- The contents of a file as a function from offsets to bytes, with reads and writes at an offset.
use Prim.Native.Nat.{ℕ, zero, suc, ◌+◌, ◌≤◌, ◌<◌}
use mathlib.Core.Path.{◌≡◌, refl, sym, ap}
use mathlib.Core.Logic.{◌⊎◌, inl, inr}
use mathlib.Core.List.{[], ◌∷◌}
use native.Mathlib.Omega.{arith}
use bigcp.Base.Bytes.{Bytes}
use bigcp.Base.Lists.{length, take}
use bigcp.Base.Tests.{◌==◌, if◌then◌else◌, Bool-cases, ==_iff}

abbrev pub Contents : Type 0
Contents = ℕ → ℕ

-- The `count` bytes from an offset on.
unfoldable pub read_at : Contents → ℕ → ℕ → Bytes
read_at file at zero = []
read_at file at (suc count) = file at ∷ read_at file (suc at) count

unfoldable pub put_byte : Contents → ℕ → ℕ → Contents
put_byte file at byte offset = if offset == at then byte else file offset

unfoldable pub write_at : Contents → ℕ → Bytes → Contents
write_at file at [] = file
write_at file at (byte ∷ bytes) = write_at (put_byte file at byte) (suc at) bytes

pub length-read_at : (file : Contents) (at count : ℕ) → length (read_at file at count) ≡ count
unfolding read_at
length-read_at file at zero = refl
length-read_at file at (suc count) = ap suc (length-read_at file (suc at) count)

-- A prefix of what was read is what a shorter read gives.
pub take-read_at :
    (file : Contents) (at count n : ℕ)
    → (shorter : ℕ) × (take n (read_at file at count) ≡ read_at file at shorter)
unfolding read_at
take-read_at file at count zero = (0, refl)
take-read_at file at zero (suc n) = (0, refl)
take-read_at file at (suc count) (suc n) =
    let (shorter, e) = take-read_at file (suc at) count n in (suc shorter, ap (λ r. file at ∷ r) e)

-- Bytes that are copied to the offset where they were read.
module _ (source : Contents) where
  put_byte-agrees :
      (file : Contents) (at offset : ℕ)
      → (offset ≡ at) ⊎ (file offset ≡ source offset)
      → put_byte file at (source at) offset ≡ source offset
  unfolding put_byte
  put_byte-agrees file at offset (inl here) = ground (arith, ap source here)
  put_byte-agrees file at offset (inr before) = elim (Bool-cases (offset == at)) [
    | inl here ↦ rw here (ap source (sym ((==_iff offset at).0 here)))
    | inr other ↦ rw other before
  ]

  pub copied-agrees :
      (file : Contents) (at count offset : ℕ)
      → ((at ≤ offset) × (offset < at + count)) ⊎ (file offset ≡ source offset)
      → write_at file at (read_at source at count) offset ≡ source offset
  unfolding write_at read_at
  copied-agrees file at zero offset (inl within) = absurd (omega arith)
  copied-agrees file at zero offset (inr before) = before
  copied-agrees file at (suc count) offset (inr before) =
      copied-agrees (put_byte file at (source at)) (suc at) count offset
        (inr (put_byte-agrees file at offset (inr before)))
  copied-agrees file at (suc count) offset (inl within) = elim (Bool-cases (offset == at)) [
    | inl here ↦
        copied-agrees (put_byte file at (source at)) (suc at) count offset
          (inr (put_byte-agrees file at offset (inl ((==_iff offset at).0 here))))
    | inr further ↦
        copied-agrees (put_byte file at (source at)) (suc at) count offset
          (inl (ground (arith, within.0, within.1), omega (arith, within.1)))
  ]
