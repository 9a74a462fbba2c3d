-- ===== src/Policy/Laws.antt =====
-- What the policy's projection and comparisons promise to each other.
use mathlib.Core.Path.{◌≡◌}
use bigcp.Base.{ℕ, ◌<◌, ◌↔◌, true, false, Option, none, some, bit_and, arith}
use bigcp.Base.Bits.{bit_and_self_mask}
use bigcp.Base.Int.{ℤ, abs_diff, eqb_ℤ_iff}
use bigcp.Win.Types.{BasicMetadata, AttributeBits}
use bigcp.Policy.{
  FilesystemPolicy, basic_is_projected, attribute_mask, project_basic, timestamp_equal,
  attributes_equal,
}

-- Two times lie in one representable interval of a filesystem with that quantum.
abbrev pub Within : Option ℕ → ℤ → ℤ → Type 0
Within none a b = a ≡ b
Within (some q) a b = abs_diff a b < q

pub timestamp_equal_iff : (a b : ℤ) (q : Option ℕ) → (timestamp_equal a b q ≡ true) ↔ Within q a b
timestamp_equal_iff a b none = eqb_ℤ_iff a b
timestamp_equal_iff a b (some q) = ground arith

-- The projected attributes compare equal to those that they come from.
pub attributes_equal-project_basic :
    (bits : AttributeBits) (p : FilesystemPolicy) (m : BasicMetadata)
    → attributes_equal bits p m.attributes (project_basic bits p m).attributes ≡ true
unfolding attributes_equal project_basic
attributes_equal-project_basic bits p m =
    ground (arith, bit_and_self_mask m.attributes (attribute_mask bits p))

-- The projection leaves the write time, and the creation time where it is copied at all.
pub project_basic_times :
    (bits : AttributeBits) (p : FilesystemPolicy) (m : BasicMetadata)
    → ((project_basic bits p m).last_write_time ≡ m.last_write_time)
      × (basic_is_projected p ≡ false → (project_basic bits p m).creation_time ≡ m.creation_time)
unfolding project_basic
project_basic_times bits p m = (ground arith, λ e. ground arith)

pub masked-project_basic :
    (bits : AttributeBits) (p : FilesystemPolicy) (m : BasicMetadata)
    → bit_and (project_basic bits p m).attributes (attribute_mask bits p)
      ≡ bit_and m.attributes (attribute_mask bits p)
unfolding project_basic
masked-project_basic bits p m =
    ground (arith, bit_and_self_mask m.attributes (attribute_mask bits p))
