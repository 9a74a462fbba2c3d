-- ===== src/Classify/Laws.antt =====
-- The decision table against descriptions that do not run the code's tests.
use Prim.Native.String.{String}
use bigcp.Base.{
  ◌≡◌, refl, ◌≢◌, ◌↔◌, ◌⊎◌, inl, inr, Bool, true, false, not, ◌&&◌, some, List, [], ◌∷◌, bit_and,
  arith, ◌==◌, ==_iff, Bool-cases, Decided, decided_of_iff,
}
use bigcp.Base.Int.{ℤ}
use bigcp.Win.Types.{reparse, kind_eq_iff, tag_eq_iff, AttributeBits}
use bigcp.Policy.{
  FilesystemPolicy, supports_eas, basic_is_projected, attribute_mask, creation_quantum,
  last_write_quantum, last_write_equal, creation_equal, attributes_equal,
}
use bigcp.Policy.Laws.{Within, timestamp_equal_iff}
use bigcp.Classify.{
  EntrySnapshot, Classification, same, type_conflict, metadata_diff, replace, skip_different,
  push_if, is_empty, conflicting, data_differences, destination_newer, metadata_differences,
  classify,
}

-- The objects are of one class, and of one tag where they are reparse points.
pub record SameObject (s d : EntrySnapshot) : Type 0 where
  pub kinds : s.metadata.kind ≡ d.metadata.kind
  pub tags : s.metadata.kind ≡ reparse → s.metadata.reparse_tag ≡ d.metadata.reparse_tag

-- The data heuristic: one size, and write times in one representable interval.
pub record SameData (p : FilesystemPolicy) (s d : EntrySnapshot) : Type 0 where
  pub sizes : s.metadata.size ≡ d.metadata.size
  pub writes :
      Within
        (last_write_quantum p.filesystem)
        s.metadata.basic.last_write_time
        d.metadata.basic.last_write_time

-- The metadata that the destination can hold agrees.
pub record SameMetadata (bits : AttributeBits) (p : FilesystemPolicy) (s d : EntrySnapshot)
    : Type 0 where
  pub masked :
      bit_and s.metadata.basic.attributes (attribute_mask bits p)
      ≡ bit_and d.metadata.basic.attributes (attribute_mask bits p)
  pub creations :
      basic_is_projected p ≡ false
      → Within
          (creation_quantum p.filesystem)
          s.metadata.basic.creation_time
          d.metadata.basic.creation_time
  pub eas : supports_eas p ≡ true → s.metadata.ea_size ≡ d.metadata.ea_size

object_iff : (s d : EntrySnapshot) → (not (conflicting s d) ≡ true) ↔ SameObject s d
unfolding conflicting
object_iff s d = (
  λ e. record { kinds = ground arith; tags = ground arith },
  λ o. ground (
    arith,
    o.tags,
    kind_eq_iff s.metadata.kind d.metadata.kind,
    tag_eq_iff s.metadata.reparse_tag d.metadata.reparse_tag,
  ),
)

last_write_decided :
    (p : FilesystemPolicy) (a b : ℤ)
    → Decided (last_write_equal p a b) (Within (last_write_quantum p.filesystem) a b)
unfolding last_write_equal
last_write_decided p a b = decided_of_iff _ (timestamp_equal_iff a b _)

creation_iff :
    (p : FilesystemPolicy) (a b : ℤ)
    → (creation_equal p a b ≡ true)
      ↔ (basic_is_projected p ≡ false → Within (creation_quantum p.filesystem) a b)
unfolding creation_equal
creation_iff p a b = elim (Bool-cases (basic_is_projected p)) [
  | inl e ↦ rw e (λ _ f. cc, λ _. refl)
  | inr e ↦
      rw e (λ h _. (timestamp_equal_iff a b _).0 h, λ h. (timestamp_equal_iff a b _).1 (h refl))
]

-- Which names the data comparison reports.
pub data DataFields (p : FilesystemPolicy) (s d : EntrySnapshot) (fields : List String)
    : Type 0 where
  size_and_time :
      s.metadata.size ≢ d.metadata.size
      → ¬ Within
          (last_write_quantum p.filesystem)
          s.metadata.basic.last_write_time
          d.metadata.basic.last_write_time
      → fields ≡ "size" ∷ "mtime" ∷ []
      → DataFields p s d fields
  size_alone :
      s.metadata.size ≢ d.metadata.size
      → Within
          (last_write_quantum p.filesystem)
          s.metadata.basic.last_write_time
          d.metadata.basic.last_write_time
      → fields ≡ "size" ∷ []
      → DataFields p s d fields
  time_alone :
      s.metadata.size ≡ d.metadata.size
      → ¬ Within
          (last_write_quantum p.filesystem)
          s.metadata.basic.last_write_time
          d.metadata.basic.last_write_time
      → fields ≡ "mtime" ∷ []
      → DataFields p s d fields

abbrev WriteWithin : FilesystemPolicy → EntrySnapshot → EntrySnapshot → Type 0
WriteWithin p s d =
    Within (last_write_quantum p.filesystem) s.metadata.basic.last_write_time
      d.metadata.basic.last_write_time

data_cases :
    (p : FilesystemPolicy) (s d : EntrySnapshot)
    → ((data_differences s d p ≡ []) × SameData p s d)
      ⊎ ((is_empty (data_differences s d p) ≡ false) × DataFields p s d (data_differences s d p))
unfolding data_differences
data_cases p s d =
    elim (last_write_decided p s.metadata.basic.last_write_time d.metadata.basic.last_write_time) [
      | inl (e, w) ↦ elim (decided_of_iff _ (==_iff s.metadata.size d.metadata.size)) [
        | inl (f, z) ↦ inl (rw (e, f) refl, record { sizes = z; writes = w })
        | inr (f, z) ↦ inr (rw (e, f) refl, size_alone z w (rw (e, f) refl))
      ]
      | inr (e, w) ↦ elim (decided_of_iff _ (==_iff s.metadata.size d.metadata.size)) [
        | inl (f, z) ↦ inr (rw (e, f) refl, time_alone z w (rw (e, f) refl))
        | inr (f, z) ↦ inr (rw (e, f) refl, size_and_time z w (rw (e, f) refl))
      ]
    ]

-- Some name is reported unless every comparison holds.
three_fields :
    (x y z : Bool)
    → let fields =
        push_if z "ea_size" (push_if (not y) "ctime" (push_if (not x) "attributes" [])) in
      ((fields ≡ []) × (x ≡ true) × (y ≡ true) × (z ≡ false))
      ⊎ ((is_empty fields ≡ false) × ((x ≡ false) ⊎ ((y ≡ false) ⊎ (z ≡ true))))
three_fields true true true = inr (refl, inr (inr refl))
three_fields true true false = inl (refl, refl, refl, refl)
three_fields true false true = inr (refl, inr (inl refl))
three_fields true false false = inr (refl, inr (inl refl))
three_fields false true true = inr (refl, inl refl)
three_fields false true false = inr (refl, inl refl)
three_fields false false true = inr (refl, inl refl)
three_fields false false false = inr (refl, inl refl)

metadata_cases :
    (bits : AttributeBits) (p : FilesystemPolicy) (s d : EntrySnapshot)
    → ((metadata_differences bits s d p ≡ []) × SameMetadata bits p s d)
      ⊎ ((is_empty (metadata_differences bits s d p) ≡ false) × ¬ SameMetadata bits p s d)
unfolding metadata_differences attributes_equal
metadata_cases bits p s d =
    let x = attributes_equal bits p s.metadata.basic.attributes d.metadata.basic.attributes in
    let y = creation_equal p s.metadata.basic.creation_time d.metadata.basic.creation_time in
    let z = supports_eas p && not (s.metadata.ea_size == d.metadata.ea_size) in
    elim (three_fields x y z) [
      | inl (none_named, x, y, z) ↦ inl (
        none_named,
        record { masked = ground arith; creations = (creation_iff p _ _).0 y; eas = ground arith },
      )
      | inr (named, bad) ↦ inr (
        named,
        λ m. elim bad [
          | inl x ↦ ground (arith, m.masked)
          | inr (inl y) ↦ cc (y, (creation_iff p _ _).1 m.creations)
          | inr (inr z) ↦ ground (arith, m.eas)
        ],
      )
    ]

-- What the decision table says of a pair of objects, one constructor for each outcome.
pub data Decision (bits : AttributeBits) (p : FilesystemPolicy) (allow : Bool) (s d : EntrySnapshot)
    (c : Classification) : Type 0 where
  conflict : ¬ SameObject s d → c ≡ type_conflict → Decision bits p allow s d c
  unchanged :
      SameObject s d
      → SameData p s d
      → SameMetadata bits p s d
      → c ≡ same
      → Decision bits p allow s d c
  repair :
      (fields : List String)
      → SameObject s d
      → SameData p s d
      → ¬ SameMetadata bits p s d
      → fields ≢ []
      → c ≡ metadata_diff fields
      → Decision bits p allow s d c
  rewrite :
      (fields : List String)
      → SameObject s d
      → DataFields p s d fields
      → allow ≡ true
      → c ≡ replace fields (destination_newer s d p)
      → Decision bits p allow s d c
  withhold :
      (fields : List String)
      → SameObject s d
      → DataFields p s d fields
      → allow ≡ false
      → c ≡ skip_different fields (destination_newer s d p)
      → Decision bits p allow s d c

-- For a destination that exists, the classifier returns on every branch what the decision table
-- says: the outcome, the data fields that differ, and whether the destination is newer.
pub classify-Decision :
    (bits : AttributeBits) (p : FilesystemPolicy) (allow : Bool) (s d : EntrySnapshot)
    → Decision bits p allow s d (classify bits s (some d) allow p)
unfolding classify
classify-Decision bits p allow s d = elim (decided_of_iff _ (object_iff s d)) [
  | inr (e, o) ↦ conflict o (ground arith)
  | inl (e, o) ↦ elim (data_cases p s d) [
    | inr (f, fields) ↦ elim (Bool-cases allow) [
      | inl a ↦ rewrite (data_differences s d p) o fields a (ground arith)
      | inr a ↦ withhold (data_differences s d p) o fields a (ground arith)
    ]
    | inl (f, same_data) ↦ elim (metadata_cases bits p s d) [
      | inl (g, m) ↦ unchanged o same_data m (ground arith)
      | inr (g, m) ↦
          repair (metadata_differences bits s d p) o same_data m (λ z. ground arith) (ground arith)
    ]
  ]
]
