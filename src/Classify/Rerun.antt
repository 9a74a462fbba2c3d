-- ===== src/Classify/Rerun.antt =====
-- What the decisions mean for a run and for the run after it.
use Prim.Native.String.{String}
use bigcp.Base.{
  ℕ, ◌+◌, ◌≤◌, ◌≡◌, refl, sym, ap, ◌∙◌, bit_and, ◌↔◌, Bool, true, false, Option, none, some, arith,
  List,
}
use bigcp.Base.Int.{ℤ, pos_part, neg_part}
use bigcp.Win.Types.{BasicMetadata, AttributeBits}
use bigcp.Policy.{
  FilesystemPolicy, supports_eas, basic_is_projected, project_basic, creation_quantum,
  last_write_quantum, last_write_equal, attribute_mask,
}
use bigcp.Policy.Laws.{Within, project_basic_times, masked-project_basic}
use bigcp.Classify.{
  EntrySnapshot, Classification, same, replace, skip_different, destination_newer, classify,
}
use bigcp.Classify.Laws.{
  SameObject, SameData, SameMetadata, DataFields, conflict, unchanged, repair, rewrite, withhold,
  classify-Decision, size_and_time, size_alone, time_alone,
}

differs :
    {p : FilesystemPolicy} {s d : EntrySnapshot} {fields : List String}
    → DataFields p s d fields
    → SameData p s d
    → ⊥
differs (size_and_time n w e) t = n t.sizes
differs (size_alone n w e) t = n t.sizes
differs (time_alone z n e) t = n t.writes

-- Exactly the pairs that agree in object, data and representable metadata are skipped as the same.
pub classify_same_iff :
    (bits : AttributeBits) (p : FilesystemPolicy) (allow : Bool) (s d : EntrySnapshot)
    → (classify bits s (some d) allow p ≡ same)
      ↔ (SameObject s d × SameData p s d × SameMetadata bits p s d)
classify_same_iff bits p allow s d = (
  λ e. elim (classify-Decision bits p allow s d) [
    | conflict _ c ↦ cc
    | unchanged o t m c ↦ (o, t, m)
    | repair _ _ _ _ _ c ↦ cc
    | rewrite _ _ _ _ c ↦ cc
    | withhold _ _ _ _ c ↦ cc
  ],
  λ h. elim (classify-Decision bits p allow s d) [
    | conflict n c ↦ absurd (n h.0)
    | unchanged o t m c ↦ c
    | repair _ o t n _ c ↦ absurd (n h.2)
    | rewrite _ o f _ c ↦ absurd (differs f h.1)
    | withhold _ o f _ c ↦ absurd (differs f h.1)
  ],
)

-- How far apart two write times must be before the later one counts as later.
abbrev pub gap : Option ℕ → ℕ
gap none = 1
gap (some q) = q

-- A destination is reported as newer exactly if its write time is later by at least one interval
-- that the destination filesystem can represent.
pub destination_newer_iff :
    (p : FilesystemPolicy) (s d : EntrySnapshot)
    → let a = s.metadata.basic.last_write_time in
      let b = d.metadata.basic.last_write_time in
      (destination_newer s d p ≡ true)
      ↔ (pos_part a + neg_part b + gap (last_write_quantum p.filesystem) ≤ pos_part b + neg_part a)
unfolding destination_newer last_write_equal
destination_newer_iff p s d = (λ e. ground arith, λ h. ground arith)

-- What `replace = false` makes of a decision.
abbrev pub withheld : Classification → Classification
withheld (replace fields newer) = skip_different fields newer
withheld c = c

-- Without leave to replace, the same decision is taken, and a replacement is withheld.
pub classify-withheld :
    (bits : AttributeBits) (p : FilesystemPolicy) (s : EntrySnapshot) (d : Option EntrySnapshot)
    → classify bits s d false p ≡ withheld (classify bits s d true p)
unfolding classify
classify-withheld bits p s none = refl
classify-withheld bits p s (some d) = ground arith

-- A destination left by a finished copy of `s`: its class, tag, size and extended attributes, the
-- projected attributes, and the times as the destination filesystem stores them.
pub record IsCopyOf (bits : AttributeBits) (p : FilesystemPolicy)
    (store_write store_creation : ℤ → ℤ) (s d : EntrySnapshot) : Type 0 where
  pub kinds : d.metadata.kind ≡ s.metadata.kind
  pub tags : d.metadata.reparse_tag ≡ s.metadata.reparse_tag
  pub sizes : d.metadata.size ≡ s.metadata.size
  pub eas : supports_eas p ≡ true → d.metadata.ea_size ≡ s.metadata.ea_size
  pub attributes : d.metadata.basic.attributes ≡ (project_basic bits p s.metadata.basic).attributes
  pub writes :
      d.metadata.basic.last_write_time
      ≡ store_write (project_basic bits p s.metadata.basic).last_write_time
  pub creations :
      basic_is_projected p ≡ false
      → d.metadata.basic.creation_time
        ≡ store_creation (project_basic bits p s.metadata.basic).creation_time

-- On a filesystem that stores a time within its quantum, a finished copy is skipped by the next
-- run, whether or not that run may replace.
pub classify-IsCopyOf :
    (bits : AttributeBits) (p : FilesystemPolicy) (allow : Bool)
    (store_write store_creation : ℤ → ℤ) (s d : EntrySnapshot)
    → ((t : ℤ) → Within (last_write_quantum p.filesystem) t (store_write t))
    → ((t : ℤ) → Within (creation_quantum p.filesystem) t (store_creation t))
    → IsCopyOf bits p store_write store_creation s d
    → classify bits s (some d) allow p ≡ same
classify-IsCopyOf bits p allow store_write store_creation s d hw hc c =
    (classify_same_iff bits p allow s d).1 (
      record { kinds = sym c.kinds; tags = λ _. sym c.tags },
      record { sizes = sym c.sizes; writes = writes },
      record {
        masked = sym (ap (λ a. bit_and a (attribute_mask bits p)) c.attributes ∙ masked);
        creations = creations;
        eas = λ e. sym (c.eas e);
      },
    )
  where
    m : BasicMetadata
    m = s.metadata.basic

    masked :
        bit_and (project_basic bits p m).attributes (attribute_mask bits p)
        ≡ bit_and m.attributes (attribute_mask bits p)
    masked = masked-project_basic bits p m

    writes :
        Within (last_write_quantum p.filesystem) m.last_write_time d.metadata.basic.last_write_time
    writes = rw (c.writes, (project_basic_times bits p m).0) (hw m.last_write_time)

    creations :
        basic_is_projected p ≡ false
        → Within (creation_quantum p.filesystem) m.creation_time d.metadata.basic.creation_time
    creations e = rw (c.creations e, (project_basic_times bits p m).1 e) (hc m.creation_time)
