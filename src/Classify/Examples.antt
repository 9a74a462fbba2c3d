-- ===== src/Classify/Examples.antt =====
-- The theorems about classification at sample entries.
use bigcp.Base.{ℕ, ◌<◌, ◌≡◌, refl, ◌≤◌, ◌↔◌, true, false, some, none, [], arith, ◌+◌}
use bigcp.Base.Bytes.{ascii}
use bigcp.Base.Int.{ℤ, pos, abs_diff}
use bigcp.Win.Types.{file, fat, local, no_capabilities, AttributeBits}
use bigcp.Policy.{FilesystemPolicy, project_basic, attribute_mask}
use bigcp.Classify.{EntrySnapshot, classify, same, destination_newer}
use bigcp.Classify.Laws.{Decision, classify-Decision, SameObject, SameData, SameMetadata}
use bigcp.Classify.Rerun.{
  classify_same_iff, destination_newer_iff, withheld, classify-withheld, IsCopyOf,
  classify-IsCopyOf,
}

abbrev bits : AttributeBits
bits = record { readonly = 1; hidden = 2; system = 4; archive = 32; not_content_indexed = 8192 }

abbrev fat_policy : FilesystemPolicy
fat_policy = record {
  filesystem = fat;
  capabilities = no_capabilities;
  endpoint = local;
  source_projects_basic = false;
}

abbrev entry : ℕ → ℤ → ℕ → EntrySnapshot
entry size mtime attributes = record {
  relative_path = ascii "file";
  metadata = record {
    identity = record { volume_serial = 1; file_id = [] };
    kind = file;
    size = size;
    allocation_size = size;
    ea_size = 0;
    basic = record {
      creation_time = pos 10;
      last_access_time = pos 11;
      last_write_time = mtime;
      attributes = attributes;
    };
    reparse_tag = none;
  };
}

abbrev source : EntrySnapshot
source = entry 2 (pos 20_000_000) 8193

-- A destination of another size whose write time lies in the same two seconds.
abbrev near : EntrySnapshot
near = entry 1 (pos 20_000_009) 1

abbrev copied : EntrySnapshot
copied = entry 2 (pos 20_000_000) 1

classify-Decision_example :
    Decision bits fat_policy true source near (classify bits source (some near) true fat_policy)
classify-Decision_example = classify-Decision bits fat_policy true source near

classify_same_iff_example : (classify bits source (some near) true fat_policy ≡ same) ↔ (
    SameObject source near
    × SameData fat_policy source near
    × SameMetadata bits fat_policy source near)
classify_same_iff_example = classify_same_iff bits fat_policy true source near

destination_newer_iff_example :
    (destination_newer source near fat_policy ≡ true)
    ↔ (20_000_000 + 0 + 20_000_000 ≤ 20_000_009 + 0)
destination_newer_iff_example = destination_newer_iff fat_policy source near

classify-withheld_example :
    classify bits source (some near) false fat_policy
    ≡ withheld (classify bits source (some near) true fat_policy)
classify-withheld_example = classify-withheld bits fat_policy source (some near)

close_to_itself : (t : ℤ) (q : ℕ) → 0 < q → abs_diff t t < q
close_to_itself t q h = omega arith

copied-IsCopyOf : IsCopyOf bits fat_policy (λ t. t) (λ t. t) source copied
unfolding project_basic attribute_mask
copied-IsCopyOf = record {
  kinds = refl;
  tags = refl;
  sizes = refl;
  eas = λ e. refl;
  attributes = refl;
  writes = refl;
  creations = λ e. refl;
}

classify-IsCopyOf_example : classify bits source (some copied) false fat_policy ≡ same
classify-IsCopyOf_example =
    classify-IsCopyOf bits fat_policy false (λ t. t) (λ t. t) source copied
      (λ t. close_to_itself t 20_000_000 (omega arith))
      (λ t. close_to_itself t 100_000 (omega arith)) copied-IsCopyOf
