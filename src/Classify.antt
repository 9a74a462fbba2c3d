-- ===== src/Classify.antt =====
-- crates/core/src/classify.rs: the skip and replacement decision table, with `Classification` and
-- `EntrySnapshot` of model.rs. A path is its UTF-16 units.
pub mod Laws
pub mod Rerun
mod Examples
use Prim.Native.String.{String}
use bigcp.Base.{
  Bool, true, false, not, ◌&&◌, ◌||◌, Option, none, some, List, [], ◌∷◌, ◌++◌, ◌==◌, bit_and, ℕ,
  if◌then◌else◌,
}
use bigcp.Base.Bytes.{Bytes}
use bigcp.Base.Int.{ltb_ℤ}
use bigcp.Win.Types.{
  ObjectKind, reparse, kind_eq, tag_eq, ObjectMetadata, AttributeBits, copyable_attributes,
}
use bigcp.Policy.{
  FilesystemPolicy, supports_eas, last_write_equal, creation_equal, attributes_equal,
}

pub record EntrySnapshot : Type 0 where
  pub relative_path : Bytes
  pub metadata : ObjectMetadata

-- `EntrySnapshot::copyable_attributes`
abbrev pub snapshot_attributes : AttributeBits → EntrySnapshot → ℕ
snapshot_attributes bits e = bit_and e.metadata.basic.attributes (copyable_attributes bits)

pub data Classification : Type 0 where
  new same type_conflict : Classification
  metadata_diff : List String → Classification
  replace skip_different : List String → Bool → Classification

-- `if cond { list.push(field) }`
abbrev pub push_if : Bool → String → List String → List String
push_if true field fields = fields ++ field ∷ []
push_if false field fields = fields

abbrev pub is_empty : List String → Bool
is_empty [] = true
is_empty (_ ∷ _) = false

unfoldable pub conflicting : EntrySnapshot → EntrySnapshot → Bool
conflicting source destination =
    not (kind_eq source.metadata.kind destination.metadata.kind)
    || (kind_eq source.metadata.kind reparse
        && not (tag_eq source.metadata.reparse_tag destination.metadata.reparse_tag))

unfoldable pub data_differences : EntrySnapshot → EntrySnapshot → FilesystemPolicy → List String
data_differences source destination policy =
    push_if
      (not (
        last_write_equal policy source.metadata.basic.last_write_time
          destination.metadata.basic.last_write_time))
      "mtime" (push_if (not (source.metadata.size == destination.metadata.size)) "size" [])

unfoldable pub destination_newer : EntrySnapshot → EntrySnapshot → FilesystemPolicy → Bool
destination_newer source destination policy =
    not (
      last_write_equal policy source.metadata.basic.last_write_time
        destination.metadata.basic.last_write_time)
    && ltb_ℤ source.metadata.basic.last_write_time destination.metadata.basic.last_write_time

unfoldable pub metadata_differences :
    AttributeBits → EntrySnapshot → EntrySnapshot → FilesystemPolicy → List String
metadata_differences bits source destination policy =
    push_if (supports_eas policy && not (source.metadata.ea_size == destination.metadata.ea_size))
      "ea_size"
      (push_if
        (not (
          creation_equal policy source.metadata.basic.creation_time
            destination.metadata.basic.creation_time))
        "ctime"
        (push_if
          (not (
            attributes_equal bits policy source.metadata.basic.attributes
              destination.metadata.basic.attributes))
          "attributes" []))

-- The decision for a destination that exists; `allow` is the option `replace`.
unfoldable pub classify_existing :
    AttributeBits → EntrySnapshot → EntrySnapshot → Bool → FilesystemPolicy → Classification
classify_existing bits source destination allow policy =
    let fields = data_differences source destination policy in
    let newer = destination_newer source destination policy in
    let repairs = metadata_differences bits source destination policy in
    if conflicting source destination
    then type_conflict
    else if not (is_empty fields)
    then (if allow then replace fields newer else skip_different fields newer)
    else if is_empty repairs
    then same
    else metadata_diff repairs

unfoldable pub classify :
    AttributeBits → EntrySnapshot → Option EntrySnapshot → Bool → FilesystemPolicy → Classification
unfolding classify_existing
classify bits source none allow policy = new
classify bits source (some destination) allow policy =
    classify_existing bits source destination allow policy
