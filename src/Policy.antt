-- ===== src/Policy.antt =====
-- crates/core/src/filesystem.rs: the policy that projects source semantics onto a destination
-- filesystem, derived once from both volumes.
pub mod Laws
use bigcp.Base.{
  ℕ, ◌*◌, Bool, true, false, not, ◌||◌, Option, none, some, bit_and, ltb, ◌==◌, if◌then◌else◌,
}
use bigcp.Base.Int.{ℤ, pos, eqb_ℤ, abs_diff}
use bigcp.Win.Types.{
  BasicMetadata, FileSystem, fat, ex_fat, is_fat_family, is_wsl_or_remote, VolumeCapabilities,
  EndpointKind, is_remote, VolumeInfo, AttributeBits, copyable_attributes, fat_copyable_attributes,
}

abbrev pub filetime_ticks_per_millisecond : ℕ
filetime_ticks_per_millisecond = 10_000

abbrev pub filetime_ticks_per_second : ℕ
filetime_ticks_per_second = 10_000_000

pub record FilesystemPolicy : Type 0 where
  pub filesystem : FileSystem
  pub capabilities : VolumeCapabilities
  pub endpoint : EndpointKind
  pub source_projects_basic : Bool

unfoldable pub from_volumes : VolumeInfo → VolumeInfo → FilesystemPolicy
from_volumes source destination = record {
  filesystem = destination.filesystem;
  capabilities = destination.capabilities;
  endpoint = destination.endpoint;
  source_projects_basic = is_wsl_or_remote source.filesystem;
}

unfoldable pub is_degraded : FilesystemPolicy → Bool
is_degraded p =
    is_fat_family p.filesystem || (is_wsl_or_remote p.filesystem || p.source_projects_basic)

abbrev pub supports_eas : FilesystemPolicy → Bool
supports_eas p = p.capabilities.extended_attributes

abbrev pub supports_streams : FilesystemPolicy → Bool
supports_streams p = p.capabilities.named_streams

abbrev pub supports_sparse : FilesystemPolicy → Bool
supports_sparse p = p.capabilities.sparse_files

unfoldable pub supports_preallocation : FilesystemPolicy → Bool
supports_preallocation p = not (is_remote p.endpoint)

unfoldable pub requires_post_write_stamp : FilesystemPolicy → Bool
requires_post_write_stamp p = is_fat_family p.filesystem || is_remote p.endpoint

abbrev pub basic_is_projected : FilesystemPolicy → Bool
basic_is_projected p = p.source_projects_basic || is_wsl_or_remote p.filesystem

unfoldable pub attribute_mask : AttributeBits → FilesystemPolicy → ℕ
attribute_mask bits p =
    if basic_is_projected p
    then 0
    else if is_fat_family p.filesystem
    then fat_copyable_attributes bits
    else copyable_attributes bits

-- Zero timestamps mean "leave unchanged".
unfoldable pub project_basic : AttributeBits → FilesystemPolicy → BasicMetadata → BasicMetadata
project_basic bits p metadata =
    let kept =
      if basic_is_projected p
      then record metadata { creation_time = pos 0; last_access_time = pos 0 }
      else metadata in
    record kept { attributes = bit_and kept.attributes (attribute_mask bits p) }

abbrev pub creation_quantum : FileSystem → Option ℕ
creation_quantum fat = some (10 * filetime_ticks_per_millisecond)
creation_quantum ex_fat = some (10 * filetime_ticks_per_millisecond)
creation_quantum _ = none

abbrev pub last_write_quantum : FileSystem → Option ℕ
last_write_quantum fat = some (2 * filetime_ticks_per_second)
last_write_quantum ex_fat = some (10 * filetime_ticks_per_millisecond)
last_write_quantum _ = none

abbrev pub last_access_quantum : FileSystem → Option ℕ
last_access_quantum fat = some (86_400 * filetime_ticks_per_second)
last_access_quantum ex_fat = some (2 * filetime_ticks_per_second)
last_access_quantum _ = none

abbrev pub timestamp_equal : ℤ → ℤ → Option ℕ → Bool
timestamp_equal left right none = eqb_ℤ left right
timestamp_equal left right (some quantum) = ltb (abs_diff left right) quantum

unfoldable pub last_write_equal : FilesystemPolicy → ℤ → ℤ → Bool
last_write_equal p source destination =
    timestamp_equal source destination (last_write_quantum p.filesystem)

unfoldable pub creation_equal : FilesystemPolicy → ℤ → ℤ → Bool
creation_equal p source destination =
    if basic_is_projected p
    then true
    else timestamp_equal source destination (creation_quantum p.filesystem)

unfoldable pub last_access_equal : FilesystemPolicy → ℤ → ℤ → Bool
last_access_equal p source destination =
    if basic_is_projected p
    then true
    else timestamp_equal source destination (last_access_quantum p.filesystem)

unfoldable pub attributes_equal : AttributeBits → FilesystemPolicy → ℕ → ℕ → Bool
attributes_equal bits p source destination =
    bit_and source (attribute_mask bits p) == bit_and destination (attribute_mask bits p)
