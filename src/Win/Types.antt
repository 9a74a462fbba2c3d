-- ===== src/Win/Types.antt =====
-- The data types of crates/win/src/metadata.rs, volume.rs and endpoint.rs, and the attribute masks
-- of file.rs. A FILETIME is an integer, a `u32` or `u64` a natural number, an `OsStr` its units.
use Prim.Native.Nat.{bit_or}
use Prim.Native.String.{String}
use bigcp.Base.{ℕ, ◌==◌, Bool, true, false, Option, none, some, ◌≡◌, arith, ◌↔◌}
use bigcp.Base.Int.{ℤ}
use bigcp.Base.Bytes.{Bytes}

pub record BasicMetadata : Type 0 where
  pub creation_time : ℤ
  pub last_access_time : ℤ
  pub last_write_time : ℤ
  pub attributes : ℕ

pub record FileIdentity : Type 0 where
  pub volume_serial : ℕ
  pub file_id : Bytes  -- [u8; 16]

pub data ObjectKind : Type 0 where
  file directory reparse : ObjectKind

abbrev pub kind_eq : ObjectKind → ObjectKind → Bool
kind_eq file file = true
kind_eq directory directory = true
kind_eq reparse reparse = true
kind_eq _ _ = false

pub kind_eq_iff : (a b : ObjectKind) → (kind_eq a b ≡ true) ↔ (a ≡ b)
kind_eq_iff a b = ground arith

-- `Option<u32>` has `==`.
abbrev pub tag_eq : Option ℕ → Option ℕ → Bool
tag_eq none none = true
tag_eq (some a) (some b) = a == b
tag_eq _ _ = false

pub tag_eq_iff : (a b : Option ℕ) → (tag_eq a b ≡ true) ↔ (a ≡ b)
tag_eq_iff a b = ground arith

pub record ObjectMetadata : Type 0 where
  pub identity : FileIdentity
  pub kind : ObjectKind
  pub size : ℕ
  pub allocation_size : ℕ
  pub ea_size : ℕ
  pub basic : BasicMetadata
  pub reparse_tag : Option ℕ

pub data FileSystem : Type 0 where
  ntfs refs fat ex_fat wsl remote : FileSystem

-- `FileSystem::name`
abbrev pub file_system_name : FileSystem → String
file_system_name ntfs = "NTFS"
file_system_name refs = "ReFS"
file_system_name fat = "FAT/FAT32"
file_system_name ex_fat = "exFAT"
file_system_name wsl = "WSL/Linux"
file_system_name remote = "remote filesystem"

abbrev pub is_fat_family : FileSystem → Bool
is_fat_family fat = true
is_fat_family ex_fat = true
is_fat_family _ = false

abbrev pub is_wsl_or_remote : FileSystem → Bool
is_wsl_or_remote wsl = true
is_wsl_or_remote remote = true
is_wsl_or_remote _ = false

abbrev pub maximum_file_size : FileSystem → Option ℕ
maximum_file_size fat = some 4_294_967_295
maximum_file_size _ = none

pub record VolumeCapabilities : Type 0 where
  pub named_streams : Bool
  pub extended_attributes : Bool
  pub sparse_files : Bool
  pub encryption : Bool
  pub reparse_points : Bool
  pub block_refcounting : Bool
  pub persistent_acls : Bool
  pub posix_unlink_rename : Bool

-- `VolumeCapabilities::none`
abbrev pub no_capabilities : VolumeCapabilities
no_capabilities = record {
  named_streams = false;
  extended_attributes = false;
  sparse_files = false;
  encryption = false;
  reparse_points = false;
  block_refcounting = false;
  persistent_acls = false;
  posix_unlink_rename = false;
}

pub data EndpointKind : Type 0 where
  local unc wsl_unc : EndpointKind

abbrev pub is_remote : EndpointKind → Bool
is_remote local = false
is_remote unc = true
is_remote wsl_unc = true

abbrev pub names_are_case_sensitive : EndpointKind → Bool
names_are_case_sensitive wsl_unc = true
names_are_case_sensitive _ = false

pub record VolumeInfo : Type 0 where
  pub root : Bytes
  pub endpoint : EndpointKind
  pub filesystem : FileSystem
  pub serial : ℕ
  pub maximum_component_length : ℕ
  pub bytes_per_sector : ℕ
  pub cluster_size : ℕ
  pub free_bytes_available : ℕ
  pub total_bytes : ℕ
  pub capabilities : VolumeCapabilities
  pub remote_query_latency : Option ℕ  -- in nanoseconds

-- The attribute bits, which the crate takes from `windows_sys`.
pub record AttributeBits : Type 0 where
  pub readonly : ℕ
  pub hidden : ℕ
  pub system : ℕ
  pub archive : ℕ
  pub not_content_indexed : ℕ

abbrev pub fat_copyable_attributes : AttributeBits → ℕ
fat_copyable_attributes b = bit_or (bit_or (bit_or b.readonly b.hidden) b.system) b.archive

abbrev pub copyable_attributes : AttributeBits → ℕ
copyable_attributes b =
    bit_or (bit_or (bit_or (bit_or b.readonly b.hidden) b.system) b.archive) b.not_content_indexed
