-- ===== src/Errors.antt =====
-- crates/core/src/error.rs: the error taxonomy and the classification of I/O errors, with
-- `is_cloud_file_error` of crates/win/src/util.rs. The list of the cloud codes comes from
-- `windows_sys` and is a parameter. A hint is an ASCII text.
pub mod Taxonomy
mod Examples
use Prim.Native.String.{String}
use bigcp.Base.{
  ℕ, ◌+◌, ◌-◌, ◌^◌, Bool, true, false, ◌||◌, Option, none, some, List, [], ◌∷◌, ◌==◌, any,
  if◌then◌else◌,
}
use bigcp.Base.Bytes.{Bytes}
use bigcp.Base.Int.{ℤ, pos, negsuc, eqb_ℤ}

pub data ErrorCategory : Type 0 where
  permissions locked path space media device_gone fs_limit source_changed destination_changed :
      ErrorCategory
  unsupported_reparse parent_dir_failed type_conflict cloud internal : ErrorCategory

pub record OperationError : Type 0 where
  pub category : ErrorCategory
  pub operation : Bytes
  pub path_of : Bytes
  pub code : Option ℤ
  pub message : Bytes
  pub hint : String

-- `io::ErrorKind`, with the kinds that the code tells apart.
pub data ErrorKind : Type 0 where
  not_found invalid_input already_exists permission_denied other_kind : ErrorKind

-- `io::Error`, as far as it is read.
pub record IoError : Type 0 where
  pub raw_os_error : Option ℤ
  pub kind : ErrorKind
  pub text : Bytes

-- `i32::cast_unsigned`
abbrev pub cast_unsigned : ℤ → ℕ
cast_unsigned (pos n) = n
cast_unsigned (negsuc n) = 2 ^ 32 - (n + 1)

unfoldable pub is_cloud_file_error : List ℕ → ℤ → Bool
is_cloud_file_error cloud_file_errors code = any (λ c. c == cast_unsigned code) cloud_file_errors

unfoldable pub one_of : List ℕ → ℤ → Bool
one_of codes code = any (λ c. eqb_ℤ code (pos c)) codes

abbrev pub device_gone_codes : List ℕ
device_gone_codes = 21 ∷ 53 ∷ 55 ∷ 59 ∷ 64 ∷ 67 ∷ 121 ∷ 433 ∷ 1167 ∷ 1222 ∷ 1231 ∷ 1236 ∷ 2250 ∷ []

unfoldable pub category_of_kind : ErrorKind → ErrorCategory
category_of_kind not_found = path
category_of_kind invalid_input = path
category_of_kind already_exists = destination_changed
category_of_kind permission_denied = permissions
category_of_kind other_kind = internal

unfoldable pub category_for : List ℕ → Option ℤ → ErrorKind → ErrorCategory
category_for cloud_file_errors none kind = category_of_kind kind
category_for cloud_file_errors (some code) kind =
    if one_of (5 ∷ []) code
    then permissions
    else if one_of (32 ∷ 33 ∷ []) code
    then locked
    else if one_of (39 ∷ 112 ∷ []) code
    then space
    else if one_of (23 ∷ 1117 ∷ []) code
    then media
    else if one_of device_gone_codes code
    then device_gone
    else if one_of (80 ∷ 183 ∷ []) code
    then destination_changed
    else if one_of (206 ∷ []) code
    then path
    else if is_cloud_file_error cloud_file_errors code
    then cloud
    else category_of_kind kind

unfoldable pub hint_for : ErrorCategory → String
hint_for permissions = "Check or repair ACLs, take ownership if appropriate, then re-run"
hint_for locked = "Close the process using this object, then re-run"
hint_for path = "Check the path and shorten the destination root if necessary"
hint_for space = "Free destination space, then re-run to resume"
hint_for media = "Check the drive and its health before re-running"
hint_for device_gone = "Reconnect the device or remote path and re-run to resume"
hint_for fs_limit = "Use a destination filesystem that supports this object type, feature, or size"
hint_for source_changed = "Quiesce source writers and re-run"
hint_for destination_changed = "Stop other destination writers and re-run"
hint_for unsupported_reparse =
    "Use --raw-reparse only when the owning filter is present and the risk is understood"
hint_for parent_dir_failed = "Resolve the parent directory failure, then re-run"
hint_for type_conflict =
    "Resolve the conflicting destination object manually; bigcp never deletes it"
hint_for cloud = "Restore cloud provider connectivity/health or use --skip-cloud"
hint_for internal = "Retain the log and report and file a bigcp bug"

unfoldable pub from_io_as : ErrorCategory → Bytes → Bytes → IoError → OperationError
from_io_as category operation target error = record {
  category = category;
  operation = operation;
  path_of = target;
  code = error.raw_os_error;
  message = error.text;
  hint = hint_for category;
}

unfoldable pub from_io : List ℕ → Bytes → Bytes → IoError → OperationError
unfolding from_io_as
from_io cloud_file_errors operation target error =
    from_io_as (category_for cloud_file_errors error.raw_os_error error.kind) operation target error

unfoldable pub semantic : ErrorCategory → Bytes → Bytes → Bytes → OperationError
semantic category operation target message = record {
  category = category;
  operation = operation;
  path_of = target;
  code = none;
  message = message;
  hint = hint_for category;
}

-- `BigcpError`; a message is kept as its fixed text.
pub data BigcpError : Type 0 where
  io : (context : String) (source : IoError) → BigcpError
  invalid locked_error audit invariant format : String → BigcpError

-- `io::Error::other` and `io::Error::new`
abbrev pub io_error_new : ErrorKind → Bytes → IoError
io_error_new kind text = record { raw_os_error = none; kind = kind; text = text }
