-- ===== src/Base/TreeMap.antt =====
-- `BTreeMap`: an association list in the order of its keys, with the laws of its operations.
mod Defs
mod Laws
pub use Defs.{Ord, TreeMap, values, IsSorted, Above, bytes_ord, pair_ord}
unfoldable pub use Defs.{insert, get, retain}
pub use Laws.*
