-- ===== src/Errors/Examples.antt =====
-- The theorems about the error taxonomy at sample errors.
use bigcp.Base.{◌≡◌, ◌↔◌, ◌⊎◌, some, [], ◌∷◌}
use bigcp.Base.Int.{ℤ, pos}
use bigcp.Errors.{IoError, other_kind, device_gone, category_for, hint_for, from_io}
use bigcp.Errors.Taxonomy.{
  LocalDeviceUnavailable, RemoteDisconnected, device_gone_iff, from_io_keeps,
}

device_gone_iff_example :
    (category_for (362 ∷ []) (some (pos 64)) other_kind ≡ device_gone)
    ↔ ((c : ℤ) × (some (pos 64) ≡ some c) × (LocalDeviceUnavailable c ⊎ RemoteDisconnected c))
device_gone_iff_example = device_gone_iff (362 ∷ []) (some (pos 64)) other_kind

abbrev unplugged : IoError
unplugged = record { raw_os_error = some (pos 1167); kind = other_kind; text = [] }

from_io_keeps_example :
    let r = from_io (362 ∷ []) (1 ∷ []) (2 ∷ []) unplugged in
    (r.code ≡ some (pos 1167))
    × (r.operation ≡ 1 ∷ [])
    × (r.path_of ≡ 2 ∷ [])
    × (r.message ≡ [])
    × (r.hint ≡ hint_for r.category)
    × (r.category ≡ category_for (362 ∷ []) (some (pos 1167)) other_kind)
from_io_keeps_example = from_io_keeps (362 ∷ []) (1 ∷ []) (2 ∷ []) unplugged
