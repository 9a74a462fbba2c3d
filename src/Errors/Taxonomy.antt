-- ===== src/Errors/Taxonomy.antt =====
-- Which errors fall into a category.
use bigcp.Base.{
  ℕ, ◌≡◌, refl, ◌↔◌, ◌⊎◌, inl, inr, true, false, Option, none, some, List, [], ◌∷◌, arith,
  Bool-cases,
}
use bigcp.Base.Bytes.{Bytes}
use bigcp.Base.Int.{ℤ, pos, negsuc, eqb_ℤ, eqb_ℤ_iff}
use bigcp.Errors.{
  device_gone, ErrorKind, IoError, one_of, device_gone_codes, category_of_kind, category_for,
  hint_for, from_io,
}

-- One of these codes.
abbrev pub Named : List ℕ → ℤ → Type 0
Named [] c = ⊥
Named (code ∷ codes) c = (c ≡ pos code) ⊎ Named codes c

one_of-Named : (codes : List ℕ) (c : ℤ) → one_of codes c ≡ true → Named codes c
unfolding one_of
one_of-Named [] c h = absurd (cc)
one_of-Named (code ∷ codes) c h = elim (Bool-cases (eqb_ℤ c (pos code))) [
  | inl here ↦ inl ((eqb_ℤ_iff c (pos code)).0 here)
  | inr other ↦ inr (one_of-Named codes c (let bad = h in ground (arith, other, bad)))
]

Named-one_of : (codes : List ℕ) (c : ℤ) → Named codes c → one_of codes c ≡ true
unfolding one_of
Named-one_of [] c h = absurd h
Named-one_of (code ∷ codes) c (inl e) =
    let here = (eqb_ℤ_iff c (pos code)).1 e in ground (arith, here)
Named-one_of (code ∷ codes) c (inr h) = let later = Named-one_of codes c h in ground (arith, later)

abbrev local_codes : List ℕ
local_codes = 21 ∷ 55 ∷ 433 ∷ 1167 ∷ []

abbrev remote_codes : List ℕ
remote_codes = 53 ∷ 59 ∷ 64 ∷ 67 ∷ 121 ∷ 1222 ∷ 1231 ∷ 1236 ∷ 2250 ∷ []

-- The codes that docs/ERRORS.md names for this category: of a local device that is unavailable, and of
-- a remote share that is disconnected.
abbrev pub LocalDeviceUnavailable : ℤ → Type 0
LocalDeviceUnavailable = Named local_codes

abbrev pub RemoteDisconnected : ℤ → Type 0
RemoteDisconnected = Named remote_codes

grouped :
    (c : ℤ)
    → one_of device_gone_codes c ≡ true
    → (one_of local_codes c ≡ true) ⊎ (one_of remote_codes c ≡ true)
unfolding one_of
grouped (pos n) h = ground arith
grouped (negsuc n) h = absurd (ground arith)

documented :
    (c : ℤ)
    → (one_of local_codes c ≡ true) ⊎ (one_of remote_codes c ≡ true)
    → one_of device_gone_codes c ≡ true
unfolding one_of
documented (pos n) h = ground arith
documented (negsuc n) h = absurd (ground arith)

device_codes_iff :
    (c : ℤ)
    → (one_of device_gone_codes c ≡ true) ↔ (LocalDeviceUnavailable c ⊎ RemoteDisconnected c)
device_codes_iff c = (
  λ h. elim (grouped c h) [
    | inl l ↦ inl (one_of-Named local_codes c l)
    | inr r ↦ inr (one_of-Named remote_codes c r)
  ],
  λ t. documented c (elim t [
    | inl l ↦ inl (Named-one_of local_codes c l)
    | inr r ↦ inr (Named-one_of remote_codes c r)
  ]),
)

-- A code of the list is in none of the groups that are tested before it.
earlier_groups :
    (c : ℤ)
    → one_of device_gone_codes c ≡ true
    → (one_of (5 ∷ []) c ≡ false)
      × (one_of (32 ∷ 33 ∷ []) c ≡ false)
      × (one_of (39 ∷ 112 ∷ []) c ≡ false)
      × (one_of (23 ∷ 1117 ∷ []) c ≡ false)
unfolding one_of
earlier_groups (pos n) h = ground arith
earlier_groups (negsuc n) h = ground arith

category_for_gone :
    (cloud : List ℕ) (code : ℤ) (kind : ErrorKind)
    → (category_for cloud (some code) kind ≡ device_gone) ↔ (one_of device_gone_codes code ≡ true)
unfolding category_for category_of_kind
category_for_gone cloud code kind = (λ e. ground arith, λ t. ground (arith, earlier_groups code))

-- A failure counts as a lost device exactly if its raw code is one of the thirteen that the
-- documentation names for a local device that is unavailable or a remote share that is disconnected,
-- whatever the kind of the error and the list of cloud codes.
pub device_gone_iff :
    (cloud : List ℕ) (code : Option ℤ) (kind : ErrorKind)
    → (category_for cloud code kind ≡ device_gone)
      ↔ ((c : ℤ) × (code ≡ some c) × (LocalDeviceUnavailable c ⊎ RemoteDisconnected c))
unfolding category_for category_of_kind
device_gone_iff cloud none kind = (λ e. absurd (ground arith), λ h. cc)
device_gone_iff cloud (some code) kind = (
  λ e. (code, refl, (device_codes_iff code).0 ((category_for_gone cloud code kind).0 e)),
  λ (c, e, t).
      let same : code ≡ c = cc in
      rw same ((category_for_gone cloud c kind).1 ((device_codes_iff c).1 t)),
)

-- What an I/O error becomes keeps its raw code, the operation, the path and the text, and its hint
-- is the one for its category, which depends on the kind only if no code is present.
pub from_io_keeps :
    (cloud : List ℕ) (operation target : Bytes) (e : IoError)
    → let r = from_io cloud operation target e in
      (r.code ≡ e.raw_os_error)
      × (r.operation ≡ operation)
      × (r.path_of ≡ target)
      × (r.message ≡ e.text)
      × (r.hint ≡ hint_for r.category)
      × (r.category ≡ category_for cloud e.raw_os_error e.kind)
unfolding from_io
from_io_keeps cloud operation target e = (refl, refl, refl, refl, refl, refl)
