-- ===== src/Journal/Temps/Harvest.antt =====
-- `harvest_reclaimable`: checkpoints that are given up leave the proof of their temporaries behind.
use bigcp.Base.{
  ◌≡◌, refl, sym, ap, ◌∙◌, inl, inr, true, false, ◌||◌, Option, none, some, List, [], ◌∷◌, ◌++◌,
  append-nil, append_assoc, arith, All, All-append, is_some, Bool-cases,
}
use bigcp.Base.Bytes.{Bytes, bytes_eq, bytes_eq_sound, bytes_eq_refl}
use bigcp.Base.TreeMap.{values}
use bigcp.Journal.{CheckpointFileIdentity, ReclaimableTemp, Checkpoint, Resumable}
use bigcp.Journal.Replay.{known_temp, harvest_with, harvest_values, harvest_reclaimable}

abbrev pub temp_of : CheckpointFileIdentity → Checkpoint → ReclaimableTemp
temp_of identity c = record {
  temp_name = c.temp_name;
  temp_identity = identity;
  relative_path = c.relative_path;
}

-- One of the checkpoints recorded the temporary with its identity.
pub data IsProven (temp : ReclaimableTemp) : List Checkpoint → Type 0 where
  here :
      (identity : CheckpointFileIdentity) (c : Checkpoint) (cs : List Checkpoint)
      → c.temp_identity ≡ some identity
      → temp ≡ temp_of identity c
      → IsProven temp (c ∷ cs)
  later : (c : Checkpoint) (cs : List Checkpoint) → IsProven temp cs → IsProven temp (c ∷ cs)

-- No name stands twice.
abbrev pub IsDistinct : List ReclaimableTemp → Type 0
IsDistinct [] = Unit
IsDistinct (t ∷ ts) = (known_temp t.temp_name ts ≡ false) × IsDistinct ts

-- Every checkpoint with an identity has its temporary among `temps`.
abbrev pub Covers : List ReclaimableTemp → List Checkpoint → Type 0
Covers temps cs = All (λ c. is_some c.temp_identity ≡ true → known_temp c.temp_name temps ≡ true) cs

-- What harvesting `cs` makes of `before`: new temporaries behind the old ones.
pub record IsHarvest (cs : List Checkpoint) (before after : List ReclaimableTemp) : Type 0 where
  pub found : List ReclaimableTemp
  pub after_is : after ≡ before ++ found
  pub proven : All (λ temp. IsProven temp cs) found
  pub covers : Covers after cs
  pub distinct : IsDistinct before → IsDistinct after

bytes_eq_comm : (a b : Bytes) → bytes_eq a b ≡ bytes_eq b a
bytes_eq_comm a b =
    ground (arith, bytes_eq_sound a b, bytes_eq_sound b a, bytes_eq_refl a, bytes_eq_refl b)

known_temp-append :
    (name : Bytes) (xs ys : List ReclaimableTemp)
    → known_temp name (xs ++ ys) ≡ (known_temp name xs || known_temp name ys)
known_temp-append name [] ys = refl
known_temp-append name (x ∷ xs) ys = ground (arith, known_temp-append name xs ys)

IsDistinct-snoc :
    (t : ReclaimableTemp) (ts : List ReclaimableTemp)
    → known_temp t.temp_name ts ≡ false
    → IsDistinct ts
    → IsDistinct (ts ++ t ∷ [])
IsDistinct-snoc t [] k d = (refl, tt)
IsDistinct-snoc t (x ∷ xs) k d =
    let other : bytes_eq t.temp_name x.temp_name ≡ false =
      bytes_eq_comm t.temp_name x.temp_name ∙ ground arith in
    let rest : known_temp t.temp_name xs ≡ false = ground arith in
    (
      known_temp-append x.temp_name xs (t ∷ []) ∙ rw (d.0, other) refl,
      IsDistinct-snoc t xs rest d.1,
    )

-- What one checkpoint adds, as the first of a list.
record IsAdded (c : Checkpoint) (cs : List Checkpoint) (before after : List ReclaimableTemp)
    : Type 0 where
  found : List ReclaimableTemp
  after_is : after ≡ before ++ found
  proven : All (λ temp. IsProven temp (c ∷ cs)) found
  covers : is_some c.temp_identity ≡ true → known_temp c.temp_name after ≡ true
  distinct : IsDistinct before → IsDistinct after

harvest_with-IsAdded :
    (identity : Option CheckpointFileIdentity) (c : Checkpoint) (cs : List Checkpoint)
    (temps : List ReclaimableTemp)
    → c.temp_identity ≡ identity
    → IsAdded c cs temps (harvest_with identity c temps)
harvest_with-IsAdded none c cs temps e = record {
  found = [];
  after_is = sym (append-nil temps);
  proven = tt;
  covers = λ h. absurd (cc);
  distinct = λ d. d;
}
harvest_with-IsAdded (some identity) c cs temps e =
    elim (Bool-cases (known_temp c.temp_name temps)) [
      | inl k ↦ rw k (record {
        found = [];
        after_is = sym (append-nil temps);
        proven = tt;
        covers = λ _. k;
        distinct = λ d. d;
      })
      | inr k ↦ rw k (record {
        found = temp_of identity c ∷ [];
        after_is = refl;
        proven = (here identity c cs e refl, tt);
        covers = λ _.
            known_temp-append c.temp_name temps (temp_of identity c ∷ [])
            ∙ rw (k, bytes_eq_refl c.temp_name) refl;
        distinct = IsDistinct-snoc (temp_of identity c) temps k;
      })
    ]

All-later :
    (c : Checkpoint) (cs : List Checkpoint) (temps : List ReclaimableTemp)
    → All (λ temp. IsProven temp cs) temps
    → All (λ temp. IsProven temp (c ∷ cs)) temps
All-later c cs [] h = tt
All-later c cs (t ∷ ts) h = (later c cs h.0, All-later c cs ts h.1)

harvest_values-IsHarvest :
    (cs : List Checkpoint) (temps : List ReclaimableTemp)
    → IsHarvest cs temps (harvest_values cs temps)
unfolding harvest_values
harvest_values-IsHarvest [] temps = record {
  found = [];
  after_is = sym (append-nil temps);
  proven = tt;
  covers = tt;
  distinct = λ d. d;
}
harvest_values-IsHarvest (c ∷ cs) temps =
    let added = harvest_with-IsAdded c.temp_identity c cs temps refl in
    let rest = harvest_values-IsHarvest cs (harvest_with c.temp_identity c temps) in
    record {
      found = added.found ++ rest.found;
      after_is =
          rest.after_is
          ∙ ap (λ t. t ++ rest.found) added.after_is
          ∙ append_assoc temps added.found rest.found;
      proven =
          All-append _ added.found rest.found added.proven (All-later c cs rest.found rest.proven);
      covers = (
        λ h.
            ap (known_temp c.temp_name) rest.after_is
            ∙ known_temp-append c.temp_name (harvest_with c.temp_identity c temps) rest.found
            ∙ rw (added.covers h) refl,
        rest.covers,
      );
      distinct = λ d. rest.distinct (added.distinct d);
    }

-- Harvesting keeps what was harvested before, and adds only temporaries that a checkpoint recorded
-- with their identity; afterwards every checkpoint with an identity has its temporary there, and no
-- name stands twice if none did. No checkpoint is left to resume from.
pub harvest_reclaimable-IsHarvest :
    (resumable : Resumable) (temps : List ReclaimableTemp)
    → ((harvest_reclaimable resumable temps).0 ≡ [])
      × IsHarvest (values resumable) temps (harvest_reclaimable resumable temps).1
unfolding harvest_reclaimable
harvest_reclaimable-IsHarvest resumable temps =
    (refl, harvest_values-IsHarvest (values resumable) temps)
