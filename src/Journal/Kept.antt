-- ===== src/Journal/Kept.antt =====
-- What every journal keeps to that the program can get hold of: its checkpoints are in order, each
-- under its own key, and the record it keeps for compaction is that of a job.
pub mod Loading
pub mod Opening
pub mod Reachable
use bigcp.Base.{
  ◌≡◌, refl, sym, ap, Bool, true, false, not, [], ◌∷◌, All, arith, if◌then◌else◌, Bool-cases, inl,
  inr, ◌⊎◌,
}
use bigcp.Base.Bytes.{Bytes, bytes_eq}
use bigcp.Base.TreeMap.{
  Ord, TreeMap, bytes_ord, pair_ord, insert, retain, insert-IsSorted, retain-IsSorted,
}
use bigcp.Journal.{
  Checkpoint, JournalEvent, job, checkpoint, part_done, end, Resumable, checkpoint_key,
}
use bigcp.Journal.Replay.{LoadedState, retire, apply_event, harvest_reclaimable, signature_changed}
use bigcp.Journal.Compact.Restore.{IsKept}

module _ {K V : Type 0} ⦃o : Ord K⦄ (P : K × V → Type 0) where
  All-insert : (k : K) (v : V) (m : TreeMap K V) → P (k, v) → All P m → All P (insert k v m)
  unfolding insert
  All-insert k v [] p h = (p, tt)
  All-insert k v ((i, w) ∷ m) p h = ground (arith, All-insert k v m)

  All-retain : (p : K → Bool) (m : TreeMap K V) → All P m → All P (retain p m)
  unfolding retain
  All-retain p [] h = tt
  All-retain p ((i, w) ∷ m) h = ground (arith, All-retain p m)

pub IsKept-insert :
    (c : Checkpoint) (m : Resumable) → IsKept m → IsKept (insert (checkpoint_key c) c m)
IsKept-insert c m kept = (
  insert-IsSorted (checkpoint_key c) c m kept.0,
  All-insert (λ e. e.0 ≡ checkpoint_key e.1) (checkpoint_key c) c m refl kept.1,
)

pub IsKept-retire : (path : Bytes) (m : Resumable) → IsKept m → IsKept (retire path m)
unfolding retire
IsKept-retire path m kept =
    (retain-IsSorted _ m kept.0, All-retain (λ e. e.0 ≡ checkpoint_key e.1) _ m kept.1)

pub apply_event-IsKept :
    (event : JournalEvent) (state : LoadedState)
    → IsKept state.resumable
    → IsKept (apply_event event state).resumable
unfolding apply_event harvest_reclaimable
apply_event-IsKept (job r s d o t) state kept =
    elim (Bool-cases (
      signature_changed state.active_job
        (record { source = s; destination = d; options_hash = o }))) [
          | inl e ↦ rw e (tt, tt)
          | inr e ↦ rw e kept
        ]
apply_event-IsKept (checkpoint c) state kept = IsKept-insert c state.resumable kept
apply_event-IsKept (part_done path) state kept = IsKept-retire path state.resumable kept
apply_event-IsKept (end r) state kept = kept
