-- ===== src/Coordinator/Dispatch/Safe.antt =====
-- What a worker may copy on its own: nothing that needs the coordinator's journal.
use bigcp.Base.{
  ℕ, ◌≤◌, ◌<◌, min, ◌≡◌, refl, inl, inr, Bool, true, false, some, List, [], ◌∷◌, arith, leb, any,
  Bool-cases,
}
use bigcp.Engine.Routing.{
  StreamInfo, StreamRouting, representable, largest_size, route_streams, is_promoted,
}
use bigcp.Coordinator.Dispatch.{
  DispatchFacts, WorkerDispatch, is_redirector, stays_inline, promote_threshold_of, worker_dispatch,
}

-- No stream is above the largest.
small_streams :
    (unnamed_size bound : ℕ) (streams : List StreamInfo)
    → largest_size unnamed_size streams < bound
    → any (λ stream. leb bound stream.size) streams ≡ false
unfolding largest_size
small_streams unnamed_size bound [] h = refl
small_streams unnamed_size bound (stream ∷ []) h = ground arith
small_streams unnamed_size bound (stream ∷ next ∷ streams) h =
    let rest = small_streams unnamed_size bound (next ∷ streams) (omega arith) in ground arith

-- With a journal, the threshold of a promotion is at most that of checkpoints.
threshold_low :
    (f : DispatchFacts) (d : WorkerDispatch)
    → worker_dispatch f ≡ some d
    → f.journal_available ≡ true
    → (t : ℕ) × (d.promote_threshold ≡ some t) × (t ≤ f.checkpoint_threshold)
unfolding worker_dispatch promote_threshold_of
threshold_low f d e j = elim (Bool-cases (stays_inline f)) [
  | inl inline ↦ absurd (let bad = rw inline at e in cc)
  | inr goes ↦ elim (Bool-cases (is_redirector f.transport)) [
    | inl redirected ↦ (f.checkpoint_threshold, ground (arith, e, goes), omega arith)
    | inr plain ↦
        (min f.large_threshold f.checkpoint_threshold, ground (arith, e, goes), omega arith)
  ]
]

kept_below :
    (t : ℕ) (routing : StreamRouting)
    → is_promoted (some t) routing ≡ false
    → routing.largest_representable < t
unfolding is_promoted
kept_below t routing e = ground arith

-- Of a file that was dispatched to a worker while a journal is kept, and that the worker did not give
-- back when it saw the streams: no stream that the destination can hold reaches the checkpoint
-- threshold, so no checkpoint is lost.
pub dispatched-not_eligible :
    (f : DispatchFacts) (d : WorkerDispatch) (streams : List StreamInfo) (supports : Bool)
    → worker_dispatch f ≡ some d
    → is_promoted d.promote_threshold
        (route_streams streams f.unnamed_size supports f.journal_available f.checkpoint_threshold)
      ≡ false
    → (route_streams streams f.unnamed_size supports f.journal_available
        f.checkpoint_threshold).checkpoint_eligible
      ≡ false
unfolding route_streams
dispatched-not_eligible f d streams supports e kept = elim (Bool-cases f.journal_available) [
  | inr missing ↦ rw missing refl
  | inl present ↦
      let (t, low, bound) = threshold_low f d e present in
      let below : largest_size f.unnamed_size (representable supports streams) < t =
        kept_below t
          (route_streams streams f.unnamed_size supports f.journal_available f.checkpoint_threshold)
          (let test = rw low at kept in test) in
      rw present (
        small_streams f.unnamed_size f.checkpoint_threshold (representable supports streams)
          (omega arith))
]
