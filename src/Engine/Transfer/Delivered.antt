-- ===== src/Engine/Transfer/Delivered.antt =====
-- A segment that is transferred with success, through any transport.
use bigcp.Base.{
  ℕ, ◌^◌, ◌<◌, min, ◌≡◌, refl, sym, ap, subst, ◌∙◌, ◌⊎◌, inl, inr, Bool, true, false, Option, none,
  some, List, [], ◌++◌, append-nil, ok, err, arith, ◌==◌, length, Bool-cases, ==_iff, if◌then◌else◌,
}
use bigcp.Base.Bytes.{Bytes}
use bigcp.Transport.Burst.{Call, Phase, read_from, write_to, buffer_capacity}
use bigcp.Transport.Burst.Phases.{read_from-IsRead, write_to-IsWritten}
use bigcp.Engine.Transfer.{
  StreamBuffers, standard, pipelined, same_spindle, Moving, feed, Script, SegmentResult, Messages,
  burst_writes, same_spindle_burst, transfer_segment, stream_buffers, for_unnamed_stream,
}
use bigcp.Engine.Transfer.Moved.{Moved, Delivers, standard_loop-Advances, Advances-Delivers}
use bigcp.Engine.Transfer.Piped.{pipelined_segment-Delivers}

abbrev pub HasBuffer : StreamBuffers → Type 0
HasBuffer (standard _) = Unit
HasBuffer (pipelined _ _) = Unit
HasBuffer (same_spindle capacity _) = 0 < capacity

-- Of a burst: a success has moved what was asked.
abbrev Written : (n : ℕ) → Moving → SegmentResult → Type 0
Written n m none = Unit
Written n m (some (err _, _)) = Unit
Written n m (some (ok k, after)) = (k ≡ n) × Moved n m after

Written-Delivers :
    (bound capacity : ℕ) (m : Moving) (r : SegmentResult)
    → 0 < capacity
    → Written (min bound capacity) m r
    → Delivers bound m r
Written-Delivers bound capacity m none positive h = tt
Written-Delivers bound capacity m (some (err _, _)) positive h = tt
Written-Delivers bound capacity m (some (ok n, after)) positive (e, moved) = (
  subst (λ (j : ℕ). Moved j m after) (sym e) moved,
  omega (arith, e),
  λ some_bytes. omega (arith, e, positive, some_bytes),
)

module _ (messages : Messages) where
  -- The write phase of a burst whose buffer is full.
  burst_writes-Moved :
      (n : ℕ) (before m : Moving) (buffer : Bytes) (calls : List Call) (request_bytes : ℕ)
      (p : Phase)
      → write_to request_bytes 0 calls buffer m.file ≡ p
      → length buffer ≡ n
      → buffer ++ m.rest ≡ before.rest
      → m.file ≡ before.file
      → m.hasher ≡ before.hasher
      → Written n before (burst_writes messages buffer p m)
  unfolding burst_writes
  burst_writes-Moved n before m buffer calls request_bytes none e l source file hasher = tt
  burst_writes-Moved n before m buffer calls request_bytes (some (err (cause, _), _, _)) e l source
        file hasher =
      tt
  burst_writes-Moved n before m buffer calls request_bytes (some (ok k, kept, after)) e l source
        file hasher =
      let w = write_to-IsWritten request_bytes calls buffer m.file (ok k, kept, after) e in
      let empty : kept ≡ [] = w.complete k refl in
      let put : w.put ≡ buffer =
        sym (append-nil w.put) ∙ ap (λ x. w.put ++ x) (sym empty) ∙ w.kept in
      (
        omega (arith, w.count, ap length put, l),
        record {
          got = buffer;
          count = l;
          source = source;
          file = w.grown ∙ ap (λ x. m.file ++ x) put ∙ ap (λ f. f ++ buffer) file;
          hashed = ap (λ h. feed h buffer) hasher;
        },
      )

  same_spindle_burst-Written :
      (request_bytes requested : ℕ) (read_calls write_calls : List Call) (m : Moving) (p : Phase)
      → read_from request_bytes requested read_calls [] m.rest ≡ p
      → Written requested m (same_spindle_burst messages request_bytes requested p write_calls m)
  unfolding same_spindle_burst
  same_spindle_burst-Written request_bytes requested read_calls write_calls m none e = tt
  same_spindle_burst-Written request_bytes requested read_calls write_calls m
        (some (err (cause, _), _, rest)) e =
      tt
  same_spindle_burst-Written request_bytes requested read_calls write_calls m
        (some (ok n, buffer, rest)) e =
      let r = read_from-IsRead request_bytes requested read_calls m.rest (ok n, buffer, rest) e in
      elim (Bool-cases (n == requested)) [
        | inl full ↦ rw full (
            burst_writes-Moved requested m (record m { rest = rest }) buffer write_calls
              request_bytes _ refl (sym r.count ∙ (==_iff n requested).0 full)
              (ap (λ x. x ++ rest) r.buffer ∙ r.kept) refl refl)
        | inr short ↦ rw short tt
      ]

  usable-Delivers :
      (buffers : StreamBuffers) (script : Script buffers) (bound : ℕ) (m : Moving)
      → bound < 2 ^ 64
      → HasBuffer buffers
      → Delivers bound m (transfer_segment messages buffers script bound m)
  unfolding transfer_segment
  usable-Delivers (standard buffer_len) rounds bound m small usable =
      Advances-Delivers bound m _
        (standard_loop-Advances messages buffer_len bound rounds 0 m (omega arith))
  usable-Delivers (pipelined request_bytes depth) schedule bound m small usable =
      pipelined_segment-Delivers messages request_bytes depth schedule bound m small
  usable-Delivers (same_spindle capacity request_bytes) (read_calls, write_calls) bound m small
        usable =
      Written-Delivers bound capacity m _ usable (
        same_spindle_burst-Written request_bytes (min bound capacity) read_calls write_calls m _
          refl)

-- The buffers that a stream is given have room.
abbrev Room : Option StreamBuffers → Type 0
Room none = Unit
Room (some buffers) = HasBuffer buffers

if_Room : (b : Bool) (x y : Option StreamBuffers) → Room x → Room y → Room (if b then x else y)
if_Room true x y h k = h
if_Room false x y h k = k

module _ (is_same_spindle is_redirector : Bool)
    (burst_bytes burst_request request_bytes remaining : ℕ) where
  stream_buffers-Room : Room (
      stream_buffers is_same_spindle is_redirector burst_bytes burst_request request_bytes
        remaining)
  unfolding stream_buffers buffer_capacity
  stream_buffers-Room =
      if_Room is_same_spindle _ _ (omega arith)
        (if_Room is_redirector _ _ tt (if_Room (request_bytes == 0) none _ tt tt))

  for_unnamed_stream-Room : Room (
      for_unnamed_stream is_same_spindle is_redirector burst_bytes burst_request request_bytes
        remaining)
  unfolding for_unnamed_stream
  for_unnamed_stream-Room =
      if_Room is_same_spindle _ _ stream_buffers-Room (if_Room (request_bytes == 0) none _ tt tt)

  -- Any segment that is transferred with success, through the transport that a stream of
  -- either kind is given, whatever its answers and its schedule,
  -- has moved at most `bound` bytes and at least one if `bound` is not 0: the count that is returned is
  -- that of the bytes that left the front of the source, and the destination and the hasher got just
  -- these, in order. The segment is shorter than 2 ^ 64.
  pub transfer_segment-Delivers :
      (messages : Messages) (buffers : StreamBuffers) (script : Script buffers) (bound : ℕ)
      (m : Moving)
      → bound < 2 ^ 64
      → (stream_buffers is_same_spindle is_redirector burst_bytes burst_request request_bytes
            remaining
          ≡ some buffers)
        ⊎ (for_unnamed_stream is_same_spindle is_redirector burst_bytes burst_request request_bytes
              remaining
            ≡ some buffers)
      → Delivers bound m (transfer_segment messages buffers script bound m)
  transfer_segment-Delivers messages buffers script bound m small (inl chosen) =
      usable-Delivers messages buffers script bound m small (subst Room chosen stream_buffers-Room)
  transfer_segment-Delivers messages buffers script bound m small (inr chosen) =
      usable-Delivers messages buffers script bound m small
        (subst Room chosen for_unnamed_stream-Room)
