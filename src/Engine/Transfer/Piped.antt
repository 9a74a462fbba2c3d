-- ===== src/Engine/Transfer/Piped.antt =====
-- A segment that the pipeline transfers.
use bigcp.Base.{
  ℕ, ◌^◌, ◌<◌, ◌≡◌, refl, sym, ap, ◌∙◌, Bool, true, false, Option, none, some, List, ◌++◌, Outcome,
  ok, err, arith, length, ◌&&◌, if◌then◌else◌,
}
use bigcp.Transport.Pipeline.{
  FailureKind, Transferred, Pipe, Turn, WriterPc, at_top, receives, writes, ends, is_reader_gone,
  is_hasher_gone, transfer_pipelined, returned,
}
use bigcp.Transport.Pipeline.Ordered.{Ordered, transfer_pipelined-Ordered}
use bigcp.Engine.Transfer.{pipelined, Moving, feed, Messages, pipelined_segment, transfer_segment}
use bigcp.Engine.Transfer.Moved.{Delivers}

-- A success that is reported is the writer's.
reported :
    (pc : WriterPc) (joined : Bool) (x t : Transferred)
    → (elim pc as (λ _. Option (Outcome (FailureKind × Transferred) Transferred)) [
      | ends result ↦
          if joined then some (elim result [ none ↦ ok x | some kind ↦ err (kind, x) ]) else none
      | _ ↦ none
    ])
      ≡ some (ok t)
    → (pc ≡ ends none) × (x ≡ t)
reported (ends none) true x t e = (refl, cc)
reported (ends none) false x t e = absurd (cc)
reported (ends (some kind)) true x t e = absurd (cc)
reported (ends (some kind)) false x t e = absurd (cc)
reported at_top joined x t e = absurd (cc)
reported receives joined x t e = absurd (cc)
reported (writes left) joined x t e = absurd (cc)

pipe_returned :
    (pipe : Pipe) (t : Transferred)
    → returned pipe ≡ some (ok t)
    → (pipe.writer ≡ ends none) × (length pipe.written ≡ t.bytes_written)
unfolding returned
pipe_returned pipe t e =
    let both =
      reported pipe.writer (is_reader_gone pipe.reader && is_hasher_gone pipe.hasher) _ t e in
    (both.0, ap (λ (x : Transferred). x.bytes_written) both.1)

module _ (messages : Messages) where
  returned-Delivers :
      (bound : ℕ) (m : Moving) (pipe : Pipe)
      → Ordered m.rest bound pipe
      → (r : Option (Outcome (FailureKind × Transferred) Transferred)) → returned pipe ≡ r
      → Delivers bound m (
          pipelined_segment messages r (record m {
            rest = pipe.rest;
            file = m.file ++ pipe.written;
            hasher = feed m.hasher pipe.consumed;
          }))
  unfolding pipelined_segment
  returned-Delivers bound m pipe order none e = tt
  returned-Delivers bound m pipe order (some (err (kind, _))) e = tt
  returned-Delivers bound m pipe order (some (ok t)) e =
      let back = pipe_returned pipe t e in
      let (wrote, consumed, _, count, left) = order.succeeds back.0 in
      let same : pipe.written ≡ pipe.consumed = wrote ∙ sym consumed in
      let counted : t.bytes_written ≡ bound = sym back.1 ∙ ap length same ∙ count in
      (
        record {
          got = pipe.consumed;
          count = count ∙ sym counted;
          source = left;
          file = ap (λ w. m.file ++ w) same;
          hashed = refl;
        },
        omega (arith, counted),
        λ positive. omega (arith, counted, positive),
      )

  pub pipelined_segment-Delivers :
      (request_bytes depth : ℕ) (schedule : List Turn) (bound : ℕ) (m : Moving)
      → bound < 2 ^ 64
      → Delivers bound m
          (transfer_segment messages (pipelined request_bytes depth) schedule bound m)
  unfolding transfer_segment
  pipelined_segment-Delivers request_bytes depth schedule bound m small =
      let pipe = transfer_pipelined m.rest bound request_bytes depth schedule in
      let order = transfer_pipelined-Ordered m.rest bound request_bytes depth schedule small in
      returned-Delivers bound m pipe order (returned pipe) refl
