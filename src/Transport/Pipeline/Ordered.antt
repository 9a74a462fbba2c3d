-- ===== src/Transport/Pipeline/Ordered.antt =====
-- What the pipeline has written, whatever the schedule.
use bigcp.Base.{
  ℕ, ◌^◌, ◌≤◌, ◌<◌, ◌≡◌, refl, sym, ap, subst, ◌∙◌, Bool, true, false, none, List, [], ◌∷◌, ◌++◌,
  append-nil, arith, length, take, max, take-length-append, length-append,
}
use bigcp.Base.Bytes.{Bytes}
use bigcp.Transport.Pipeline.{
  Pipe, Turn, reader_goes, writer_goes, hasher_goes, is_staged, turn, run_pipe, start_pipe,
  effective_depth, transfer_pipelined, ends, hasher_turn, hasher_gone,
}
use bigcp.Transport.Pipeline.Kept.{Kept}
use bigcp.Transport.Pipeline.Kept.Reader.{reader_turn-Kept}
use bigcp.Transport.Pipeline.Kept.Writer.{writer_turn-Kept}
use bigcp.Transport.Pipeline.Kept.Hasher.{hasher_turn-Kept}

module _ (source : Bytes) (full_length request_bytes depth : ℕ) (small : full_length < 2 ^ 64) where
  -- Without a stage its turns do nothing.
  idle_turn :
      (s : Pipe)
      → s.hasher ≡ hasher_gone
      → Kept source full_length false s
      → Kept source full_length false (hasher_turn full_length request_bytes depth s.hasher s)
  unfolding hasher_turn
  idle_turn s e i =
      subst (λ pc. Kept source full_length false (hasher_turn full_length request_bytes depth pc s))
        (sym e) i

  turn-Kept :
      (staged : Bool) (t : Turn) (s : Pipe)
      → is_staged depth ≡ staged
      → Kept source full_length staged s
      → Kept source full_length staged (turn full_length request_bytes depth t s)
  unfolding turn
  turn-Kept staged (reader_goes answer) s mode i =
      reader_turn-Kept source full_length request_bytes depth small staged mode s.reader answer s
        refl i
  turn-Kept staged (writer_goes answer) s mode i =
      writer_turn-Kept source full_length request_bytes depth staged s.writer answer s mode refl i
  turn-Kept true hasher_goes s mode i =
      hasher_turn-Kept source full_length request_bytes depth s.hasher s refl i
  turn-Kept false hasher_goes s mode i = idle_turn s i.middle.0 i

  run_pipe-Kept :
      (staged : Bool) (schedule : List Turn) (s : Pipe)
      → is_staged depth ≡ staged
      → Kept source full_length staged s
      → Kept source full_length staged (run_pipe full_length request_bytes depth schedule s)
  unfolding run_pipe
  run_pipe-Kept staged [] s mode i = i
  run_pipe-Kept staged (t ∷ ts) s mode i =
      run_pipe-Kept staged ts _ mode (turn-Kept staged t s mode i)

start_pipe-Kept :
    (source : Bytes) (full_length depth : ℕ) (staged : Bool)
    → is_staged depth ≡ staged
    → Kept source full_length staged (start_pipe source full_length depth)
unfolding start_pipe
start_pipe-Kept source full_length depth true mode = rw mode (record {
  line = [];
  dropped = [];
  upstream = [];
  pending = [];
  behind = refl;
  ahead = refl;
  write_live = λ _. refl;
  middle = λ _. (refl, refl);
  read_live = λ _. refl;
  counts = record { counted = omega arith; measured = omega arith };
  complete = λ h. absurd (cc);
})
start_pipe-Kept source full_length depth false mode = rw mode (record {
  line = [];
  dropped = [];
  upstream = [];
  pending = [];
  behind = refl;
  ahead = refl;
  write_live = λ _. refl;
  middle = (refl, refl, refl);
  read_live = λ _. refl;
  counts = record { counted = omega arith; measured = omega arith };
  complete = λ h. absurd (cc);
})

-- What holds of a pipeline at any time.
pub record Ordered (source : Bytes) (full_length : ℕ) (s : Pipe) : Type 0 where
  pub unwritten : Bytes
  pub unread : Bytes
  pub written_first : s.written ++ unwritten ≡ s.consumed
  pub consumed_first : s.consumed ++ unread ≡ source
  pub read_enough : length s.consumed ≤ s.bytes_read
  pub read_bounded : s.bytes_read ≤ full_length
  pub succeeds :
      s.writer ≡ ends none
      → (s.written ≡ take full_length source)
        × (s.consumed ≡ take full_length source)
        × (s.bytes_read ≡ full_length)
        × (length s.consumed ≡ full_length)
        × (s.consumed ++ s.rest ≡ source)

nil_of_length : (l : Bytes) → length l ≡ 0 → l ≡ []
nil_of_length [] e = refl
nil_of_length (b ∷ bs) e = absurd (omega arith)

prefix_of_length :
    (n : ℕ) (whole front back : Bytes)
    → front ++ back ≡ whole
    → length front ≡ n
    → front ≡ take n whole
prefix_of_length n whole front back e h = rw (← e, ← h) (sym (take-length-append front back))

Kept-Ordered :
    (source : Bytes) (full_length : ℕ) (staged : Bool) (s : Pipe)
    → Kept source full_length staged s
    → Ordered source full_length s
Kept-Ordered source full_length staged s i =
    let ahead = ap length i.ahead in
    let behind = ap length i.behind in
    let lengths_ahead = length-append s.consumed (i.upstream ++ s.rest) in
    let lengths_up = length-append i.upstream s.rest in
    let lengths_behind = length-append s.written i.line in
    let enough : length s.consumed ≤ s.bytes_read = omega (arith, i.counts.measured) in
    let bounded : s.bytes_read ≤ full_length = omega (arith, i.counts.counted) in
    record {
      unwritten = i.line;
      unread = i.upstream ++ s.rest;
      written_first = i.behind;
      consumed_first = i.ahead;
      read_enough = enough;
      read_bounded = bounded;
      succeeds = λ ended.
          let all = i.complete ended in
          let no_line : i.line ≡ [] = nil_of_length i.line (omega arith) in
          let same : s.written ≡ s.consumed =
            sym (append-nil s.written) ∙ ap (λ l. s.written ++ l) (sym no_line) ∙ i.behind in
          let taken : s.consumed ≡ take full_length source =
            prefix_of_length full_length source s.consumed (i.upstream ++ s.rest) i.ahead
              (omega arith) in
          let none_upstream : i.upstream ≡ [] =
            nil_of_length i.upstream (omega (arith, i.counts.measured)) in
          (
            same ∙ taken,
            taken,
            omega arith,
            omega arith,
            ap (λ u. s.consumed ++ (u ++ s.rest)) (sym none_upstream) ∙ i.ahead,
          );
    }

-- Of a transfer of fewer than 2 ^ 64 bytes, at any time, whatever the schedule, the sizes of the
-- buffers and the answers of the calls: the written bytes are a prefix of the hashed ones, those a
-- prefix of the source, no more than the bytes that are counted as read, and those no more than the
-- length. If the writer ends with success, exactly the first bytes of the source, as many as the
-- length, were read, hashed and written, and the others are left in it.
pub transfer_pipelined-Ordered :
    (source : Bytes) (full_length request_bytes depth : ℕ) (schedule : List Turn)
    → full_length < 2 ^ 64
    → Ordered source full_length
        (transfer_pipelined source full_length request_bytes depth schedule)
unfolding transfer_pipelined
transfer_pipelined-Ordered source full_length request_bytes depth schedule small =
    let deep = effective_depth depth in
    Kept-Ordered source full_length (is_staged deep) _ (
      run_pipe-Kept source full_length (max request_bytes 1) deep small (is_staged deep) schedule _
        refl (start_pipe-Kept source full_length deep (is_staged deep) refl))
