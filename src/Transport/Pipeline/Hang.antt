-- ===== src/Transport/Pipeline/Hang.antt =====
-- A pipeline that never returns: the reader is in the blocking send of its last mark when the writer
-- has left.
use bigcp.Base.{
  ℕ, ◌≡◌, refl, ap, ◌∙◌, Option, none, some, List, [], ◌∷◌, ◌++◌, arith, length, not_ltb,
}
use bigcp.Transport.Pipeline.{
  FailureKind, canceled, closes, hasher_gone, ends, Pipe, goes, is_canceled, Turn, reader_goes,
  writer_goes, hasher_goes, reader_turn, hasher_turn, writer_turn, turn, run_pipe, start_pipe,
  transfer_pipelined, returned, is_staged, effective_depth,
}

-- The channel is full, and no thread is left that would empty it.
record IsStuck (depth : ℕ) (s : Pipe) : Type 0 where
  result : Option FailureKind
  closing : s.reader ≡ closes
  full : length s.filled ≡ depth
  no_stage : s.hasher ≡ hasher_gone
  left : s.writer ≡ ends result

module _ (full_length request_bytes depth : ℕ) where
  turn-IsStuck :
      (t : Turn) (s : Pipe) → IsStuck depth s → turn full_length request_bytes depth t s ≡ s
  unfolding turn
  turn-IsStuck (reader_goes answer) s h =
      ap (λ pc. reader_turn full_length request_bytes depth pc answer s) h.closing
      ∙ rw (not_ltb (length s.filled) depth (omega (arith, h.full))) refl
  turn-IsStuck (writer_goes answer) s h =
      ap (λ pc. writer_turn full_length request_bytes depth pc answer s) h.left
  turn-IsStuck hasher_goes s h =
      ap (λ pc. hasher_turn full_length request_bytes depth pc s) h.no_stage

  run_pipe-IsStuck :
      (schedule : List Turn) (s : Pipe)
      → IsStuck depth s
      → run_pipe full_length request_bytes depth schedule s ≡ s
  unfolding run_pipe
  run_pipe-IsStuck [] s h = refl
  run_pipe-IsStuck (t ∷ ts) s h = rw (turn-IsStuck t s h) (run_pipe-IsStuck ts s h)

  run_pipe-append :
      (first later : List Turn) (s : Pipe)
      → run_pipe full_length request_bytes depth (first ++ later) s
        ≡ run_pipe full_length request_bytes depth later
            (run_pipe full_length request_bytes depth first s)
  unfolding run_pipe
  run_pipe-append [] later s = refl
  run_pipe-append (t ∷ ts) later s =
      run_pipe-append ts later (turn full_length request_bytes depth t s)

-- The reader takes one byte from the source to the channel.
abbrev one_byte : List Turn
one_byte =
    reader_goes (goes 0) ∷ reader_goes (goes 0) ∷ reader_goes (goes 0) ∷ reader_goes (goes 0) ∷ []

-- Two bytes are read and sent, the reader closes, and the writer finds the run canceled at its first
-- poll.
abbrev pub cancel_at_close : List Turn
cancel_at_close = one_byte ++ (one_byte ++ reader_goes (goes 0) ∷ writer_goes is_canceled ∷ [])

module _ (a b : ℕ) where
  stuck : Pipe
  unfolding run_pipe start_pipe is_staged
  stuck = run_pipe 2 1 2 cancel_at_close (start_pipe (a ∷ b ∷ []) 2 2)

  stuck-IsStuck : IsStuck 2 stuck
  unfolding stuck run_pipe start_pipe is_staged
  stuck-IsStuck = record {
    result = some canceled;
    closing = refl;
    full = refl;
    no_stage = refl;
    left = refl;
  }

  stuck-returned : returned stuck ≡ none
  unfolding stuck run_pipe start_pipe is_staged returned
  stuck-returned = refl

-- A canceled transfer over a redirector need not return. With two requests to read, there is a start of
-- a schedule after which, whatever the rest of it is, the call does not return.
pub canceled-hangs :
    (a b : ℕ) (later : List Turn)
    → returned (transfer_pipelined (a ∷ b ∷ []) 2 1 2 (cancel_at_close ++ later)) ≡ none
unfolding transfer_pipelined effective_depth run_pipe stuck
canceled-hangs a b later =
    ap returned (
      run_pipe-append 2 1 2 cancel_at_close later (start_pipe (a ∷ b ∷ []) 2 2)
      ∙ run_pipe-IsStuck 2 1 2 later (stuck a b) (stuck-IsStuck a b))
    ∙ stuck-returned a b
