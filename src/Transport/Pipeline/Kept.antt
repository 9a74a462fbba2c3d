-- ===== src/Transport/Pipeline/Kept.antt =====
-- What every turn of the pipeline keeps, whether or not `consume` has a stage of its own.
pub mod Reader
pub mod Writer
pub mod Hasher
use bigcp.Base.{
  ℕ, zero, suc, ◌+◌, ◌-◌, ◌%◌, ◌^◌, ◌≤◌, ◌<◌, min, ◌≡◌, refl, sym, ap, ◌∙◌, Bool, true, false, ◌||◌,
  Option, none, some, List, [], ◌∷◌, ◌++◌, append-nil, append_assoc, arith, ltb, leb, ◌==◌, length,
  take, drop, take-append-drop, length-append, length-take, length-drop, Bool-cases, if◌then◌else◌,
}
use bigcp.Base.Bytes.{Bytes}
use bigcp.Errors.{IoError}
use bigcp.Transport.Pipeline.{
  Packet, piece, failed, unexpected_eof, done, FailureKind, canceled, ReaderPc, at_head,
  needs_buffer, reads, sends, closes, reader_gone, HasherPc, waits, passes, hasher_gone, WriterPc,
  at_top, receives, writes, ends, Pipe, Answer, goes, is_canceled, interrupted, breaks,
  is_reader_gone, is_hasher_gone, is_terminal, Turn, reader_goes, writer_goes, hasher_goes,
  is_staged, got_bytes, leave_loop, reader_turn, hasher_turn, writer_turn, turn, run_pipe,
  start_pipe, end_with, write_packet, writer_receives, wrote_bytes, writer_writes, writer_tops,
}
use bigcp.Transport.Pipeline.Flow.{
  packet_bytes, pieces, reader_hand, hasher_hand, writer_hand, has_ended, pieces-snoc, Counts,
}

-- The channel that feeds the writer.
abbrev pub queue : Bool → (filled hashed : List Packet) → List Packet
queue true filled hashed = hashed
queue false filled hashed = filled

-- Between the reader and the writer: what the hash stage holds, and what has not reached it. Without
-- a stage there is nothing but the reader's packet.
abbrev pub Middle :
    Bool → HasherPc → (filled : List Packet) → (dropped upstream pending : Bytes) → Type 0
Middle true hasher filled dropped upstream pending =
    is_hasher_gone hasher ≡ false
    → (dropped ≡ hasher_hand hasher) × (upstream ≡ pieces filled ++ pending)
Middle false hasher filled dropped upstream pending =
    (hasher ≡ hasher_gone) × (dropped ≡ pending) × (upstream ≡ [])

module _ (source : Bytes) (full_length : ℕ) (staged : Bool) where
  -- `line` goes to the writer, `dropped` reached the hash stage, `upstream` did not, `pending` is with
  -- the reader. A thread that is gone feeds no other, so what it held is cut off.
  pub record Kept (s : Pipe) : Type 0 where
    pub line : Bytes
    pub dropped : Bytes
    pub upstream : Bytes
    pub pending : Bytes
    pub behind : s.written ++ line ≡ s.consumed
    pub ahead : s.consumed ++ (upstream ++ s.rest) ≡ source
    pub write_live :
        has_ended s.writer ≡ false
        → line ≡ writer_hand s.writer ++ (pieces (queue staged s.filled s.hashed) ++ dropped)
    pub middle : Middle staged s.hasher s.filled dropped upstream pending
    pub read_live : is_reader_gone s.reader ≡ false → pending ≡ reader_hand s.reader
    pub counts : Counts source full_length s
    pub complete : s.writer ≡ ends none → full_length ≤ length s.written

  pub if_Kept :
      (b : Bool) (x y : Pipe)
      → (b ≡ true → Kept x)
      → (b ≡ false → Kept y)
      → Kept (if b then x else y)
  if_Kept true x y f g = f refl
  if_Kept false x y f g = g refl
