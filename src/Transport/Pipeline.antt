-- ===== src/Transport/Pipeline.antt =====
-- `transfer_pipelined` of transport.rs: a reader thread, a hash stage at local depth, and the writer,
-- which is the calling thread, over bounded channels. A turn takes one thread to its next call, a
-- schedule says whose turn it is and what the call answers. Panics and failed allocations are not
-- modelled.
pub mod Flow
pub mod Kept
pub mod Ordered
pub mod Hang
mod Examples
use bigcp.Base.{
  ℕ, zero, suc, ◌+◌, ◌-◌, ◌%◌, ◌^◌, min, max, Bool, true, false, not, ◌&&◌, ◌||◌, Option, none,
  some, List, [], ◌∷◌, ◌++◌, ltb, leb, ◌==◌, length, take, drop, Outcome, ok, err, if◌then◌else◌,
}
use bigcp.Base.Bytes.{Bytes}
use bigcp.Errors.{IoError}
use bigcp.Profile.Data.{pipeline_buffers, local_pipeline_buffers}

-- `ReadPacket`
pub data Packet : Type 0 where
  piece : Bytes → Packet
  failed : IoError → Packet
  unexpected_eof : Packet
  done : Packet

-- `PipelinedFailureKind`; the two that need a panic or a failed allocation are left out.
pub data FailureKind : Type 0 where
  canceled : FailureKind
  read_failed : IoError → FailureKind
  write_failed : IoError → FailureKind
  made_no_progress : FailureKind  -- `write` with `ErrorKind::WriteZero`
  unexpected_end : FailureKind
  reader_panicked : FailureKind  -- the channel is disconnected

-- Where each thread stands.
pub data ReaderPc : Type 0 where
  at_head : ReaderPc
  needs_buffer : ReaderPc
  reads : ReaderPc
  sends : Packet → ReaderPc
  closes : ReaderPc  -- in the blocking send of `Done`
  reader_gone : ReaderPc

pub data HasherPc : Type 0 where
  waits : HasherPc
  passes : Packet → HasherPc
  hasher_gone : HasherPc

pub data WriterPc : Type 0 where
  at_top : WriterPc
  receives : WriterPc
  writes : Bytes → WriterPc  -- what of the packet is left
  ends : Option FailureKind → WriterPc

pub record Pipe : Type 0 where
  pub rest : Bytes  -- what of the source is not yet read
  pub remaining : ℕ
  pub reader : ReaderPc
  pub free : ℕ  -- buffers in the free channel
  pub filled : List Packet
  pub hasher : HasherPc
  pub consumed : Bytes  -- what `consume` was given
  pub hashed : List Packet
  pub writer : WriterPc
  pub written : Bytes
  pub bytes_read : ℕ
  pub stopped : Bool

-- What a call or a poll answers. A read that is not at the source's end gives at least one byte.
pub data Answer : Type 0 where
  goes : ℕ → Answer
  is_canceled : Answer
  interrupted : Answer
  breaks : IoError → Answer

abbrev pub is_terminal : Packet → Bool
is_terminal (piece _) = false
is_terminal _ = true

pub data Turn : Type 0 where
  reader_goes writer_goes : Answer → Turn
  hasher_goes : Turn

abbrev pub is_reader_gone : ReaderPc → Bool
is_reader_gone reader_gone = true
is_reader_gone _ = false

abbrev pub is_hasher_gone : HasherPc → Bool
is_hasher_gone hasher_gone = true
is_hasher_gone _ = false

-- Whether `consume` has a stage of its own.
unfoldable pub is_staged : ℕ → Bool
is_staged depth = leb local_pipeline_buffers depth

-- The sizes of a transfer: the length, the request, and the depth of the channels.
module _ (full_length request_bytes depth : ℕ) where
  unfoldable pub got_bytes : ℕ → Pipe → Pipe
  unfolding is_staged
  got_bytes n s =
      let count = min (suc n) (min (min s.remaining request_bytes) (length s.rest)) in
      if count == 0 then record s { reader = sends unexpected_eof } else record s {
        rest = drop count s.rest;
        remaining = s.remaining - count;
        reader = sends (piece (take count s.rest));
        consumed = if is_staged depth then s.consumed else s.consumed ++ take count s.rest;
        bytes_read = (s.bytes_read + count) % 2 ^ 64;
      }

  -- Out of the loop, `Done` is sent if the transfer was not stopped.
  unfoldable pub leave_loop : Pipe → Pipe
  leave_loop s = record s { reader = if s.stopped then reader_gone else closes }

  unfoldable pub reader_turn : ReaderPc → Answer → Pipe → Pipe
  unfolding got_bytes leave_loop
  reader_turn at_head is_canceled s =
      if s.remaining == 0 || s.stopped
      then leave_loop s
      else record s { reader = reader_gone; stopped = true }
  reader_turn at_head _ s =
      if s.remaining == 0 || s.stopped then leave_loop s else record s { reader = needs_buffer }
  reader_turn needs_buffer _ s =
      if ltb 0 s.free
      then record s { free = s.free - 1; reader = reads }
      else if s.stopped
      then record s { reader = reader_gone }
      else s
  reader_turn reads (goes n) s = got_bytes n s
  reader_turn reads is_canceled s = record s { reader = reader_gone }
  reader_turn reads interrupted s = if s.stopped then record s { reader = reader_gone } else s
  reader_turn reads (breaks e) s = record s { reader = sends (failed e) }
  reader_turn (sends packet) _ s =
      if ltb (length s.filled) depth
      then record s {
        filled = s.filled ++ packet ∷ [];
        reader = if is_terminal packet then reader_gone else at_head;
      }
      else if s.stopped
      then record s { reader = reader_gone }
      else s
  reader_turn closes _ s =
      if ltb (length s.filled) depth
      then record s { filled = s.filled ++ done ∷ []; reader = reader_gone }
      else s
  reader_turn reader_gone _ s = s

  unfoldable pub hash_packet : Packet → List Packet → Pipe → Pipe
  hash_packet (piece bytes) others s = record s {
    filled = others;
    hasher = passes (piece bytes);
    consumed = s.consumed ++ bytes;
  }
  hash_packet packet others s = record s { filled = others; hasher = passes packet }

  unfoldable pub hasher_waits : List Packet → Pipe → Pipe
  unfolding hash_packet
  hasher_waits (packet ∷ others) s = hash_packet packet others s
  hasher_waits [] s =
      if s.stopped || is_reader_gone s.reader then record s { hasher = hasher_gone } else s

  unfoldable pub hasher_turn : HasherPc → Pipe → Pipe
  unfolding hasher_waits
  hasher_turn waits s = hasher_waits s.filled s
  hasher_turn (passes packet) s =
      if ltb (length s.hashed) depth
      then record s {
        hashed = s.hashed ++ packet ∷ [];
        hasher = if is_terminal packet then hasher_gone else waits;
      }
      else if s.stopped
      then record s { hasher = hasher_gone }
      else s
  hasher_turn hasher_gone s = s

  -- The writer leaves its loop.
  unfoldable pub end_with : Option FailureKind → Pipe → Pipe
  end_with result s = record s { writer = ends result; stopped = true }

  unfoldable pub write_packet : Packet → Pipe → Pipe
  unfolding end_with
  write_packet (piece bytes) s = record s { writer = writes bytes }
  write_packet (failed e) s = end_with (some (read_failed e)) s
  write_packet unexpected_eof s = end_with (some unexpected_end) s
  write_packet done s =
      end_with (if length s.written == full_length then none else some unexpected_end) s

  -- The queue that feeds the writer, and whether its sender is gone.
  unfoldable pub writer_receives :
      Bool → Answer → List Packet → (Packet → List Packet → Pipe) → Pipe → Pipe
  unfolding end_with
  writer_receives gone answer (packet ∷ others) take_packet s = take_packet packet others
  writer_receives gone answer [] take_packet s =
      if gone
      then end_with (some reader_panicked) s
      else (elim answer [ is_canceled ↦ end_with (some canceled) s | _ ↦ s ])

  unfoldable pub wrote_bytes : ℕ → Bytes → Pipe → Pipe
  unfolding end_with
  wrote_bytes n left s =
      let count = min n (length left) in
      if count == 0
      then end_with (some made_no_progress) s
      else record s { written = s.written ++ take count left; writer = writes (drop count left) }

  unfoldable pub writer_writes : Answer → Bytes → Pipe → Pipe
  unfolding end_with wrote_bytes
  writer_writes answer [] s = record s { free = suc s.free; writer = at_top }
  writer_writes is_canceled left s = end_with (some canceled) s
  writer_writes (goes n) left s = wrote_bytes n left s
  writer_writes interrupted left s = s
  writer_writes (breaks e) left s = end_with (some (write_failed e)) s

  unfoldable pub writer_tops : Answer → Pipe → Pipe
  unfolding end_with
  writer_tops answer s =
      if ltb (length s.written) full_length
      then (elim answer [
        | is_canceled ↦ end_with (some canceled) s
        | _ ↦ record s { writer = receives }
      ])
      else end_with none s

  unfoldable pub writer_turn : WriterPc → Answer → Pipe → Pipe
  unfolding writer_tops writer_receives writer_writes write_packet is_staged
  writer_turn at_top answer s = writer_tops answer s
  writer_turn receives answer s =
      if is_staged depth
      then writer_receives (is_hasher_gone s.hasher) answer s.hashed
          (λ packet others. write_packet packet (record s { hashed = others })) s
      else writer_receives (is_reader_gone s.reader) answer s.filled
          (λ packet others. write_packet packet (record s { filled = others })) s
  writer_turn (writes left) answer s = writer_writes answer left s
  writer_turn (ends result) answer s = s

  unfoldable pub turn : Turn → Pipe → Pipe
  unfolding reader_turn hasher_turn writer_turn
  turn (reader_goes answer) s = reader_turn s.reader answer s
  turn (writer_goes answer) s = writer_turn s.writer answer s
  turn hasher_goes s = hasher_turn s.hasher s

  unfoldable pub run_pipe : List Turn → Pipe → Pipe
  unfolding turn
  run_pipe [] s = s
  run_pipe (t ∷ ts) s = run_pipe ts (turn t s)

-- `depth.clamp` and `request_bytes.max(1)`
unfoldable pub effective_depth : ℕ → ℕ
effective_depth depth = min (max depth pipeline_buffers) local_pipeline_buffers

unfoldable pub start_pipe : (source : Bytes) (full_length depth : ℕ) → Pipe
start_pipe source full_length depth = record {
  rest = source;
  remaining = full_length;
  reader = at_head;
  free = depth;
  filled = [];
  hasher = if is_staged depth then waits else hasher_gone;
  consumed = [];
  hashed = [];
  writer = at_top;
  written = [];
  bytes_read = 0;
  stopped = false;
}

-- `PipelinedTransfer`
pub record Transferred : Type 0 where
  pub bytes_read : ℕ
  pub bytes_written : ℕ

-- The pipeline that a call of `transfer_pipelined` sets up, after some turns.
unfoldable pub transfer_pipelined :
    (source : Bytes) (full_length request_bytes depth : ℕ) → List Turn → Pipe
unfolding effective_depth
transfer_pipelined source full_length request_bytes depth schedule =
    run_pipe full_length (max request_bytes 1) (effective_depth depth) schedule
      (start_pipe source full_length (effective_depth depth))

-- What the call returns once the writer has left its loop and has joined the other threads.
unfoldable pub returned : Pipe → Option (Outcome (FailureKind × Transferred) Transferred)
returned s =
    let transfer : Transferred = record {
      bytes_read = s.bytes_read;
      bytes_written = length s.written;
    } in
    elim s.writer [
      | ends result ↦
          if is_reader_gone s.reader && is_hasher_gone s.hasher
          then some (elim result [ none ↦ ok transfer | some kind ↦ err (kind, transfer) ])
          else none
      | _ ↦ none
    ]
