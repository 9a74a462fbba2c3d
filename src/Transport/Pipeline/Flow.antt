-- ===== src/Transport/Pipeline/Flow.antt =====
-- The bytes on their way through the pipeline.
use bigcp.Base.{
  ℕ, ◌+◌, ◌≡◌, sym, Bool, true, false, List, [], ◌∷◌, ◌++◌, append-nil, append_assoc, length,
}
use bigcp.Base.Bytes.{Bytes}
use bigcp.Transport.Pipeline.{
  Packet, piece, failed, unexpected_eof, done, ReaderPc, at_head, needs_buffer, reads, sends,
  closes, reader_gone, HasherPc, waits, passes, hasher_gone, WriterPc, at_top, receives, writes,
  ends, Pipe,
}

abbrev pub packet_bytes : Packet → Bytes
packet_bytes (piece bytes) = bytes
packet_bytes (failed _) = []
packet_bytes unexpected_eof = []
packet_bytes done = []

-- The bytes in a channel.
abbrev pub pieces : List Packet → Bytes
pieces [] = []
pieces (packet ∷ others) = packet_bytes packet ++ pieces others

abbrev pub reader_hand : ReaderPc → Bytes
reader_hand (sends packet) = packet_bytes packet
reader_hand at_head = []
reader_hand needs_buffer = []
reader_hand reads = []
reader_hand closes = []
reader_hand reader_gone = []

abbrev pub hasher_hand : HasherPc → Bytes
hasher_hand (passes packet) = packet_bytes packet
hasher_hand waits = []
hasher_hand hasher_gone = []

abbrev pub writer_hand : WriterPc → Bytes
writer_hand (writes left) = left
writer_hand at_top = []
writer_hand receives = []
writer_hand (ends _) = []

abbrev pub has_ended : WriterPc → Bool
has_ended (ends _) = true
has_ended at_top = false
has_ended receives = false
has_ended (writes _) = false

pub pieces-snoc :
    (packets : List Packet) (packet : Packet)
    → pieces (packets ++ packet ∷ []) ≡ pieces packets ++ packet_bytes packet
pieces-snoc [] packet = append-nil (packet_bytes packet)
pieces-snoc (first ∷ others) packet =
    rw (pieces-snoc others packet)
      (sym (append_assoc (packet_bytes first) (pieces others) (packet_bytes packet)))

-- What the reader has counted.
pub record Counts (source : Bytes) (full_length : ℕ) (s : Pipe) : Type 0 where
  pub counted : s.bytes_read + s.remaining ≡ full_length
  pub measured : s.bytes_read + length s.rest ≡ length source
