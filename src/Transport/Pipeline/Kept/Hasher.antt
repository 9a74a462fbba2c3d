-- ===== src/Transport/Pipeline/Kept/Hasher.antt =====
-- The turns of the hash stage.
use bigcp.Base.{
  ℕ, ◌≡◌, refl, sym, ap, ◌∙◌, Bool, true, false, ◌||◌, List, [], ◌∷◌, ◌++◌, append-nil,
  append_assoc, ltb, length, if◌then◌else◌,
}
use bigcp.Base.Bytes.{Bytes}
use bigcp.Transport.Pipeline.{
  Packet, piece, failed, unexpected_eof, done, HasherPc, waits, passes, hasher_gone, Pipe,
  is_reader_gone, is_hasher_gone, is_terminal, hasher_turn, hasher_waits, hash_packet,
}
use bigcp.Transport.Pipeline.Flow.{packet_bytes, pieces, hasher_hand, writer_hand, pieces-snoc}
use bigcp.Transport.Pipeline.Kept.{Kept, if_Kept}

module _ (source : Bytes) (full_length request_bytes depth : ℕ) where
  abbrev Holds : Pipe → Type 0
  Holds = Kept source full_length true

  -- The stage goes away; what it held is cut off.
  leaves : (s : Pipe) → Holds s → Holds (record s { hasher = hasher_gone })
  leaves s i = record {
    line = i.line;
    dropped = i.dropped;
    upstream = i.upstream;
    pending = i.pending;
    behind = i.behind;
    ahead = i.ahead;
    write_live = i.write_live;
    middle = λ h. absurd (cc);
    read_live = i.read_live;
    counts = record { counted = i.counts.counted; measured = i.counts.measured };
    complete = i.complete;
  }

  -- A packet without bytes is taken.
  takes_mark :
      (packet : Packet) (others : List Packet) (s : Pipe)
      → packet_bytes packet ≡ []
      → s.hasher ≡ waits
      → s.filled ≡ packet ∷ others
      → Holds s
      → Holds (record s { filled = others; hasher = passes packet })
  takes_mark packet others s mark e f i =
      let (held, up) = i.middle (ap is_hasher_gone e) in
      record {
        line = i.line;
        dropped = i.dropped;
        upstream = i.upstream;
        pending = i.pending;
        behind = i.behind;
        ahead = i.ahead;
        write_live = i.write_live;
        middle = λ _. (held ∙ ap hasher_hand e ∙ sym mark, up ∙ rw (f, mark) refl);
        read_live = i.read_live;
        counts = record { counted = i.counts.counted; measured = i.counts.measured };
        complete = i.complete;
      }

  hash_packet-Kept :
      (packet : Packet) (others : List Packet) (s : Pipe)
      → s.hasher ≡ waits
      → s.filled ≡ packet ∷ others
      → Holds s
      → Holds (hash_packet full_length request_bytes depth packet others s)
  unfolding hash_packet
  hash_packet-Kept (piece bytes) others s e f i =
      let (held, up) = i.middle (ap is_hasher_gone e) in
      let more = pieces others ++ i.pending in
      let next : i.upstream ≡ bytes ++ more =
        up ∙ rw f (append_assoc bytes (pieces others) i.pending) in
      record {
        line = i.line ++ bytes;
        dropped = bytes;
        upstream = more;
        pending = i.pending;
        behind = sym (append_assoc s.written i.line bytes) ∙ ap (λ l. l ++ bytes) i.behind;
        ahead =
            append_assoc s.consumed bytes (more ++ s.rest)
            ∙ ap (λ r. s.consumed ++ r) (sym (append_assoc bytes more s.rest))
            ∙ ap (λ u. s.consumed ++ (u ++ s.rest)) (sym next)
            ∙ i.ahead;
        write_live = λ live.
            rw (i.write_live live, held ∙ ap hasher_hand e, append-nil)
              (append_assoc (writer_hand s.writer) (pieces s.hashed) bytes);
        middle = λ _. (refl, refl);
        read_live = i.read_live;
        counts = record { counted = i.counts.counted; measured = i.counts.measured };
        complete = i.complete;
      }
  hash_packet-Kept (failed x) others s e f i = takes_mark (failed x) others s refl e f i
  hash_packet-Kept unexpected_eof others s e f i = takes_mark unexpected_eof others s refl e f i
  hash_packet-Kept done others s e f i = takes_mark done others s refl e f i

  hasher_waits-Kept :
      (packets : List Packet) (s : Pipe)
      → s.hasher ≡ waits
      → s.filled ≡ packets
      → Holds s
      → Holds (hasher_waits full_length request_bytes depth packets s)
  unfolding hasher_waits
  hasher_waits-Kept (packet ∷ others) s e f i = hash_packet-Kept packet others s e f i
  hasher_waits-Kept [] s e f i =
      if_Kept source full_length true (s.stopped || is_reader_gone s.reader) _ _ (λ _. leaves s i)
        (λ _. i)

  after_pass : (terminal : Bool) → hasher_hand (if terminal then hasher_gone else waits) ≡ []
  after_pass true = refl
  after_pass false = refl

  passes-Kept :
      (packet : Packet) (s : Pipe)
      → s.hasher ≡ passes packet
      → Holds s
      → Holds (record s {
        hashed = s.hashed ++ packet ∷ [];
        hasher = if is_terminal packet then hasher_gone else waits;
      })
  passes-Kept packet s e i =
      let (held, up) = i.middle (ap is_hasher_gone e) in
      record {
        line = i.line;
        dropped = [];
        upstream = i.upstream;
        pending = i.pending;
        behind = i.behind;
        ahead = i.ahead;
        write_live = λ live.
            i.write_live live
            ∙ rw (held ∙ ap hasher_hand e, pieces-snoc s.hashed packet, append-nil) refl;
        middle = λ _. (sym (after_pass (is_terminal packet)), up);
        read_live = i.read_live;
        counts = record { counted = i.counts.counted; measured = i.counts.measured };
        complete = i.complete;
      }

  pub hasher_turn-Kept :
      (pc : HasherPc) (s : Pipe)
      → s.hasher ≡ pc
      → Holds s
      → Holds (hasher_turn full_length request_bytes depth pc s)
  unfolding hasher_turn
  hasher_turn-Kept waits s e i = hasher_waits-Kept s.filled s e refl i
  hasher_turn-Kept (passes packet) s e i =
      if_Kept source full_length true (ltb (length s.hashed) depth) _ _
        (λ _. passes-Kept packet s e i)
        (λ _. if_Kept source full_length true s.stopped _ _ (λ _. leaves s i) (λ _. i))
  hasher_turn-Kept hasher_gone s e i = i
