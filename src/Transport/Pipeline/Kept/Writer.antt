-- ===== src/Transport/Pipeline/Kept/Writer.antt =====
-- The turns of the writer.
use bigcp.Base.{
  ℕ, suc, ◌≤◌, min, ◌≡◌, refl, sym, ap, ◌∙◌, Bool, true, false, Option, none, some, List, [], ◌∷◌,
  ◌++◌, append_assoc, arith, ltb, ◌==◌, length, take, drop, take-append-drop, if◌then◌else◌,
}
use bigcp.Base.Bytes.{Bytes}
use bigcp.Transport.Pipeline.{
  Packet, piece, failed, unexpected_eof, done, FailureKind, canceled, WriterPc, at_top, receives,
  writes, ends, Pipe, Answer, goes, is_canceled, interrupted, breaks, is_reader_gone,
  is_hasher_gone, is_staged, writer_turn, end_with, write_packet, writer_receives, wrote_bytes,
  writer_writes, writer_tops,
}
use bigcp.Transport.Pipeline.Flow.{pieces, writer_hand, has_ended}
use bigcp.Transport.Pipeline.Kept.{queue, Middle, Kept, if_Kept}

module _ (source : Bytes) (full_length request_bytes depth : ℕ) (staged : Bool) where
  abbrev Sound : Pipe → Type 0
  Sound = Kept source full_length staged

  -- The writer stops; what it held is lost.
  end_with-Kept :
      (result : Option FailureKind) (filled hashed : List Packet) (s : Pipe)
      → (result ≡ none → full_length ≤ length s.written)
      → (i : Sound s) → Middle staged s.hasher filled i.dropped i.upstream i.pending
      → Sound (
          end_with full_length request_bytes depth result
            (record s { filled = filled; hashed = hashed }))
  unfolding end_with
  end_with-Kept result filled hashed s all i kept_middle = record {
    line = i.line;
    dropped = i.dropped;
    upstream = i.upstream;
    pending = i.pending;
    behind = i.behind;
    ahead = i.ahead;
    write_live = λ h. absurd (cc);
    read_live = i.read_live;
    middle = kept_middle;
    counts = record { counted = i.counts.counted; measured = i.counts.measured };
    complete = λ h. all (cc);
  }

  -- The writer goes on with what it holds.
  set_writer :
      (pc : WriterPc) (free : ℕ) (s : Pipe)
      → has_ended s.writer ≡ false
      → has_ended pc ≡ false
      → writer_hand pc ≡ writer_hand s.writer
      → Sound s
      → Sound (record s { writer = pc; free = free })
  set_writer pc free s running on same i = record {
    line = i.line;
    dropped = i.dropped;
    upstream = i.upstream;
    pending = i.pending;
    behind = i.behind;
    ahead = i.ahead;
    write_live = λ _. rw same (i.write_live running);
    read_live = i.read_live;
    middle = i.middle;
    counts = record { counted = i.counts.counted; measured = i.counts.measured };
    complete = λ h. absurd (let bad = rw h at on in cc);
  }

  stop_with :
      (kind : FailureKind) (s : Pipe)
      → Sound s
      → Sound (end_with full_length request_bytes depth (some kind) s)
  stop_with kind s i = end_with-Kept (some kind) s.filled s.hashed s (λ h. absurd (cc)) i i.middle

  writer_tops-Kept :
      (answer : Answer) (s : Pipe)
      → s.writer ≡ at_top
      → Sound s
      → Sound (writer_tops full_length request_bytes depth answer s)
  unfolding writer_tops
  writer_tops-Kept answer s e i =
      if_Kept source full_length staged (ltb (length s.written) full_length) _ _ (λ _. go answer)
        (λ full. end_with-Kept none s.filled s.hashed s (λ _. ground (arith, full)) i i.middle)
    where
      go :
          (answer : Answer)
          → Sound (elim answer [
            | is_canceled ↦ end_with full_length request_bytes depth (some canceled) s
            | _ ↦ record s { writer = receives }
          ])
      go (goes n) = set_writer receives s.free s (ap has_ended e) refl (sym (ap writer_hand e)) i
      go is_canceled = stop_with canceled s i
      go interrupted = set_writer receives s.free s (ap has_ended e) refl (sym (ap writer_hand e)) i
      go (breaks _) = set_writer receives s.free s (ap has_ended e) refl (sym (ap writer_hand e)) i

  none_test : (b : Bool) → (if b then none else some FailureKind.unexpected_end) ≡ none → b ≡ true
  none_test true h = refl
  none_test false h = absurd (cc)

  take-Kept :
      (packet : Packet) (others filled hashed : List Packet) (s : Pipe)
      → s.writer ≡ receives
      → queue staged s.filled s.hashed ≡ packet ∷ others
      → queue staged filled hashed ≡ others
      → (i : Sound s) → Middle staged s.hasher filled i.dropped i.upstream i.pending
      → Sound (
          write_packet full_length request_bytes depth packet
            (record s { filled = filled; hashed = hashed }))
  unfolding write_packet
  take-Kept (piece bytes) others filled hashed s e f g i m = record {
    line = i.line;
    dropped = i.dropped;
    upstream = i.upstream;
    pending = i.pending;
    behind = i.behind;
    ahead = i.ahead;
    write_live = λ _.
        i.write_live (ap has_ended e)
        ∙ rw (ap writer_hand e, f, g) (append_assoc bytes (pieces others) i.dropped);
    read_live = i.read_live;
    middle = m;
    counts = record { counted = i.counts.counted; measured = i.counts.measured };
    complete = λ h. absurd (cc);
  }
  take-Kept (failed x) others filled hashed s e f g i m =
      end_with-Kept (some (FailureKind.read_failed x)) filled hashed s (λ h. absurd (cc)) i m
  take-Kept unexpected_eof others filled hashed s e f g i m =
      end_with-Kept (some FailureKind.unexpected_end) filled hashed s (λ h. absurd (cc)) i m
  take-Kept done others filled hashed s e f g i m =
      end_with-Kept
        (if length s.written == full_length then none else some FailureKind.unexpected_end) filled
        hashed s (λ h. ground (arith, none_test (length s.written == full_length) h)) i m

  -- An empty channel: its sender is gone, or the wait times out.
  none_there :
      (answer : Answer) (gone : Bool) (s : Pipe)
      → Sound s
      → Sound (
          if gone
          then end_with full_length request_bytes depth (some FailureKind.reader_panicked) s
          else (elim answer [
            | is_canceled ↦ end_with full_length request_bytes depth (some canceled) s
            | _ ↦ s
          ]))
  none_there answer true s i = stop_with FailureKind.reader_panicked s i
  none_there (goes n) false s i = i
  none_there is_canceled false s i = stop_with canceled s i
  none_there interrupted false s i = i
  none_there (breaks _) false s i = i

  rejoin : (a b c d : Bytes) → (a ++ b) ++ (c ++ d) ≡ a ++ ((b ++ c) ++ d)
  rejoin a b c d = simp append_assoc

  wrote-Kept :
      (n : ℕ) (left : Bytes) (s : Pipe)
      → s.writer ≡ writes left
      → Sound s
      → Sound (wrote_bytes full_length request_bytes depth n left s)
  unfolding wrote_bytes
  wrote-Kept n left s e i =
      let count = min n (length left) in
      let more = pieces (queue staged s.filled s.hashed) ++ i.dropped in
      let held : i.line ≡ left ++ more =
        i.write_live (ap has_ended e) ∙ rw (ap writer_hand e) refl in
      if_Kept source full_length staged (count == 0) _ _
        (λ _. stop_with FailureKind.made_no_progress s i)
        (λ _. record {
          line = drop count left ++ more;
          dropped = i.dropped;
          upstream = i.upstream;
          pending = i.pending;
          behind =
              rejoin s.written (take count left) (drop count left) more
              ∙ rw (take-append-drop count left, ← held) i.behind;
          ahead = i.ahead;
          write_live = λ _. refl;
          read_live = i.read_live;
          middle = i.middle;
          counts = record { counted = i.counts.counted; measured = i.counts.measured };
          complete = λ h. absurd (cc);
        })

  writes-Kept :
      (answer : Answer) (left : Bytes) (s : Pipe)
      → s.writer ≡ writes left
      → Sound s
      → Sound (writer_writes full_length request_bytes depth answer left s)
  unfolding writer_writes
  writes-Kept answer [] s e i =
      set_writer at_top (suc s.free) s (ap has_ended e) refl (sym (ap writer_hand e)) i
  writes-Kept is_canceled (b ∷ bs) s e i = stop_with canceled s i
  writes-Kept (goes n) (b ∷ bs) s e i = wrote-Kept n (b ∷ bs) s e i
  writes-Kept interrupted (b ∷ bs) s e i = i
  writes-Kept (breaks x) (b ∷ bs) s e i = stop_with (FailureKind.write_failed x) s i

-- What the writer takes comes from the channel of the mode.
module _ (source : Bytes) (full_length request_bytes depth : ℕ) where
  from_hashed :
      (packets : List Packet) (answer : Answer) (s : Pipe)
      → s.writer ≡ receives
      → s.hashed ≡ packets
      → Kept source full_length true s
      → Kept source full_length true (
          writer_receives full_length request_bytes depth
            (is_hasher_gone s.hasher)
            answer
            packets
            (λ packet others.
              write_packet full_length request_bytes depth packet (record s { hashed = others }))
            s)
  unfolding writer_receives
  from_hashed [] answer s e f i =
      none_there source full_length request_bytes depth true answer (is_hasher_gone s.hasher) s i
  from_hashed (packet ∷ others) answer s e f i =
      take-Kept source full_length request_bytes depth true packet others s.filled others s e f refl
        i i.middle

  from_filled :
      (packets : List Packet) (answer : Answer) (s : Pipe)
      → s.writer ≡ receives
      → s.filled ≡ packets
      → Kept source full_length false s
      → Kept source full_length false (
          writer_receives full_length request_bytes depth
            (is_reader_gone s.reader)
            answer
            packets
            (λ packet others.
              write_packet full_length request_bytes depth packet (record s { filled = others }))
            s)
  unfolding writer_receives
  from_filled [] answer s e f i =
      none_there source full_length request_bytes depth false answer (is_reader_gone s.reader) s i
  from_filled (packet ∷ others) answer s e f i =
      take-Kept source full_length request_bytes depth false packet others others s.hashed s e f
        refl i i.middle

  pub writer_turn-Kept :
      (staged : Bool) (pc : WriterPc) (answer : Answer) (s : Pipe)
      → is_staged depth ≡ staged
      → s.writer ≡ pc
      → Kept source full_length staged s
      → Kept source full_length staged (writer_turn full_length request_bytes depth pc answer s)
  unfolding writer_turn
  writer_turn-Kept staged at_top answer s mode e i =
      writer_tops-Kept source full_length request_bytes depth staged answer s e i
  writer_turn-Kept true receives answer s mode e i =
      rw mode (from_hashed s.hashed answer s e refl i)
  writer_turn-Kept false receives answer s mode e i =
      rw mode (from_filled s.filled answer s e refl i)
  writer_turn-Kept staged (writes left) answer s mode e i =
      writes-Kept source full_length request_bytes depth staged answer left s e i
  writer_turn-Kept staged (ends result) answer s mode e i = i
