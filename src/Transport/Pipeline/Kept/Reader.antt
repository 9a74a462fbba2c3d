-- ===== src/Transport/Pipeline/Kept/Reader.antt =====
-- The turns of the reader.
use bigcp.Base.{
  ℕ, suc, ◌+◌, ◌-◌, ◌%◌, ◌^◌, ◌≤◌, ◌<◌, min, ◌≡◌, refl, sym, ap, ◌∙◌, Bool, true, false, ◌||◌, [],
  ◌∷◌, ◌++◌, append-nil, append_assoc, arith, ltb, ◌==◌, length, take, drop, take-append-drop,
  length-drop, if◌then◌else◌,
}
use bigcp.Base.Bytes.{Bytes}
use bigcp.Transport.Pipeline.{
  Packet, piece, failed, unexpected_eof, done, ReaderPc, at_head, needs_buffer, reads, sends,
  closes, reader_gone, Pipe, Answer, goes, is_canceled, interrupted, breaks, is_reader_gone,
  is_terminal, is_staged, got_bytes, leave_loop, reader_turn,
}
use bigcp.Transport.Pipeline.Flow.{
  packet_bytes, pieces, reader_hand, writer_hand, pieces-snoc, Counts,
}
use bigcp.Transport.Pipeline.Kept.{Kept, if_Kept}

module _ (source : Bytes) (full_length request_bytes depth : ℕ) (staged : Bool) where
  abbrev Holds : Pipe → Type 0
  Holds = Kept source full_length staged

  -- The reader goes on with what it holds.
  pub set_reader :
      (pc : ReaderPc) (free : ℕ) (stopped : Bool) (s : Pipe)
      → (is_reader_gone pc ≡ false → reader_hand pc ≡ reader_hand s.reader)
      → (is_reader_gone pc ≡ false → is_reader_gone s.reader ≡ false)
      → Holds s
      → Holds (record s { reader = pc; free = free; stopped = stopped })
  set_reader pc free stopped s same live i = record {
    line = i.line;
    dropped = i.dropped;
    upstream = i.upstream;
    pending = i.pending;
    behind = i.behind;
    ahead = i.ahead;
    write_live = i.write_live;
    read_live = λ h. i.read_live (live h) ∙ sym (same h);
    middle = i.middle;
    counts = record { counted = i.counts.counted; measured = i.counts.measured };
    complete = i.complete;
  }

  gone : (s : Pipe) → Holds s → Holds (record s { reader = reader_gone })
  gone s i = set_reader reader_gone s.free s.stopped s (λ h. absurd (cc)) (λ h. absurd (cc)) i

-- The two steps that depend on whether `consume` has a stage.
module _ (source : Bytes) (full_length request_bytes depth : ℕ) (small : full_length < 2 ^ 64) where
  got_Counts :
      (s : Pipe) (count : ℕ)
      → count ≤ s.remaining
      → count ≤ length s.rest
      → Counts source full_length s
      → (packet : ReaderPc) (consumed : Bytes)
      → Counts source full_length (record s {
        rest = drop count s.rest;
        remaining = s.remaining - count;
        reader = packet;
        consumed = consumed;
        bytes_read = (s.bytes_read + count) % 2 ^ 64;
      })
  got_Counts s count less there c packet consumed = record {
    counted = omega (arith, c.counted);
    measured = omega (arith, c.measured, c.counted, length-drop count s.rest);
  }

  received :
      (staged : Bool) (count : ℕ) (s : Pipe) (i : Kept source full_length staged s)
      → i.pending ≡ []
      → ((packet : ReaderPc) (consumed : Bytes)
          → Counts source full_length (record s {
            rest = drop count s.rest;
            remaining = s.remaining - count;
            reader = packet;
            consumed = consumed;
            bytes_read = (s.bytes_read + count) % 2 ^ 64;
          }))
      → Kept source full_length staged (record s {
        rest = drop count s.rest;
        remaining = s.remaining - count;
        reader = sends (piece (take count s.rest));
        consumed = if staged then s.consumed else s.consumed ++ take count s.rest;
        bytes_read = (s.bytes_read + count) % 2 ^ 64;
      })
  received true count s i none_held counts =
      let got = take count s.rest in
      let split : got ++ drop count s.rest ≡ s.rest = take-append-drop count s.rest in
      record {
        line = i.line;
        dropped = i.dropped;
        upstream = i.upstream ++ got;
        pending = got;
        behind = i.behind;
        ahead = rw (append_assoc i.upstream got (drop count s.rest), split) i.ahead;
        write_live = i.write_live;
        middle = λ live. ((i.middle live).0, rw ((i.middle live).1, none_held, append-nil) refl);
        read_live = λ _. refl;
        counts = counts _ _;
        complete = i.complete;
      }
  received false count s i none_held counts =
      let got = take count s.rest in
      let split : got ++ drop count s.rest ≡ s.rest = take-append-drop count s.rest in
      let (no_stage, same, nothing) = i.middle in
      record {
        line = i.line ++ got;
        dropped = got;
        upstream = i.upstream;
        pending = got;
        behind = sym (append_assoc s.written i.line got) ∙ ap (λ l. l ++ got) i.behind;
        ahead =
            ap (λ u. (s.consumed ++ got) ++ (u ++ drop count s.rest)) nothing
            ∙ append_assoc s.consumed got (drop count s.rest)
            ∙ ap (λ r. s.consumed ++ r) split
            ∙ ap (λ u. s.consumed ++ (u ++ s.rest)) (sym nothing)
            ∙ i.ahead;
        write_live = λ live.
            rw (i.write_live live, same, none_held, append-nil)
              (append_assoc (writer_hand s.writer) (pieces s.filled) got);
        middle = (no_stage, refl, nothing);
        read_live = λ _. refl;
        counts = counts _ _;
        complete = i.complete;
      }

  got_bytes-Kept :
      (staged : Bool) (n : ℕ) (s : Pipe)
      → is_staged depth ≡ staged
      → s.reader ≡ reads
      → Kept source full_length staged s
      → Kept source full_length staged (got_bytes full_length request_bytes depth n s)
  unfolding got_bytes
  got_bytes-Kept staged n s mode e i =
      let count = min (suc n) (min (min s.remaining request_bytes) (length s.rest)) in
      rw mode (
        if_Kept source full_length staged (count == 0) _ _
          (λ empty.
            set_reader source full_length request_bytes depth staged (sends unexpected_eof) s.free
              s.stopped s (λ _. sym (ap reader_hand e)) (λ _. ap is_reader_gone e) i)
          (λ _.
            received staged count s i (i.read_live (ap is_reader_gone e) ∙ ap reader_hand e)
              (got_Counts s count (omega arith) (omega arith) i.counts)))

  -- A packet enters the channel, in order.
  push-Kept :
      (staged : Bool) (packet : Packet) (pc : ReaderPc) (s : Pipe)
      → reader_hand s.reader ≡ packet_bytes packet
      → is_reader_gone s.reader ≡ false
      → (is_reader_gone pc ≡ false → reader_hand pc ≡ [])
      → Kept source full_length staged s
      → Kept source full_length staged (record s { filled = s.filled ++ packet ∷ []; reader = pc })
  push-Kept true packet pc s held live nothing i = record {
    line = i.line;
    dropped = i.dropped;
    upstream = i.upstream;
    pending = [];
    behind = i.behind;
    ahead = i.ahead;
    write_live = i.write_live;
    middle = λ staying. (
      (i.middle staying).0,
      (i.middle staying).1
          ∙ rw (i.read_live live, held, pieces-snoc s.filled packet, append-nil) refl,
    );
    read_live = λ h. sym (nothing h);
    counts = record { counted = i.counts.counted; measured = i.counts.measured };
    complete = i.complete;
  }
  push-Kept false packet pc s held live nothing i = record {
    line = i.line;
    dropped = [];
    upstream = i.upstream;
    pending = [];
    behind = i.behind;
    ahead = i.ahead;
    write_live = λ running.
        i.write_live running
        ∙ rw (i.middle.1, i.read_live live, held, pieces-snoc s.filled packet, append-nil) refl;
    middle = (i.middle.0, refl, i.middle.2);
    read_live = λ h. sym (nothing h);
    counts = record { counted = i.counts.counted; measured = i.counts.measured };
    complete = i.complete;
  }

  module _ (staged : Bool) (mode : is_staged depth ≡ staged) where
    abbrev Sound : Pipe → Type 0
    Sound = Kept source full_length staged

    closing_hand : (stopped : Bool) → reader_hand (if stopped then reader_gone else closes) ≡ []
    closing_hand true = refl
    closing_hand false = refl

    after_push : (terminal : Bool) → reader_hand (if terminal then reader_gone else at_head) ≡ []
    after_push true = refl
    after_push false = refl

    leave_loop-Kept :
        (s : Pipe)
        → s.reader ≡ at_head
        → Sound s
        → Sound (leave_loop full_length request_bytes depth s)
    unfolding leave_loop
    leave_loop-Kept s e i =
        set_reader source full_length request_bytes depth staged
          (if s.stopped then reader_gone else closes) s.free s.stopped s
          (λ _. closing_hand s.stopped ∙ sym (ap reader_hand e)) (λ _. ap is_reader_gone e) i

    head_goes :
        (s : Pipe)
        → s.reader ≡ at_head
        → Sound s
        → Sound (
            if s.remaining == 0 || s.stopped
            then leave_loop full_length request_bytes depth s
            else record s { reader = needs_buffer })
    head_goes s e i =
        if_Kept source full_length staged (s.remaining == 0 || s.stopped) _ _
          (λ _. leave_loop-Kept s e i)
          (λ _.
            set_reader source full_length request_bytes depth staged needs_buffer s.free s.stopped s
              (λ _. sym (ap reader_hand e)) (λ _. ap is_reader_gone e) i)

    pub reader_turn-Kept :
        (pc : ReaderPc) (answer : Answer) (s : Pipe)
        → s.reader ≡ pc
        → Sound s
        → Sound (reader_turn full_length request_bytes depth pc answer s)
    unfolding reader_turn
    reader_turn-Kept at_head (goes n) s e i = head_goes s e i
    reader_turn-Kept at_head is_canceled s e i =
        if_Kept source full_length staged (s.remaining == 0 || s.stopped) _ _
          (λ _. leave_loop-Kept s e i)
          (λ _.
            set_reader source full_length request_bytes depth staged reader_gone s.free true s
              (λ h. absurd (cc)) (λ h. absurd (cc)) i)
    reader_turn-Kept at_head interrupted s e i = head_goes s e i
    reader_turn-Kept at_head (breaks _) s e i = head_goes s e i
    reader_turn-Kept needs_buffer answer s e i =
        if_Kept source full_length staged (ltb 0 s.free) _ _
          (λ _.
            set_reader source full_length request_bytes depth staged reads (s.free - 1) s.stopped s
              (λ _. sym (ap reader_hand e)) (λ _. ap is_reader_gone e) i)
          (λ _.
            if_Kept source full_length staged s.stopped _ _
              (λ _. gone source full_length request_bytes depth staged s i) (λ _. i))
    reader_turn-Kept reads (goes n) s e i = got_bytes-Kept staged n s mode e i
    reader_turn-Kept reads is_canceled s e i =
        gone source full_length request_bytes depth staged s i
    reader_turn-Kept reads interrupted s e i =
        if_Kept source full_length staged s.stopped _ _
          (λ _. gone source full_length request_bytes depth staged s i) (λ _. i)
    reader_turn-Kept reads (breaks x) s e i =
        set_reader source full_length request_bytes depth staged (sends (failed x)) s.free s.stopped
          s (λ _. sym (ap reader_hand e)) (λ _. ap is_reader_gone e) i
    reader_turn-Kept (sends packet) answer s e i =
        if_Kept source full_length staged (ltb (length s.filled) depth) _ _
          (λ _.
            push-Kept staged packet (if is_terminal packet then reader_gone else at_head) s
              (ap reader_hand e) (ap is_reader_gone e) (λ _. after_push (is_terminal packet)) i)
          (λ _.
            if_Kept source full_length staged s.stopped _ _
              (λ _. gone source full_length request_bytes depth staged s i) (λ _. i))
    reader_turn-Kept closes answer s e i =
        if_Kept source full_length staged (ltb (length s.filled) depth) _ _
          (λ _.
            push-Kept staged done reader_gone s (ap reader_hand e) (ap is_reader_gone e) (λ _. refl)
              i)
          (λ _. i)
    reader_turn-Kept reader_gone answer s e i = i
