-- ===== src/Journal/Reader/Rounds.antt =====
-- The loop of `read_bounded_record`, round by round.
use bigcp.Base.{
  ℕ, ◌+◌, ◌≤◌, ◌<◌, ◌≡◌, refl, sym, ap, ◌∙◌, inl, inr, true, false, Option, some, [], ◌∷◌, ◌++◌,
  append-nil, append_assoc, Outcome, ok, arith, length, last?, length-append, not_ltb,
}
use bigcp.Base.Bytes.{Bytes}
use bigcp.Counters.{u64_max}
use bigcp.Errors.{IoError}
use bigcp.Journal.Reader.{
  filled, fails, Reader, record_end, is_newline, put_back, Line, at_end, extend, read_loop,
}
use bigcp.Journal.Reader.Lines.{
  IsSound, buffer_cases, clip, content, extend-clip, first_line, other_lines, record_end-le,
}

-- What a call of the reader gives, from the bytes that are left.
pub record Reads (pre : Bytes) (reader : Reader) (r : Outcome IoError (Option Line) × Reader)
    : Type 0 where
  pub result : r.0 ≡ ok (at_end (clip (pre ++ first_line (content reader))))
  pub left : content r.1 ≡ other_lines (content reader)
  pub sound : IsSound r.1

at_end-some : (line : Line) → 0 < line.consumed → at_end line ≡ some line
at_end-some line h = ground arith

pub at_end-clip : (bytes : Bytes) → 0 < length bytes → at_end (clip bytes) ≡ some (clip bytes)
unfolding clip
at_end-clip bytes h = at_end-some (clip bytes) h

content-put_back :
    (bytes : Bytes) (reader : Reader) → content (put_back bytes reader) ≡ bytes ++ content reader
content-put_back [] reader = refl
content-put_back (b ∷ bs) reader = refl

IsSound-put_back :
    (bytes : Bytes) (reader : Reader) → IsSound reader → IsSound (put_back bytes reader)
IsSound-put_back [] reader s = s
IsSound-put_back (b ∷ bs) reader s = s

pub first_line-pos : (b : ℕ) (bs : Bytes) → 0 < length (first_line (b ∷ bs))
unfolding record_end
first_line-pos b bs = ground arith

-- One round of the loop, by how the buffer ends and with no overflow.
module _ (b : ℕ) (bs : Bytes) (reader : Reader) (line : Line)
    (room : line.consumed + record_end (b ∷ bs) ≤ u64_max) where
  read_loop_closing :
      is_newline (last? (first_line (b ∷ bs))) ≡ true
      → read_loop (filled (b ∷ bs) ∷ reader) line
        ≡ (ok (some (extend (b ∷ bs) line)), put_back (other_lines (b ∷ bs)) reader)
  unfolding read_loop
  read_loop_closing e = rw (not_ltb _ _ room, e)

  read_loop_inside :
      is_newline (last? (first_line (b ∷ bs))) ≡ false
      → read_loop (filled (b ∷ bs) ∷ reader) line ≡ read_loop reader (extend (b ∷ bs) line)
  unfolding read_loop
  read_loop_inside e = rw (not_ltb _ _ room, e)

clip-consumed : (bytes : Bytes) → (clip bytes).consumed ≡ length bytes
unfolding clip
clip-consumed bytes = refl

closed_pos : (b : ℕ) (bs pre : Bytes) → 0 < length (pre ++ first_line (b ∷ bs))
closed_pos b bs pre = omega (arith, length-append pre (first_line (b ∷ bs)), first_line-pos b bs)

pub read_loop-Reads :
    (reader : Reader) (pre : Bytes)
    → IsSound reader
    → length pre + length (content reader) ≤ u64_max
    → Reads pre reader (read_loop reader (clip pre))
read_loop-Reads [] pre s h =
    unfold read_loop record_end in record { result = rw append-nil; left = refl; sound = tt }
read_loop-Reads (filled [] ∷ reader) pre s h = elim s [ ]
read_loop-Reads (fails e ∷ reader) pre s h = elim s [ ]
read_loop-Reads (filled (b ∷ bs) ∷ reader) pre s h = elim (buffer_cases (b ∷ bs)) [
  | inl c ↦ rw (read_loop_closing b bs reader (clip pre) room c.ends) record {
    result =
        rw (c.first (content reader), extend-clip pre (b ∷ bs))
          (ap ok (sym (at_end-clip (pre ++ first_line (b ∷ bs)) (closed_pos b bs pre))));
    left = content-put_back (other_lines (b ∷ bs)) reader ∙ sym (c.others (content reader));
    sound = IsSound-put_back (other_lines (b ∷ bs)) reader s;
  }
  | inr c ↦
      rw (read_loop_inside b bs reader (clip pre) room c.ends, extend-clip pre (b ∷ bs), c.whole)
        (let ih = read_loop-Reads reader (pre ++ b ∷ bs) s fits in
          record {
            result =
                rw (ih.result, c.first (content reader))
                  (ap (λ l. ok (at_end (clip l)))
                    (append_assoc pre (b ∷ bs) (first_line (content reader))));
            left = ih.left ∙ sym (c.others (content reader));
            sound = ih.sound;
          })
]
  where
    room : (clip pre).consumed + record_end (b ∷ bs) ≤ u64_max
    room =
        omega (
          arith,
          clip-consumed pre,
          record_end-le (b ∷ bs),
          length-append (b ∷ bs) (content reader),
        )

    fits : length (pre ++ b ∷ bs) + length (content reader) ≤ u64_max
    fits = omega (arith, length-append pre (b ∷ bs), length-append (b ∷ bs) (content reader))
