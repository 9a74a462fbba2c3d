-- ===== src/Journal/Loader/Refines.antt =====
-- The loader as a replay of the lines of the file, however the file reaches the reader.
use bigcp.Base.{
  ℕ, zero, suc, ◌≤◌, ◌<◌, ◌≡◌, refl, ap, ◌∙◌, inl, inr, Option, none, some, List, [], ◌∷◌, Outcome,
  ok, err, ◌>>=◌, Outcome-cases, arith, ◌==◌, length, length-append, length-take, length-drop,
  Bool-cases, List-cases, if◌then◌else◌,
}
use bigcp.Base.Bytes.{Bytes}
use bigcp.Counters.{u64_max}
use bigcp.Errors.{BigcpError}
use bigcp.Journal.Codec.{newline, Json}
use bigcp.Journal.Reader.{filled, fails, Reader, record_end, Line, read_bounded_record, reader_size}
use bigcp.Journal.Reader.Lines.{content, IsSound, clip, first_line, other_lines}
use bigcp.Journal.Reader.Rounds.{Reads, read_loop-Reads, at_end-clip, first_line-pos}
use bigcp.Journal.Replay.{LoadedState, empty_state}
use bigcp.Journal.Loader.{finish, pass, load_loop, load_state}

-- The lines of a file, each with its newline; the last one may lack it.
abbrev pub add_to_line : ℕ → List Bytes → List Bytes
add_to_line b [] = (b ∷ []) ∷ []
add_to_line b (l ∷ ls) = (b ∷ l) ∷ ls

unfoldable pub split_lines : Bytes → List Bytes
split_lines [] = []
split_lines (b ∷ bs) =
    let rest = split_lines bs in if b == newline then (b ∷ []) ∷ rest else add_to_line b rest

split_lines-step :
    (b : ℕ) (bs : Bytes)
    → split_lines (b ∷ bs) ≡ first_line (b ∷ bs) ∷ split_lines (other_lines (b ∷ bs))
unfolding split_lines record_end
split_lines-step b [] = ground arith
split_lines-step b (c ∷ cs) = elim (Bool-cases (b == newline)) [
  | inl e ↦ rw e
  | inr e ↦ rw e (ap (add_to_line b) (split_lines-step c cs))
]

reads :
    (reader : Reader)
    → IsSound reader
    → length (content reader) ≤ u64_max
    → Reads [] reader (read_bounded_record reader)
reads reader s h = unfold read_bounded_record clip in read_loop-Reads reader [] s (omega arith)

-- The first read of a reader: nothing is left, or its first line comes.
module _ (reader : Reader) (s : IsSound reader) (h : length (content reader) ≤ u64_max) where
  read_at_end : content reader ≡ [] → (read_bounded_record reader).0 ≡ ok none
  read_at_end e = (reads reader s h).result ∙ rw e (unfold record_end clip in refl)

  read_first :
      (b : ℕ) (bs : Bytes)
      → content reader ≡ b ∷ bs
      → (read_bounded_record reader).0 ≡ ok (some (clip (first_line (b ∷ bs))))
  read_first b bs e =
      (reads reader s h).result
      ∙ rw e (ap ok (at_end-clip (first_line (b ∷ bs)) (first_line-pos b bs)))

other_lines-shrinks : (b : ℕ) (bs : Bytes) → length (other_lines (b ∷ bs)) < length (b ∷ bs)
other_lines-shrinks b bs = omega (
  arith,
  first_line-pos b bs,
  length-take (record_end (b ∷ bs)) (b ∷ bs),
  length-drop (record_end (b ∷ bs)) (b ∷ bs),
)

shrinks :
    (reader : Reader) (s : IsSound reader) (h : length (content reader) ≤ u64_max) (b : ℕ)
    (bs : Bytes)
    → content reader ≡ b ∷ bs
    → length (content (read_bounded_record reader).1) < length (content reader)
shrinks reader s h b bs e = rw ((reads reader s h).left, e) (other_lines-shrinks b bs)

content-le-size : (reader : Reader) → length (content reader) ≤ reader_size reader
content-le-size [] = omega arith
content-le-size (filled buffer ∷ reader) =
    omega (arith, content-le-size reader, length-append buffer (content reader))
content-le-size (fails e ∷ reader) = omega (arith, content-le-size reader)

module _ {Value : Type 0} (json : Json Value) where
  -- What the loader makes of the lines: `pending` waits until it is known whether another follows.
  unfoldable pub replay_lines :
      Option Line → List Bytes → LoadedState → Outcome BigcpError LoadedState
  replay_lines pending [] state = finish json pending state
  replay_lines pending (l ∷ ls) state = do
    next ← pass json pending state
    replay_lines (some (clip l)) ls next

  module _ (fuel : ℕ) (reader : Reader) (pending : Option Line) (state : LoadedState) where
    load_loop_end :
        (read_bounded_record reader).0 ≡ ok none
        → load_loop json (suc fuel) reader pending state ≡ some (finish json pending state)
    unfolding load_loop
    load_loop_end e = rw (e, load_loop)

    load_loop_refused :
        {line : Line} {error : BigcpError}
        → (read_bounded_record reader).0 ≡ ok (some line)
        → pass json pending state ≡ err error
        → load_loop json (suc fuel) reader pending state ≡ some (err error)
    unfolding load_loop
    load_loop_refused e p = rw (e, p, load_loop)

    load_loop_line :
        {line : Line} {next : LoadedState}
        → (read_bounded_record reader).0 ≡ ok (some line)
        → pass json pending state ≡ ok next
        → load_loop json (suc fuel) reader pending state
          ≡ load_loop json fuel (read_bounded_record reader).1 (some line) next
    unfolding load_loop
    load_loop_line e p = rw (e, p, load_loop)

  replay-line :
      (pending : Option Line) (b : ℕ) (bs : Bytes) (state : LoadedState)
      → replay_lines pending (split_lines (b ∷ bs)) state ≡ (
          pass json pending state
          >>= replay_lines (some (clip (first_line (b ∷ bs)))) (split_lines (other_lines (b ∷ bs))))
  unfolding replay_lines
  replay-line pending b bs state = rw (split_lines-step b bs)

  load_loop-replay :
      (fuel : ℕ) (reader : Reader) (pending : Option Line) (state : LoadedState)
      → IsSound reader
      → length (content reader) ≤ u64_max
      → length (content reader) < fuel
      → load_loop json fuel reader pending state
        ≡ some (replay_lines pending (split_lines (content reader)) state)
  load_loop-replay zero reader pending state s h f = absurd (omega arith)
  load_loop-replay (suc fuel) reader pending state s h f = elim (List-cases (content reader)) [
    | inl e ↦
        load_loop_end fuel reader pending state (read_at_end reader s h e)
        ∙ rw e (unfold split_lines replay_lines in refl)
    | inr (b, bs, e) ↦ elim (Outcome-cases (pass json pending state)) [
      | inr (error, p) ↦
          load_loop_refused fuel reader pending state (read_first reader s h b bs e) p
          ∙ rw (e, replay-line, p)
      | inl (next, p) ↦
          let left = (reads reader s h).left in
          load_loop_line fuel reader pending state (read_first reader s h b bs e) p
          ∙ load_loop-replay fuel (read_bounded_record reader).1 _ next (reads reader s h).sound
              (omega (arith, shrinks reader s h b bs e)) (omega (arith, shrinks reader s h b bs e))
          ∙ rw (left, e, replay-line, p)
    ]
  ]

  -- A journal below 2 ^ 64 bytes whose reads all succeed is loaded, and the result, a state or a
  -- refusal, is the replay of its lines, in whatever buffers the file arrives.
  pub load_state-replay :
      (reader : Reader)
      → IsSound reader
      → length (content reader) ≤ u64_max
      → load_state json reader ≡ some (replay_lines none (split_lines (content reader)) empty_state)
  unfolding load_state
  load_state-replay reader s h =
      load_loop-replay (suc (reader_size reader)) reader none empty_state s h
        (omega (arith, content-le-size reader))
