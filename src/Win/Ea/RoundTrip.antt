-- ===== src/Win/Ea/RoundTrip.antt =====
-- What `from_pairs` builds passes the validation, with the names that it was built from.
use bigcp.Base.{
  ℕ, zero, suc, ◌+◌, ◌≤◌, ◌<◌, ◌≡◌, refl, ap, subst, ◌∙◌, false, none, some, List, [], ◌∷◌, ◌++◌,
  map, append-nil, ok, bind-ok, arith, length, length-append, All,
}
use bigcp.Base.Bytes.{Bytes}
use bigcp.Win.Ea.{
  is_nil, Pair, raw_length, padded, check_pairs, write_record, write_records, from_pairs,
  parse_record, push, parse_loop, parse_ea_records,
}
use bigcp.Win.Ea.Record.{IsShort, length-write_record, parse_last, parse_next}

check_pairs-IsShort :
    (pairs : List Pair) (total : ℕ) → check_pairs pairs total ≡ ok tt → All IsShort pairs
unfolding check_pairs
check_pairs-IsShort [] total h = tt
check_pairs-IsShort ((name, value) ∷ pairs) total h = (
  record { name_fits = ground arith; value_fits = ground arith; name_valid = ground arith },
  check_pairs-IsShort pairs (total + padded (raw_length (name, value))) (ground arith),
)

write_records-pos : (p : Pair) (pairs : List Pair) → 0 < length (write_records (p ∷ pairs))
unfolding write_records
write_records-pos p [] = omega (arith, length-write_record 0 p)
write_records-pos p (q ∷ pairs) = omega (
  arith,
  length-append (write_record (padded (raw_length p)) p) (write_records (q ∷ pairs)),
  length-write_record (padded (raw_length p)) p,
)

module _ (need : ℕ) where
  module _ (fuel : ℕ) (rest : Bytes) (r : ℕ × Bytes) where
    parse_loop_last :
        parse_record need rest ≡ ok (r, none) → parse_loop need (suc fuel) rest ≡ some (ok (r ∷ []))
    unfolding parse_loop
    parse_loop_last e = rw (e, parse_loop)

    parse_loop_more :
        (more : Bytes)
        → parse_record need rest ≡ ok (r, some more)
        → parse_loop need (suc fuel) rest ≡ push need r (parse_loop need fuel more)
    unfolding parse_loop
    parse_loop_more more e = rw (e, parse_loop)

  parse_loop-written :
      (fuel : ℕ) (p : Pair) (pairs : List Pair)
      → length (write_records (p ∷ pairs)) ≤ fuel
      → All IsShort (p ∷ pairs)
      → parse_loop need fuel (write_records (p ∷ pairs))
        ≡ some (ok (map (λ (q : Pair). (0, q.0)) (p ∷ pairs)))
  unfolding write_records
  parse_loop-written zero p pairs f s = absurd (omega (arith, write_records-pos p pairs))
  parse_loop-written (suc fuel) p [] f s =
      parse_loop_last fuel (write_record 0 p) (0, p.0)
        (subst (λ r. parse_record need r ≡ ok ((0, p.0), none)) (append-nil (write_record 0 p))
          (parse_last need p s.0))
  parse_loop-written (suc fuel) p (q ∷ pairs) f s =
      let rest = write_records (q ∷ pairs) in
      let fewer : length rest ≤ fuel = omega (
        arith,
        length-append (write_record (padded (raw_length p)) p) rest,
        length-write_record (padded (raw_length p)) p,
      ) in
      parse_loop_more fuel (write_record (padded (raw_length p)) p ++ rest) (0, p.0) rest
        (parse_next need p rest s.0 (write_records-pos q pairs))
      ∙ ap (push need (0, p.0)) (parse_loop-written fuel q pairs fewer s.1)

  some_bytes : (payload : Bytes) → 0 < length payload → is_nil payload ≡ false
  some_bytes [] h = absurd (omega arith)
  some_bytes (x ∷ payload) h = refl

  parse-written :
      (pairs : List Pair)
      → check_pairs pairs 0 ≡ ok tt
      → parse_ea_records need (write_records pairs) ≡ some (ok (map (λ (q : Pair). (0, q.0)) pairs))
  unfolding parse_ea_records
  parse-written [] h = unfold write_records in refl
  parse-written (p ∷ pairs) h =
      rw (some_bytes (write_records (p ∷ pairs)) (write_records-pos p pairs)) (
        parse_loop-written (suc (length (write_records (p ∷ pairs)))) p pairs (omega arith)
          (check_pairs-IsShort (p ∷ pairs) 0 h))

  -- A payload that was built from pairs passes the validation that a provider's payload must pass,
  -- and the names are those of the pairs, in order, with no flags.
  pub parse-from_pairs :
      (pairs : List Pair) (payload : Bytes)
      → from_pairs pairs ≡ ok payload
      → parse_ea_records need payload ≡ some (ok (map (λ (q : Pair). (0, q.0)) pairs))
  unfolding from_pairs
  parse-from_pairs pairs payload h =
      let (_, checked, built) =
        bind-ok (check_pairs pairs 0) (λ _. ok (write_records pairs)) payload h in
      let same : write_records pairs ≡ payload = cc in
      subst (λ b. parse_ea_records need b ≡ some (ok (map (λ (q : Pair). (0, q.0)) pairs))) same
        (parse-written pairs checked)
