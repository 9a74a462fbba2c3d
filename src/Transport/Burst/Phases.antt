-- ===== src/Transport/Burst/Phases.antt =====
-- What the two phases move.
use bigcp.Base.{
  if_elim, ℕ, suc, ◌+◌, ◌-◌, ◌≤◌, min, ◌≡◌, refl, sym, ap, subst, ◌∙◌, Bool, true, false, none,
  some, List, [], ◌∷◌, ◌++◌, append-nil, append_assoc, Outcome, ok, err, arith, ltb, ◌==◌, length,
  take, drop, take-append-drop, length-append, length-take, if◌then◌else◌,
}
use bigcp.Base.Bytes.{Bytes}
use bigcp.Transport.Burst.{
  Cause, was_canceled, io_failed, no_progress, Call, stops, gives, interrupted, breaks, Phase,
  read_from, write_to,
}

-- The count of a result, a success or a failure.
abbrev pub moved : Outcome (Cause × ℕ) ℕ → ℕ
moved (ok n) = n
moved (err (_, n)) = n

-- A read phase that is over: nothing is lost, and the count is that of the buffer.
pub record IsRead (limit : ℕ) (filled rest : Bytes) (r : Outcome (Cause × ℕ) ℕ × Bytes × Bytes)
    : Type 0 where
  pub got : Bytes
  pub buffer : r.1 ≡ filled ++ got
  pub kept : got ++ r.2 ≡ rest
  pub count : moved r.0 ≡ length r.1
  pub bounded : length r.1 ≤ limit

abbrev Reads : ℕ → (filled rest : Bytes) → Phase → Type 0
Reads limit filled rest none = Unit
Reads limit filled rest (some r) = IsRead limit filled rest r

still :
    (limit : ℕ) (filled rest : Bytes) (r : Outcome (Cause × ℕ) ℕ)
    → length filled ≤ limit
    → moved r ≡ length filled
    → IsRead limit filled rest (r, filled, rest)
still limit filled rest r h e = record {
  got = [];
  buffer = sym (append-nil filled);
  kept = refl;
  count = e;
  bounded = h;
}

further :
    (limit : ℕ) (filled more left : Bytes) (whole : Bytes) (p : Phase)
    → more ++ left ≡ whole
    → Reads limit (filled ++ more) left p
    → Reads limit filled whole p
further limit filled more left whole none e h = h
further limit filled more left whole (some r) e h = record {
  got = more ++ h.got;
  buffer = h.buffer ∙ append_assoc filled more h.got;
  kept = append_assoc more h.got r.2 ∙ ap (λ l. more ++ l) h.kept ∙ e;
  count = h.count;
  bounded = h.bounded;
}

module _ (request_bytes : ℕ) where
  read_from-Reads :
      (limit : ℕ) (calls : List Call) (filled rest : Bytes)
      → length filled ≤ limit
      → Reads limit filled rest (read_from request_bytes limit calls filled rest)
  unfolding read_from
  read_from-Reads limit [] filled rest h =
      if_elim (Reads limit filled rest) (ltb (length filled) limit) _ _ (λ _. tt)
        (λ _. still limit filled rest (ok (length filled)) h refl)
  read_from-Reads limit (stops ∷ calls) filled rest h =
      if_elim (Reads limit filled rest) (ltb (length filled) limit) _ _
        (λ _. still limit filled rest (err (was_canceled, length filled)) h refl)
        (λ _. still limit filled rest (ok (length filled)) h refl)
  read_from-Reads limit (interrupted ∷ calls) filled rest h =
      if_elim (Reads limit filled rest) (ltb (length filled) limit) _ _
        (λ _. read_from-Reads limit calls filled rest h)
        (λ _. still limit filled rest (ok (length filled)) h refl)
  read_from-Reads limit (breaks e ∷ calls) filled rest h =
      if_elim (Reads limit filled rest) (ltb (length filled) limit) _ _
        (λ _. still limit filled rest (err (io_failed e, length filled)) h refl)
        (λ _. still limit filled rest (ok (length filled)) h refl)
  read_from-Reads limit (gives n ∷ calls) filled rest h =
      let count = min (suc n) (min (min request_bytes (limit - length filled)) (length rest)) in
      if_elim (Reads limit filled rest) (ltb (length filled) limit) _ _
        (λ _.
          if_elim (Reads limit filled rest) (count == 0) _ _
            (λ _. still limit filled rest (ok (length filled)) h refl)
            (λ _.
              further limit filled (take count rest) (drop count rest) rest _
                (take-append-drop count rest)
                (read_from-Reads limit calls (filled ++ take count rest) (drop count rest)
                  (omega (arith, length-append filled (take count rest), length-take count rest)))))
        (λ _. still limit filled rest (ok (length filled)) h refl)

-- A write phase that is over: the file grew by what left the buffer, all of it after a success.
pub record IsWritten (written : ℕ) (left file : Bytes) (r : Outcome (Cause × ℕ) ℕ × Bytes × Bytes)
    : Type 0 where
  pub put : Bytes
  pub grown : r.2 ≡ file ++ put
  pub kept : put ++ r.1 ≡ left
  pub count : moved r.0 ≡ written + length put
  pub complete : (n : ℕ) → r.0 ≡ ok n → r.1 ≡ []

abbrev Writes : ℕ → (left file : Bytes) → Phase → Type 0
Writes written left file none = Unit
Writes written left file (some r) = IsWritten written left file r

stopped :
    (written : ℕ) (left file : Bytes) (cause : Cause)
    → IsWritten written left file (err (cause, written), left, file)
stopped written left file cause = record {
  put = [];
  grown = sym (append-nil file);
  kept = refl;
  count = omega arith;
  complete = λ n e. absurd (cc);
}

finished : (written : ℕ) (file : Bytes) → IsWritten written [] file (ok written, [], file)
finished written file = record {
  put = [];
  grown = sym (append-nil file);
  kept = refl;
  count = omega arith;
  complete = λ n e. refl;
}

onward :
    (written count : ℕ) (more left whole file : Bytes) (p : Phase)
    → more ++ left ≡ whole
    → length more ≡ count
    → Writes (written + count) left (file ++ more) p
    → Writes written whole file p
onward written count more left whole file none e l h = h
onward written count more left whole file (some r) e l h = record {
  put = more ++ h.put;
  grown = h.grown ∙ append_assoc file more h.put;
  kept = append_assoc more h.put r.1 ∙ ap (λ x. more ++ x) h.kept ∙ e;
  count = omega (arith, h.count, length-append more h.put);
  complete = h.complete;
}

if_Writes :
    (b : Bool) (written : ℕ) (left file : Bytes) (x y : Phase)
    → Writes written left file x
    → Writes written left file y
    → Writes written left file (if b then x else y)
if_Writes true written left file x y h k = h
if_Writes false written left file x y h k = k

module _ (request_bytes : ℕ) where
  write_to-Writes :
      (written : ℕ) (calls : List Call) (left file : Bytes)
      → Writes written left file (write_to request_bytes written calls left file)
  unfolding write_to
  write_to-Writes written [] [] file = finished written file
  write_to-Writes written [] (b ∷ bs) file = tt
  write_to-Writes written (call ∷ calls) [] file = finished written file
  write_to-Writes written (stops ∷ calls) (b ∷ bs) file = stopped written (b ∷ bs) file was_canceled
  write_to-Writes written (interrupted ∷ calls) (b ∷ bs) file =
      write_to-Writes written calls (b ∷ bs) file
  write_to-Writes written (breaks e ∷ calls) (b ∷ bs) file =
      stopped written (b ∷ bs) file (io_failed e)
  write_to-Writes written (gives n ∷ calls) (b ∷ bs) file =
      let left = b ∷ bs in
      let count = min n (min request_bytes (length left)) in
      if_Writes (count == 0) written left file _ _ (stopped written left file no_progress) (
        onward written count (take count left) (drop count left) left file _
          (take-append-drop count left) (omega (arith, length-take count left))
          (write_to-Writes (written + count) calls (drop count left) (file ++ take count left)))

  -- A phase of either kind that comes to an end.
  pub read_from-IsRead :
      (limit : ℕ) (calls : List Call) (rest : Bytes) (r : Outcome (Cause × ℕ) ℕ × Bytes × Bytes)
      → read_from request_bytes limit calls [] rest ≡ some r
      → IsRead limit [] rest r
  read_from-IsRead limit calls rest r e =
      subst (Reads limit [] rest) e
        (read_from-Reads request_bytes limit calls [] rest (omega arith))

  pub write_to-IsWritten :
      (calls : List Call) (left file : Bytes) (r : Outcome (Cause × ℕ) ℕ × Bytes × Bytes)
      → write_to request_bytes 0 calls left file ≡ some r
      → IsWritten 0 left file r
  write_to-IsWritten calls left file r e =
      subst (Writes 0 left file) e (write_to-Writes 0 calls left file)
