-- ===== src/Transport/Burst/Ends.antt =====
-- A phase comes to its end.
use bigcp.Base.{
  if_elim, ℕ, suc, ◌+◌, ◌-◌, ◌≤◌, ◌<◌, min, List, [], ◌∷◌, ◌++◌, arith, ltb, ◌==◌, length, take,
  drop, length-append, length-take, length-drop, HasEnded,
}
use bigcp.Base.Bytes.{Bytes}
use bigcp.Transport.Burst.{Call, stops, gives, interrupted, breaks, read_from, write_to}

-- The calls that are not interrupted.
abbrev pub effective : List Call → ℕ
effective [] = 0
effective (interrupted ∷ calls) = effective calls
effective (stops ∷ calls) = suc (effective calls)
effective (gives _ ∷ calls) = suc (effective calls)
effective (breaks _ ∷ calls) = suc (effective calls)

module _ (request_bytes : ℕ) where
  -- As many effective calls as bytes are enough.
  pub read_from-HasEnded :
      (limit : ℕ) (calls : List Call) (filled rest : Bytes)
      → limit ≤ length filled + effective calls
      → HasEnded (read_from request_bytes limit calls filled rest)
  unfolding read_from
  read_from-HasEnded limit [] filled rest h =
      if_elim HasEnded (ltb (length filled) limit) _ _ (λ more. absurd (ground (arith, more, h)))
        (λ _. tt)
  read_from-HasEnded limit (stops ∷ calls) filled rest h =
      if_elim HasEnded (ltb (length filled) limit) _ _ (λ _. tt) (λ _. tt)
  read_from-HasEnded limit (breaks e ∷ calls) filled rest h =
      if_elim HasEnded (ltb (length filled) limit) _ _ (λ _. tt) (λ _. tt)
  read_from-HasEnded limit (interrupted ∷ calls) filled rest h =
      if_elim HasEnded (ltb (length filled) limit) _ _
        (λ _. read_from-HasEnded limit calls filled rest h) (λ _. tt)
  read_from-HasEnded limit (gives n ∷ calls) filled rest h =
      let count = min (suc n) (min (min request_bytes (limit - length filled)) (length rest)) in
      if_elim HasEnded (ltb (length filled) limit) _ _
        (λ _.
          if_elim HasEnded (count == 0) _ _ (λ _. tt)
            (λ some_bytes.
              let progress : 0 < count = ground (arith, some_bytes) in
              read_from-HasEnded limit calls (filled ++ take count rest) (drop count rest) (
                omega (
                  arith,
                  h,
                  progress,
                  length-append filled (take count rest),
                  length-take count rest,
                ))))
        (λ _. tt)

  pub write_to-HasEnded :
      (written : ℕ) (calls : List Call) (left file : Bytes)
      → length left ≤ effective calls
      → HasEnded (write_to request_bytes written calls left file)
  unfolding write_to
  write_to-HasEnded written [] [] file h = tt
  write_to-HasEnded written [] (b ∷ bs) file h = absurd (omega (arith, h))
  write_to-HasEnded written (call ∷ calls) [] file h = tt
  write_to-HasEnded written (stops ∷ calls) (b ∷ bs) file h = tt
  write_to-HasEnded written (breaks e ∷ calls) (b ∷ bs) file h = tt
  write_to-HasEnded written (interrupted ∷ calls) (b ∷ bs) file h =
      write_to-HasEnded written calls (b ∷ bs) file h
  write_to-HasEnded written (gives n ∷ calls) (b ∷ bs) file h =
      let left = b ∷ bs in
      let count = min n (min request_bytes (length left)) in
      if_elim HasEnded (count == 0) _ _ (λ _. tt)
        (λ some_bytes.
          let progress : 0 < count = ground (arith, some_bytes) in
          write_to-HasEnded (written + count) calls (drop count left) (file ++ take count left)
            (omega (arith, h, progress, length-drop count left)))
