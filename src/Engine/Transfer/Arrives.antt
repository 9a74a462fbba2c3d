-- ===== src/Engine/Transfer/Arrives.antt =====
-- The request-at-a-time loop comes to its end.
use bigcp.Base.{
  if_elim, ℕ, suc, ◌+◌, ◌-◌, ◌≤◌, ◌<◌, min, ◌≡◌, refl, subst, none, some, List, [], ◌∷◌, ok, err,
  arith, ltb, ◌==◌, length, map, length-drop,
}
use bigcp.Engine.Transfer.{Moving, carries, SegmentResult, Messages, carry, standard_loop}
use bigcp.Engine.Transfer.Moved.{Moved, Advances, standard_loop-Advances}

abbrev Succeeds : SegmentResult → Type 0
Succeeds none = ⊥
Succeeds (some (err _, _)) = ⊥
Succeeds (some (ok _, _)) = Unit

outcome :
    (bound : ℕ) (m : Moving) (r : SegmentResult)
    → Succeeds r
    → Advances 0 bound m r
    → (after : Moving) × (r ≡ some (ok bound, after)) × Moved bound m after
outcome bound m none h a = absurd h
outcome bound m (some (err _, _)) h a = absurd h
outcome bound m (some (ok n, after)) h (k, e, moved, full) =
    (after, rw full refl, subst (λ (j : ℕ). Moved j m after) (omega (arith, e, full)) moved)

module _ (messages : Messages) (buffer_len bound : ℕ) (usable : 0 < buffer_len) where
  standard_loop-Succeeds :
      (counts : List ℕ) (moved : ℕ) (m : Moving)
      → bound ≤ moved + length counts
      → bound ≤ moved + length m.rest
      → Succeeds (standard_loop messages buffer_len bound (map carries counts) moved m)
  unfolding standard_loop carry
  standard_loop-Succeeds [] moved m enough there =
      if_elim Succeeds (ltb moved bound) _ _ (λ more. absurd (ground (arith, more))) (λ _. tt)
  standard_loop-Succeeds (n ∷ counts) moved m enough there =
      let count = min (suc n) (min (min (bound - moved) buffer_len) (length m.rest)) in
      if_elim Succeeds (ltb moved bound) _ _
        (λ more.
          let open_still : moved < bound = ground (arith, more) in
          if_elim Succeeds (count == 0) _ _
            (λ zero_count. absurd (ground (arith, zero_count, open_still)))
            (λ some_bytes.
              let progress : 0 < count = omega arith in
              standard_loop-Succeeds counts (moved + count) (carry messages count m)
                (omega (arith, progress)) (omega (arith, length-drop count m.rest))))
        (λ _. tt)

  -- If the source holds `bound` bytes, the buffer is not empty and the calls do not fail, then, however
  -- few bytes each read gives, `bound` rounds are enough for the loop to return `bound`, with just as many
  -- bytes moved from the source to the destination and the hasher.
  pub standard_loop-arrives :
      (counts : List ℕ) (m : Moving)
      → bound ≤ length counts
      → bound ≤ length m.rest
      → (after : Moving) × (standard_loop messages buffer_len bound (map carries counts) 0 m
          ≡ some (ok bound, after))
        × Moved bound m after
  standard_loop-arrives counts m enough there =
      outcome bound m _ (standard_loop-Succeeds counts 0 m (omega arith) (omega arith))
        (standard_loop-Advances messages buffer_len bound (map carries counts) 0 m (omega arith))
