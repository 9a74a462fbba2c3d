-- ===== src/Engine/Transfer/Moved.antt =====
-- What a segment that is transferred with success has moved, through any transport.
use bigcp.Base.{
  if_elim, ℕ, suc, ◌+◌, ◌-◌, ◌≤◌, ◌<◌, min, ◌≡◌, refl, sym, ap, subst, ◌∙◌, Option, none, some,
  List, [], ◌∷◌, ◌++◌, append-nil, append_assoc, ok, err, arith, ltb, ◌==◌, length, take,
  take-append-drop, length-append, length-take,
}
use bigcp.Base.Bytes.{Bytes}
use bigcp.Engine.Transfer.{
  Moving, feed, Round, carries, read_fails, write_fails, SegmentResult, Messages, carry,
  standard_loop,
}

-- Some bytes left the source, and the destination and the hasher got just these.
pub record Moved (n : ℕ) (before after : Moving) : Type 0 where
  pub got : Bytes
  pub count : length got ≡ n
  pub source : got ++ after.rest ≡ before.rest
  pub file : after.file ≡ before.file ++ got
  pub hashed : after.hasher ≡ feed before.hasher got

feed-append : (h : Option Bytes) (a b : Bytes) → feed (feed h a) b ≡ feed h (a ++ b)
feed-append none a b = refl
feed-append (some fed) a b = ap some (append_assoc fed a b)

feed-nil : (h : Option Bytes) → feed h [] ≡ h
feed-nil none = refl
feed-nil (some fed) = ap some (append-nil fed)

pub Moved-refl : (m : Moving) → Moved 0 m m
Moved-refl m = record {
  got = [];
  count = refl;
  source = refl;
  file = sym (append-nil m.file);
  hashed = sym (feed-nil m.hasher);
}

pub Moved-trans : (n k : ℕ) (a b c : Moving) → Moved n a b → Moved k b c → Moved (n + k) a c
Moved-trans n k a b c p q = record {
  got = p.got ++ q.got;
  count = omega (arith, p.count, q.count, length-append p.got q.got);
  source = append_assoc p.got q.got c.rest ∙ ap (λ r. p.got ++ r) q.source ∙ p.source;
  file = q.file ∙ ap (λ f. f ++ q.got) p.file ∙ append_assoc a.file p.got q.got;
  hashed = q.hashed ∙ ap (λ h. feed h q.got) p.hashed ∙ feed-append a.hasher p.got q.got;
}

-- Of a result that is a success: `moved` bytes were moved before, and now `bound` are.
abbrev pub Advances : (moved bound : ℕ) → Moving → SegmentResult → Type 0
Advances moved bound m none = Unit
Advances moved bound m (some (err _, _)) = Unit
Advances moved bound m (some (ok n, after)) =
    (k : ℕ) × (n ≡ moved + k) × Moved k m after × (n ≡ bound)

Advances-after :
    (moved k bound : ℕ) (a b : Moving) (r : SegmentResult)
    → Moved k a b
    → Advances (moved + k) bound b r
    → Advances moved bound a r
Advances-after moved k bound a b none step h = tt
Advances-after moved k bound a b (some (err _, _)) step h = tt
Advances-after moved k bound a b (some (ok n, after)) step (j, e, more, full) =
    (k + j, omega (arith, e), Moved-trans k j a b after step more, full)

reached :
    (moved bound : ℕ) (m : Moving) → moved ≡ bound → Advances moved bound m (some (ok moved, m))
reached moved bound m e = (0, omega arith, Moved-refl m, e)

module _ (messages : Messages) where
  carry-Moved :
      (count : ℕ) (m : Moving) → count ≤ length m.rest → Moved count m (carry messages count m)
  unfolding carry
  carry-Moved count m h = record {
    got = take count m.rest;
    count = omega (arith, length-take count m.rest);
    source = take-append-drop count m.rest;
    file = refl;
    hashed = refl;
  }

  pub standard_loop-Advances :
      (buffer_len bound : ℕ) (rounds : List Round) (moved : ℕ) (m : Moving)
      → moved ≤ bound
      → Advances moved bound m (standard_loop messages buffer_len bound rounds moved m)
  unfolding standard_loop
  standard_loop-Advances buffer_len bound [] moved m h =
      if_elim (Advances moved bound m) (ltb moved bound) _ _ (λ _. tt)
        (λ full. reached moved bound m (ground (arith, full)))
  standard_loop-Advances buffer_len bound (read_fails e ∷ rounds) moved m h =
      if_elim (Advances moved bound m) (ltb moved bound) _ _ (λ _. tt)
        (λ full. reached moved bound m (ground (arith, full)))
  standard_loop-Advances buffer_len bound (write_fails n written e ∷ rounds) moved m h =
      if_elim (Advances moved bound m) (ltb moved bound) _ _ (λ _. tt)
        (λ full. reached moved bound m (ground (arith, full)))
  standard_loop-Advances buffer_len bound (carries n ∷ rounds) moved m h =
      let count = min (suc n) (min (min (bound - moved) buffer_len) (length m.rest)) in
      if_elim (Advances moved bound m) (ltb moved bound) _ _
        (λ _.
          if_elim (Advances moved bound m) (count == 0) _ _ (λ _. tt)
            (λ _.
              Advances-after moved count bound m (carry messages count m) _
                (carry-Moved count m (omega arith))
                (standard_loop-Advances buffer_len bound rounds (moved + count)
                  (carry messages count m) (omega arith))))
        (λ full. reached moved bound m (ground (arith, full)))

-- A success that moved no more than it was asked to, and something if it was asked to.
abbrev pub Delivers : (bound : ℕ) → Moving → SegmentResult → Type 0
Delivers bound m none = Unit
Delivers bound m (some (err _, _)) = Unit
Delivers bound m (some (ok n, after)) = Moved n m after × (n ≤ bound) × (0 < bound → 0 < n)

pub Advances-Delivers :
    (bound : ℕ) (m : Moving) (r : SegmentResult) → Advances 0 bound m r → Delivers bound m r
Advances-Delivers bound m none h = tt
Advances-Delivers bound m (some (err _, _)) h = tt
Advances-Delivers bound m (some (ok n, after)) (k, e, moved, full) = (
  subst (λ (j : ℕ). Moved j m after) (omega (arith, e)) moved,
  omega arith,
  λ positive. omega (arith, e, full, positive),
)
