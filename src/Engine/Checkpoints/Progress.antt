-- ===== src/Engine/Checkpoints/Progress.antt =====
-- A stream of which a beginning was moved.
use bigcp.Base.{
  ℕ, ◌+◌, ◌≡◌, refl, sym, ap, ◌∙◌, Option, none, some, ◌++◌, append_assoc, arith, length,
  length-append,
}
use bigcp.Base.Bytes.{Bytes}
use bigcp.Engine.Transfer.{Moving, feed}
use bigcp.Engine.Transfer.Moved.{Moved}

module _ (source : Bytes) where
  -- The first `total` bytes of the source were moved, and the hasher, if there is one, got just these.
  pub record HasMoved (total : ℕ) (m : Moving) : Type 0 where
    pub prefix : Bytes
    pub count : length prefix ≡ total
    pub left : prefix ++ m.rest ≡ source
    pub file : m.file ≡ prefix
    pub hashed : (fed : Bytes) → m.hasher ≡ some fed → fed ≡ prefix

  feed_inverse :
      (h : Option Bytes) (got fed : Bytes)
      → feed h got ≡ some fed
      → (before : Bytes) × (h ≡ some before) × (before ++ got ≡ fed)
  feed_inverse none got fed e = absurd (cc)
  feed_inverse (some before) got fed e = (before, refl, cc)

  pub Moved-HasMoved :
      (total n : ℕ) (a b : Moving) → HasMoved total a → Moved n a b → HasMoved (total + n) b
  Moved-HasMoved total n a b h step = record {
    prefix = h.prefix ++ step.got;
    count = omega (arith, h.count, step.count, length-append h.prefix step.got);
    left = append_assoc h.prefix step.got b.rest ∙ ap (λ r. h.prefix ++ r) step.source ∙ h.left;
    file = step.file ∙ ap (λ f. f ++ step.got) h.file;
    hashed = λ fed e.
        let (before, was, whole) = feed_inverse a.hasher step.got fed (sym step.hashed ∙ e) in
        sym whole ∙ ap (λ f. f ++ step.got) (h.hashed before was);
  }
