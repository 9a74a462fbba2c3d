-- ===== src/Engine/Resume/Prefixes.antt =====
-- The loop of `resume_unnamed` reads the beginning of the temporary, and ends.
use bigcp.Base.{
  if_elim, ℕ, suc, ◌-◌, ◌≤◌, min, ◌≡◌, refl, sym, ap, ◌∙◌, true, ◌==◌, Option, none, some, List, [],
  ◌∷◌, ◌++◌, append-nil, append_assoc, arith, length, take, drop, length-append, length-take,
  take-append-drop, take-length-append, HasEnded,
}
use bigcp.Base.Bytes.{Bytes}
use bigcp.Engine.Resume.{PrefixRead, gives, breaks, Prefix, verified, ended, failed, read_prefix}

pub record IsPrefix (remaining : ℕ) (unread fed out : Bytes) : Type 0 where
  pub got : Bytes
  pub left : Bytes
  pub whole : got ++ left ≡ unread
  pub count : length got ≡ remaining
  pub all : out ≡ fed ++ got

abbrev pub Reads : ℕ → (unread fed : Bytes) → Option Prefix → Type 0
Reads remaining unread fed none = Unit
Reads remaining unread fed (some ended) = Unit
Reads remaining unread fed (some (failed _)) = Unit
Reads remaining unread fed (some (verified out)) = IsPrefix remaining unread fed out

further :
    (count remaining : ℕ) (more left unread fed : Bytes) (p : Option Prefix)
    → more ++ left ≡ unread
    → length more ≡ count
    → count ≤ remaining
    → Reads (remaining - count) left (fed ++ more) p
    → Reads remaining unread fed p
further count remaining more left unread fed none e l h r = tt
further count remaining more left unread fed (some ended) e l h r = tt
further count remaining more left unread fed (some (failed _)) e l h r = tt
further count remaining more left unread fed (some (verified out)) e l h r = record {
  got = more ++ r.got;
  left = r.left;
  whole = append_assoc more r.got r.left ∙ ap (λ x. more ++ x) r.whole ∙ e;
  count = omega (arith, l, h, r.count, length-append more r.got);
  all = r.all ∙ append_assoc fed more r.got;
}

done :
    (remaining : ℕ) (unread fed : Bytes)
    → (remaining == 0) ≡ true
    → Reads remaining unread fed (some (verified fed))
done remaining unread fed zero_left = record {
  got = [];
  left = unread;
  whole = refl;
  count = ground (arith, zero_left);
  all = sym (append-nil fed);
}

pub read_prefix-Reads :
    (chunk : ℕ) (reads : List PrefixRead) (remaining : ℕ) (unread fed : Bytes)
    → Reads remaining unread fed (read_prefix chunk reads remaining unread fed)
unfolding read_prefix
read_prefix-Reads chunk [] remaining unread fed =
    if_elim (Reads remaining unread fed) (remaining == 0) _ _ (done remaining unread fed) (λ _. tt)
read_prefix-Reads chunk (breaks e ∷ reads) remaining unread fed =
    if_elim (Reads remaining unread fed) (remaining == 0) _ _ (done remaining unread fed) (λ _. tt)
read_prefix-Reads chunk (gives n ∷ reads) remaining unread fed =
    let count = min (suc n) (min (min remaining chunk) (length unread)) in
    if_elim (Reads remaining unread fed) (remaining == 0) _ _ (done remaining unread fed) (λ _.
      if_elim (Reads remaining unread fed) (count == 0) _ _ (λ _. tt)
        (λ _.
          further count remaining (take count unread) (drop count unread) unread fed _
            (take-append-drop count unread) (omega (arith, length-take count unread)) (omega arith)
            (read_prefix-Reads chunk reads (remaining - count) (drop count unread)
              (fed ++ take count unread))))

pub read_prefix-HasEnded :
    (chunk : ℕ) (reads : List PrefixRead) (remaining : ℕ) (unread fed : Bytes)
    → remaining ≤ length reads
    → HasEnded (read_prefix chunk reads remaining unread fed)
unfolding read_prefix
read_prefix-HasEnded chunk [] remaining unread fed h =
    if_elim HasEnded (remaining == 0) _ _ (λ _. tt) (λ more. absurd (ground (arith, more, h)))
read_prefix-HasEnded chunk (breaks e ∷ reads) remaining unread fed h =
    if_elim HasEnded (remaining == 0) _ _ (λ _. tt) (λ _. tt)
read_prefix-HasEnded chunk (gives n ∷ reads) remaining unread fed h =
    let count = min (suc n) (min (min remaining chunk) (length unread)) in
    if_elim HasEnded (remaining == 0) _ _ (λ _. tt)
      (λ _.
        if_elim HasEnded (count == 0) _ _ (λ _. tt)
          (λ some_bytes.
            let progress : 1 ≤ count = ground (arith, some_bytes) in
            read_prefix-HasEnded chunk reads (remaining - count) (drop count unread)
              (fed ++ take count unread) (omega (arith, h, progress))))

-- All that was read, from the beginning.
pub prefix_taken :
    (w : ℕ) (contents out : Bytes) (p : IsPrefix w contents [] out) → p.got ≡ take w contents
prefix_taken w contents out p = rw (← p.whole, ← p.count) (sym (take-length-append p.got p.left))
