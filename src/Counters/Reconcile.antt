-- ===== src/Counters/Reconcile.antt =====
-- Reconciliation succeeds exactly if every discovered file had one terminal outcome.
use bigcp.Base.{
  ℕ, suc, ◌+◌, ◌≤◌, ◌<◌, ◌≡◌, refl, ◌∙◌, List, [], ◌∷◌, ok, err, arith, ◌==◌, if◌then◌else◌,
}
use bigcp.Counters.{
  u64_max, FileOutcome, copied_new_file, copied_replaced_file, Counters, zero_counters,
  note_file_discovered, count_outcome, apply_file, files_mismatch, terminal_files,
  terminal_directories, terminal_links, reconcile,
}

-- What the coordinator does to the counters of files: discovery and outcome come from different
-- call sites, in any order.
pub data FileEvent : Type 0 where
  discovered : (bytes : ℕ) → FileEvent
  settled : FileOutcome → FileEvent

unfoldable pub account : FileEvent → Counters → Counters
account (discovered bytes) c = note_file_discovered bytes c
account (settled outcome) c = apply_file outcome c

unfoldable pub account_all : List FileEvent → Counters → Counters
account_all [] c = c
account_all (e ∷ es) c = account_all es (account e c)

abbrev pub discoveries : List FileEvent → ℕ
discoveries [] = 0
discoveries (discovered _ ∷ es) = suc (discoveries es)
discoveries (settled _ ∷ es) = discoveries es

abbrev pub outcomes : List FileEvent → ℕ
outcomes [] = 0
outcomes (discovered _ ∷ es) = outcomes es
outcomes (settled _ ∷ es) = suc (outcomes es)

-- The sum of the eight disjoint counters, not saturated.
abbrev pub terminal_sum : Counters → ℕ
terminal_sum c =
    c.copied_new + c.copied_replaced + c.skipped_same + c.skipped_diff + c.meta_fixed + c.failed
    + c.excluded + c.not_attempted

-- An outcome grows the sum of the eight counters by one, and nothing of discovery, of directories
-- or of links.
count_outcome_lem :
    (o : FileOutcome) (c : Counters)
    → terminal_sum c < u64_max
    → terminal_sum (count_outcome o c) ≡ suc (terminal_sum c)
unfolding count_outcome
count_outcome_lem (copied_new_file _ _) c h = omega arith
count_outcome_lem (copied_replaced_file _ _ _ _ _ _) c h = omega arith
count_outcome_lem _ c h = omega arith

apply_file-terminal_sum :
    (o : FileOutcome) (c : Counters)
    → terminal_sum c < u64_max
    → terminal_sum (apply_file o c) ≡ suc (terminal_sum c)
unfolding apply_file
apply_file-terminal_sum o c h = count_outcome_lem o c h

-- The fields that the two operations leave alone.
abbrev pub SameElsewhere : Counters → Counters → Type 0
SameElsewhere a b =
    (a.dirs_discovered ≡ b.dirs_discovered)
    × (terminal_directories a ≡ terminal_directories b)
    × (a.links_discovered ≡ b.links_discovered)
    × (terminal_links a ≡ terminal_links b)

account-SameElsewhere : (e : FileEvent) (c : Counters) → SameElsewhere (account e c) c
unfolding account note_file_discovered apply_file count_outcome terminal_directories terminal_links
account-SameElsewhere (discovered bytes) c = (refl, refl, refl, refl)
account-SameElsewhere (settled (copied_new_file _ _)) c = (refl, refl, refl, refl)
account-SameElsewhere (settled _) c = (refl, refl, refl, refl)

-- Copied bytes never pass discovered bytes, also where the sums saturate.
abbrev pub BytesFit : Counters → Type 0
BytesFit c =
    (c.bytes_logical_copied ≤ c.bytes_logical_discovered) × (c.bytes_logical_discovered ≤ u64_max)

account-BytesFit : (e : FileEvent) (c : Counters) → BytesFit c → BytesFit (account e c)
unfolding account note_file_discovered apply_file count_outcome
account-BytesFit (discovered bytes) c h = h
account-BytesFit (settled (copied_new_file _ _)) c h = omega arith
account-BytesFit (settled _) c h = omega arith

account-discovered :
    (e : FileEvent) (es : List FileEvent) (c : Counters)
    → c.files_discovered + discoveries (e ∷ es) ≤ u64_max
    → (account e c).files_discovered + discoveries es ≡ c.files_discovered + discoveries (e ∷ es)
unfolding account note_file_discovered apply_file count_outcome
account-discovered (discovered bytes) es c h = omega arith
account-discovered (settled (copied_new_file _ _)) es c h = refl
account-discovered (settled _) es c h = refl

account-terminal_sum :
    (e : FileEvent) (es : List FileEvent) (c : Counters)
    → terminal_sum c + outcomes (e ∷ es) ≤ u64_max
    → terminal_sum (account e c) + outcomes es ≡ terminal_sum c + outcomes (e ∷ es)
unfolding account note_file_discovered
account-terminal_sum (discovered bytes) es c h = refl
account-terminal_sum (settled o) es c h = omega (arith, apply_file-terminal_sum o c (omega arith))

-- What the counters hold after any sequence of discoveries and outcomes.
pub record Accounted (c : Counters) (es : List FileEvent) (r : Counters) : Type 0 where
  pub found : r.files_discovered ≡ c.files_discovered + discoveries es
  pub ended : terminal_sum r ≡ terminal_sum c + outcomes es
  pub bytes : BytesFit r
  pub elsewhere : SameElsewhere r c

account_all-Accounted :
    (es : List FileEvent) (c : Counters)
    → c.files_discovered + discoveries es ≤ u64_max
    → terminal_sum c + outcomes es ≤ u64_max
    → BytesFit c
    → Accounted c es (account_all es c)
unfolding account_all
account_all-Accounted [] c hd ho hb = record {
  found = omega arith;
  ended = omega arith;
  bytes = hb;
  elsewhere = (refl, refl, refl, refl);
}
account_all-Accounted (e ∷ es) c hd ho hb =
    let fd = account-discovered e es c hd in
    let ft = account-terminal_sum e es c ho in
    let ih =
      account_all-Accounted es (account e c) (omega arith) (omega arith)
        (account-BytesFit e c hb) in
    let (a, b, l, k) = account-SameElsewhere e c in
    let (a', b', l', k') = ih.elsewhere in
    record {
      found = omega arith;
      ended = omega arith;
      bytes = ih.bytes;
      elsewhere = (a' ∙ a, b' ∙ b, l' ∙ l, k' ∙ k);
    }

terminal_files-eq-sum :
    (c : Counters) → terminal_sum c ≤ u64_max → terminal_files c ≡ terminal_sum c
unfolding terminal_files
terminal_files-eq-sum c h = omega arith

-- After any sequence of fewer than 2 ^ 64 discoveries and outcomes, whatever their order and sizes,
-- reconciliation succeeds if there were as many outcomes as discoveries, and otherwise reports both
-- numbers.
pub reconcile-account_all :
    (es : List FileEvent)
    → discoveries es ≤ u64_max
    → outcomes es ≤ u64_max
    → reconcile (account_all es zero_counters) ≡ (
        if outcomes es == discoveries es
        then ok tt
        else err (files_mismatch (discoveries es) (outcomes es)))
unfolding reconcile
reconcile-account_all es hd ho =
    let a = account_all-Accounted es zero_counters (omega arith) (omega arith) (omega arith) in
    let t = terminal_files-eq-sum (account_all es zero_counters) (omega arith) in
    let dirs : terminal_directories zero_counters ≡ 0 = unfold terminal_directories in refl in
    let links : terminal_links zero_counters ≡ 0 = unfold terminal_links in refl in ground arith
