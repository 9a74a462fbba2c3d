-- ===== src/Journal/Handle/Appends.antt =====
-- What an append leaves in memory and on disk, whatever the operating system answers.
use bigcp.Base.{
  ℕ, zero, suc, ◌≡◌, refl, sym, ap, ◌⊎◌, inl, inr, Bool, true, false, [], ◌∷◌, ◌++◌, append-nil, ok,
  err, Outcome-cases, take, last?, Bool-cases, if◌then◌else◌,
}
use bigcp.Base.Bytes.{Bytes}
use bigcp.Errors.{BigcpError, io, invariant}
use bigcp.Journal.{JournalEvent}
use bigcp.Journal.Codec.{newline, Json, encode_record}
use bigcp.Journal.Reader.{is_newline}
use bigcp.Journal.Handle.{
  Journal, Attempt, works, breaks, WriteAttempt, whole, partial, Step, and_then, try, AppendIo,
  write_newline, is_empty, heal_tail, write_with, remember, append_line, append,
}

-- The bytes of a file with its last line ended.
abbrev pub terminated : Bytes → Bytes
terminated disk =
    if is_empty disk then disk else if is_newline (last? disk) then disk else disk ++ newline ∷ []

-- What a failed append of `line` can leave of a file.
pub data Left (disk line after : Bytes) : Type 0 where
  as_before : after ≡ disk → Left disk line after
  healed : after ≡ terminated disk → Left disk line after
  cut_short : (n : ℕ) → after ≡ terminated disk ++ take n line → Left disk line after
  not_flushed : after ≡ terminated disk ++ line → Left disk line after

abbrev on_disk : Journal → Bytes → Journal
on_disk journal disk = record journal { disk = disk }

data Healed (journal : Journal) (r : Step) : Type 0 where
  heal_done : r ≡ (ok tt, on_disk journal (terminated journal.disk)) → Healed journal r
  heal_stopped :
      (e : BigcpError) (after : Bytes)
      → ((after ≡ journal.disk) ⊎ (after ≡ terminated journal.disk))
      → r ≡ (err e, on_disk journal after)
      → Healed journal r

terminated_open :
    (disk : Bytes)
    → is_empty disk ≡ false
    → is_newline (last? disk) ≡ false
    → terminated disk ≡ disk ++ newline ∷ []
terminated_open disk e n = rw (e, n)

write_newline-Healed :
    (heal : WriteAttempt) (journal : Journal)
    → is_empty journal.disk ≡ false
    → is_newline (last? journal.disk) ≡ false
    → Healed journal (write_newline heal journal)
write_newline-Healed whole journal e n =
    heal_done (ap (λ d. (ok tt, on_disk journal d)) (sym (terminated_open journal.disk e n)))
write_newline-Healed (partial zero x) journal e n =
    heal_stopped (io "heal journal tail" x) (journal.disk ++ []) (inl (append-nil journal.disk))
      refl
write_newline-Healed (partial (suc zero) x) journal e n =
    heal_stopped (io "heal journal tail" x) (journal.disk ++ newline ∷ [])
      (inr (sym (terminated_open journal.disk e n))) refl
write_newline-Healed (partial (suc (suc k)) x) journal e n =
    heal_stopped (io "heal journal tail" x) (journal.disk ++ newline ∷ [])
      (inr (sym (terminated_open journal.disk e n))) refl

heal_tail-Healed : (calls : AppendIo) (journal : Journal) → Healed journal (heal_tail calls journal)
unfolding heal_tail
heal_tail-Healed calls journal = elim (Bool-cases (is_empty journal.disk)) [
  | inl e ↦ heal_done (rw e)
  | inr e ↦ rest e calls.probe calls.seek_again calls.heal
]
  where
    rest :
        is_empty journal.disk ≡ false
        → (probe again : Attempt) (heal : WriteAttempt)
        → Healed journal (
            if is_empty journal.disk
            then (ok tt, journal)
            else and_then (try "probe journal tail" probe journal) (λ probed.
              and_then (try "seek journal append" again probed) (λ sought.
                if is_newline (last? sought.disk)
                then (ok tt, sought)
                else write_newline heal sought)))
    rest e (breaks x) again heal =
        heal_stopped (io "probe journal tail" x) journal.disk (inl refl) (rw e)
    rest e works (breaks x) heal =
        heal_stopped (io "seek journal append" x) journal.disk (inl refl) (rw e)
    rest e works works heal = elim (Bool-cases (is_newline (last? journal.disk))) [
      | inl n ↦ heal_done (rw (e, n))
      | inr n ↦ rw (e, n) (write_newline-Healed heal journal e n)
    ]

-- What `append` of an event does to a journal: success, or an error that leaves everything in
-- memory as it was.
pub data AppendOutcome {Value : Type 0} (json : Json Value) (event : JournalEvent)
    (journal : Journal) (r : Step) : Type 0 where
  appended :
      (line : Bytes)
      → encode_record json event ≡ ok line
      → r ≡ (ok tt, remember event (record journal { disk = terminated journal.disk ++ line }))
      → AppendOutcome json event journal r
  not_tried : (e : BigcpError) → r ≡ (err e, journal) → AppendOutcome json event journal r
  failed :
      (line : Bytes) (e : BigcpError) (after : Bytes)
      → encode_record json event ≡ ok line
      → Left journal.disk line after
      → r ≡ (err e, record journal { disk = after })
      → AppendOutcome json event journal r

module _ {Value : Type 0} (json : Json Value) (event : JournalEvent) where
  write_outcome :
      (calls : AppendIo) (line : Bytes) (journal : Journal)
      → encode_record json event ≡ ok line
      → AppendOutcome json event journal (
          and_then
            (write_with calls.write calls.rollback line (on_disk journal (terminated journal.disk)))
            λ written.
              and_then
                (try "flush journal" calls.flush written)
                λ flushed. (ok tt, remember event flushed))
  write_outcome calls line journal enc = go calls.write calls.rollback calls.flush
    where
      go :
          (write : WriteAttempt) (rollback : Bool) (flush : Attempt)
          → AppendOutcome json event journal (
              and_then
                (write_with write rollback line (on_disk journal (terminated journal.disk)))
                λ written.
                  and_then
                    (try "flush journal" flush written)
                    λ flushed. (ok tt, remember event flushed))
      go whole rollback works = appended line enc refl
      go whole rollback (breaks x) =
          failed line (io "flush journal" x) (terminated journal.disk ++ line) enc
            (not_flushed refl) refl
      go (partial n x) true flush =
          failed line (io "append journal" x) (terminated journal.disk) enc (healed refl) refl
      go (partial n x) false flush =
          failed line (io "append journal" x) (terminated journal.disk ++ take n line) enc
            (cut_short n refl) refl

  append_line_outcome :
      (calls : AppendIo) (line : Bytes) (journal : Journal)
      → encode_record json event ≡ ok line
      → AppendOutcome json event journal (append_line calls event line journal)
  unfolding append_line
  append_line_outcome calls line journal enc = go calls.seek
    where
      go :
          (seek : Attempt)
          → AppendOutcome json event journal (
              and_then (try "seek journal append" seek journal) λ sought.
                and_then (heal_tail calls sought) λ healed.
                  and_then (write_with calls.write calls.rollback line healed) λ written.
                    and_then
                      (try "flush journal" calls.flush written)
                      λ flushed. (ok tt, remember event flushed))
      go (breaks x) = not_tried (io "seek journal append" x) refl
      go works = elim (heal_tail-Healed calls journal) [
        | heal_done h ↦ rw h (write_outcome calls line journal enc)
        | heal_stopped e after (inl a) h ↦ rw h (failed line e after enc (as_before a) refl)
        | heal_stopped e after (inr a) h ↦ rw h (failed line e after enc (healed a) refl)
      ]

  -- An append writes its whole line behind what the file held, with the last old line ended, and
  -- only then updates the hints; a failed one leaves the memory as it was, and on disk the old
  -- bytes, at most the missing newline, and a beginning of the line.
  pub append-outcome :
      (calls : AppendIo) (journal : Journal)
      → AppendOutcome json event journal (append json calls event journal)
  unfolding append
  append-outcome calls journal = elim (Outcome-cases (encode_record json event)) [
    | inr (e, enc) ↦ not_tried e (rw (enc, append))
    | inl (line, enc) ↦ elim (Bool-cases journal.is_open) [
      | inr o ↦
          not_tried (invariant "journal append handle is unavailable") (rw (enc, append) (simp o))
      | inl o ↦ rw (enc, append) (simp o (append_line_outcome calls line journal enc))
    ]
  ]
