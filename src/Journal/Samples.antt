-- ===== src/Journal/Samples.antt =====
-- A small stand-in for the JSON crate that keeps the laws asked of it, and sample journals. It writes
-- a few bare events of a path of visible characters below `{`, as `{path}` behind a letter.
use bigcp.Base.{
  ℕ, zero, suc, ◌<◌, ◌≡◌, refl, sym, ap, Bool, true, false, not, ◌&&◌, Option, none, some, [], ◌∷◌,
  ◌++◌, arith, ltb, ◌==◌, length, take, All, is_some, List, if◌then◌else◌,
}
use bigcp.Base.Int.{ℤ, pos, eqb_ℤ, eqb_ℤ_iff}
use bigcp.Base.Bytes.{Bytes, bytes_eq, bytes_eq_sound, ascii}
use bigcp.Journal.{
  Checkpoint, JournalEvent, job, checkpoint, part_done, end, StoredRecord, journal_schema_version,
}
use bigcp.Journal.Codec.{Json, JsonLaws}

abbrev pub sample_crc : Bytes
sample_crc = ascii "00000000"

abbrev visible : Bytes → Bool
visible [] = true
visible (b ∷ bs) = not (ltb b 32) && (ltb b 123 && visible bs)

abbrev closed_by_brace : Bytes → Option Bytes
closed_by_brace [] = some []
closed_by_brace (_ ∷ _) = none

abbrev put : ℕ → Option Bytes → Option Bytes
put b none = none
put b (some bs) = some (b ∷ bs)

scan : Bytes → Option Bytes
scan [] = none
scan (b ∷ bs) = let rest = scan bs in if b == 125 then closed_by_brace bs else put b rest

unfoldable pub sample_parse : Bytes → Option Bytes
unfolding scan
sample_parse [] = none
sample_parse (b ∷ bs) = if b == 123 then scan bs else none

-- A checkpoint with nothing but a path, and a job with nothing but a source.
abbrev pub sample_checkpoint : Bytes → Checkpoint
sample_checkpoint p = record {
  relative_path = p;
  stream = [];
  temp_name = [];
  temp_identity = none;
  source_identity = none;
  source_size = 0;
  source_mtime = pos 0;
  watermark = 0;
  prefix_digest = [];
}

abbrev pub sample_job : Bytes → JournalEvent
sample_job p = job [] p [] [] []

abbrev pub sample_record : JournalEvent → StoredRecord
sample_record event = record { j = journal_schema_version; event = event; crc = sample_crc }

-- The first character tells the event.
abbrev read_event : Bytes → Option StoredRecord
read_event [] = none
read_event (kind ∷ p) =
    if kind == 99
    then some (sample_record (checkpoint (sample_checkpoint p)))
    else if kind == 106
    then some (sample_record (sample_job p))
    else some (sample_record (part_done p))

abbrev version_of : Option StoredRecord → Option ℕ
version_of none = none
version_of (some stored) = some stored.j

abbrev is_bare : List Bytes → Bool
is_bare [] = true
is_bare ([] ∷ rest) = is_bare rest
is_bare ((_ ∷ _) ∷ rest) = false

abbrev is_zero : ℤ → Bool
is_zero z = eqb_ℤ z (pos 0)

abbrev bare_checkpoint : Checkpoint → Bool
bare_checkpoint c =
    is_bare (c.stream ∷ c.temp_name ∷ c.prefix_digest ∷ [])
    && (not (is_some c.temp_identity)
        && (not (is_some c.source_identity)
            && (c.source_size == 0 && (is_zero c.source_mtime && c.watermark == 0))))

abbrev framed : ℕ → Bytes → Bytes
framed kind p = 123 ∷ ((kind ∷ p) ++ 125 ∷ [])

abbrev write_event : ℕ → JournalEvent → Bytes → Option Bytes
write_event j (part_done p) crc =
    if j == 1 && (bytes_eq crc sample_crc && visible p) then some (framed 112 p) else none
write_event j (job i p d o t) crc =
    if is_bare (i ∷ d ∷ o ∷ t ∷ []) && (j == 1 && (bytes_eq crc sample_crc && visible p))
    then some (framed 106 p)
    else none
write_event j (checkpoint c) crc =
    if bare_checkpoint c && (j == 1 && (bytes_eq crc sample_crc && visible c.relative_path))
    then some (framed 99 c.relative_path)
    else none
write_event j (end _) crc = none

unfoldable pub sample_write : StoredRecord → Option Bytes
sample_write stored = write_event stored.j stored.event stored.crc

abbrev pub sample_json : Json Bytes
sample_json = record {
  from_slice = sample_parse;
  version = λ value. version_of (read_event value);
  from_value = read_event;
  unsigned_to_vec = λ _ _. some [];
  stored_to_vec = sample_write;
  crc32c = λ _. 0;
}

-- A text that was written, taken apart.
record Wrote (stored : StoredRecord) (text : Bytes) : Type 0 where
  path_of : Bytes
  is_visible : visible path_of ≡ true
  text_is : text ≡ 123 ∷ (path_of ++ 125 ∷ [])
  stored_is : read_event path_of ≡ some stored

bare_lists : (ls : List Bytes) → is_bare ls ≡ true → All (λ l. l ≡ []) ls
bare_lists [] h = tt
bare_lists ([] ∷ ls) h = (refl, bare_lists ls h)
bare_lists ((x ∷ l) ∷ ls) h = absurd (cc)

no_value : {A : Type 0} (o : Option A) → not (is_some o) ≡ true → o ≡ none
no_value none h = refl
no_value (some a) h = absurd (cc)

bare_is_sample : (c : Checkpoint) → bare_checkpoint c ≡ true → c ≡ sample_checkpoint c.relative_path
bare_is_sample c h =
    let bare = bare_lists (c.stream ∷ c.temp_name ∷ c.prefix_digest ∷ []) (ground arith) in
    let identity = no_value c.temp_identity (ground arith) in
    let source = no_value c.source_identity (ground arith) in
    let size : c.source_size ≡ 0 = ground arith in
    let mtime = (eqb_ℤ_iff c.source_mtime (pos 0)).0 (ground arith) in
    let mark : c.watermark ≡ 0 = ground arith in
    λ i. record {
      relative_path = c.relative_path;
      stream = bare.0 i;
      temp_name = bare.1.0 i;
      temp_identity = identity i;
      source_identity = source i;
      source_size = size i;
      source_mtime = mtime i;
      watermark = mark i;
      prefix_digest = bare.1.1.0 i;
    }

wrote :
    (j : ℕ) (event : JournalEvent) (crc text : Bytes)
    → write_event j event crc ≡ some text
    → Wrote (record { j = j; event = event; crc = crc }) text
wrote j (job r s d o t) crc text h = record {
  path_of = 106 ∷ s;
  is_visible = ground arith;
  text_is = ground arith;
  stored_is =
      let bare = bare_lists (r ∷ d ∷ o ∷ t ∷ []) (ground arith) in
      let check = bytes_eq_sound crc sample_crc (ground arith) in
      let number : j ≡ 1 = ground arith in
      sym λ i. some (record {
        j = number i;
        event = job (bare.0 i) s (bare.1.0 i) (bare.1.1.0 i) (bare.1.1.1.0 i);
        crc = check i;
      });
}
wrote j (checkpoint c) crc text h = record {
  path_of = 99 ∷ c.relative_path;
  is_visible = ground arith;
  text_is = ground arith;
  stored_is =
      let bare = bare_is_sample c (ground arith) in
      let check = bytes_eq_sound crc sample_crc (ground arith) in
      let number : j ≡ 1 = ground arith in
      sym λ i. some (record { j = number i; event = checkpoint (bare i); crc = check i });
}
wrote j (end _) crc text h = absurd (cc)
wrote j (part_done p) crc text h = record {
  path_of = 112 ∷ p;
  is_visible = ground arith;
  text_is = ground arith;
  stored_is = ground (arith, bytes_eq_sound crc sample_crc);
}

Wrote-stored :
    (stored : StoredRecord) (text : Bytes) → sample_write stored ≡ some text → Wrote stored text
unfolding sample_write
Wrote-stored stored text h = wrote stored.j stored.event stored.crc text h

All-visible : (p : Bytes) → visible p ≡ true → All (λ b. ltb b 32 ≡ false) (p ++ 125 ∷ [])
All-visible [] h = (refl, tt)
All-visible (b ∷ bs) h = (ground arith, All-visible bs (ground arith))

scan-whole : (p : Bytes) → visible p ≡ true → scan (p ++ 125 ∷ []) ≡ some p
unfolding scan
scan-whole [] h = refl
scan-whole (b ∷ bs) h = ground (arith, scan-whole bs)

scan-cut :
    (n : ℕ) (p : Bytes)
    → visible p ≡ true
    → n < length (p ++ 125 ∷ [])
    → scan (take n (p ++ 125 ∷ [])) ≡ none
unfolding scan
scan-cut zero p h lt = refl
scan-cut (suc n) [] h lt = absurd (omega arith)
scan-cut (suc n) (b ∷ bs) h lt = ground (arith, scan-cut n bs)

parse-whole : (p : Bytes) → visible p ≡ true → sample_parse (123 ∷ (p ++ 125 ∷ [])) ≡ some p
unfolding sample_parse
parse-whole p h = scan-whole p h

parse-cut :
    (n : ℕ) (p : Bytes)
    → visible p ≡ true
    → n < length (123 ∷ (p ++ 125 ∷ []))
    → sample_parse (take n (123 ∷ (p ++ 125 ∷ []))) ≡ none
unfolding sample_parse
parse-cut zero p h lt = refl
parse-cut (suc n) p h lt = scan-cut n p h (omega arith)

pub sample_laws : JsonLaws sample_json
sample_laws = record {
  no_control = λ stored text h.
      let w = Wrote-stored stored text h in rw w.text_is (refl, All-visible w.path_of w.is_visible);
  reads_back = λ stored text h.
      let w = Wrote-stored stored text h in
      (
        w.path_of,
        rw w.text_is (parse-whole w.path_of w.is_visible),
        ap version_of w.stored_is,
        w.stored_is,
      );
  cut_fails = λ stored text n h lt.
      let w = Wrote-stored stored text h in
      rw w.text_is (
        parse-cut n w.path_of w.is_visible (
          let e : length text ≡ length (123 ∷ (w.path_of ++ 125 ∷ [])) =
            ap (λ (t : Bytes). length t) w.text_is in
          omega (arith, e)));
}
