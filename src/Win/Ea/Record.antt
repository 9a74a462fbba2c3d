-- ===== src/Win/Ea/Record.antt =====
-- One written record, in front of any bytes, is read back.
use bigcp.Base.{
  ℕ, zero, suc, ◌+◌, ◌-◌, ◌*◌, ◌/◌, ◌%◌, ◌^◌, ◌≤◌, ◌<◌, ◌≡◌, refl, sym, ap, ◌∙◌, true, false, none,
  some, [], ◌∷◌, ◌++◌, append_assoc, ok, ◌>>=◌, arith, ltb, leb, ◌==◌, length, length-append, drop,
  take-length-append, drop-length-append,
}
use bigcp.Base.Bytes.{Bytes}
use bigcp.Win.Ea.{
  valid_ea_name, Pair, raw_length, padded, zeros, write_record, Header, read_header, end_of_record,
  is_malformed, value_end, hop, parse_record,
}

length-zeros : (n : ℕ) → length (zeros n) ≡ n
length-zeros zero = refl
length-zeros (suc n) = omega (arith, length-zeros n)

-- The header of a written record.
abbrev pub tail_of : Pair → Bytes → Bytes
tail_of (name, value) tail =
    0 ∷ (value ++ zeros (padded (raw_length (name, value)) - raw_length (name, value))) ++ tail

abbrev pub header_of : ℕ → Pair → Bytes → Header
header_of next (name, value) tail = record {
  next = next;
  flags = 0;
  name_length = length name;
  value_length = length value;
  body = name ++ tail_of (name, value) tail;
}

-- A pair whose lengths fit the fields of a record.
pub record IsShort (p : Pair) : Type 0 where
  pub name_fits : length p.0 ≤ 255
  pub value_fits : length p.1 ≤ 65535
  pub name_valid : valid_ea_name p.0 ≡ true

read_header-write_record :
    (next : ℕ) (p : Pair) (tail : Bytes)
    → next < 2 ^ 32
    → length p.1 ≤ 65535
    → read_header (write_record next p ++ tail) ≡ ok (header_of next p tail)
unfolding read_header write_record
read_header-write_record next (name, value) tail n v =
    let next_is : next % 256
          + 256 * (next / 256 % 256)
          + 65536 * (next / 65536 % 256)
          + 16777216 * (next / 16777216 % 256)
        ≡ next =
      omega arith in
    let value_is : length value % 256 + 256 * (length value / 256) ≡ length value = omega arith in
    let body_is =
      append_assoc name
        (0 ∷ (value ++ zeros (padded (raw_length (name, value)) - raw_length (name, value))))
        tail in
    λ i. ok (record {
      next = next_is i;
      flags = 0;
      name_length = length name;
      value_length = value_is i;
      body = body_is i;
    })

pub length-write_record :
    (next : ℕ) (p : Pair) → length (write_record next p) ≡ padded (raw_length p)
unfolding write_record
length-write_record next (name, value) = omega (
  arith,
  length-append name
      (0 ∷ (value ++ zeros (padded (raw_length (name, value)) - raw_length (name, value)))),
  length-append value (zeros (padded (raw_length (name, value)) - raw_length (name, value))),
  length-zeros (padded (raw_length (name, value)) - raw_length (name, value)),
)

not_nil : (name : Bytes) → valid_ea_name name ≡ true → 0 < length name
unfolding valid_ea_name
not_nil [] h = cc
not_nil (x ∷ name) h = omega arith

well_formed :
    (next : ℕ) (p : Pair) (tail : Bytes) (end : ℕ)
    → valid_ea_name p.0 ≡ true
    → raw_length p ≤ end
    → is_malformed (header_of next p tail) end ≡ false
unfolding is_malformed
well_formed next (name, value) tail end v h =
    let positive = not_nil name v in
    rw
      (
        take-length-append name (tail_of (name, value) tail),
        drop-length-append name (tail_of (name, value) tail),
        v,
      )
      (ground arith)

record_then :
    (need next end : ℕ) (p : Pair) (tail : Bytes)
    → next < 2 ^ 32
    → IsShort p
    → raw_length p ≤ end
    → end_of_record next (length (write_record next p ++ tail)) ≡ ok end
    → parse_record need (write_record next p ++ tail) ≡ (
        hop (header_of next p tail) end (write_record next p ++ tail) >>= λ more.
        ok ((0, p.0), more))
unfolding parse_record
record_then need next end p tail n s fits e =
    rw
      (
        read_header-write_record next p tail n s.value_fits,
        e,
        well_formed next p tail end s.name_valid fits,
        take-length-append p.0 (tail_of p tail),
      )
      refl

not_leb : (a b : ℕ) → a < b → leb b a ≡ false
not_leb a b h = ground arith

not_equal : (a b : ℕ) → a < b → (a == b) ≡ false
not_equal a b h = ground arith

ends_at : (n k : ℕ) → n % 4 ≡ 0 → 8 ≤ n → end_of_record n (n + k) ≡ ok n
unfolding end_of_record
ends_at n k m h =
    let some_next : (n == 0) ≡ false = ground arith in
    let aligned : (n % 4 == 0) ≡ true = ground arith in
    let long : ltb n 8 ≡ false = ground arith in
    let inside : ltb (n + k) n ≡ false = ground arith in rw (some_next, aligned, long, inside) refl

hop_on :
    (h : Header) (end : ℕ) (rest : Bytes)
    → h.next ≡ end
    → 0 < end
    → end < length rest
    → hop h end rest ≡ ok (some (drop end rest))
unfolding hop
hop_on h end rest n p l =
    let some_next : (h.next == 0) ≡ false = ground arith in
    let room : (end == length rest) ≡ false = not_equal end (length rest) l in
    rw (some_next, room) refl

-- The last record.
pub parse_last :
    (need : ℕ) (p : Pair)
    → IsShort p
    → parse_record need (write_record 0 p ++ []) ≡ ok ((0, p.0), none)
parse_last need p s =
    record_then need 0 (padded (raw_length p)) p [] (omega arith) s (omega arith) ends
    ∙ ap (λ m. m >>= λ more. ok ((0, p.0), more)) ended
  where
    ends : end_of_record 0 (length (write_record 0 p ++ [])) ≡ ok (padded (raw_length p))
    ends =
        unfold end_of_record in
        ap ok (omega (arith, length-append (write_record 0 p) [], length-write_record 0 p))

    ended : hop (header_of 0 p []) (padded (raw_length p)) (write_record 0 p ++ []) ≡ ok none
    ended =
        let small : leb 4 (padded (raw_length p) - value_end (header_of 0 p [])) ≡ false =
          not_leb _ 4 (omega arith) in
        unfold hop in rw small refl

-- A record before others.
pub parse_next :
    (need : ℕ) (p : Pair) (tail : Bytes)
    → IsShort p
    → 0 < length tail
    → parse_record need (write_record (padded (raw_length p)) p ++ tail) ≡ ok ((0, p.0), some tail)
parse_next need p tail s t =
    record_then need next next p tail (omega (arith, s.name_fits, s.value_fits)) s (omega arith)
      ends
    ∙ ap (λ m. m >>= λ more. ok ((0, p.0), more)) goes_on
  where
    next : ℕ
    next = padded (raw_length p)

    total : length (write_record next p ++ tail) ≡ next + length tail
    total =
        length-append (write_record next p) tail
        ∙ ap (λ n. n + length tail) (length-write_record next p)

    ends : end_of_record next (length (write_record next p ++ tail)) ≡ ok next
    ends = ap (end_of_record next) total ∙ ends_at next (length tail) (omega arith) (omega arith)

    rest_is : drop next (write_record next p ++ tail) ≡ tail
    rest_is =
        ap (λ n. drop n (write_record next p ++ tail)) (sym (length-write_record next p))
        ∙ drop-length-append (write_record next p) tail

    goes_on : hop (header_of next p tail) next (write_record next p ++ tail) ≡ ok (some tail)
    goes_on =
        hop_on (header_of next p tail) next (write_record next p ++ tail) refl (omega arith)
          (omega (arith, total))
        ∙ ap (λ r. ok (some r)) rest_is
