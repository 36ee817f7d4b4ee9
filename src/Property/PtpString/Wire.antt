-- ===== src/Property/PtpString/Wire.antt =====
-- `_prop_size_ptpstring`, `_prop_pack_ptpstring` and `_prop_parse_rawstring` of
-- src/entity/mtp_property.c: a string on the wire, a count byte and little-endian units.
use cmtp_responder.Base.Bytes.{le_bytes, blit, blit_zero}
use cmtp_responder.Base.{
  append_assoc, append-nil, ℕ, zero, suc, ◌+◌, ◌-◌, ◌*◌, ◌/◌, ◌%◌, ◌^◌, ◌≤◌, ◌<◌, ◌≡◌, refl, ◌∙◌,
  ap, sym, inl, inr, false, none, some, List, [], ◌∷◌, ◌++◌, arith, ltb, ◌==◌, Bool-cases, eq_of_==,
  ne_of_==, not-ltb, ◌↔◌, length, get_or, set, take, drop, length-take, length-set, take-set_at,
  take-set_self, take-take,
}
use cmtp_responder.Property.PtpArray.{block_bytes}
use cmtp_responder.Property.PtpArray.Pack.{length-block_bytes}
use cmtp_responder.Property.PtpString.{
  PtpString, size_ptpstring, pack_ptpstring_body, pack_ptpstring, parse_loop, room_for, clamp_count,
  seal, parse_rawstring, text,
}

-- Units of 16 bits.
abbrev pub Units : List ℕ → Type 0
Units [] = Unit
Units (x ∷ xs) = (x < 2 ^ 16) × Units xs

take-block_bytes :
    (n : ℕ) (xs : List ℕ) → take (n * 2) (block_bytes 2 xs) ≡ block_bytes 2 (take n xs)
unfolding block_bytes le_bytes
take-block_bytes zero xs = refl
take-block_bytes (suc n) [] = let e : suc n * 2 ≡ suc (suc (n * 2)) = omega arith in rw e
take-block_bytes (suc n) (x ∷ xs) =
    let e : suc n * 2 ≡ suc (suc (n * 2)) = omega arith in
    rw e (ap (λ l. (x % 256) ∷ (x / 256 % 256) ∷ l) (take-block_bytes n xs))

-- Reading the bytes of `xs` behind `i` units stores `xs` there.
parse_loop_lem :
    (xs : List ℕ) (i : ℕ) (rest str : List ℕ)
    → Units xs
    → i + length xs ≤ length str
    → (take (i + length xs) (parse_loop (length xs) i (block_bytes 2 xs ++ rest) str)
        ≡ take i str ++ xs)
      × (length (parse_loop (length xs) i (block_bytes 2 xs ++ rest) str) ≡ length str)
unfolding parse_loop block_bytes le_bytes
parse_loop_lem [] i rest str u h =
    (ap (λ k. take k str) (omega arith) ∙ sym (append-nil (take i str)), refl)
parse_loop_lem (x ∷ xs) i rest str u h =
    let word : x % 256 + 256 * (x / 256 % 256) ≡ x = omega (arith, u.0) in
    let next : i + 1 ≡ suc i = omega arith in
    let total : i + suc (length xs) ≡ suc i + length xs = omega arith in
    let (read, room) =
      parse_loop_lem xs (suc i) rest (set str i x) u.1 (omega (arith, length-set str i x)) in
    rw (word, next, total)
      (
        read
            ∙ ap (λ l. l ++ xs) (take-set_at i str x (omega arith))
            ∙ append_assoc (take i str) (x ∷ []) xs,
        room ∙ length-set str i x,
      )

-- The bytes of a string: its count, then its counted units.
unfoldable pub wire : PtpString → List ℕ
wire p = p.num_chars ∷ block_bytes 2 (take p.num_chars p.str)

-- The units that a string counts are in its array, and are 16-bit.
pub record IsValid (p : PtpString) : Type 0 where
  pub counted : p.num_chars ≤ length p.str
  pub small : p.num_chars < 256
  pub units : Units (take p.num_chars p.str)

pack_nonempty :
    (n : ℕ) (str buf : List ℕ) (size : ℕ)
    → suc n ≤ length str
    → suc n < 256
    → suc n * 2 + 1 ≤ size
    → suc n * 2 + 1 ≤ length buf
    → pack_ptpstring_body str (some buf) size (suc n * 2 + 1) (suc n)
      ≡ (some (suc n ∷ block_bytes 2 (take (suc n) str) ++ drop (suc n * 2 + 1) buf), suc n * 2 + 1)
unfolding pack_ptpstring_body blit
pack_nonempty n str [] size hs small hsize hbuf = absurd (omega arith)
pack_nonempty n str (b ∷ buf) size hs small hsize hbuf =
    let some_size : (size == 0) ≡ false = ground arith in
    let enough : ltb size (suc n * 2 + 1) ≡ false = ground arith in
    let some_chars : (suc n == 0) ≡ false = ground arith in
    let byte : suc n % 256 ≡ suc n = omega arith in
    let pred : suc n * 2 + 1 - 1 ≡ suc n * 2 = omega arith in
    let next : suc n * 2 + 1 ≡ suc (suc n * 2) = omega arith in
    let units = block_bytes 2 (take (suc n) str) in
    let long : length units ≡ suc n * 2 =
      length-block_bytes 2 (take (suc n) str)
      ∙ ap (λ (k : ℕ). k * 2) (omega (arith, length-take (suc n) str)) in
    rw (some_size, enough, some_chars, byte, pred, take-block_bytes (suc n) str)
      (ap (λ l. (some (suc n ∷ l), suc n * 2 + 1))
        (blit_zero units buf (omega (arith, long))
          ∙ ap (λ k. units ++ drop k buf) long
          ∙ ap (λ k. units ++ drop k (b ∷ buf)) (sym next)))

pack_body_lem :
    (n : ℕ) (str buf : List ℕ) (size : ℕ)
    → n ≤ length str
    → n < 256
    → n * 2 + 1 ≤ size
    → n * 2 + 1 ≤ length buf
    → pack_ptpstring_body str (some buf) size (n * 2 + 1) n
      ≡ (some (n ∷ block_bytes 2 (take n str) ++ drop (n * 2 + 1) buf), n * 2 + 1)
unfolding pack_ptpstring_body block_bytes
pack_body_lem zero str [] size hs small hsize hbuf = absurd (omega arith)
pack_body_lem zero str (b ∷ buf) size hs small hsize hbuf =
    let some_size : (size == 0) ≡ false = ground arith in
    let enough : ltb size 1 ≡ false = ground arith in rw (some_size, enough)
pack_body_lem (suc n) str buf size hs small hsize hbuf =
    pack_nonempty n str buf size hs small hsize hbuf

-- What parsing the bytes of `p` into `q` gives back.
pub record Parsed (p : PtpString) (taken : ℕ) (q : PtpString) : Type 0 where
  pub taken_eq : taken ≡ size_ptpstring (some p)
  pub count : q.num_chars ≡ p.num_chars
  pub text_eq : text q ≡ text p

parse_nonempty :
    (n : ℕ) (xs rest str : List ℕ)
    → Units xs
    → length xs ≡ suc n
    → suc n ≤ length str
    → (q : PtpString) × (seal (suc n) (parse_loop (suc n) 0 (block_bytes 2 xs ++ rest) str)
        ≡ some (q, suc n * 2 + 1))
      × (q.num_chars ≡ suc n)
      × (text q ≡ take n xs)
unfolding seal text size_ptpstring
parse_nonempty n xs rest str u len room =
    let out = parse_loop (suc n) 0 (block_bytes 2 xs ++ rest) str in
    let (read, _) = parse_loop_lem xs 0 rest str u (omega (arith, len)) in
    let total : 0 + length xs ≡ suc n = omega (arith, len) in
    let whole : take (suc n) out ≡ xs =
      ap (λ k. take (suc n) (parse_loop k 0 (block_bytes 2 xs ++ rest) str)) (sym len)
      ∙ ap (λ k. take k (parse_loop (length xs) 0 (block_bytes 2 xs ++ rest) str)) (sym total)
      ∙ read in
    let pred : suc n - 1 ≡ n = omega arith in
    (
      record { num_chars = suc n; str = set out n 0 },
      refl,
      refl,
      rw pred
          (take-set_self n out 0 ∙ sym (take-take (suc n) n out (omega arith)) ∙ ap (take n) whole),
    )

clamp_count_enough : (k size : ℕ) → k * 2 + 1 ≤ size → size < 2 ^ 17 → clamp_count k size ≡ k
unfolding clamp_count
clamp_count_enough k size fits small =
    rw (not-ltb (room_for size) k (unfold room_for in omega arith))

parse_bytes :
    (k : ℕ) (q : PtpString) (xs rest : List ℕ) (size : ℕ)
    → Units xs
    → length xs ≡ k
    → k ≤ length q.str
    → k * 2 + 1 ≤ size
    → size < 2 ^ 17
    → (r : PtpString) × (parse_rawstring q (some (k ∷ block_bytes 2 xs ++ rest)) size
        ≡ some (r, k * 2 + 1))
      × (r.num_chars ≡ k)
      × (text r ≡ take (k - 1) xs)
unfolding parse_rawstring text
parse_bytes zero q xs rest size u len room fits small =
    (record q { num_chars = 0 }, refl, refl, refl)
parse_bytes (suc n) q xs rest size u len room fits small =
    let some_chars : (suc n == 0) ≡ false = ground arith in
    let enough = clamp_count_enough (suc n) size fits small in
    let (r, eq, count, said) = parse_nonempty n xs rest q.str u len room in
    let pred : suc n - 1 ≡ n = omega arith in (r, rw (some_chars, enough) eq, count, rw pred said)

module _ (p : PtpString) (valid : IsValid p) where
  -- Packing a string into a buffer with room writes its count and its units at the start, leaves
  -- the rest, and returns the size that was announced.
  pub pack_ptpstring-wire :
      (buf : List ℕ) (size : ℕ)
      → size_ptpstring (some p) ≤ size
      → size_ptpstring (some p) ≤ length buf
      → pack_ptpstring (some p) (some buf) size
        ≡ (some (wire p ++ drop (size_ptpstring (some p)) buf), size_ptpstring (some p))
  unfolding pack_ptpstring size_ptpstring wire
  pack_ptpstring-wire buf size hsize hbuf =
      pack_body_lem p.num_chars p.str buf size valid.counted valid.small hsize hbuf

  -- Where the announced size is at least the packed size and below 2^17, and the array that is parsed
  -- into has room for the units: parsing the bytes of a valid string, with anything behind them, gives
  -- its text and its count back, and takes as many bytes as packing wrote.
  pub parse_rawstring-wire :
      (q : PtpString) (rest : List ℕ) (size : ℕ)
      → size_ptpstring (some p) ≤ size
      → size < 2 ^ 17
      → p.num_chars ≤ length q.str
      → (r : PtpString) × (taken : ℕ) × (parse_rawstring q (some (wire p ++ rest)) size
          ≡ some (r, taken))
        × Parsed p taken r
  unfolding wire size_ptpstring text
  parse_rawstring-wire q rest size fits small room =
      let xs = take p.num_chars p.str in
      let (r, eq, count, said) =
        parse_bytes p.num_chars q xs rest size valid.units
          (omega (arith, length-take p.num_chars p.str, valid.counted)) room fits small in
      (
        r,
        p.num_chars * 2 + 1,
        eq,
        record {
          taken_eq = refl;
          count = count;
          text_eq = said ∙ take-take p.num_chars (p.num_chars - 1) p.str (omega arith);
        },
      )

seal_eq_none : (n : ℕ) (str : List ℕ) → (seal n str ≡ none) ↔ (n ≡ 0)
unfolding seal
seal_eq_none zero str = (λ _. refl, λ _. refl)
seal_eq_none (suc n) str = (λ h. cc, λ h. absurd (omega arith))

clamp_count_zero :
    (count size : ℕ)
    → count < 256
    → 0 < count
    → 0 < size
    → size < 2 ^ 17
    → (clamp_count count size ≡ 0) ↔ (size ≤ 2)
unfolding clamp_count room_for
clamp_count_zero count size byte more pos small = (λ h. ground arith, λ h. ground arith)

pos_of_ne : (n : ℕ) → (n ≡ 0 → ⊥) → 0 < n
pos_of_ne n h = omega arith

-- For an announced size from 1 to 2^17 - 1 and a count byte below 256, parsing writes in front of the
-- string's array exactly when the count byte is not zero and the announced size leaves no room for a
-- unit: it is 1 or 2.
pub parse_rawstring_underflow :
    (q : PtpString) (buf : List ℕ) (size : ℕ)
    → get_or buf 0 0 < 256
    → 0 < size
    → size < 2 ^ 17
    → (parse_rawstring q (some buf) size ≡ none) ↔ ((0 < get_or buf 0 0) × (size ≤ 2))
unfolding parse_rawstring
parse_rawstring_underflow q buf size byte pos small = elim (Bool-cases (get_or buf 0 0 == 0)) [
  | inl empty ↦ rw empty (λ h. cc, λ h. absurd (omega (arith, eq_of_== (get_or buf 0 0) 0 empty)))
  | inr more ↦
      let count = pos_of_ne (get_or buf 0 0) (ne_of_== (get_or buf 0 0) 0 more) in
      let (to, from) = clamp_count_zero (get_or buf 0 0) size byte count pos small in
      let (sealed, unsealed) =
        seal_eq_none (clamp_count (get_or buf 0 0) size)
          (parse_loop (clamp_count (get_or buf 0 0) size) 0 (drop 1 buf) q.str) in
      rw more (λ h. (count, to (sealed h)), λ h. unsealed (from h.1))
]
