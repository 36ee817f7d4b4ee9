-- ===== src/Property/PtpArray/Pack.antt =====
-- `_prop_get_size_ptparray` and `_prop_pack_ptparray` of src/entity/mtp_property.c: the layout of
-- an array on the wire, a 32-bit count and the elements.
use cmtp_responder.Base.Bytes.{le_bytes, blit, length-le_bytes, blit_zero, blit-append}
use cmtp_responder.Base.{
  append_assoc, append-nil, ℕ, zero, suc, ◌+◌, ◌*◌, ◌%◌, ◌^◌, ◌≤◌, ◌<◌, ◌≡◌, ◌∙◌, ap, sym, true,
  false, Option, none, some, List, [], ◌∷◌, ◌++◌, arith, ltb, ◌==◌, length, take, drop,
  length-append, length-take, length-drop,
}
use cmtp_responder.Property.PtpArray.{
  DataType, uint8, uint16, uint32, ptr, uint128, unknown, PtpArray, elem_size, is_scalar,
  get_size_ptparray, block_bytes, fill_block, pack_ptparray, capacity, block, elements, IsValid,
}
use cmtp_responder.Property.PtpArray.Grow.{max_room, elem_size_pos}

-- The bytes of an array: the count, then the elements.
unfoldable pub wire : ℕ → List ℕ → List ℕ
wire size xs = le_bytes 4 (length xs) ++ block_bytes size xs

pub packed_size :
    (t : DataType) (n : ℕ)
    → is_scalar t ≡ true
    → n ≤ max_room
    → ((4 + n * elem_size t) % 2 ^ 32 ≡ 4 + n * elem_size t)
      × ((4 + elem_size t * n) % 2 ^ 32 ≡ 4 + n * elem_size t)
unfolding elem_size is_scalar
packed_size uint8 n h small = omega arith
packed_size uint16 n h small = omega arith
packed_size uint32 n h small = omega arith
packed_size ptr n h small = omega arith
packed_size uint128 n h small = cc
packed_size unknown n h small = cc

pub length-block_bytes : (size : ℕ) (xs : List ℕ) → length (block_bytes size xs) ≡ length xs * size
unfolding block_bytes
length-block_bytes size [] = omega arith
length-block_bytes size (x ∷ xs) = omega (
  arith,
  length-append (le_bytes size x) (block_bytes size xs),
  length-le_bytes size x,
  length-block_bytes size xs,
)

fill_block_lem :
    (size n : ℕ) (o : Option (List ℕ)) (head rest : List ℕ)
    → n ≤ capacity o
    → 4 ≡ length head
    → n * size ≤ length rest
    → fill_block size n o (head ++ rest)
      ≡ head ++ block_bytes size (take n (block o)) ++ drop (n * size) rest
unfolding fill_block block_bytes
fill_block_lem size zero none head rest fit four room =
    let nothing : 0 * size ≡ 0 = omega arith in rw (nothing, append-nil)
fill_block_lem size zero (some xs) head rest fit four room =
    let nothing : 0 * size ≡ 0 = omega arith in rw (nothing, append-nil)
fill_block_lem size (suc n) none head rest fit four room = elim fit [ ]
fill_block_lem size (suc n) (some xs) head rest fit four room =
    let taken = take (suc n) xs in
    let long : length (block_bytes size taken) ≡ suc n * size =
      length-block_bytes size taken
      ∙ ap (λ (k : ℕ). k * size) (omega (arith, length-take (suc n) xs)) in
    let more : (suc n == 0) ≡ false = ground arith in
    rw more (
      blit-append head (block_bytes size taken) rest 4 four
      ∙ ap (λ l. head ++ l) (blit_zero (block_bytes size taken) rest (omega (arith, long)))
      ∙ sym (append_assoc head (block_bytes size taken) _)
      ∙ ap (λ k. (head ++ block_bytes size taken) ++ drop k rest) long)

drop-drop : (n k : ℕ) (xs : List ℕ) → drop n (drop k xs) ≡ drop (k + n) xs
drop-drop n zero xs = ap (λ i. drop i xs) (omega arith)
drop-drop zero (suc k) [] = let e : suc k + 0 ≡ suc k = omega arith in rw e
drop-drop (suc n) (suc k) [] = let e : suc k + suc n ≡ suc (k + suc n) = omega arith in rw e
drop-drop n (suc k) (x ∷ xs) =
    let e : suc k + n ≡ suc (k + n) = omega arith in rw e (drop-drop n k xs)

size_pos : (t : DataType) → is_scalar t ≡ true → (elem_size t == 0) ≡ false
size_pos t scalar = ground (arith, elem_size_pos t scalar)

-- The announced size is four bytes for the count and the elements' bytes.
pub get_size_ptparray_lem :
    (a : PtpArray)
    → is_scalar a.type ≡ true
    → a.num_ele ≤ max_room
    → get_size_ptparray a ≡ 4 + a.num_ele * elem_size a.type
unfolding get_size_ptparray
get_size_ptparray_lem a scalar small =
    rw (size_pos a.type scalar) (packed_size a.type a.num_ele scalar small).1

module _ (a : PtpArray) (buf : List ℕ) (bufsize : ℕ) (valid : IsValid a)
    (scalar : is_scalar a.type ≡ true) (small : a.num_ele ≤ max_room) where
  -- Packing into a buffer that is large enough writes the count and the elements at its start,
  -- leaves the rest of the buffer, and returns the size that was announced.
  pub pack_ptparray-wire :
      get_size_ptparray a ≤ bufsize
      → get_size_ptparray a ≤ length buf
      → pack_ptparray a (some buf) bufsize ≡ (
        some (wire (elem_size a.type) (elements a) ++ drop (get_size_ptparray a) buf),
        get_size_ptparray a,
      )
  unfolding pack_ptparray elements wire
  pack_ptparray-wire enough room =
      let size = elem_size a.type in
      let n = a.num_ele in
      let announced = get_size_ptparray_lem a scalar small in
      let exact = (packed_size a.type n scalar small).0 in
      let fits : ltb bufsize (4 + n * size) ≡ false = ground (arith, announced) in
      let head : blit 0 (le_bytes 4 n) buf ≡ le_bytes 4 n ++ drop 4 buf =
        blit_zero (le_bytes 4 n) buf (omega (arith, length-le_bytes 4 n, announced))
        ∙ ap (λ k. le_bytes 4 n ++ drop k buf) (length-le_bytes 4 n) in
      let whole : length (take n (block a.array_entry)) ≡ n =
        omega (arith, length-take n (block a.array_entry), valid.room, valid.fits) in
      let filled =
        fill_block_lem size n a.array_entry (le_bytes 4 n) (drop 4 buf)
          (omega (arith, valid.room, valid.fits)) (sym (length-le_bytes 4 n))
          (omega (arith, length-drop 4 buf, announced)) in
      rw (
        announced,
        size_pos a.type scalar,
        exact,
        fits,
        head,
        filled,
        drop-drop (n * size) 4 buf,
        whole,
      )

  -- Packing into a smaller buffer writes nothing and returns 0.
  pub pack_ptparray_short :
      bufsize < get_size_ptparray a → pack_ptparray a (some buf) bufsize ≡ (some buf, 0)
  unfolding pack_ptparray
  pack_ptparray_short short =
      let short_of : ltb bufsize (4 + a.num_ele * elem_size a.type) ≡ true =
        ground (arith, get_size_ptparray_lem a scalar small) in
      rw (size_pos a.type scalar, (packed_size a.type a.num_ele scalar small).0, short_of)
