-- ===== src/Property/PtpString.antt =====
-- src/entity/mtp_property.c: `ptp_string_t`, a counted UTF-16 string with its terminator.
-- `ptp_time_string_t` differs only in the room of `str`, and its functions have the same bodies.
pub mod Copy
pub mod Wire
pub mod Put
pub mod Copied
use cmtp_responder.Base.Bytes.{blit}
use cmtp_responder.Property.PtpArray.{block_bytes}
use cmtp_responder.Base.{
  ℕ, zero, suc, ◌+◌, ◌-◌, ◌*◌, ◌/◌, ◌%◌, ◌^◌, Bool, true, false, Option, none, some, List, [], ◌∷◌,
  ltb, ◌==◌, ◌||◌, if◌then◌else◌, get_or, set, take, drop,
}

abbrev pub max_ptp_string_chars : ℕ
max_ptp_string_chars = 255

-- `num_chars` counts the terminator; `str` is the array of 16-bit units.
pub record PtpString : Type 0 where
  pub num_chars : ℕ
  pub str : List ℕ

-- `char_mode_t`; `other` stands for any value that is none of the enumerators.
pub data CharMode : Type 0 where
  char_type wchar_type other : CharMode

-- `(mtp_wchar)c` of a signed `char`.
unfoldable pub widen : ℕ → ℕ
widen c = if ltb c 128 then c else c + 65280

-- Copies up to the NUL, or until `left` units are written; the list ends where the NUL stands.
copy_loop : (ℕ → ℕ) → ℕ → ℕ → List ℕ → List ℕ → List ℕ × ℕ
copy_loop unit zero i src dst = (dst, i)
copy_loop unit (suc left) i [] dst = (dst, i)
copy_loop unit (suc left) i (c ∷ src) dst =
    if c == 0 then (dst, i) else copy_loop unit left (i + 1) src (set dst i (unit c))

-- The count, and the terminator behind the last unit.
terminate : PtpString → List ℕ × ℕ → PtpString
terminate p (str, i) =
    let n = if i == max_ptp_string_chars then i else i + 1 in
    record { num_chars = n; str = set str (n - 1) 0 }

copy_units : (ℕ → ℕ) → PtpString → List ℕ → PtpString
unfolding copy_loop terminate
copy_units unit p src =
    if get_or src 0 0 == 0
    then record p { num_chars = 0 }
    else terminate p (copy_loop unit max_ptp_string_chars 0 src p.str)

-- `none` is a NULL string.
unfoldable pub copy_char_to_ptpstring : PtpString → Option (List ℕ) → CharMode → PtpString
unfolding copy_units widen
copy_char_to_ptpstring p none mode = record p { num_chars = 0 }
copy_char_to_ptpstring p (some src) char_type = copy_units widen p src
copy_char_to_ptpstring p (some src) wchar_type = copy_units (λ c. c) p src
copy_char_to_ptpstring p (some src) other = record p { num_chars = 0 }

-- `for (ii = 0; ii < src->num_chars; ii++) dst->str[ii] = src->str[ii];`
copy_str : ℕ → List ℕ → List ℕ → List ℕ
copy_str zero src dst = dst
copy_str (suc n) [] dst = dst
copy_str (suc n) (c ∷ src) [] = []
copy_str (suc n) (c ∷ src) (d ∷ dst) = c ∷ copy_str n src dst

unfoldable pub copy_ptpstring : PtpString → PtpString → PtpString
unfolding copy_str
copy_ptpstring dst src = record {
  num_chars = src.num_chars;
  str = copy_str src.num_chars src.str dst.str;
}

equal_loop : ℕ → List ℕ → List ℕ → Bool
equal_loop zero xs ys = true
equal_loop (suc n) (x ∷ xs) (y ∷ ys) = if x == y then equal_loop n xs ys else false
equal_loop (suc n) _ _ = true

unfoldable pub is_equal_ptpstring : PtpString → PtpString → Bool
unfolding equal_loop
is_equal_ptpstring a b =
    if a.num_chars == b.num_chars then equal_loop a.num_chars a.str b.str else false

-- `none` is a NULL string.
unfoldable pub size_ptpstring : Option PtpString → ℕ
size_ptpstring none = 0
size_ptpstring (some p) = p.num_chars * 2 + 1

-- Writes the buffer, and returns the number of bytes. `none` is a NULL buffer.
unfoldable pub pack_ptpstring_body : List ℕ → Option (List ℕ) → ℕ → ℕ → ℕ → Option (List ℕ) × ℕ
pack_ptpstring_body str none size pstring_size num_chars = (none, 0)
pack_ptpstring_body str (some buf) size pstring_size num_chars =
    if size == 0 || ltb size pstring_size
    then (some buf, 0)
    else if num_chars == 0
    then (some (set buf 0 0), 1)
    else (
      some (blit 1 (take (pstring_size - 1) (block_bytes 2 str)) (set buf 0 (num_chars % 256))),
      pstring_size,
    )

unfoldable pub pack_ptpstring : Option PtpString → Option (List ℕ) → ℕ → Option (List ℕ) × ℕ
unfolding pack_ptpstring_body size_ptpstring
pack_ptpstring none buf size = (buf, 0)
pack_ptpstring (some p) buf size =
    pack_ptpstring_body p.str buf size (size_ptpstring (some p)) p.num_chars

-- Reads two bytes for each unit; a read past the end of the buffer, a fault in C, stops it.
pub parse_loop : ℕ → ℕ → List ℕ → List ℕ → List ℕ
parse_loop (suc left) i (lo ∷ hi ∷ rest) str =
    parse_loop left (i + 1) rest (set str i (lo + 256 * hi))
parse_loop _ i bytes str = str

-- `(mtp_uint16)((size - 1) / sizeof(mtp_wchar))`
unfoldable pub room_for : ℕ → ℕ
room_for size = ((size + 2 ^ 32 - 1) % 2 ^ 32) / 2 % 2 ^ 16

-- `if (num_chars > ii) num_chars = (mtp_uchar)ii;`
unfoldable pub clamp_count : ℕ → ℕ → ℕ
unfolding room_for
clamp_count count size = if ltb (room_for size) count then room_for size % 256 else count

-- `str[num_chars - 1] = 0`, which for an empty string writes in front of the array: `none`.
unfoldable pub seal : ℕ → List ℕ → Option (PtpString × ℕ)
unfolding size_ptpstring
seal zero str = none
seal (suc n) str =
    let p : PtpString = record { num_chars = suc n; str = set str n 0 } in
    some (p, size_ptpstring (some p))

-- The string and the number of bytes that it took. `none` is a write in front of the array.
unfoldable pub parse_rawstring : PtpString → Option (List ℕ) → ℕ → Option (PtpString × ℕ)
unfolding parse_loop clamp_count seal
parse_rawstring p none size = some (p, 0)
parse_rawstring p (some buf) size =
    let count = get_or buf 0 0 in
    if count == 0
    then some (record p { num_chars = 0 }, 1)
    else let n = clamp_count count size in seal n (parse_loop n 0 (drop 1 buf) p.str)

-- What the string says, without the terminator.
unfoldable pub text : PtpString → List ℕ
text p = take (p.num_chars - 1) p.str
