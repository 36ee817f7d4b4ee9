-- ===== src/Support.antt =====
-- src/util/mtp_support.c: paths, wide strings and identifiers.
-- A string is the list of its characters in front of the NUL. A wide string in memory is a list of
-- units. Printing a number is the C library's.
pub mod Paths
pub mod Wide
use cmtp_responder.Base.Bytes.{blit}
use cmtp_responder.Base.{
  ℕ, zero, suc, ◌+◌, ◌-◌, ◌*◌, ◌/◌, ◌%◌, ◌^◌, Bool, true, false, not, Option, none, some, List, [],
  ◌∷◌, ◌++◌, ltb, leb, ◌==◌, if◌then◌else◌, length, get_or, take, drop, replicate, set,
}

abbrev pub slash : ℕ
slash = 47

abbrev pub dot : ℕ
dot = 46

-- `strrchr`: where the last `c` stands.
one_more : ℕ → ℕ → Option ℕ → Option ℕ
one_more c x (some i) = some (suc i)
one_more c x none = if x == c then some 0 else none

unfoldable pub last_index : ℕ → List ℕ → Option ℕ
unfolding one_more
last_index c [] = none
last_index c (x ∷ xs) = one_more c x (last_index c xs)

-- `g_strlcpy(…, src, size)` into a buffer of at least so many bytes.
unfoldable pub strlcpy : ℕ → List ℕ → List ℕ
strlcpy size src = take (size - 1) src

abbrev pub max_pathname_size : ℕ
max_pathname_size = 1045

behind_dot : List ℕ → Option ℕ → Option (List ℕ)
unfolding strlcpy
behind_dot name none = none
behind_dot name (some i) = some (strlcpy max_pathname_size (drop (i + 1) name))

-- `none` is FALSE.
unfoldable pub get_file_extn : List ℕ → Option (List ℕ)
unfolding behind_dot
get_file_extn f_name = behind_dot f_name (last_index dot f_name)

-- From the NUL to the left, `i` is the place and `j` the number of places passed.
unfoldable pub name_loop : List ℕ → (i j : ℕ) → List ℕ
unfolding strlcpy
name_loop path zero j =
    if get_or path 0 0 == slash then strlcpy j (drop 1 path) else strlcpy (j + 1) path
name_loop path (suc i) j =
    let rest = name_loop path i (j + 1) in
    if get_or path (suc i) 0 == slash then strlcpy j (drop (suc i + 1) path) else rest

unfoldable pub get_file_name : List ℕ → List ℕ
unfolding name_loop
get_file_name fullpath = name_loop fullpath (length fullpath) 0

up_to_dot : List ℕ → Option ℕ → List ℕ
unfolding strlcpy
up_to_dot name none = strlcpy (length name + 1) name
up_to_dot name (some i) = strlcpy (i + 1) name

name_wo_extn : List ℕ → Option ℕ → Option (List ℕ)
unfolding up_to_dot
name_wo_extn fullpath none = none
name_wo_extn fullpath (some i) =
    let name = drop (i + 1) fullpath in some (up_to_dot name (last_index dot name))

unfoldable pub get_file_name_wo_extn : List ℕ → Option (List ℕ)
unfolding name_wo_extn
get_file_name_wo_extn fullpath = name_wo_extn fullpath (last_index slash fullpath)

parent_of : List ℕ → Option ℕ → Option (List ℕ)
unfolding strlcpy
parent_of fullpath none = none
parent_of fullpath (some i) = some (strlcpy (i + 1) fullpath)

-- `none` leaves the buffer as it is.
unfoldable pub get_parent_path : List ℕ → Option (List ℕ)
unfolding parent_of
get_parent_path fullpath = parent_of fullpath (last_index slash fullpath)

-- `!strncmp(path, prefix, strlen(prefix))`
pub begins_with : List ℕ → List ℕ → Bool
begins_with [] path = true
begins_with (c ∷ cs) [] = false
begins_with (c ∷ cs) (p ∷ ps) = if c == p then begins_with cs ps else false

-- `ext_path` is the path of the external store, which does not change.
unfoldable pub is_path_len_valid : (ext_path path : List ℕ) → Bool
unfolding begins_with
is_path_len_valid ext_path path =
    if begins_with ext_path path
    then not (ltb (max_pathname_size - length ext_path) (length path - length ext_path))
    else false

-- 10 ^ num_bytes, or `UINT_MAX` where the number has room in any case.
unfoldable pub max_value_of : ℕ → ℕ
max_value_of num_bytes = if leb 10 num_bytes then 2 ^ 32 - 1 else (10 ^ num_bytes) % 2 ^ 32

-- The names that are tried, with the rounds left.
unique_loop : (List ℕ → Bool) → (ℕ → List ℕ) → List ℕ → (left val : ℕ) → Option (List ℕ)
unique_loop exists print path zero val = none
unique_loop exists print path (suc left) val =
    let buf = path ++ 95 ∷ print val in
    let rest = unique_loop exists print path left (val + 1) in if exists buf then rest else some buf

-- `none` is FALSE. The buffer is longer than the path.
unfoldable pub get_unique_dir_path :
    (List ℕ → Bool) → (ℕ → List ℕ) → List ℕ → (buf_len : ℕ) → Option (List ℕ)
unfolding unique_loop max_value_of
get_unique_dir_path exists print exist_path buf_len =
    let num_bytes = buf_len - length exist_path - 1 in
    if num_bytes == 0
    then none
    else unique_loop exists print exist_path (max_value_of num_bytes - 1) 1

-- `while (n && (*temp++ = *src++)) n--; if (n) while (--n) *temp++ = 0;`, where the block of `src`
-- has a NUL or more than `n` units; the result is what is written. This is the branch for two pointers
-- that are aligned to two bytes.
unfoldable pub wchar_ncpy : List ℕ → ℕ → List ℕ
wchar_ncpy src zero = []
wchar_ncpy [] (suc n) = []
wchar_ncpy (c ∷ src) (suc n) = if c == 0 then replicate (suc n) 0 else c ∷ wchar_ncpy src n

-- The units in front of the NUL.
unfoldable pub wchar_len : List ℕ → ℕ
wchar_len [] = 0
wchar_len (c ∷ s) = if c == 0 then 0 else suc (wchar_len s)

-- The digits of a 32-bit value, the highest first, until what is left of it is 0.
hex_loop : ℕ → ℕ → List ℕ
hex_loop zero val = []
hex_loop (suc left) val =
    let digit = val / 2 ^ 28 in
    if val == 0
    then []
    else (if ltb digit 10 then 48 + digit else 55 + digit) ∷ hex_loop left (val * 16 % 2 ^ 32)

unfoldable pub conv_int_to_hex_str : ℕ → List ℕ
unfolding hex_loop
conv_int_to_hex_str int_val = 48 ∷ 120 ∷ hex_loop 8 int_val

-- Four units as a 64-bit number, as many as there are.
unfoldable pub words_value : List ℕ → ℕ
words_value [] = 0
words_value (u ∷ us) = u + 2 ^ 16 * words_value us

-- Each eight units are added to the two halves, with the rounds left.
pub guid_loop : ℕ → List ℕ → ℕ × ℕ → ℕ × ℕ
unfolding words_value
guid_loop zero units guid = guid
guid_loop (suc left) [] guid = guid
guid_loop (suc left) (u ∷ units) (low, high) = guid_loop left (drop 8 (u ∷ units)) (
  (low + words_value (take 4 (u ∷ units))) % 2 ^ 64,
  (high + words_value (take 4 (drop 4 (u ∷ units)))) % 2 ^ 64,
)

-- `wstr` is the string without its NUL.
unfoldable pub conv_wstr_to_guid : List ℕ → ℕ × ℕ
unfolding guid_loop
conv_wstr_to_guid wstr = guid_loop (length wstr) wstr (0, 0)

unfoldable pub converted : List ℕ → (dest_items : ℕ) → Option (List ℕ) → List ℕ × ℕ
unfolding wchar_ncpy
converted dest dest_items none = (set dest 0 0, 0)
converted dest dest_items (some utf16) =
    (blit 0 (wchar_ncpy (utf16 ++ 0 ∷ []) dest_items) dest, length utf16)

-- `g_utf8_to_utf16` is a parameter; `none` is an error. The buffer and the number of the units that
-- the text has.
unfoldable pub utf8_to_utf16 :
    (List ℕ → Option (List ℕ)) → List ℕ → (dest_items : ℕ) → List ℕ → List ℕ × ℕ
unfolding converted
utf8_to_utf16 convert dest dest_items src = converted dest dest_items (convert src)

-- `g_utf16_to_utf8` is a parameter; the text that is left in the buffer and the length of the whole.
unfoldable pub utf16_to_utf8 : (List ℕ → Option (List ℕ)) → (dest_size : ℕ) → List ℕ → List ℕ × ℕ
unfolding strlcpy
utf16_to_utf8 convert dest_size src = elim (convert src) [
  | none ↦ ([], 0)
  | some utf8 ↦ (strlcpy dest_size utf8, length utf8)
]
