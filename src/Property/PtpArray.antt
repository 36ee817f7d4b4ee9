-- ===== src/Property/PtpArray.antt =====
-- src/entity/mtp_property.c: `ptp_array_t`, the growing array of handles, codes and bytes.
-- A block of memory is kept as the list of its elements. Memory comes from an `Allocator`, which
-- stands for GLib. A store through a NULL block and an access past the end of a block are faults
-- in C; here they do nothing, and `IsValid` excludes them.
pub mod Append
pub mod Find
pub mod Grow
pub mod Remove
pub mod Pack
use mathlib.Core.Option
use cmtp_responder.Base.Bytes.{le_bytes, blit}
use cmtp_responder.Base.{
  ℕ, zero, suc, ◌+◌, ◌-◌, ◌*◌, ◌/◌, ◌%◌, ◌^◌, ◌≤◌, ◌<◌, ◌≡◌, Bool, true, false, Option, none, some,
  List, [], ◌∷◌, ◌++◌, ltb, leb, ◌==◌, if◌then◌else◌, length, get_or, set, take, replicate,
}

-- `data_type_t`; `unknown` stands for any value that is none of the enumerators.
pub data DataType : Type 0 where
  uint8 uint16 uint32 ptr uint128 unknown : DataType

-- GLib's allocator: whether a request of so many bytes is met, and what fresh memory holds.
pub record Allocator : Type 0 where
  pub malloc : ℕ → Bool
  pub junk : ℕ

-- `g_malloc` and `g_realloc` end the program when memory is short: a request that returns is met.
pub record Grants (m : Allocator) : Type 0 where
  pub at : (bytes : ℕ) → 0 < bytes → m.malloc bytes ≡ true

pub record PtpArray : Type 0 where
  pub type : DataType
  pub arr_size : ℕ
  pub num_ele : ℕ
  pub array_entry : Option (List ℕ)

abbrev pub initial_array_size : ℕ
initial_array_size = 100

unfoldable pub elem_size : DataType → ℕ
elem_size uint8 = 1
elem_size uint16 = 2
elem_size uint32 = 4
elem_size ptr = 4
elem_size uint128 = 16
elem_size unknown = 0

-- A block of so many elements after `memset(…, 0, …)`.
unfoldable pub zeroed : ℕ → List ℕ
zeroed n = replicate n 0

unfoldable pub init_ptparray : Allocator → PtpArray → DataType → PtpArray
init_ptparray m a t =
    let size = elem_size t in
    let fresh = record a { type = t; num_ele = 0 } in
    if size == 0
    then fresh
    else if m.malloc (size * initial_array_size)
    then record fresh {
      array_entry = some (zeroed initial_array_size);
      arr_size = initial_array_size;
    }
    else record fresh { array_entry = none; arr_size = 0 }

unfoldable pub alloc_ptparray :
    Allocator → (struct_size : ℕ) → PtpArray → DataType → Option PtpArray
alloc_ptparray m struct_size garbage t =
    if m.malloc struct_size then some (init_ptparray m garbage t) else none

unfoldable pub get_size_ptparray : PtpArray → ℕ
get_size_ptparray a =
    let size = elem_size a.type in if size == 0 then 0 else (4 + size * a.num_ele) % 2 ^ 32

-- What `g_realloc` leaves in a block that now holds `n` elements.
unfoldable pub resized : ℕ → ℕ → Option (List ℕ) → List ℕ
resized junk n none = replicate n junk
resized junk n (some xs) = take n xs ++ replicate (n - length xs) junk

-- `size * new_size` is computed in 32 bits.
unfoldable pub realloc_ptparray : Allocator → PtpArray → ℕ → ℕ → PtpArray × Bool
realloc_ptparray m a size new_size =
    let bytes = (size * new_size) % 2 ^ 32 in
    if m.malloc bytes
    then (
      record a {
        array_entry = some (resized m.junk (bytes / size) a.array_entry);
        arr_size = new_size;
      },
      true,
    )
    else (record a { array_entry = none; arr_size = 0 }, false)

unfoldable pub ensure_room : Allocator → PtpArray → ℕ → ℕ → PtpArray × Bool
ensure_room m a size new_size =
    if ltb new_size a.arr_size then (a, true) else realloc_ptparray m a size new_size

unfoldable pub grow_ptparray : Allocator → PtpArray → ℕ → PtpArray × Bool
grow_ptparray m a new_size =
    let size = elem_size a.type in
    if size == 0
    then (a, false)
    else if a.arr_size == 0
    then ensure_room m (init_ptparray m a a.type) size new_size
    else ensure_room m a size new_size

-- The casts `(mtp_uchar)`, `(mtp_uint16)` and `(mtp_uint32)`.
unfoldable pub cast : DataType → ℕ → ℕ
cast uint8 v = v % 2 ^ 8
cast uint16 v = v % 2 ^ 16
cast _ v = v % 2 ^ 32

-- The element types that the `switch` statements of this file name.
unfoldable pub is_scalar : DataType → Bool
is_scalar uint8 = true
is_scalar uint16 = true
is_scalar uint32 = true
is_scalar ptr = true
is_scalar _ = false

find_loop : ℕ → ℕ → ℕ → List ℕ → Option ℕ
find_loop element zero ii xs = none
find_loop element (suc left) ii [] = none
find_loop element (suc left) ii (x ∷ xs) =
    if x == element then some ii else find_loop element left (ii + 1) xs

find_in_block : DataType → ℕ → ℕ → Option (List ℕ) → Option ℕ
unfolding find_loop
find_in_block t element n none = none
find_in_block t element n (some xs) =
    if is_scalar t then find_loop (cast t element) n 0 xs else none

-- `none` is `ELEMENT_NOT_FOUND`.
unfoldable pub find_ele_ptparray : PtpArray → ℕ → Option ℕ
unfolding find_in_block
find_ele_ptparray a element = find_in_block a.type element a.num_ele a.array_entry

-- `ptr[parray->num_ele++] = (type)element`
unfoldable pub store_ele : PtpArray → ℕ → PtpArray
store_ele a element =
    if is_scalar a.type
    then record a {
      array_entry = Option.map (λ xs. set xs a.num_ele (cast a.type element)) a.array_entry;
      num_ele = (a.num_ele + 1) % 2 ^ 32;
    }
    else a

unfoldable pub append_ele_ptparray : Allocator → PtpArray → ℕ → PtpArray × Bool
append_ele_ptparray m a element =
    if leb a.arr_size a.num_ele
    then (let (b, done) = grow_ptparray m a (((a.arr_size * 3) % 2 ^ 32) / 2 + 2) in
        if done then (store_ele b element, true) else (b, false))
    else (store_ele a element, true)

unfoldable pub append_loop : Allocator → ℕ → List ℕ → PtpArray → PtpArray
append_loop m zero xs dst = dst
append_loop m (suc left) [] dst = dst
append_loop m (suc left) (x ∷ xs) dst = append_loop m left xs (append_ele_ptparray m dst x).0

append_block : Allocator → ℕ → Option (List ℕ) → PtpArray → PtpArray
unfolding append_loop
append_block m n none dst = dst
append_block m n (some xs) dst = append_loop m n xs dst

-- The results of the single appends are dropped. Where `dst` has another type its block is read
-- anew at the source's type, so the elements are meant for a `dst` of that type.
unfoldable pub copy_ptparray : Allocator → PtpArray → PtpArray → PtpArray × Bool
unfolding append_block
copy_ptparray m dst src =
    let typed = record dst { type = src.type } in
    if is_scalar src.type
    then (append_block m src.num_ele src.array_entry typed, true)
    else (typed, false)

-- The bytes of a block of elements.
unfoldable pub block_bytes : ℕ → List ℕ → List ℕ
block_bytes size [] = []
block_bytes size (x ∷ xs) = le_bytes size x ++ block_bytes size xs

-- The second `memcpy`, where there are elements.
fill_block : ℕ → ℕ → Option (List ℕ) → List ℕ → List ℕ
unfolding block_bytes
fill_block size n none buf = buf
fill_block size n (some xs) buf = if n == 0 then buf else blit 4 (block_bytes size (take n xs)) buf

-- Writes the buffer, and returns the number of bytes. `none` is a NULL buffer.
unfoldable pub pack_ptparray : PtpArray → Option (List ℕ) → ℕ → Option (List ℕ) × ℕ
unfolding fill_block
pack_ptparray a none bufsize = (none, 0)
pack_ptparray a (some buf) bufsize =
    let size = elem_size a.type in
    if size == 0
    then (some buf, 0)
    else if ltb bufsize ((4 + a.num_ele * size) % 2 ^ 32)
    then (some buf, 0)
    else (
      some (fill_block size a.num_ele a.array_entry (blit 0 (le_bytes 4 a.num_ele) buf)),
      (4 + a.num_ele * size) % 2 ^ 32,
    )

-- `for (; ii < num_ele - 1; ii++) ptr[ii] = ptr[ii + 1];`, with the rounds left.
shift_loop : ℕ → ℕ → List ℕ → List ℕ
shift_loop zero ii xs = xs
shift_loop (suc left) ii xs = shift_loop left (ii + 1) (set xs ii (get_or xs (ii + 1) 0))

rem_found : PtpArray → Option ℕ → PtpArray × Bool
unfolding shift_loop
rem_found a none = (a, false)
rem_found a (some ii) = (
  record a {
    array_entry = Option.map (shift_loop (a.num_ele - 1 - ii) ii) a.array_entry;
    num_ele = a.num_ele - 1;
  },
  true,
)

unfoldable pub rem_elem_ptparray : PtpArray → ℕ → PtpArray × Bool
unfolding rem_found
rem_elem_ptparray a element = rem_found a (find_ele_ptparray a element)

unfoldable pub deinit_ptparray : PtpArray → PtpArray
deinit_ptparray a = record a { num_ele = 0; arr_size = 0; array_entry = none }

abbrev pub block : Option (List ℕ) → List ℕ
block none = []
block (some xs) = xs

-- The room that the block has.
abbrev pub capacity : Option (List ℕ) → ℕ
capacity o = length (block o)

-- What the array stands for.
unfoldable pub elements : PtpArray → List ℕ
elements a = take a.num_ele (block a.array_entry)

-- `arr_size` is the room of the block, and the elements fit.
pub record IsValid (a : PtpArray) : Type 0 where
  pub room : a.arr_size ≡ capacity a.array_entry
  pub fits : a.num_ele ≤ a.arr_size
