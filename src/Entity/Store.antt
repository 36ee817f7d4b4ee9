-- ===== src/Entity/Store.antt =====
-- src/entity/mtp_store.c: the objects of a store, in the order in which they were added.
-- An object is known by its handle: the counter gives each a new one, and a pointer to an object of
-- the store is always the result of a search by handle or a position in the list.
pub mod Info
pub mod Listing
pub mod Chosen
pub mod Enumerate
pub mod Ancestry
pub mod Delete
pub mod Depth
pub mod Find
pub mod Size
pub mod Insert
use mathlib.Core.Option
use cmtp_responder.Base.{
  ℕ, zero, suc, ◌+◌, ◌%◌, ◌^◌, Bool, true, false, not, ◌&&◌, ◌||◌, Option, none, some, List, [],
  ◌∷◌, ◌++◌, ◌==◌, if◌then◌else◌,
}
use cmtp_responder.Property.PtpArray.{
  PtpArray, uint32, Allocator, append_ele_ptparray, init_ptparray, elements,
}
use cmtp_responder.Entity.Code
use cmtp_responder.Entity.Object.{Obj, DirEntry, init_mtp_object_params, add_reference_child_array}

-- `mtp_store_t`, with the part of its information that the operations read and change.
pub record Store : Type 0 where
  pub root_path : List ℕ
  pub store_id : ℕ
  pub access : ℕ
  pub capacity : ℕ
  pub free_space : ℕ
  pub is_hidden : Bool
  pub obj_list : List Obj

-- The first object with the handle.
unfoldable pub find_object : ℕ → List Obj → Option Obj
find_object handle [] = none
find_object handle (o ∷ os) = if o.obj_handle == handle then some o else find_object handle os

unfoldable pub get_object_from_store : Store → ℕ → Option Obj
get_object_from_store s handle = find_object handle s.obj_list

find_last : Option Obj → ℕ → List Obj → Option Obj
find_last obj handle [] = obj
find_last obj handle (o ∷ os) = find_last (if o.obj_handle == handle then some o else obj) handle os

unfoldable pub get_last_object_from_store : Store → ℕ → Option Obj
unfolding find_last
get_last_object_from_store s handle = find_last none handle s.obj_list

-- `strcmp`: paths are lists of bytes.
unfoldable pub same_path : List ℕ → List ℕ → Bool
same_path [] [] = true
same_path (a ∷ p) (b ∷ q) = if a == b then same_path p q else false
same_path _ _ = false

find_path : List ℕ → List Obj → Option Obj
unfolding same_path
find_path path [] = none
find_path path (o ∷ os) = if same_path path o.file_path then some o else find_path path os

unfoldable pub get_object_from_store_by_path : Store → List ℕ → Option Obj
unfolding find_path
get_object_from_store_by_path s path = find_path path s.obj_list

-- A change of the object that a search by handle gives.
unfoldable pub update_object : (Obj → Obj) → ℕ → List Obj → List Obj
update_object f handle [] = []
update_object f handle (o ∷ os) =
    if o.obj_handle == handle then f o ∷ os else o ∷ update_object f handle os

-- The new object is the last; its parent gets a reference to it.
unfoldable pub add_object_to_store : Allocator → Store → Obj → Store
add_object_to_store m s obj =
    let objs = s.obj_list ++ obj ∷ [] in
    if not (obj.h_parent == Code.handle_root)
    then record s {
      obj_list =
          update_object (λ o. (add_reference_child_array m o obj.obj_handle).0) obj.h_parent objs;
    }
    else record s { obj_list = objs }

-- The store, the object and the counter of handles. The two functions have one body.
unfoldable pub add_file_to_store :
    Allocator → Store → (next h_parent : ℕ) → List ℕ → (fmtcode : ℕ) → DirEntry → Store × Obj × ℕ
add_file_to_store m s next h_parent file_path fmtcode file_info =
    let (obj, next') =
      init_mtp_object_params next s.store_id h_parent file_path fmtcode file_info in
    (add_object_to_store m s obj, obj, next')

unfoldable pub add_folder_to_store :
    Allocator → Store → (next h_parent : ℕ) → List ℕ → (fmtcode : ℕ) → DirEntry → Store × Obj × ℕ
add_folder_to_store m s next h_parent file_path fmtcode file_info =
    let (obj, next') =
      init_mtp_object_params next s.store_id h_parent file_path fmtcode file_info in
    (add_object_to_store m s obj, obj, next')

-- The loop of the listings: the handles of the objects that pass the test; the results of the
-- single appends are dropped.
pub append_where : Allocator → (Obj → Bool) → List Obj → PtpArray → PtpArray
append_where m p [] arr = arr
append_where m p (o ∷ os) arr =
    append_where m p os (if p o then (append_ele_ptparray m arr o.obj_handle).0 else arr)

-- An empty list has no iterator: the count is then 0, whatever the array holds.
unfoldable pub enumerate : Allocator → (Obj → Bool) → List Obj → PtpArray → PtpArray × ℕ
unfolding append_where
enumerate m p [] arr = (arr, 0)
enumerate m p (o ∷ os) arr = let filled = append_where m p (o ∷ os) arr in (filled, filled.num_ele)

abbrev pub has_format : ℕ → Obj → Bool
has_format fmt o = fmt == o.obj_fmt || (fmt == Code.format_all || fmt == Code.format_notused)

unfoldable pub get_objects_from_store : Allocator → Store → ℕ → ℕ → PtpArray → PtpArray × ℕ
get_objects_from_store m s obj_handle fmt arr =
    if not (obj_handle == Code.handle_all)
    then (arr, 0)
    else enumerate m (has_format fmt) s.obj_list arr

-- The format that stands for all leaves the folders out.
abbrev pub listed_format : ℕ → Obj → Bool
listed_format fmt o =
    fmt == Code.format_notused
    || (fmt == o.obj_fmt || fmt == Code.format_all && not (o.obj_fmt == Code.fmt_association))

unfoldable pub get_objects_from_store_by_format : Allocator → Store → ℕ → PtpArray → PtpArray × ℕ
get_objects_from_store_by_format m s fmt arr = enumerate m (listed_format fmt) s.obj_list arr

abbrev pub is_child_of : ℕ → Obj → Bool
is_child_of h_parent o = o.h_parent == h_parent

children_of : Allocator → Store → ℕ → PtpArray → Option Obj → PtpArray × ℕ
children_of m s h_parent arr none = (arr, 0)
children_of m s h_parent arr (some parent) = enumerate m (is_child_of h_parent) s.obj_list arr

unfoldable pub get_child_handles : Allocator → Store → ℕ → PtpArray → PtpArray × ℕ
unfolding children_of
get_child_handles m s h_parent arr = children_of m s h_parent arr (get_object_from_store s h_parent)

abbrev pub is_child_with_format : ℕ → ℕ → Obj → Bool
is_child_with_format h_parent fmt o =
    o.h_parent == h_parent && (o.obj_fmt == fmt || fmt == Code.format_notused)

unfoldable pub get_child_handles_with_same_format :
    Allocator → Store → ℕ → ℕ → PtpArray → PtpArray × ℕ
get_child_handles_with_same_format m s h_parent fmt arr =
    enumerate m (is_child_with_format h_parent fmt) s.obj_list arr

-- `ptp_array_t child_arr = { 0 }; _prop_init_ptparray(&child_arr, UINT32_TYPE);`
abbrev pub fresh_handles : Allocator → PtpArray
fresh_handles m =
    init_ptparray m (record { type = uint32; arr_size = 0; num_ele = 0; array_entry = none }) uint32

-- The loop over a child array, whose handles are its `elements`.
pub fold_handles : (ℕ → PtpArray → PtpArray) → List ℕ → PtpArray → PtpArray
fold_handles f [] arr = arr
fold_handles f (h ∷ hs) arr = fold_handles f hs (f h arr)

-- `depth` counts down to 0, so the recursion is on it. The array of a level is initialised anew.
pub till_depth : Allocator → Store → ℕ → ℕ → ℕ → PtpArray → PtpArray
unfolding fold_handles
till_depth m s fmt zero h arr =
    if h == Code.handle_all
    then (get_objects_from_store m s h fmt arr).0
    else if not (h == Code.handle_root)
    then (append_ele_ptparray m arr h).0
    else arr
till_depth m s fmt (suc depth) h arr =
    let below = λ (a : PtpArray).
      fold_handles (till_depth m s fmt depth)
        (elements (get_child_handles_with_same_format m s h fmt (fresh_handles m)).0) a in
    if h == Code.handle_all
    then (get_objects_from_store m s h fmt arr).0
    else below (if not (h == Code.handle_root) then (append_ele_ptparray m arr h).0 else arr)

unfoldable pub get_objects_from_store_till_depth :
    Allocator → Store → ℕ → ℕ → ℕ → PtpArray → PtpArray × ℕ
unfolding till_depth
get_objects_from_store_till_depth m s obj_handle fmt depth arr =
    let filled = till_depth m s fmt depth obj_handle arr in (filled, filled.num_ele)

-- The handles of an object's children, as the recursive operations collect them.
unfoldable pub collect_children : Allocator → Store → ℕ → PtpArray
collect_children m s handle = (get_child_handles m s handle (fresh_handles m)).0

after_size : Option ℕ → (ℕ → Option ℕ) → Option ℕ
after_size none next = none
after_size (some size) next = next size

-- `size += …` over the children, in 64 bits; `none` is fuel that ran out.
add_sizes : (Option Obj → Option ℕ) → Store → List ℕ → ℕ → Option ℕ
unfolding after_size
add_sizes size_of s [] total = some total
add_sizes size_of s (h ∷ hs) total =
    after_size (size_of (get_object_from_store s h))
      (λ size. add_sizes size_of s hs ((total + size) % 2 ^ 64))

-- The result is a 32-bit word.
pub tree_size : Allocator → Store → ℕ → Option Obj → Option ℕ
unfolding add_sizes
tree_size m s zero o = none
tree_size m s (suc fuel) none = some 0
tree_size m s (suc fuel) (some o) =
    if not (o.obj_fmt == Code.fmt_association)
    then some (o.file_size % 2 ^ 32)
    else Option.map (λ (size : ℕ). size % 2 ^ 32)
        (add_sizes (tree_size m s fuel) s (elements (collect_children m s o.obj_handle)) 0)

-- What the search below a child adds: nothing where the child is not found or is a folder.
or_rest : Option Bool → Option Bool → Option Bool
or_rest none rest = none
or_rest (some true) rest = some true
or_rest (some false) rest = rest

look_below : Option Obj → Option Bool → Option Bool → Option Bool
look_below none deeper rest = rest
look_below (some o) deeper rest =
    if o.obj_fmt == Code.fmt_association then rest else or_rest deeper rest

-- Each child in turn: `a` itself, or what lies below it.
any_parent : (ℕ → Option Bool) → Store → ℕ → List ℕ → Option Bool
unfolding look_below or_rest
any_parent below s a [] = some false
any_parent below s a (h ∷ hs) =
    let rest = any_parent below s a hs in
    if a == h then some true else look_below (get_object_from_store s h) (below h) rest

pub check_parent : Allocator → Store → ℕ → ℕ → ℕ → Option Bool
unfolding any_parent
check_parent m s zero a b = none
check_parent m s (suc fuel) a b =
    any_parent (check_parent m s fuel a) s a (elements (collect_children m s b))
