-- ===== src/Entity/Store/Delete.antt =====
-- `_entity_remove_object_mtp_store` and `_entity_delete_obj_mtp_store` of src/entity/mtp_store.c, as
-- they are built without `MTP_SUPPORT_SET_PROTECTION`. The file system and the flags that other
-- threads set are an `Env`, asked at each time anew; the record of the last deleted path, which
-- only the file watcher reads, is not kept.
pub mod Keeps
pub mod Failed
pub mod Terminates
use cmtp_responder.Base.{
  ℕ, zero, suc, ◌+◌, Bool, true, false, not, ◌&&◌, ◌||◌, Option, none, some, List, [], ◌∷◌, ltb,
  ◌==◌, if◌then◌else◌, length,
}
use cmtp_responder.Property.PtpArray.{Allocator, elements}
use cmtp_responder.Entity.Code
use cmtp_responder.Entity.Object.{Obj, remove_reference_child_array}
use cmtp_responder.Entity.Store.{Store, get_object_from_store, update_object, collect_children}

-- How `remove` and `rmdir` end: `denied` is a failure with `EACCES`.
pub data Outcome : Type 0 where
  done denied failed : Outcome

-- How `_util_remove_dir_children_recursive` ends: with the numbers of files deleted and found.
pub data Swept : Type 0 where
  sweep_denied sweep_failed : Swept
  swept : ℕ → ℕ → Swept

-- `cancelled` is `cancel_intialization` or `is_usb_discon`. Each answer depends on the time, which
-- advances with every question.
pub record Env : Type 0 where
  pub cancelled : ℕ → Bool
  pub remove : ℕ → List ℕ → Outcome
  pub rmdir : ℕ → List ℕ → Outcome
  pub remove_dir_children_recursive : ℕ → List ℕ → Bool → Swept

-- The state of a deletion. `response` is unset at first.
pub record Run : Type 0 where
  pub store : Store
  pub clock : ℕ
  pub response : Option ℕ
  pub atleast_one : Bool

abbrev pub tick : Run → Run
tick r = record r { clock = r.clock + 1 }

abbrev pub answer : ℕ → Run → Run
answer code r = record r { response = some code }

unfoldable pub delete_node : ℕ → List Obj → List Obj
delete_node handle [] = []
delete_node handle (o ∷ os) = if o.obj_handle == handle then os else o ∷ delete_node handle os

abbrev pub with_objects : (List Obj → List Obj) → Run → Run
with_objects f r = record r { store = record r.store { obj_list = f r.store.obj_list } }

-- The parent's reference to a removed object goes.
unfoldable pub drop_reference : Obj → List Obj → List Obj
drop_reference o objs =
    if not (o.h_parent == Code.handle_root)
    then update_object (λ p. (remove_reference_child_array p o.obj_handle).0) o.h_parent objs
    else objs

-- The last part of the removal.
unfoldable pub finish : Obj → Bool → Run → Run × Bool
finish o true r = (with_objects (drop_reference o) (answer Code.response_ok r), true)
finish o false r =
    if r.atleast_one
    then (answer Code.response_partial_deletion r, false)
    else (answer Code.response_writeprotected r, false)

pub after_rmdir : Obj → Run → Outcome → Run × Bool
after_rmdir o r done = finish o true r
after_rmdir o r denied = (answer Code.response_accessdenied r, false)
after_rmdir o r failed = (answer Code.response_gen_error r, false)

pub close_folder : Env → Obj → Bool → Run → Run × Bool
unfolding after_rmdir
close_folder e o true r = after_rmdir o (tick r) (e.rmdir r.clock o.file_path)
close_folder e o false r = finish o false r

pub after_sweep : Env → Obj → Run → Swept → Run × Bool
unfolding close_folder
after_sweep e o r sweep_failed = (answer Code.response_gen_error r, false)
after_sweep e o r sweep_denied = (answer Code.response_accessdenied r, false)
after_sweep e o r (swept deleted found) =
    if found == 0
    then close_folder e o true r
    else if deleted == 0
    then close_folder e o false r
    else if ltb deleted found
    then close_folder e o false (record r { atleast_one = true })
    else close_folder e o true r

-- The space that is given back is 0 bytes.
pub after_remove : Obj → Run → Outcome → Run × Bool
after_remove o r done = finish o true (record r { atleast_one = true })
after_remove o r denied = (answer Code.response_accessdenied r, false)
after_remove o r failed = (answer Code.response_gen_error r, false)

unfoldable pub remove_file : Env → Obj → Run → Run × Bool
unfolding after_remove
remove_file e o r =
    if o.protcn_status == Code.protection_readonly
      || o.protcn_status == Code.protection_readonly_data
    then (answer Code.response_writeprotected r, false)
    else after_remove o (tick r) (e.remove r.clock o.file_path)

-- How the loop over the children ends: `none` is a cancellation, and otherwise whether all were
-- deleted. `none` around it is fuel that ran out.
pub after_child :
    Env
    → ℕ
    → (Bool → Run → Option (Run × Option Bool))
    → Bool
    → Option (Run × Bool)
    → Option (Run × Option Bool)
after_child e h rest all_del none = none
after_child e h rest all_del (some (r, true)) =
    rest all_del (record (with_objects (delete_node h) r) { atleast_one = true })
after_child e h rest all_del (some (r, false)) =
    if e.cancelled r.clock
    then some (answer Code.response_partial_deletion (tick r), none)
    else rest false (tick r)

pub remove_child :
    (Obj → Run → Option (Run × Bool))
    → Env
    → ℕ
    → (Bool → Run → Option (Run × Option Bool))
    → Bool
    → Run
    → Option Obj
    → Option (Run × Option Bool)
unfolding after_child
remove_child rem e h rest all_del r none = rest all_del r
remove_child rem e h rest all_del r (some o) = after_child e h rest all_del (rem o r)

pub remove_children :
    (Obj → Run → Option (Run × Bool)) → Env → List ℕ → Bool → Run → Option (Run × Option Bool)
unfolding remove_child
remove_children rem e [] all_del r = some (r, some all_del)
remove_children rem e (h ∷ hs) all_del r =
    if e.cancelled r.clock
    then some (answer Code.response_partial_deletion (tick r), none)
    else remove_child rem e h (λ all run. remove_children rem e hs all run) all_del (tick r)
        (get_object_from_store r.store h)

pub after_children : Env → Obj → Option (Run × Option Bool) → Option (Run × Bool)
unfolding close_folder
after_children e o none = none
after_children e o (some (r, none)) = some (r, false)
after_children e o (some (r, some all_del)) = some (close_folder e o all_del r)

-- A folder with children in the store, or one whose content was never enumerated.
pub remove_folder :
    (Obj → Run → Option (Run × Bool)) → Env → Bool → Obj → Run → List ℕ → Option (Run × Bool)
unfolding after_sweep after_children remove_children
remove_folder rem e read_only o r [] =
    some (after_sweep e o (tick r) (e.remove_dir_children_recursive r.clock o.file_path read_only))
remove_folder rem e read_only o r (h ∷ hs) =
    after_children e o (remove_children rem e (h ∷ hs) true r)

-- A format that is not the object's, or that stands for every file where the object is a folder.
unfoldable pub is_refused : ℕ → Obj → Bool
is_refused format o =
    not (o.obj_fmt == format)
      && (not (format == Code.format_all) && not (format == Code.format_notused))
    || format == Code.format_all && o.obj_fmt == Code.fmt_association

unfoldable pub remove_object :
    Env → Allocator → Bool → ℕ → (fuel : ℕ) → Obj → Run → Option (Run × Bool)
unfolding remove_folder
remove_object e m read_only format zero o r = none
remove_object e m read_only format (suc fuel) o r =
    let below = remove_object e m read_only format fuel in
    if e.cancelled r.clock
    then some (answer Code.response_partial_deletion (tick r), false)
    else if is_refused format o
    then some (answer Code.response_undefined (tick r), false)
    else if o.obj_fmt == Code.fmt_association
    then remove_folder below e read_only o (tick r)
        (elements (collect_children m r.store o.obj_handle))
    else some (remove_file e o (tick r))

-- The responses that count as an incomplete deletion.
unfoldable pub is_incomplete : Option ℕ → Bool
is_incomplete none = false
is_incomplete (some code) =
    code == Code.response_partial_deletion
    || (code == Code.response_writeprotected || code == Code.response_accessdenied)

-- The node behind that of a handle.
unfoldable pub link : ℕ → List Obj → Option Obj
link handle [] = none
link handle (o ∷ []) = none
link handle (o ∷ p ∷ os) = if o.obj_handle == handle then some p else link handle (p ∷ os)

pub settle : Bool → Run → ℕ
settle true r = Code.response_ok
settle false r =
    if r.atleast_one
    then Code.response_partial_deletion
    else elim r.response [ none ↦ 0 | some code ↦ code ]

-- One node of the list: the link is read after the removal, before the node is freed.
pub after_node :
    (Option Obj → Bool → Run → Option (Run × ℕ))
    → Obj
    → Bool
    → Option (Run × Bool)
    → Option (Run × ℕ)
after_node rest o all_del none = none
after_node rest o all_del (some (r, removed)) =
    rest (link o.obj_handle r.store.obj_list) (all_del && not (is_incomplete r.response))
      (if removed then with_objects (delete_node o.obj_handle) r else r)

pub delete_all :
    (Obj → Run → Option (Run × Bool)) → Env → ℕ → Option Obj → Bool → Run → Option (Run × ℕ)
unfolding settle after_node
delete_all rem e rounds none all_del r = some (r, settle all_del r)
delete_all rem e zero (some o) all_del r = none
delete_all rem e (suc rounds) (some o) all_del r =
    if e.cancelled r.clock
    then some (tick r, Code.response_gen_error)
    else after_node (λ next all run. delete_all rem e rounds next all run) o all_del
        (rem o (tick r))

unfoldable pub after_single : Obj → Option (Run × Bool) → Option (Run × ℕ)
unfolding settle
after_single o none = none
after_single o (some (r, true)) =
    let left = with_objects (delete_node o.obj_handle) r in some (left, settle true left)
after_single o (some (r, false)) = some (r, settle (not (is_incomplete r.response)) r)

unfoldable pub delete_single :
    (Obj → Run → Option (Run × Bool)) → Run → Option Obj → Option (Run × ℕ)
unfolding settle after_single
delete_single rem r none = some (r, settle true r)
delete_single rem r (some o) = after_single o (rem o r)

pub first : List Obj → Option Obj
first [] = none
first (o ∷ os) = some o

-- The state afterwards and the response. A single object is removed whatever the format.
unfoldable pub delete_obj_mtp_store :
    Env → Allocator → (fuel clock : ℕ) → Store → (obj_handle fmt : ℕ) → Bool → Option (Run × ℕ)
unfolding delete_all delete_single first
delete_obj_mtp_store e m fuel clock s obj_handle fmt read_only =
    let r : Run = record { store = s; clock = clock; response = none; atleast_one = false } in
    if s.access == Code.access_r
    then some (r, Code.response_store_readonly)
    else if obj_handle == Code.handle_all
    then delete_all (remove_object e m read_only fmt fuel) e (length s.obj_list) (first s.obj_list)
        true r
    else delete_single (remove_object e m read_only Code.format_notused fuel) r
        (get_object_from_store s obj_handle)
