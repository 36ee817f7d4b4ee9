-- ===== src/Handler/Util.antt =====
-- src/mtp_cmd_handler_util.c: the operations on objects and stores behind the handlers. A store that
-- an operation changes is replaced in the device.
use cmtp_responder.Base.{
  ℕ, not, ◌&&◌, ◌||◌, Option, none, some, List, [], ◌∷◌, ◌==◌, if◌then◌else◌, length,
}
use cmtp_responder.Property.PtpArray.{PtpArray, Allocator}
use cmtp_responder.Entity.Code
use cmtp_responder.Entity.Object.{Obj}
use cmtp_responder.Entity.Store.{
  Store, get_objects_from_store_by_format, get_child_handles_with_same_format,
}
use cmtp_responder.Entity.Store.Enumerate.{recursive_enum_folder_objects}
use cmtp_responder.Entity.Device.{
  Device, get_store, get_store_ids, get_object_with_handle, delete_object,
}
use cmtp_responder.Handler.{World, State, MtpErr, tick}

-- The first store with the id is changed.
unfoldable pub change_store : (Store → Store) → ℕ → List Store → List Store
change_store f store_id [] = []
change_store f store_id (s ∷ ss) =
    if s.store_id == store_id then f s ∷ ss else s ∷ change_store f store_id ss

abbrev pub with_store : (Store → Store) → ℕ → State → State
with_store f store_id s = record s {
  device = record { store_list = change_store f store_id s.device.store_list };
}

-- `_entity_update_store_info_run_time`, of src/entity/mtp_store.c
unfoldable pub update_store_info_run_time : Option (ℕ × ℕ) → Store → Store
update_store_info_run_time none st = st
update_store_info_run_time (some (disk_size, avail_size)) st = record st {
  capacity = disk_size;
  free_space = avail_size;
}

unfoldable pub refresh : World → Option Store → ℕ → State → State
unfolding update_store_info_run_time tick
refresh w none store_id s = s
refresh w (some st) store_id s =
    with_store (update_store_info_run_time (w.filesystem_info s.clock st.root_path)) store_id
      (tick s)

-- The store with its information brought up to date.
unfoldable pub get_storage_entry : World → ℕ → State → State × Option Store
unfolding refresh
get_storage_entry w store_id s =
    let s' = refresh w (get_store s.device store_id) store_id s in
    (s', get_store s'.device store_id)

unfoldable pub get_storage_ids : Allocator → Device → PtpArray → PtpArray × MtpErr
get_storage_ids m d store_ids =
    let (filled, num_elem) = get_store_ids m d store_ids in
    if num_elem == length d.store_list then (filled, MtpErr.ok) else (filled, MtpErr.general)

unfoldable pub removal_error : ℕ → MtpErr
removal_error ret =
    if ret == Code.response_ok
    then MtpErr.ok
    else if ret == Code.response_store_readonly
    then MtpErr.store_read_only
    else if ret == Code.response_partial_deletion
    then MtpErr.partial_deletion
    else if ret == Code.response_writeprotected
    then MtpErr.object_write_protected
    else if ret == Code.response_accessdenied
    then MtpErr.access_denied
    else if ret == Code.response_invalid_obj_handle
    then MtpErr.invalid_objecthandle
    else MtpErr.general

-- `none` is fuel that ran out.
unfoldable pub remove_object_entry : World → ℕ → ℕ → State → Option (State × MtpErr)
unfolding removal_error
remove_object_entry w obj_handle format s =
    elim (delete_object w.env w.mem w.fuel s.clock s.device obj_handle format) [
      | none ↦ none
      | some (d, ret) ↦ some (record s { device = d }, removal_error ret)
    ]

unfoldable pub get_object_entry : Device → ℕ → Option Obj
get_object_entry d obj_handle = get_object_with_handle d obj_handle

unfoldable pub get_object_entry_size : Device → ℕ → Option ℕ
get_object_entry_size d obj_handle = elim (get_object_with_handle d obj_handle) [
  | none ↦ none
  | some o ↦ some o.file_size
]

-- A loop over the stores that appends to one array.
unfoldable pub over_stores : (Store → PtpArray → PtpArray) → List Store → PtpArray → PtpArray
over_stores f [] arr = arr
over_stores f (st ∷ ss) arr = over_stores f ss (f st arr)

unfoldable pub in_store :
    (Store → PtpArray → PtpArray) → Option Store → PtpArray → PtpArray × MtpErr
in_store f none arr = (arr, MtpErr.invalid_store)
in_store f (some st) arr = (f st arr, MtpErr.ok)

-- Each store without objects is enumerated: its files are read, and their objects take the next
-- handles.
unfoldable pub fill_empty : (ℕ → Store → Store × ℕ) → List Store → ℕ → List Store × ℕ
fill_empty enum_folder_objects [] next = ([], next)
fill_empty enum_folder_objects (st ∷ ss) next =
    let (st', next') =
      if length st.obj_list == 0 then enum_folder_objects next st else (st, next) in
    let (ss', last) = fill_empty enum_folder_objects ss next' in (st' ∷ ss', last)

-- `_entity_store_recursive_enum_folder_objects(store, NULL)`
abbrev pub enumeration : World → (now : ℕ) → (next : ℕ) → Store → Store × ℕ
enumeration w now = recursive_enum_folder_objects w.mem w.fmtcode (w.files_below now)

-- Where no parent is named. `g_is_full_enum`, which is set then, is never read.
unfoldable pub enumerate_stores : World → ℕ → State → State
unfolding fill_empty tick
enumerate_stores w h_parent s =
    let (ss, next) = fill_empty (enumeration w s.clock) s.device.store_list s.next_obj_handle in
    if h_parent == Code.handle_all || h_parent == Code.handle_root
    then record (tick s) { device = record { store_list = ss }; next_obj_handle = next }
    else s

-- What is listed of the enumerated stores.
unfoldable pub listed_handles :
    Allocator → Device → (store_id format h_parent : ℕ) → PtpArray → PtpArray × MtpErr
unfolding over_stores in_store
listed_handles m d store_id format h_parent arr =
    let by_format =
      λ (st : Store) (a : PtpArray). (get_objects_from_store_by_format m st format a).0 in
    let children = λ (h : ℕ) (st : Store) (a : PtpArray).
      (get_child_handles_with_same_format m st h format a).0 in
    if store_id == Code.storageid_all && h_parent == Code.handle_root
    then (over_stores by_format d.store_list arr, MtpErr.ok)
    else if store_id == Code.storageid_all && h_parent == Code.handle_all
    then (over_stores (children Code.handle_root) d.store_list arr, MtpErr.ok)
    else if not (store_id == Code.storageid_all) && h_parent == Code.handle_root
    then in_store by_format (get_store d store_id) arr
    else if not (store_id == Code.storageid_all) && h_parent == Code.handle_all
    then in_store (children Code.handle_root) (get_store d store_id) arr
    else in_store (children h_parent) (get_store d store_id) arr

unfoldable pub get_object_handles :
    World → State → (store_id format h_parent : ℕ) → PtpArray → State × (PtpArray × MtpErr)
unfolding enumerate_stores listed_handles
get_object_handles w s store_id format h_parent arr =
    let t = enumerate_stores w h_parent s in
    (t, listed_handles w.mem t.device store_id format h_parent arr)
