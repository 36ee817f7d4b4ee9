-- ===== src/Entity/Object.antt =====
-- src/entity/mtp_object.c: objects and their references.
-- An object of a store has its information: `_entity_add_object_to_store` refuses one without, and
-- nothing takes it away, so `obj_info` is no pointer here.
pub mod Info
pub mod References
pub mod SetReferences
use cmtp_responder.Base.{
  ℕ, suc, ◌+◌, ◌%◌, ◌^◌, Bool, true, false, Option, none, some, List, [], ◌∷◌, ◌==◌, if◌then◌else◌,
}
use cmtp_responder.Base.Bytes.{le_value}
use cmtp_responder.Property.PtpArray.{
  PtpArray, uint32, Allocator, append_ele_ptparray, deinit_ptparray, find_ele_ptparray,
  grow_ptparray, rem_elem_ptparray,
}
use cmtp_responder.Entity.Code

-- `obj_info_t`
pub record ObjInfo : Type 0 where
  pub store_id : ℕ
  pub obj_fmt : ℕ
  pub protcn_status : ℕ
  pub file_size : ℕ
  pub thumb_file_size : ℕ
  pub h_parent : ℕ
  pub association_type : ℕ

-- `mtp_obj_t` without its list of property values.
pub record Obj : Type 0 where
  pub obj_handle : ℕ
  pub obj_info : ObjInfo
  pub open obj_info use *
  pub file_path : List ℕ
  pub child_array : PtpArray

-- What the file system says of an entry: `none` is an invalid attribute.
pub record DirEntry : Type 0 where
  pub attribute : Option Bool
  pub fsize : ℕ

-- The entry's attribute says whether it is a folder; `fmtcode` is the format of its extension.
unfoldable pub init_object_info_params : (store_id parent_handle fmtcode : ℕ) → DirEntry → ObjInfo
init_object_info_params store_id parent_handle fmtcode dir =
    let fresh : ObjInfo = record {
      store_id = store_id;
      obj_fmt = 0;
      protcn_status = 0;
      file_size = 0;
      thumb_file_size = 0;
      h_parent = parent_handle;
      association_type = 0;
    } in
    elim dir.attribute [
      | none ↦ fresh
      | some true ↦ record fresh {
        protcn_status = Code.protection_none;
        obj_fmt = Code.fmt_association;
        association_type = Code.association_folder;
      }
      | some false ↦ record fresh {
        protcn_status = Code.protection_none;
        file_size = dir.fsize;
        obj_fmt = fmtcode;
      }
    ]

-- The object and the counter of handles, which is advanced. Memory is granted.
unfoldable pub init_mtp_object_params :
    (next store_id h_parent : ℕ) → List ℕ → (fmtcode : ℕ) → DirEntry → Obj × ℕ
unfolding init_object_info_params
init_mtp_object_params next store_id h_parent file_path fmtcode file_info = (
  record {
    obj_handle = next;
    obj_info = init_object_info_params store_id h_parent fmtcode file_info;
    file_path = file_path;
    child_array = record { type = uint32; arr_size = 0; num_ele = 0; array_entry = none };
  },
  (next + 1) % 2 ^ 32,
)

add_missing : Allocator → PtpArray → ℕ → Option ℕ → PtpArray × Bool
add_missing m a handle none = append_ele_ptparray m a handle
add_missing m a handle (some i) = (a, true)

unfoldable pub add_reference_child_array : Allocator → Obj → ℕ → Obj × Bool
unfolding add_missing
add_reference_child_array m obj handle =
    let (a, done) =
      add_missing m obj.child_array handle (find_ele_ptparray obj.child_array handle) in
    (record obj { child_array = a }, done)

unfoldable pub remove_reference_child_array : Obj → ℕ → Obj × Bool
remove_reference_child_array obj handle =
    if handle == Code.handle_all
    then (record obj { child_array = deinit_ptparray obj.child_array }, true)
    else (let (a, done) = rem_elem_ptparray obj.child_array handle in
        (record obj { child_array = a }, done))

-- The handles of a buffer of 32-bit words; the results of the single appends are dropped.
pub append_words : Allocator → ℕ → List ℕ → PtpArray → PtpArray
append_words m (suc n) (a ∷ b ∷ c ∷ d ∷ buf) arr =
    append_words m n buf (append_ele_ptparray m arr (le_value (a ∷ b ∷ c ∷ d ∷ []))).0
append_words m _ buf arr = arr

-- `none` is a NULL buffer; `no_ref` is the number of references, not of bytes.
unfoldable pub set_reference_child_array : Allocator → Obj → Option (List ℕ) → ℕ → Obj × Bool
unfolding append_words
set_reference_child_array m obj none no_ref = (obj, false)
set_reference_child_array m obj (some buf) no_ref =
    let cleared = remove_reference_child_array obj Code.handle_all in
    let (a, grown) = grow_ptparray m cleared.0.child_array no_ref in
    if grown
    then (record obj { child_array = append_words m no_ref buf a }, true)
    else (record obj { child_array = a }, false)
