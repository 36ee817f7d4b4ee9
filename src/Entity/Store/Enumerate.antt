-- ===== src/Entity/Store/Enumerate.antt =====
-- `_entity_store_recursive_enum_folder_objects` of src/entity/mtp_store.c: a store is filled with the
-- objects of the files below its root path.
pub mod Ordered
use cmtp_responder.Base.{ℕ, Bool, true, false, List, [], ◌∷◌, ◌==◌, if◌then◌else◌}
use cmtp_responder.Property.PtpArray.{Allocator}
use cmtp_responder.Entity.Code
use cmtp_responder.Entity.Object.{DirEntry}
use cmtp_responder.Entity.Store.{Store, add_file_to_store, add_folder_to_store}
use cmtp_responder.Support.{slash, dot, get_file_name}

-- What `_util_ifind_first` and `_util_ifind_next` give for a folder, one entry after another, each with
-- whether USB is disconnected when it is looked at, its path and its attributes; for a folder also
-- what they give for it.
pub data Files : Type 0 where
  end : Files
  file : (is_usb_discon : Bool) → (path : List ℕ) → DirEntry → (next : Files) → Files
  folder :
      (is_usb_discon : Bool) → (path : List ℕ) → DirEntry → (below : Files) → (next : Files) → Files
  unknown : (is_usb_discon : Bool) → (path : List ℕ) → (next : Files) → Files

-- An entry without a name is passed over, and a hidden one.
unfoldable pub is_skipped : (file_name : List ℕ) → Bool
is_skipped [] = true
is_skipped (c ∷ cs) = c == dot

pub starts_with_slash : List ℕ → Bool
starts_with_slash [] = false
starts_with_slash (c ∷ cs) = c == slash

-- The store and the counter of handles behind the loop over the entries of a folder whose handle is
-- `h_parent`. `fmtcode` gives the format of a file by its name. A disconnection ends the loop. What is
-- below a folder is read only if its path, which the file system gives, starts with a slash.
unfoldable pub enum_entries :
    Allocator → (fmtcode : List ℕ → ℕ) → (h_parent : ℕ) → Files → Store × ℕ → Store × ℕ
unfolding is_skipped starts_with_slash
enum_entries m fmtcode h_parent end s = s
enum_entries m fmtcode h_parent (file discon path entry next) (s, handle) =
    let name = get_file_name path in
    let (s', obj, handle') = add_file_to_store m s handle h_parent path (fmtcode name) entry in
    let rest =
      enum_entries m fmtcode h_parent next
        (if is_skipped name then (s, handle) else (s', handle')) in
    if discon then (s, handle) else rest
enum_entries m fmtcode h_parent (folder discon path entry below next) (s, handle) =
    let name = get_file_name path in
    let (s', obj, handle') = add_folder_to_store m s handle h_parent path (fmtcode name) entry in
    let inside = enum_entries m fmtcode obj.obj_handle below (s', handle') in
    let entered = if starts_with_slash obj.file_path then inside else (s', handle') in
    let rest =
      enum_entries m fmtcode h_parent next (if is_skipped name then (s, handle) else entered) in
    if discon then (s, handle) else rest
enum_entries m fmtcode h_parent (unknown discon path next) (s, handle) =
    let rest = enum_entries m fmtcode h_parent next (s, handle) in
    if discon then (s, handle) else rest

-- From the root path on, of which `files` are the entries.
unfoldable pub recursive_enum_folder_objects :
    Allocator → (fmtcode : List ℕ → ℕ) → (files : List ℕ → Files) → (next : ℕ) → Store → Store × ℕ
unfolding enum_entries starts_with_slash
recursive_enum_folder_objects m fmtcode files next s =
    if starts_with_slash s.root_path
    then enum_entries m fmtcode Code.handle_root (files s.root_path) (s, next)
    else (s, next)
