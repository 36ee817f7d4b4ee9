-- ===== src/Examples/Stores.antt =====
-- Runs of the functions of src/entity/mtp_object.c and src/entity/mtp_store.c on a store with two
-- folders and two files.
use cmtp_responder.Base.{
  List, ◌≤◌, ◌+◌, ℕ, ◌%◌, ◌^◌, ◌≡◌, ◌∙◌, ap, refl, inl, inr, true, false, none, some, [], ◌∷◌,
  arith, is_some, length, if◌then◌else◌,
}
use cmtp_responder.Examples.{granting, granting-Grants}
use cmtp_responder.Property.PtpArray.{PtpArray, uint32, elements}
use cmtp_responder.Property.PtpArray.Find.{index_of}
use cmtp_responder.Property.PtpArray.Remove.{erase}
use cmtp_responder.Entity.Code
use cmtp_responder.Entity.Object.{set_reference_child_array}
use cmtp_responder.Entity.Object.SetReferences.{set_reference_child_array-elements}
use cmtp_responder.Property.PtpArray.{block_bytes}
use cmtp_responder.Base.{◌++◌}
use cmtp_responder.Entity.Object.{Obj, add_reference_child_array, remove_reference_child_array}
use cmtp_responder.Entity.Object.References.{
  IsHandles, insert_once, add_reference_child_array-insert_once, remove_reference_child_array-erase,
  Extends,
}
use cmtp_responder.Entity.Store.{
  Store, find_object, get_object_from_store, is_child_of, get_objects_from_store,
  get_objects_from_store_by_format, get_child_handles_with_same_format, collect_children,
  get_objects_from_store_till_depth, check_parent, tree_size, add_object_to_store,
}
use cmtp_responder.Entity.Store.Find.{All}
use cmtp_responder.Entity.Store.Listing.{select, AreWords, collect_children-select}
use cmtp_responder.Entity.Store.Chosen.{
  HasFormat, IsListed, IsChild, Appends, get_objects_from_store-Picks,
}
use cmtp_responder.Entity.Store.Depth.{walk, get_objects_from_store_till_depth-walk}
use cmtp_responder.Entity.Store.Ancestry.{IsLeaf, check_parent-children}
use cmtp_responder.Entity.Store.Size.{IsOrdered, total, tree_size-total}
use cmtp_responder.Entity.Store.Insert.{Added, add_object_to_store-Added}
use cmtp_responder.Entity.Store.Delete.{
  Env, Run, done, failed, swept, remove_object, delete_obj_mtp_store,
}
use cmtp_responder.Entity.Store.Delete.Keeps.{Fits, Ends}
use cmtp_responder.Entity.Store.Enumerate.{Files, recursive_enum_folder_objects}
use cmtp_responder.Entity.Store.Enumerate.Ordered.{count_files, recursive_enum_folder_objects-Fits}
use cmtp_responder.Entity.Store.Delete.Terminates.{remove_object-Ends}
use cmtp_responder.Entity.Store.Delete.Failed.{
  IsRemovable, told, left, delete_obj_mtp_store-outcome,
}

abbrev no_handles : PtpArray
no_handles = record { type = uint32; arr_size = 0; num_ele = 0; array_entry = none }

abbrev pub three : PtpArray
three = record { type = uint32; arr_size = 3; num_ele = 3; array_entry = some (5 ∷ 9 ∷ 5 ∷ []) }

no_handles-IsHandles : IsHandles no_handles
no_handles-IsHandles = record {
  valid = record { room = refl; fits = omega arith };
  type_eq = refl;
  bounded = omega arith;
}

pub three-IsHandles : IsHandles three
three-IsHandles = record {
  valid = record { room = refl; fits = omega arith };
  type_eq = refl;
  bounded = omega arith;
}

abbrev object : (handle h_parent obj_fmt file_size : ℕ) → PtpArray → Obj
object handle h_parent obj_fmt file_size children = record {
  obj_handle = handle;
  obj_info = record {
    store_id = 0x20001;
    obj_fmt = obj_fmt;
    protcn_status = 0;
    file_size = file_size;
    thumb_file_size = 0;
    h_parent = h_parent;
    association_type = 0;
  };
  file_path = 47 ∷ handle ∷ [];
  child_array = children;
}

abbrev documents : Obj
documents = object 1 0 Code.fmt_association 0 no_handles

abbrev pub letter : Obj
letter = object 2 1 0x3004 700 no_handles

abbrev drafts : Obj
drafts = object 3 1 Code.fmt_association 0 no_handles

abbrev draft : Obj
draft = object 4 3 0x3004 (2 ^ 32 + 5) no_handles

abbrev pub store : Store
store = record {
  root_path = 47 ∷ [];
  store_id = 0x20001;
  access = 0;
  capacity = 2 ^ 40;
  free_space = 0;
  is_hidden = false;
  obj_list = documents ∷ letter ∷ drafts ∷ draft ∷ [];
}

pub store-AreWords : AreWords store.obj_list
store-AreWords = (omega arith, (omega arith, (omega arith, (omega arith, tt))))

pub store-Ordered : All (IsOrdered 4) store.obj_list
store-Ordered = (
  (omega arith, omega arith),
  ((omega arith, omega arith), ((omega arith, omega arith), ((omega arith, omega arith), tt))),
)

store-Leaves : All (IsLeaf store) store.obj_list
unfolding select
store-Leaves = (inl refl, (inr refl, (inl refl, (inr refl, tt))))

abbrev referring : Obj
referring = object 7 0 Code.fmt_association 0 three

add_reference_child_array_example :
    (a : PtpArray) × (add_reference_child_array granting referring 6
      ≡ (record referring { child_array = a }, true))
    × IsHandles a
    × (elements a ≡ insert_once 6 (elements three))
add_reference_child_array_example =
    add_reference_child_array-insert_once granting referring 6 granting-Grants three-IsHandles
      (omega arith) (omega arith)

remove_reference_child_array_example :
    (elements (remove_reference_child_array referring 5).0.child_array ≡ erase 5 (elements three))
    × ((remove_reference_child_array referring 5).1 ≡ is_some (index_of 5 (elements three)))
    × (elements (remove_reference_child_array referring Code.handle_all).0.child_array ≡ [])
remove_reference_child_array_example =
    remove_reference_child_array-erase referring 5 three-IsHandles (omega arith)

set_reference_child_array_example :
    (a : PtpArray) × (set_reference_child_array granting referring
        (some (block_bytes 4 (8 ∷ 9 ∷ []) ++ 1 ∷ []))
        2
      ≡ (record referring { child_array = a }, true))
    × IsHandles a
    × (elements a ≡ 8 ∷ 9 ∷ [])
set_reference_child_array_example =
    set_reference_child_array-elements granting granting-Grants referring (8 ∷ 9 ∷ []) (1 ∷ []) refl
      (omega arith, (omega arith, tt)) (omega arith) (omega arith)

get_objects_from_store_example :
    Appends
      (HasFormat 0x3004)
      store
      three
      (get_objects_from_store granting store 0xFFFFFFFF 0x3004 three).0
    × Appends
        (IsListed 0x3004)
        store
        three
        (get_objects_from_store_by_format granting store 0x3004 three).0
    × Appends
        (IsChild 1 0x3004)
        store
        three
        (get_child_handles_with_same_format granting store 1 0x3004 three).0
get_objects_from_store_example =
    get_objects_from_store-Picks granting granting-Grants store store-AreWords three 0x3004 1
      three-IsHandles (omega arith)

collect_children_example : elements (collect_children granting store 1) ≡ (
    if is_some (get_object_from_store store 1) then select (is_child_of 1) store.obj_list else [])
collect_children_example =
    collect_children-select granting granting-Grants store store-AreWords 1 (omega arith)

walk_of_store : walk store 0 2 1 ≡ 1 ∷ 2 ∷ 3 ∷ 4 ∷ []
unfolding walk select
walk_of_store = refl

get_objects_from_store_till_depth_example :
    Extends three
      (walk store 0 2 1)
      (get_objects_from_store_till_depth granting store 1 0 2 three).0
    × ((get_objects_from_store_till_depth granting store 1 0 2 three).1
        ≡ 3 + length (walk store 0 2 1))
unfolding walk select
get_objects_from_store_till_depth_example =
    get_objects_from_store_till_depth-walk granting granting-Grants store store-AreWords 0 2 1 three
      (omega arith) (omega arith) three-IsHandles (omega arith)

check_parent_example :
    check_parent granting store (2 + 0) 4 1
    ≡ some (is_some (index_of 4 (elements (collect_children granting store 1))))
check_parent_example =
    check_parent-children granting granting-Grants store store-AreWords store-Leaves (omega arith) 0
      4 1

-- The fourth object lies below the first, but the search does not find it.
check_parent_run : check_parent granting store 2 4 1 ≡ some false
unfolding find_object get_object_from_store select index_of
check_parent_run =
    check_parent-children granting granting-Grants store store-AreWords store-Leaves (omega arith) 0
      4 1
    ∙ ap (λ l. some (is_some (index_of 4 l)))
        (collect_children-select granting granting-Grants store store-AreWords 1 (omega arith))

tree_size_example :
    tree_size granting store 5 (some documents) ≡ some (total store 5 documents % 2 ^ 32)
unfolding find_object get_object_from_store
tree_size_example =
    tree_size-total granting granting-Grants store store-AreWords 4 store-Ordered (omega arith) 5 1
      documents (omega arith) refl

abbrev note : Obj
note = object 5 3 0x3004 9 no_handles

add_object_to_store_example : Added granting store note (add_object_to_store granting store note)
unfolding find_object get_object_from_store
add_object_to_store_example =
    add_object_to_store-Added granting store note refl (λ e. absurd (omega arith))

abbrev bare : Store
bare = record store { obj_list = [] }

-- A folder with a file, and a file beside it.
abbrev found : List ℕ → Files
found path =
    Files.folder false (47 ∷ 97 ∷ []) (record { attribute = some true; fsize = 0 })
      (Files.file false (47 ∷ 97 ∷ 47 ∷ 98 ∷ []) (record { attribute = some false; fsize = 3 })
        Files.end)
      (Files.file false (47 ∷ 99 ∷ []) (record { attribute = some false; fsize = 3 }) Files.end)

abbrev format : List ℕ → ℕ
format name = 0x3000

recursive_enum_folder_objects_example :
    Fits
      (recursive_enum_folder_objects granting format found 1 bare).1
      (recursive_enum_folder_objects granting format found 1 bare).0.obj_list
    × (1 ≤ (recursive_enum_folder_objects granting format found 1 bare).1)
    × ((recursive_enum_folder_objects granting format found 1 bare).1
        ≤ 1 + count_files (found bare.root_path))
unfolding count_files
recursive_enum_folder_objects_example =
    recursive_enum_folder_objects-Fits granting format found 1 bare refl (omega arith) (omega arith)
      (omega arith)

-- A file system that refuses nothing but the second object, on which `remove` fails.
abbrev pub failing : Env
failing = record {
  cancelled = λ t. false;
  remove = λ t path. failed;
  rmdir = λ t path. done;
  remove_dir_children_recursive = λ t path read_only. swept 0 0;
}

abbrev start : Run
start = record { store = store; clock = 0; response = none; atleast_one = false }

remove_object_example : Ends 4 (remove_object failing granting true 0 4 documents start)
remove_object_example =
    remove_object-Ends 4 failing granting true 0 granting-Grants (omega arith) 4 documents start
      (record { ordered = store-Ordered; few = omega arith }) (omega arith) (omega arith)

letter-IsRemovable : IsRemovable store 2 letter
unfolding find_object get_object_from_store
letter-IsRemovable = record {
  found = refl;
  one = refl;
  writable = refl;
  is_file = refl;
  unprotected = refl;
}

delete_obj_mtp_store_example :
    (r : Run) × (delete_obj_mtp_store failing granting 1 0 store 2 0 true
      ≡ some (r, told (failing.remove (0 + 1) letter.file_path)))
    × (r.store ≡ left store letter (failing.remove (0 + 1) letter.file_path))
delete_obj_mtp_store_example =
    delete_obj_mtp_store-outcome failing granting 0 0 2 0 store letter true letter-IsRemovable refl
