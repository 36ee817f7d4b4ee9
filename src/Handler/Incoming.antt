-- ===== src/Handler/Incoming.antt =====
-- The part of src/mtp_cmd_handler_util.c that takes in what a host sends: the object of
-- SendObjectInfo, and the file of SendObject.
pub mod Parse
use cmtp_responder.Base.{
  ℕ, ◌+◌, ◌-◌, ◌*◌, ◌/◌, ◌%◌, ◌^◌, inl, inr, ◌⊎◌, not, ◌&&◌, ◌||◌, Option, none, some, List, [],
  ◌∷◌, ◌++◌, ltb, ◌==◌, if◌then◌else◌, is_some, length, take, drop, get_or, replicate,
}
use cmtp_responder.Property.PtpArray.{uint32}
use cmtp_responder.Property.PtpString.{PtpString, parse_rawstring}
use cmtp_responder.Container.{read_field}
use cmtp_responder.Entity.Code
use cmtp_responder.Entity.Object.{Obj, ObjInfo}
use cmtp_responder.Entity.Store.{Store, add_object_to_store}
use cmtp_responder.Entity.Device.{Device, get_store, get_object_with_handle}
use cmtp_responder.Handler.{World, State, MtpErr, tick}
use cmtp_responder.Handler.Util.{with_store, refresh}

-- `_util_create_path` of src/util/mtp_support.c. `snprintf` cuts the path to fit with its NUL.
unfoldable pub create_path : World → ℕ → List ℕ → List ℕ → Option (List ℕ)
create_path w size dir filename =
    let whole = dir ++ 47 ∷ filename in
    let path = take (size - 1) whole in
    if ltb 1024 (length filename)
    then none
    else if ltb size (length whole)
    then none
    else if not (w.is_path_len_valid path)
    then none
    else some path

-- The words and half-words at these places, the name, and where the strings behind the name end,
-- which are skipped by their counts. The size of the file has 64 bits, of which the lower 32 are read
-- and the upper stay as they are.
unfoldable pub read_info :
    World → ObjInfo → List ℕ → ℕ → Option (PtpString × ℕ) → Option (ObjInfo × List ℕ × ℕ)
read_info w there buf fname_len none = none
read_info w there buf fname_len (some (fname, parsed)) =
    let read : ObjInfo = record {
      store_id = read_field 4 0 buf;
      obj_fmt = read_field 2 4 buf;
      protcn_status = read_field 2 6 buf;
      file_size = there.file_size / 2 ^ 32 * 2 ^ 32 + read_field 4 8 buf;
      thumb_file_size = read_field 4 14 buf;
      h_parent = read_field 4 38 buf;
      association_type = read_field 2 42 buf;
    } in
    let skip = λ (at : ℕ). at + (get_or buf at 0 * 2 + 1) in
    some (read, w.utf16_to_utf8 fname_len fname.str, skip (skip (skip (52 + parsed))))

-- `none` is a write in front of the name.
unfoldable pub parse_raw_obj_info :
    World → Option (List ℕ) → ℕ → ObjInfo → ℕ → Option (ObjInfo × List ℕ × ℕ)
unfolding read_info
parse_raw_obj_info w none buf_sz info fname_len = some (info, [], 0)
parse_raw_obj_info w (some buf) buf_sz info fname_len =
    let parsed = read_info w info buf fname_len (
      parse_rawstring (record { num_chars = 0; str = replicate 256 0 }) (some (drop 52 buf))
        buf_sz) in
    if ltb buf_sz 52 then some (info, [], 0) else parsed

-- What `_entity_alloc_mtp_object` and the assignments behind it make: an object without children.
abbrev pub new_object : ℕ → ObjInfo → List ℕ → Obj
new_object handle info path = record {
  obj_handle = handle;
  obj_info = info;
  file_path = path;
  child_array = record { type = uint32; arr_size = 0; num_ele = 0; array_entry = none };
}

-- `obj_info->protcn_status` of a folder and of an object of the external store is cleared.
unfoldable pub unprotect : ObjInfo → ObjInfo
unprotect info =
    if info.store_id == 0x20001 || info.obj_fmt == Code.fmt_association
    then record info { protcn_status = Code.protection_none }
    else info

-- The name of the object, from UTF-8 to UTF-16 and back; a missing one is made from its handle.
unfoldable pub name_of : World → ℕ → List ℕ → List ℕ
name_of w handle [] = w.utf16_to_utf8 1046 (w.utf8_to_utf16 1046 (w.tmp_name handle))
name_of w handle (c ∷ cs) = w.utf16_to_utf8 1046 (w.utf8_to_utf16 1046 (c ∷ cs))

-- `MTP_TEMP_FILE`, ".mtptemp.tmp"
abbrev pub temp_file : List ℕ
temp_file = 46 ∷ 109 ∷ 116 ∷ 112 ∷ 116 ∷ 101 ∷ 109 ∷ 112 ∷ 46 ∷ 116 ∷ 109 ∷ 112 ∷ []

-- A folder is made on disk and added to its store; for any other object its size is reserved.
unfoldable pub enter : World → Store → Obj → State → State × (MtpErr × Option Obj)
unfolding tick
enter w store obj s =
    if obj.obj_fmt == Code.fmt_association
    then (let made =
          if not (obj.association_type == 0)
            && not (obj.association_type == Code.association_folder)
          then w.file_create s.clock obj.file_path
          else w.dir_create s.clock obj.file_path in
        if made
        then (
          with_store (λ st. add_object_to_store w.mem st obj) store.store_id (tick s),
          (MtpErr.ok, some obj),
        )
        else (tick s, (MtpErr.general, none)))
    else (
      with_store (λ st. record st { free_space = st.free_space - obj.file_size }) store.store_id s,
      (MtpErr.ok, some obj),
    )

-- The path of the object, where it has one; the temporary file is put below the root of the store.
unfoldable pub at_path :
    World → Store → ObjInfo → ℕ → Option (List ℕ) → State → State × (MtpErr × Option Obj)
unfolding enter create_path
at_path w store info handle none s = (s, (MtpErr.general, none))
at_path w store info handle (some path) s =
    let temp = record s { filepath = some (store.root_path ++ 47 ∷ temp_file) } in
    if is_some
      (create_path w (length store.root_path + length temp_file + 2) store.root_path temp_file)
    then enter w store (new_object handle info path) temp
    else (temp, (MtpErr.general, none))

-- The object gets the next handle.
unfoldable pub place :
    World → Store → ObjInfo → List ℕ → List ℕ → State → State × (MtpErr × Option Obj)
unfolding at_path name_of create_path
place w store info dir file_name s =
    let handle = s.next_obj_handle in
    at_path w store info handle (create_path w 1046 dir (name_of w handle file_name))
      (record s { next_obj_handle = (handle + 1) % 2 ^ 32 })

-- The error of a parent that is not fit, or the folder that the object goes to.
unfoldable pub find_parent : Device → ℕ → MtpErr ⊎ Option (List ℕ)
find_parent d h_parent =
    if h_parent == Code.handle_root then inr none else elim (get_object_with_handle d h_parent) [
      | none ↦ inl MtpErr.invalid_objecthandle
      | some o ↦
          if o.obj_fmt == Code.fmt_association
          then inr (some o.file_path)
          else inl MtpErr.invalid_parent
    ]

-- In the store that was found.
unfoldable pub add_in_store :
    World
    → ObjInfo
    → List ℕ
    → Option (List ℕ)
    → Option Store
    → State
    → State × (MtpErr × Option Obj)
unfolding place unprotect
add_in_store w info file_name dir none s = (s, (MtpErr.general, none))
add_in_store w info file_name dir (some store) s =
    if ltb store.free_space info.file_size
    then (s, (MtpErr.store_full, none))
    else place w store (unprotect info) (elim dir [ none ↦ store.root_path | some path ↦ path ])
        file_name s

unfoldable pub add_below :
    World → ObjInfo → List ℕ → MtpErr ⊎ Option (List ℕ) → State → State × (MtpErr × Option Obj)
unfolding add_in_store
add_below w info file_name (inl e) s = (s, (e, none))
add_below w info file_name (inr dir) s =
    add_in_store w info file_name dir (get_store s.device info.store_id) s

unfoldable pub add_object_entry : World → ObjInfo → List ℕ → State → State × (MtpErr × Option Obj)
unfolding find_parent add_below
add_object_entry w info file_name s =
    add_below w info file_name (find_parent s.device info.h_parent) s

-- Its errors, as the switch of the caller passes them on.
unfoldable pub passed_on : MtpErr → MtpErr
passed_on MtpErr.ok = MtpErr.ok
passed_on MtpErr.store_full = MtpErr.store_full
passed_on MtpErr.invalid_objecthandle = MtpErr.invalid_objecthandle
passed_on MtpErr.invalid_parent = MtpErr.invalid_parent
passed_on e = MtpErr.general

-- The store and the parent that are meant where the host names none.
unfoldable pub destination : State → ℕ → ℕ → MtpErr ⊎ (ℕ × ℕ)
destination s store_id h_parent =
    if not (store_id == 0)
    then inr (
      store_id,
      (if h_parent == 0
          then s.default_hparent
          else if h_parent == 0xFFFFFFFF
          then Code.handle_root
          else h_parent),
    )
    else if s.default_store_id == 0
    then inl MtpErr.store_not_available
    else if not (h_parent == 0)
    then inl MtpErr.invalid_param
    else inr (s.default_store_id, s.default_hparent)

abbrev pub zero_info : ObjInfo
zero_info = record {
  store_id = 0;
  obj_fmt = 0;
  protcn_status = 0;
  file_size = 0;
  thumb_file_size = 0;
  h_parent = 0;
  association_type = 0;
}

-- What was parsed is entered, if it is all that came.
unfoldable pub enter_parsed :
    World
    → (store_id h_parent data_sz : ℕ) → Option (ObjInfo × List ℕ × ℕ)
    → State
    → Option (State × (MtpErr × Option Obj))
unfolding add_object_entry passed_on
enter_parsed w store_id h_parent data_sz none s = none
enter_parsed w store_id h_parent data_sz (some (info, file_name, parsed)) s =
    let (s', result) =
      add_object_entry w (record info { store_id = store_id; h_parent = h_parent }) file_name s in
    if not (parsed == data_sz)
    then some (s, (MtpErr.invalid_object_info, none))
    else some (s', (passed_on result.0, result.1))

unfoldable pub construct_in_store :
    World
    → (store_id h_parent : ℕ) → Option (List ℕ)
    → ℕ
    → Option Store
    → State
    → Option (State × (MtpErr × Option Obj))
unfolding enter_parsed parse_raw_obj_info
construct_in_store w store_id h_parent payload data_sz none s =
    some (s, (MtpErr.invalid_store, none))
construct_in_store w store_id h_parent payload data_sz (some store) s =
    if store.access == Code.access_r
    then some (s, (MtpErr.store_read_only, none))
    else if store.free_space == 0 || ltb store.capacity store.free_space
    then some (s, (MtpErr.store_full, none))
    else enter_parsed w store_id h_parent data_sz
        (parse_raw_obj_info w payload data_sz zero_info 1025) s

unfoldable pub refresh_old : World → Option ℕ → State → State
refresh_old w none s = s
refresh_old w (some old) s = refresh w (get_store s.device old) old s

-- `old_store` is the store of the object that an earlier SendObjectInfo left, where there is one.
unfoldable pub construct_at :
    World
    → (old_store : Option ℕ) → Option (List ℕ)
    → ℕ
    → MtpErr ⊎ (ℕ × ℕ)
    → State
    → Option (State × (MtpErr × Option Obj))
unfolding construct_in_store refresh_old
construct_at w old_store payload data_sz (inl e) s = some (s, (e, none))
construct_at w old_store payload data_sz (inr (store_id, h_parent)) s =
    let s' = refresh_old w old_store s in
    construct_in_store w store_id h_parent payload data_sz (get_store s'.device store_id) s'

-- `none` is a write in front of the name's array.
unfoldable pub construct_object_entry :
    World
    → (store_id h_parent : ℕ) → (old_store : Option ℕ) → Option (List ℕ)
    → ℕ
    → State
    → Option (State × (MtpErr × Option Obj))
unfolding destination construct_at
construct_object_entry w store_id h_parent old_store payload data_sz s =
    construct_at w old_store payload data_sz (destination s store_id h_parent) s

-- The temporary file becomes the object's file, and the object is added to the store.
unfoldable pub write_in_store : World → Obj → List ℕ → Option Store → State → State × MtpErr
unfolding tick
write_in_store w obj fpath none s = (s, MtpErr.invalid_object_info)
write_in_store w obj fpath (some store) s =
    if not (w.access s.clock fpath)
    then (tick s, MtpErr.general)
    else if not (w.file_move (s.clock + 1) fpath obj.file_path)
    then (tick (tick s), MtpErr.store_full)
    else (
      with_store (λ st. add_object_to_store w.mem st obj) store.store_id (tick (tick s)),
      MtpErr.ok,
    )

unfoldable pub write_file_data : World → ℕ → Option Obj → List ℕ → State → State × MtpErr
unfolding write_in_store
write_file_data w store_id none fpath s = (s, MtpErr.invalid_param)
write_file_data w store_id (some obj) fpath s =
    write_in_store w obj fpath (get_store s.device store_id) s

-- The bytes of a file from an offset; a short read is an error.
unfoldable pub read_object :
    World → (offset data_sz : ℕ) → Option Obj → State → State × (MtpErr × List ℕ)
unfolding tick
read_object w offset data_sz none s = (s, (MtpErr.invalid_objecthandle, []))
read_object w offset data_sz (some obj) s =
    let bytes = w.file_read (s.clock + 2) obj.file_path data_sz in
    if obj.protcn_status == 0x8003
    then (s, (MtpErr.general, []))
    else if is_some (w.file_open s.clock (take 1045 obj.file_path))
    then (tick s, (MtpErr.general, []))
    else if not (w.file_seek (s.clock + 1) offset)
    then (tick (tick s), (MtpErr.general, []))
    else if not (data_sz == length bytes)
    then (tick (tick (tick s)), (MtpErr.general, []))
    else (tick (tick (tick s)), (MtpErr.ok, bytes))

unfoldable pub read_file_data_from_offset :
    World → (obj_handle offset data_sz : ℕ) → State → State × (MtpErr × List ℕ)
unfolding read_object
read_file_data_from_offset w obj_handle offset data_sz s =
    read_object w offset data_sz (get_object_with_handle s.device obj_handle) s
