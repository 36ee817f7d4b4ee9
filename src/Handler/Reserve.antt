-- ===== src/Handler/Reserve.antt =====
-- `_hutil_add_object_entry` of src/mtp_cmd_handler_util.c: what is reserved of the free space.
use mathlib.Core.Option.{none-ne-some, some-injective}
use cmtp_responder.Base.{
  ℕ, ◌+◌, ◌-◌, ◌%◌, ◌^◌, ◌≤◌, ◌≡◌, refl, ◌∙◌, ap, sym, inl, inr, ◌⊎◌, Bool, true, false, not, ◌||◌,
  ◌&&◌, Option, none, some, List, [], ◌∷◌, ◌++◌, arith, ltb, ltb-false, ◌==◌, if◌then◌else◌,
  is_some, Bool-cases, eq_of_==, length,
}
use cmtp_responder.Property.PtpArray.{Allocator}
use cmtp_responder.Entity.Code
use cmtp_responder.Entity.Object.{Obj, ObjInfo}
use cmtp_responder.Entity.Store.{Store, add_object_to_store}
use cmtp_responder.Entity.Device.{find_store, get_store}
use cmtp_responder.Handler.{World, State, MtpErr, tick}
use cmtp_responder.Handler.Util.{change_store, with_store}
use cmtp_responder.Handler.Incoming.{
  enter, at_path, place, add_in_store, add_below, add_object_entry, find_parent, new_object,
  create_path, name_of, unprotect, temp_file,
}

-- What a result keeps of the free space: the size of a new object that is no folder.
unfoldable pub reserved : (fmt size : ℕ) → MtpErr × Option Obj → ℕ
reserved fmt size (e, none) = 0
reserved fmt size (MtpErr.ok, some o) = if fmt == Code.fmt_association then 0 else size
reserved fmt size (e, some o) = 0

-- The store with the id is there, and what is reserved is missing from its free space.
pub record Reserves (id : ℕ) (st : Store) (fmt size : ℕ) (r : State × (MtpErr × Option Obj))
    : Type 0 where
  pub st' : Store
  pub there : get_store r.0.device id ≡ some st'
  pub space : st'.free_space + reserved fmt size r.1 ≡ st.free_space

pub find_store-id :
    (id : ℕ) (ss : List Store) (st : Store) → find_store id ss ≡ some st → st.store_id ≡ id
unfolding find_store
find_store-id id [] st there = absurd (none-ne-some st there)
find_store-id id (s ∷ ss) st there = elim (Bool-cases (s.store_id == id)) [
  | inl hit ↦
      let same =
        some-injective s st (sym (ap (λ b. if b then some s else find_store id ss) hit) ∙ there) in
      ap (λ x. x.store_id) (sym same) ∙ eq_of_== s.store_id id hit
  | inr miss ↦
      find_store-id id ss st (sym (ap (λ b. if b then some s else find_store id ss) miss) ∙ there)
]

-- A changed store that keeps its id is found in its place.
pub find_store-change_store :
    (f : Store → Store) (id : ℕ) (ss : List Store) (st : Store)
    → ((x : Store) → (f x).store_id ≡ x.store_id)
    → find_store id ss ≡ some st
    → find_store id (change_store f id ss) ≡ some (f st)
unfolding find_store change_store
find_store-change_store f id [] st keeps there = absurd (none-ne-some st there)
find_store-change_store f id (s ∷ ss) st keeps there = elim (Bool-cases (s.store_id == id)) [
  | inl hit ↦
      let same =
        some-injective s st (sym (ap (λ b. if b then some s else find_store id ss) hit) ∙ there) in
      let found : ((f s).store_id == id) ≡ true = ap (λ x. x == id) (keeps s) ∙ hit in
      rw (hit, found) (ap (λ x. some (f x)) same)
  | inr miss ↦
      rw (miss, miss)
        (find_store-change_store f id ss st keeps
          (sym (ap (λ b. if b then some s else find_store id ss) miss) ∙ there))
]

pub add_object-free_space :
    (m : Allocator) (st : Store) (obj : Obj)
    → ((add_object_to_store m st obj).free_space ≡ st.free_space)
      × ((add_object_to_store m st obj).store_id ≡ st.store_id)
unfolding add_object_to_store
add_object-free_space m st obj = elim (Bool-cases (obj.h_parent == Code.handle_root)) [
  | inl root ↦ rw root (refl, refl)
  | inr below ↦ rw below (refl, refl)
]

pub with_store-there :
    (id : ℕ) (st : Store) (f : Store → Store) (t : State)
    → ((x : Store) → (f x).store_id ≡ x.store_id)
    → get_store t.device id ≡ some st
    → get_store (with_store f id t).device id ≡ some (f st)
unfolding get_store
with_store-there id st f t keeps there =
    find_store-change_store f id t.device.store_list st keeps there

module _ (w : World) (id : ℕ) (st : Store) (fmt size : ℕ) where
  if-Reserves :
      (b : Bool) (x y : State × (MtpErr × Option Obj))
      → (b ≡ true → Reserves id st fmt size x)
      → (b ≡ false → Reserves id st fmt size y)
      → Reserves id st fmt size (if b then x else y)
  if-Reserves true x y p q = p refl
  if-Reserves false x y p q = q refl

  -- Nothing is reserved, and the stores are as they were.
  untouched :
      (t : State) (e : MtpErr)
      → get_store t.device id ≡ some st
      → Reserves id st fmt size (t, (e, none))
  unfolding reserved
  untouched t e there = record { st' = st; there = there; space = omega arith }

  -- A folder takes nothing.
  added :
      (store : Store) (obj : Obj) (t : State)
      → get_store t.device id ≡ some st
      → store.store_id ≡ id
      → (fmt == Code.fmt_association) ≡ true
      → Reserves id st fmt size (
        with_store (λ x. add_object_to_store w.mem x obj) store.store_id t,
        (MtpErr.ok, some obj),
      )
  unfolding reserved
  added store obj t there named folder =
      let adds = λ (x : Store). add_object_to_store w.mem x obj in
      let kept = (add_object-free_space w.mem st obj).0 in
      record {
        st' = adds st;
        there =
            rw named
              (with_store-there id st adds t (λ x. (add_object-free_space w.mem x obj).1) there);
        space = rw folder (omega (arith, kept));
      }

  -- Any other object takes its size.
  taken :
      (store : Store) (obj : Obj) (t : State)
      → get_store t.device id ≡ some st
      → store.store_id ≡ id
      → (fmt == Code.fmt_association) ≡ false
      → obj.file_size ≡ size
      → size ≤ st.free_space
      → Reserves id st fmt size (
        with_store (λ x. record x { free_space = x.free_space - obj.file_size }) store.store_id t,
        (MtpErr.ok, some obj),
      )
  unfolding reserved
  taken store obj t there named file sized fits =
      let takes = λ (x : Store). record x { free_space = x.free_space - obj.file_size } in
      record {
        st' = takes st;
        there = rw named (with_store-there id st takes t (λ x. refl) there);
        space = rw file (omega arith);
      }

  enter-Reserves :
      (store : Store) (obj : Obj) (t : State)
      → get_store t.device id ≡ some st
      → store.store_id ≡ id
      → obj.file_size ≡ size
      → obj.obj_fmt ≡ fmt
      → size ≤ st.free_space
      → Reserves id st fmt size (enter w store obj t)
  unfolding enter tick
  enter-Reserves store obj t there named sized formed fits =
      let made =
        (if not (obj.association_type == 0) && not (obj.association_type == Code.association_folder)
          then w.file_create t.clock obj.file_path
          else w.dir_create t.clock obj.file_path) in
      let same = ap (λ f. f == Code.fmt_association) (sym formed) in
      if-Reserves (obj.obj_fmt == Code.fmt_association) _ _
        (λ folder.
          if-Reserves made _ _ (λ ok. added store obj (tick t) there named (same ∙ folder))
            (λ failed. untouched (tick t) MtpErr.general there))
        (λ file. taken store obj t there named (same ∙ file) sized fits)

  at_path-Reserves :
      (store : Store) (info : ObjInfo) (handle : ℕ) (path : Option (List ℕ)) (t : State)
      → get_store t.device id ≡ some st
      → store.store_id ≡ id
      → info.file_size ≡ size
      → info.obj_fmt ≡ fmt
      → size ≤ st.free_space
      → Reserves id st fmt size (at_path w store info handle path t)
  unfolding at_path
  at_path-Reserves store info handle none t there named sized formed fits =
      untouched t MtpErr.general there
  at_path-Reserves store info handle (some path) t there named sized formed fits =
      let temp = record t { filepath = some (store.root_path ++ 47 ∷ temp_file) } in
      if-Reserves
        (is_some
          (create_path w (length store.root_path + length temp_file + 2) store.root_path temp_file))
        _ _
        (λ ok.
          enter-Reserves store (new_object handle info path) temp there named sized formed fits)
        (λ long. untouched temp MtpErr.general there)

  place-Reserves :
      (store : Store) (info : ObjInfo) (dir file_name : List ℕ) (t : State)
      → get_store t.device id ≡ some st
      → store.store_id ≡ id
      → info.file_size ≡ size
      → info.obj_fmt ≡ fmt
      → size ≤ st.free_space
      → Reserves id st fmt size (place w store info dir file_name t)
  unfolding place
  place-Reserves store info dir file_name t there =
      let handle = t.next_obj_handle in
      at_path-Reserves store info handle (create_path w 1046 dir (name_of w handle file_name))
        (record t { next_obj_handle = (handle + 1) % 2 ^ 32 }) there

  unprotect-same :
      (info : ObjInfo)
      → ((unprotect info).file_size ≡ info.file_size) × ((unprotect info).obj_fmt ≡ info.obj_fmt)
  unfolding unprotect
  unprotect-same info =
      elim (Bool-cases (info.store_id == 0x20001 || info.obj_fmt == Code.fmt_association)) [
        | inl clear ↦ rw clear (refl, refl)
        | inr keep ↦ rw keep (refl, refl)
      ]

  add_in_store-Reserves :
      (info : ObjInfo) (file_name : List ℕ) (dir : Option (List ℕ)) (q : Option Store) (t : State)
      → q ≡ some st
      → get_store t.device id ≡ some st
      → st.store_id ≡ id
      → info.file_size ≡ size
      → info.obj_fmt ≡ fmt
      → Reserves id st fmt size (add_in_store w info file_name dir q t)
  unfolding add_in_store
  add_in_store-Reserves info file_name dir none t found there named sized formed =
      absurd (none-ne-some st found)
  add_in_store-Reserves info file_name dir (some store) t found there named sized formed =
      let same = some-injective store st found in
      let (size_eq, fmt_eq) = unprotect-same info in
      if-Reserves (ltb store.free_space info.file_size) _ _
        (λ full. untouched t MtpErr.store_full there)
        (λ room.
          place-Reserves store (unprotect info) _ file_name t there
            (ap (λ x. x.store_id) same ∙ named) (size_eq ∙ sized) (fmt_eq ∙ formed)
            (omega
              (arith, ltb-false store.free_space info.file_size room, ap (λ x. x.free_space) same)))

  add_below-Reserves :
      (info : ObjInfo) (file_name : List ℕ) (e : MtpErr ⊎ Option (List ℕ)) (t : State)
      → get_store t.device info.store_id ≡ some st
      → info.store_id ≡ id
      → info.file_size ≡ size
      → info.obj_fmt ≡ fmt
      → st.store_id ≡ id
      → Reserves id st fmt size (add_below w info file_name e t)
  unfolding add_below
  add_below-Reserves info file_name (inl e) t there named sized formed own =
      untouched t e (ap (get_store t.device) (sym named) ∙ there)
  add_below-Reserves info file_name (inr dir) t there named sized formed own =
      add_in_store-Reserves info file_name dir (get_store t.device info.store_id) t there
        (ap (get_store t.device) (sym named) ∙ there) own sized formed

-- Adding an object to a store that the device has leaves the store on the device, and its free space
-- shrinks by exactly what is reserved, so that it never falls below 0: by the size of the object
-- where one is made that is no folder, and by nothing where a folder is made or an error is told.
pub add_object_entry-Reserves :
    (w : World) (info : ObjInfo) (file_name : List ℕ) (s : State) (st : Store)
    → get_store s.device info.store_id ≡ some st
    → Reserves info.store_id st info.obj_fmt info.file_size (add_object_entry w info file_name s)
unfolding add_object_entry get_store
add_object_entry-Reserves w info file_name s st there =
    add_below-Reserves w info.store_id st info.obj_fmt info.file_size info file_name
      (find_parent s.device info.h_parent) s there refl refl refl
      (find_store-id info.store_id s.device.store_list st there)
