-- ===== src/Handler/Handles.antt =====
-- `_hutil_get_object_handles` of src/mtp_cmd_handler_util.c: which handles the host is given.
use mathlib.Core.Option.{none-ne-some, some-injective}
use mathlib.Core.Path.{subst}
use cmtp_responder.Base.{
  ℕ, ◌+◌, ◌≤◌, ◌<◌, ◌≡◌, ◌≢◌, ◌⊎◌, eq_of_==, ne_of_==, refl, ◌∙◌, ap, sym, inl, inr, Bool, ◌||◌,
  ◌&&◌, Option, none, some, List, [], ◌∷◌, ◌++◌, arith, ◌==◌, if◌then◌else◌, Bool-cases, length,
  append-nil,
}
use cmtp_responder.Property.PtpArray.{PtpArray, Allocator, Grants}
use cmtp_responder.Property.PtpArray.Append.{max_elements}
use cmtp_responder.Entity.Code
use cmtp_responder.Entity.Object.{Obj}
use cmtp_responder.Entity.Object.References.{IsHandles, Extends, Extends-refl, Extends-trans}
use cmtp_responder.Entity.Store.{
  Store, listed_format, is_child_with_format, get_objects_from_store_by_format,
  get_child_handles_with_same_format,
}
use cmtp_responder.Entity.Store.Listing.{
  select, length-select, AreWords, get_objects_from_store-select,
}
use cmtp_responder.Entity.Device.{Device, find_store, get_store}
use cmtp_responder.Handler.{World, State, MtpErr, tick}
use cmtp_responder.Handler.Util.{
  over_stores, in_store, fill_empty, enumeration, enumerate_stores, listed_handles,
  get_object_handles,
}

-- The handles of the objects of several stores that pass a test.
unfoldable pub select_all : (Obj → Bool) → List Store → List ℕ
select_all p [] = []
select_all p (st ∷ ss) = select p st.obj_list ++ select_all p ss

-- The stores that are asked for: all of them by their common id, if no parent is named, or the one
-- with the id.
unfoldable pub asked : Device → (store_id h_parent : ℕ) → Option (List Store)
asked d store_id h_parent =
    if store_id == Code.storageid_all
      && (h_parent == Code.handle_root || h_parent == Code.handle_all)
    then some d.store_list
    else elim (get_store d store_id) [ none ↦ none | some st ↦ some (st ∷ []) ]

-- The objects that are asked for: with the parent 0 all that are listed under the format, with the
-- parent 0xFFFFFFFF those at the root, else the children.
unfoldable pub wanted : (format h_parent : ℕ) → Obj → Bool
wanted format h_parent =
    if h_parent == Code.handle_root
    then listed_format format
    else if h_parent == Code.handle_all
    then is_child_with_format Code.handle_root format
    else is_child_with_format h_parent format

-- What comes of a request.
unfoldable pub Lists : PtpArray → (Obj → Bool) → PtpArray × MtpErr → Option (List Store) → Type 0
Lists a p r none = r ≡ (a, MtpErr.invalid_store)
Lists a p r (some ss) = Extends a (select_all p ss) r.0 × (r.1 ≡ MtpErr.ok)

unfoldable pub count_objects : List Store → ℕ
count_objects [] = 0
count_objects (st ∷ ss) = length st.obj_list + count_objects ss

abbrev pub AllWords : List Store → Type 0
AllWords [] = Unit
AllWords (st ∷ ss) = AreWords st.obj_list × AllWords ss

-- The stores after an enumeration, and the next handle: each store that has no objects is the one that
-- was read from its files, from the handle on that is next at its turn, and any other is the same.
pub data Filled (enum_folder_objects : ℕ → Store → Store × ℕ)
    : ℕ → List Store → List Store → ℕ → Type 0 where
  done : {next : ℕ} → Filled enum_folder_objects next [] [] next
  read :
      {next last : ℕ} {st : Store} {ss ss' : List Store}
      → length st.obj_list ≡ 0
      → Filled enum_folder_objects (enum_folder_objects next st).1 ss ss' last
      → Filled enum_folder_objects next (st ∷ ss) ((enum_folder_objects next st).0 ∷ ss') last
  kept :
      {next last : ℕ} {st : Store} {ss ss' : List Store}
      → 0 < length st.obj_list
      → Filled enum_folder_objects next ss ss' last
      → Filled enum_folder_objects next (st ∷ ss) (st ∷ ss') last

-- The state in which a listing is made: where no parent is named, by the handle 0 or by the one for
-- all, the empty stores are filled first.
pub data Enumerated (w : World) (s : State) : ℕ → State → Type 0 where
  named : {h_parent : ℕ} → h_parent ≢ 0 → h_parent ≢ 0xFFFFFFFF → Enumerated w s h_parent s
  unnamed :
      {h_parent next : ℕ} {ss : List Store}
      → (h_parent ≡ 0xFFFFFFFF) ⊎ (h_parent ≡ 0)
      → Filled (enumeration w s.clock) s.next_obj_handle s.device.store_list ss next
      → Enumerated w s h_parent (record s {
        clock = s.clock + 1;
        device = record { store_list = ss };
        next_obj_handle = next;
      })

fill_empty-Filled :
    (f : ℕ → Store → Store × ℕ) (ss : List Store) (next : ℕ)
    → Filled f next ss (fill_empty f ss next).0 (fill_empty f ss next).1
unfolding fill_empty
fill_empty-Filled f [] next = done
fill_empty-Filled f (st ∷ ss) next = elim (Bool-cases (length st.obj_list == 0)) [
  | inl bare ↦
      rw bare (read (eq_of_== (length st.obj_list) 0 bare) (fill_empty-Filled f ss (f next st).1))
  | inr full ↦
      let some_there = ne_of_== (length st.obj_list) 0 full in
      rw full (kept (omega arith) (fill_empty-Filled f ss next))
]

enumerate_stores-Enumerated :
    (w : World) (s : State) (h_parent : ℕ) → Enumerated w s h_parent (enumerate_stores w h_parent s)
unfolding enumerate_stores tick
enumerate_stores-Enumerated w s h_parent =
    let filled = fill_empty-Filled (enumeration w s.clock) s.device.store_list s.next_obj_handle in
    elim (Bool-cases (h_parent == Code.handle_all)) [
      | inl all ↦ rw all (unnamed (inl (eq_of_== h_parent Code.handle_all all)) filled)
      | inr other ↦ elim (Bool-cases (h_parent == Code.handle_root)) [
        | inl root ↦
            rw (other, root) (unnamed (inr (eq_of_== h_parent Code.handle_root root)) filled)
        | inr parent ↦
            rw (other, parent)
              (named (ne_of_== h_parent Code.handle_root parent)
                (ne_of_== h_parent Code.handle_all other))
      ]
    ]

-- What a function appends for one store.
abbrev Appends : (Store → PtpArray → PtpArray) → (Obj → Bool) → Type 0
Appends f p =
    (st : Store) (a : PtpArray)
    → AreWords st.obj_list
    → IsHandles a
    → a.num_ele + length st.obj_list ≤ max_elements
    → Extends a (select p st.obj_list) (f st a)

over_stores_lem :
    (f : Store → PtpArray → PtpArray) (p : Obj → Bool) (ss : List Store) (a : PtpArray)
    → Appends f p
    → AllWords ss
    → IsHandles a
    → a.num_ele + count_objects ss ≤ max_elements
    → Extends a (select_all p ss) (over_stores f ss a)
unfolding over_stores select_all count_objects
over_stores_lem f p [] a one words h few = Extends-refl a h
over_stores_lem f p (st ∷ ss) a one words h few =
    let first = one st a words.0 h (omega arith) in
    Extends-trans first (
      over_stores_lem f p ss (f st a) one words.1 first.handles
        (omega (arith, first.count, length-select p st.obj_list)))

found_words :
    (id : ℕ) (ss : List Store) (st : Store)
    → find_store id ss ≡ some st
    → AllWords ss
    → AreWords st.obj_list × (length st.obj_list ≤ count_objects ss)
unfolding find_store count_objects
found_words id [] st there words = absurd (none-ne-some st there)
found_words id (s ∷ ss) st there words = elim (Bool-cases (s.store_id == id)) [
  | inl hit ↦
      let same =
        some-injective s st (sym (ap (λ b. if b then some s else find_store id ss) hit) ∙ there) in
      subst (λ x. AreWords x.obj_list × (length x.obj_list ≤ length s.obj_list + count_objects ss))
        same (words.0, omega arith)
  | inr miss ↦
      let (w, few) =
        found_words id ss st (sym (ap (λ b. if b then some s else find_store id ss) miss) ∙ there)
          words.1 in
      (w, omega arith)
]

store_words :
    (d : Device) (id : ℕ)
    → AllWords d.store_list
    → (st : Store) → get_store d id ≡ some st
    → AreWords st.obj_list × (length st.obj_list ≤ count_objects d.store_list)
unfolding get_store
store_words d id words st there = found_words id d.store_list st there words

one_store :
    (f : Store → PtpArray → PtpArray) (p : Obj → Bool) (d : Device) (q : Option Store)
    (a : PtpArray)
    → Appends f p
    → ((st : Store)
        → q ≡ some st
        → AreWords st.obj_list × (length st.obj_list ≤ count_objects d.store_list))
    → IsHandles a
    → a.num_ele + count_objects d.store_list ≤ max_elements
    → Lists a p (in_store f q a) (elim q [ none ↦ none | some st ↦ some (st ∷ []) ])
unfolding in_store Lists select_all
one_store f p d none a one words h few = refl
one_store f p d (some st) a one words h few =
    let (w, fits) = words st refl in
    rw (append-nil (select p st.obj_list)) (one st a w h (omega arith), refl)

listed_handles-Lists :
    (m : Allocator) (g : Grants m) (d : Device) (store_id format h_parent : ℕ) (a : PtpArray)
    → AllWords d.store_list
    → IsHandles a
    → a.num_ele + count_objects d.store_list ≤ max_elements
    → Lists a
        (wanted format h_parent)
        (listed_handles m d store_id format h_parent a)
        (asked d store_id h_parent)
unfolding listed_handles asked wanted Lists
listed_handles-Lists m g d store_id format h_parent a words h few =
    let by_format : Appends (λ st b. (get_objects_from_store_by_format m st format b).0)
        (listed_format format) =
      λ st b w hb fb. (get_objects_from_store-select m g st w b format 0 hb fb).1 in
    let children : (h' : ℕ)
        → Appends (λ st b. (get_child_handles_with_same_format m st h' format b).0)
            (is_child_with_format h' format) =
      λ h' st b w hb fb. (get_objects_from_store-select m g st w b format h' hb fb).2 in
    let words_of = store_words d store_id words in
    let one = λ (h' : ℕ). one_store _ _ d (get_store d store_id) a (children h') words_of h few in
    let plain = one_store _ _ d (get_store d store_id) a by_format words_of h few in
    let all = λ (h' : ℕ). over_stores_lem _ _ d.store_list a (children h') words h few in
    elim (Bool-cases (store_id == Code.storageid_all)) [
      | inl every ↦ elim (Bool-cases (h_parent == Code.handle_root)) [
        | inl root ↦
            rw (every, root) (over_stores_lem _ _ d.store_list a by_format words h few, refl)
        | inr below ↦ elim (Bool-cases (h_parent == Code.handle_all)) [
          | inl top ↦ rw (every, below, top) (all Code.handle_root, refl)
          | inr parent ↦ rw (every, below, parent) (one h_parent)
        ]
      ]
      | inr single ↦ elim (Bool-cases (h_parent == Code.handle_root)) [
        | inl root ↦ rw (single, root) plain
        | inr below ↦ elim (Bool-cases (h_parent == Code.handle_all)) [
          | inl top ↦ rw (single, below, top) (one Code.handle_root)
          | inr parent ↦ rw (single, below, parent) (one h_parent)
        ]
      ]
    ]

-- Where no parent is named, by the handle 0 or by the one for all, the stores without objects are
-- first filled by the enumeration of their files, and the others stay; where one is named nothing
-- changes. Then, where memory is granted, no handle of the device as it is now is the one for all and
-- the array has room for every object within 2^26 elements, the handles that are appended are those
-- of the objects that are asked for, store by store, in the order of each store; where no store has
-- the id that is asked for the array stays and the error says so, also for the id of all stores with
-- a parent.
pub get_object_handles-Lists :
    (w : World) (g : Grants w.mem) (s : State) (store_id format h_parent : ℕ) (a : PtpArray)
    → AllWords (enumerate_stores w h_parent s).device.store_list
    → IsHandles a
    → a.num_ele + count_objects (enumerate_stores w h_parent s).device.store_list ≤ max_elements
    → Enumerated w s h_parent (get_object_handles w s store_id format h_parent a).0
      × Lists a
          (wanted format h_parent)
          (get_object_handles w s store_id format h_parent a).1
          (asked (get_object_handles w s store_id format h_parent a).0.device store_id h_parent)
unfolding get_object_handles
get_object_handles-Lists w g s store_id format h_parent a words h few = (
  enumerate_stores-Enumerated w s h_parent,
  listed_handles-Lists w.mem g (enumerate_stores w h_parent s).device store_id format h_parent a
      words h few,
)
