-- ===== src/Entity/Store/Depth.antt =====
-- `_entity_get_objects_from_store_till_depth` of src/entity/mtp_store.c against the walk of the tree.
use cmtp_responder.Base.{
  ℕ, zero, suc, ◌+◌, ◌≤◌, ◌<◌, ◌≡◌, ap, Bool, false, List, [], ◌∷◌, ◌++◌, arith, length,
  length-append, Bool-cases, inl, inr, if◌then◌else◌, ◌==◌, not,
}
use cmtp_responder.Property.PtpArray.{PtpArray, Allocator, Grants, append_ele_ptparray}
use cmtp_responder.Property.PtpArray.Append.{max_elements}
use cmtp_responder.Entity.Code
use cmtp_responder.Entity.Object.{Obj}
use cmtp_responder.Entity.Object.References.{
  IsHandles, Extends, Extends-refl, Extends-trans, Extends-one,
}
use cmtp_responder.Entity.Store.{
  Store, is_child_with_format, fold_handles, till_depth, get_objects_from_store_till_depth,
}
use cmtp_responder.Entity.Store.Listing.{select, AreWords, children_with_format_lem}

-- The handle itself, unless it is the root.
unfoldable pub own : ℕ → List ℕ
own h = if not (h == Code.handle_root) then h ∷ [] else []

unfoldable pub flat : (ℕ → List ℕ) → List ℕ → List ℕ
flat w [] = []
flat w (h ∷ hs) = w h ++ flat w hs

-- The object, then what lies below its children that have the format, down to a depth: the tree in
-- preorder.
unfoldable pub walk : Store → ℕ → ℕ → ℕ → List ℕ
unfolding own flat
walk s fmt zero h = own h
walk s fmt (suc depth) h =
    own h ++ flat (walk s fmt depth) (select (is_child_with_format h fmt) s.obj_list)

abbrev pub AreBelow : List ℕ → Type 0
AreBelow [] = Unit
AreBelow (h ∷ hs) = (h < Code.handle_all) × AreBelow hs

select-AreBelow : (p : Obj → Bool) (os : List Obj) → AreWords os → AreBelow (select p os)
unfolding select
select-AreBelow p [] w = tt
select-AreBelow p (o ∷ os) w = elim (Bool-cases (p o)) [
  | inl hit ↦ rw hit (w.0, select-AreBelow p os w.1)
  | inr miss ↦ rw miss (select-AreBelow p os w.1)
]

-- What a step of the walk does to the array, for one handle.
abbrev Follows : (ℕ → PtpArray → PtpArray) → (ℕ → List ℕ) → Type 0
Follows f w =
    (h : ℕ) (a : PtpArray)
    → h < Code.handle_all
    → IsHandles a
    → a.num_ele + length (w h) ≤ max_elements
    → Extends a (w h) (f h a)

fold_handles_lem :
    (f : ℕ → PtpArray → PtpArray) (w : ℕ → List ℕ) (hs : List ℕ) (a : PtpArray)
    → Follows f w
    → AreBelow hs
    → IsHandles a
    → a.num_ele + length (flat w hs) ≤ max_elements
    → Extends a (flat w hs) (fold_handles f hs a)
unfolding fold_handles flat
fold_handles_lem f w [] a step below p few = Extends-refl a p
fold_handles_lem f w (h ∷ hs) a step below p few =
    let total = length-append (w h) (flat w hs) in
    let one = step h a below.0 p (omega (arith, total)) in
    Extends-trans one
      (fold_handles_lem f w hs (f h a) step below.1 one.handles (omega (arith, total, one.count)))

own_lem :
    (m : Allocator) (g : Grants m) (h : ℕ) (a : PtpArray)
    → h < Code.handle_all
    → IsHandles a
    → a.num_ele + length (own h) ≤ max_elements
    → Extends a (own h) (if not (h == Code.handle_root) then (append_ele_ptparray m a h).0 else a)
unfolding own
own_lem m g h a below p few = elim (Bool-cases (not (h == Code.handle_root))) [
  | inl some_object ↦
      let room : a.num_ele + length (h ∷ []) ≤ max_elements =
        omega (arith, ap (λ b. length (if b then h ∷ [] else [])) some_object) in
      rw some_object (Extends-one m a h g p (omega arith) (omega arith))
  | inr root ↦ rw root (Extends-refl a p)
]

till_depth_lem :
    (m : Allocator) (g : Grants m) (s : Store) (words : AreWords s.obj_list) (fmt depth : ℕ)
    → length s.obj_list ≤ max_elements
    → Follows (till_depth m s fmt depth) (walk s fmt depth)
unfolding till_depth walk
till_depth_lem m g s words fmt zero few h a below p room =
    let not_all : (h == Code.handle_all) ≡ false = ground arith in
    rw not_all (own_lem m g h a below p room)
till_depth_lem m g s words fmt (suc depth) few h a below p room =
    let not_all : (h == Code.handle_all) ≡ false = ground arith in
    let kids = select (is_child_with_format h fmt) s.obj_list in
    let deep = walk s fmt depth in
    let total = length-append (own h) (flat deep kids) in
    let one = own_lem m g h a below p (omega (arith, total)) in
    rw (not_all, children_with_format_lem m g s words h fmt few)
      (Extends-trans one (
        fold_handles_lem (till_depth m s fmt depth) deep kids _
          (till_depth_lem m g s words fmt depth few)
          (select-AreBelow (is_child_with_format h fmt) s.obj_list words) one.handles
          (omega (arith, total, one.count))))

-- Where no handle is the one for all, and array and listing have at most 2^26 elements, listing to a
-- depth appends the object, unless it is the root, and then, for each child with the format in the
-- order of the store, what lies below it to one level less; it returns the count.
pub get_objects_from_store_till_depth-walk :
    (m : Allocator) (g : Grants m) (s : Store) (words : AreWords s.obj_list) (fmt depth h : ℕ)
    → (a : PtpArray) → length s.obj_list ≤ max_elements
    → h < Code.handle_all
    → IsHandles a
    → a.num_ele + length (walk s fmt depth h) ≤ max_elements
    → Extends a (walk s fmt depth h) (get_objects_from_store_till_depth m s h fmt depth a).0
      × ((get_objects_from_store_till_depth m s h fmt depth a).1
          ≡ a.num_ele + length (walk s fmt depth h))
unfolding get_objects_from_store_till_depth
get_objects_from_store_till_depth-walk m g s words fmt depth h a few below p room =
    let q = till_depth_lem m g s words fmt depth few h a below p room in (q, q.count)
