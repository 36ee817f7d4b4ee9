-- ===== src/Entity/Store/Listing.antt =====
-- The listings of a store (src/entity/mtp_store.c): which handles they append, in which order.
use cmtp_responder.Base.{
  ℕ, ◌+◌, ◌≤◌, ◌<◌, ◌≡◌, refl, ◌∙◌, ap, Bool, Option, none, some, List, [], ◌∷◌, ◌++◌, arith,
  length, Bool-cases, inl, inr, if◌then◌else◌, is_some,
}
use cmtp_responder.Property.PtpArray.{
  PtpArray, Allocator, Grants, uint32, elements, is_scalar, append_ele_ptparray,
}
use cmtp_responder.Property.PtpArray.Grow.{init-Grown}
use cmtp_responder.Property.PtpArray.Append.{max_elements}
use cmtp_responder.Entity.Code
use cmtp_responder.Entity.Object.{Obj}
use cmtp_responder.Entity.Object.References.{
  IsHandles, Extends, Extends-refl, Extends-trans, Extends-one,
}
use cmtp_responder.Entity.Store.{
  Store, append_where, enumerate, has_format, listed_format, is_child_of, is_child_with_format,
  get_object_from_store, get_objects_from_store, get_objects_from_store_by_format,
  get_child_handles, get_child_handles_with_same_format, children_of, fresh_handles,
  collect_children,
}

-- The handles of the objects that pass a test, in the order of the store.
unfoldable pub select : (Obj → Bool) → List Obj → List ℕ
select p [] = []
select p (o ∷ os) = if p o then o.obj_handle ∷ select p os else select p os

-- Handles are 32-bit words, and none is the one that stands for all.
abbrev pub AreWords : List Obj → Type 0
AreWords [] = Unit
AreWords (o ∷ os) = (o.obj_handle < Code.handle_all) × AreWords os

pub length-select : (p : Obj → Bool) (os : List Obj) → length (select p os) ≤ length os
unfolding select
length-select p [] = omega arith
length-select p (o ∷ os) = elim (Bool-cases (p o)) [
  | inl hit ↦ rw hit (omega (arith, length-select p os))
  | inr miss ↦ rw miss (omega (arith, length-select p os))
]

pub append_where_lem :
    (m : Allocator) (g : Grants m) (p : Obj → Bool) (os : List Obj) (a : PtpArray)
    → AreWords os
    → IsHandles a
    → a.num_ele + length os ≤ max_elements
    → Extends a (select p os) (append_where m p os a)
unfolding append_where select
append_where_lem m g p [] a w h few = Extends-refl a h
append_where_lem m g p (o ∷ os) a w h few = elim (Bool-cases (p o)) [
  | inl hit ↦
      let one = Extends-one m a o.obj_handle g h (omega (arith, w.0)) (omega arith) in
      rw hit (
        Extends-trans one (
          append_where_lem m g p os (append_ele_ptparray m a o.obj_handle).0 w.1 one.handles
            (omega (arith, one.count))))
  | inr miss ↦ rw miss (append_where_lem m g p os a w.1 h (omega arith))
]

pub enumerate_lem :
    (m : Allocator) (g : Grants m) (p : Obj → Bool) (os : List Obj) (a : PtpArray)
    → AreWords os
    → IsHandles a
    → a.num_ele + length os ≤ max_elements
    → Extends a (select p os) (enumerate m p os a).0
unfolding enumerate append_where select
enumerate_lem m g p [] a w h few = Extends-refl a h
enumerate_lem m g p (o ∷ os) a w h few = append_where_lem m g p (o ∷ os) a w h few

-- A new array of handles is empty.
pub record IsFresh (a : PtpArray) : Type 0 where
  pub handles : IsHandles a
  pub empty : elements a ≡ []
  pub none_in : a.num_ele ≡ 0

pub fresh_handles-IsFresh : (m : Allocator) → Grants m → IsFresh (fresh_handles m)
unfolding elements is_scalar
fresh_handles-IsFresh m g =
    let a : PtpArray = record { type = uint32; arr_size = 0; num_ele = 0; array_entry = none } in
    let p = init-Grown m a g (record { room = refl; fits = omega arith }) refl refl in
    record {
      handles = record { valid = p.valid; type_eq = p.type; bounded = p.bounded };
      empty = p.kept;
      none_in = p.num_ele;
    }

pub Extends-IsFresh : {a b : PtpArray} {xs : List ℕ} → IsFresh a → Extends a xs b → elements b ≡ xs
Extends-IsFresh {a} {b} {xs} f p = p.elements_eq ∙ ap (λ l. l ++ xs) f.empty

-- The assumptions of the listings: memory is granted, handles are words, and the array has room in
-- its bounds for every object of the store.
module _ (m : Allocator) (g : Grants m) (s : Store) (words : AreWords s.obj_list) where
  -- The three listings, each by the test of its loop.
  pub get_objects_from_store-select :
      (a : PtpArray) (fmt h_parent : ℕ)
      → IsHandles a
      → a.num_ele + length s.obj_list ≤ max_elements
      → Extends a
          (select (has_format fmt) s.obj_list)
          (get_objects_from_store m s Code.handle_all fmt a).0
        × Extends a
            (select (listed_format fmt) s.obj_list)
            (get_objects_from_store_by_format m s fmt a).0
        × Extends a
            (select (is_child_with_format h_parent fmt) s.obj_list)
            (get_child_handles_with_same_format m s h_parent fmt a).0
  unfolding get_objects_from_store get_objects_from_store_by_format
      get_child_handles_with_same_format
  get_objects_from_store-select a fmt h_parent h few = (
    enumerate_lem m g (has_format fmt) s.obj_list a words h few,
    enumerate_lem m g (listed_format fmt) s.obj_list a words h few,
    enumerate_lem m g (is_child_with_format h_parent fmt) s.obj_list a words h few,
  )

  children_of_lem :
      (h_parent : ℕ) (a : PtpArray) (o : Option Obj)
      → IsHandles a
      → a.num_ele + length s.obj_list ≤ max_elements
      → Extends a
          (if is_some o then select (is_child_of h_parent) s.obj_list else [])
          (children_of m s h_parent a o).0
  unfolding children_of
  children_of_lem h_parent a none h few = Extends-refl a h
  children_of_lem h_parent a (some o) h few =
      enumerate_lem m g (is_child_of h_parent) s.obj_list a words h few

  -- In a store of at most 2^26 objects, none with the handle for all, the children of an object are
  -- collected in the order of the store; a handle that no object has, that of the root among them,
  -- has none.
  pub collect_children-select :
      (handle : ℕ)
      → length s.obj_list ≤ max_elements
      → elements (collect_children m s handle) ≡ (
          if is_some (get_object_from_store s handle)
          then select (is_child_of handle) s.obj_list
          else [])
  unfolding collect_children get_child_handles
  collect_children-select handle few =
      let fresh = fresh_handles-IsFresh m g in
      let p =
        children_of_lem handle (fresh_handles m) (get_object_from_store s handle) fresh.handles
          (omega (arith, fresh.none_in)) in
      Extends-IsFresh fresh p

  -- The children with a format, as the listing by depth collects them.
  pub children_with_format_lem :
      (handle fmt : ℕ)
      → length s.obj_list ≤ max_elements
      → elements (get_child_handles_with_same_format m s handle fmt (fresh_handles m)).0
        ≡ select (is_child_with_format handle fmt) s.obj_list
  children_with_format_lem handle fmt few =
      let fresh = fresh_handles-IsFresh m g in
      let (_, _, p) =
        get_objects_from_store-select (fresh_handles m) fmt handle fresh.handles
          (omega (arith, fresh.none_in)) in
      Extends-IsFresh fresh p
