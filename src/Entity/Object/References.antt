-- ===== src/Entity/Object/References.antt =====
-- The references of an object (src/entity/mtp_object.c): its children's handles.
use cmtp_responder.Base.{
  ℕ, ◌+◌, ◌^◌, ◌≤◌, ◌<◌, ◌≡◌, refl, ◌∙◌, ap, true, List, false, [], ◌∷◌, ◌++◌, arith, is_some, ◌==◌,
  Option-cases, inl, inr, if◌then◌else◌, ◌-◌, sym, length, length-append, append-nil, append_assoc,
}
use cmtp_responder.Property.PtpArray.{
  PtpArray, Allocator, Grants, uint32, cast, is_scalar, elements, IsValid, append_ele_ptparray,
  deinit_ptparray, find_ele_ptparray,
}
use cmtp_responder.Property.PtpArray.Grow.{max_room}
use cmtp_responder.Property.PtpArray.Append.{max_elements, append_ele_ptparray_lem}
use cmtp_responder.Property.PtpArray.Find.{index_of, find_ele_ptparray-index_of}
use cmtp_responder.Property.PtpArray.Remove.{erase, rem_elem_ptparray-erase}
use cmtp_responder.Entity.Code
use cmtp_responder.Entity.Object.{
  Obj, add_missing, add_reference_child_array, remove_reference_child_array,
}

-- A valid array of handles within the bounds of the size computations.
pub record IsHandles (a : PtpArray) : Type 0 where
  pub valid : IsValid a
  pub type_eq : a.type ≡ uint32
  pub bounded : a.arr_size ≤ max_room

-- The handle behind the others, if it is not among them.
unfoldable pub insert_once : ℕ → List ℕ → List ℕ
insert_once h xs = if is_some (index_of h xs) then xs else xs ++ h ∷ []

pub scalar : (a : PtpArray) → IsHandles a → is_scalar a.type ≡ true
unfolding is_scalar
scalar a p = ap is_scalar p.type_eq

cast_small : (a : PtpArray) (h : ℕ) → IsHandles a → h < 2 ^ 32 → cast a.type h ≡ h
unfolding cast
cast_small a h p small = ap (λ t. cast t h) p.type_eq ∙ omega arith

find_lem :
    (a : PtpArray) (h : ℕ)
    → IsHandles a
    → h < 2 ^ 32
    → find_ele_ptparray a h ≡ index_of h (elements a)
find_lem a h p small =
    find_ele_ptparray-index_of a h p.valid (scalar a p)
    ∙ ap (λ v. index_of v (elements a)) (cast_small a h p small)

-- Appending a handle to a bounded array of handles.
pub append-IsHandles :
    (m : Allocator) (a : PtpArray) (h : ℕ)
    → Grants m
    → IsHandles a
    → h < 2 ^ 32
    → a.num_ele < max_elements
    → (b : PtpArray) × (append_ele_ptparray m a h ≡ (b, true))
      × IsHandles b
      × (b.num_ele ≡ a.num_ele + 1)
      × (elements b ≡ elements a ++ h ∷ [])
append-IsHandles m a h g p small few =
    let (b, eq, q) = append_ele_ptparray_lem m g a h p.valid (scalar a p) p.bounded few in
    (
      b,
      eq,
      record { valid = q.valid; type_eq = q.type ∙ p.type_eq; bounded = q.bounded },
      q.num_ele,
      q.elements_eq ∙ ap (λ v. elements a ++ v ∷ []) (cast_small a h p small),
    )

-- `b` is the array of handles `a` with `xs` behind its own.
pub record Extends (a : PtpArray) (xs : List ℕ) (b : PtpArray) : Type 0 where
  pub handles : IsHandles b
  pub count : b.num_ele ≡ a.num_ele + length xs
  pub elements_eq : elements b ≡ elements a ++ xs

pub Extends-refl : (a : PtpArray) → IsHandles a → Extends a [] a
Extends-refl a p = record {
  handles = p;
  count = omega arith;
  elements_eq = sym (append-nil (elements a));
}

pub Extends-trans :
    {a b c : PtpArray} {xs ys : List ℕ} → Extends a xs b → Extends b ys c → Extends a (xs ++ ys) c
Extends-trans {a} {b} {c} {xs} {ys} p q = record {
  handles = q.handles;
  count = omega (arith, p.count, q.count, length-append xs ys);
  elements_eq = q.elements_eq ∙ ap (λ l. l ++ ys) p.elements_eq ∙ append_assoc (elements a) xs ys;
}

pub Extends-one :
    (m : Allocator) (a : PtpArray) (h : ℕ)
    → Grants m
    → IsHandles a
    → h < 2 ^ 32
    → a.num_ele < max_elements
    → Extends a (h ∷ []) (append_ele_ptparray m a h).0
Extends-one m a h g p small few =
    let (b, eq, q, count, all) = append-IsHandles m a h g p small few in
    rw eq (record { handles = q; count = count; elements_eq = all })

-- Where memory is granted, for a handle of 32 bits and an array of handles with fewer than 2^26
-- elements: adding a reference succeeds, and the elements afterwards are the same, in the same order,
-- if the handle is among them, once or more often, and else the same with the handle at the end. The
-- array stays one of handles; nothing else of the object changes.
pub add_reference_child_array-insert_once :
    (m : Allocator) (obj : Obj) (h : ℕ)
    → Grants m
    → IsHandles obj.child_array
    → h < 2 ^ 32
    → obj.child_array.num_ele < max_elements
    → (a : PtpArray) × (add_reference_child_array m obj h ≡ (record obj { child_array = a }, true))
      × IsHandles a
      × (elements a ≡ insert_once h (elements obj.child_array))
unfolding add_reference_child_array add_missing insert_once
add_reference_child_array-insert_once m obj h g p small few =
    let found = find_lem obj.child_array h p small in
    elim (Option-cases (index_of h (elements obj.child_array))) [
      | inl new ↦
          let (b, eq, q, count, all) = append-IsHandles m obj.child_array h g p small few in
          (b, rw (found ∙ new, eq) refl, q, rw new all)
      | inr (i, there) ↦ (obj.child_array, rw (found ∙ there) refl, p, rw there refl)
    ]

none_left :
    (obj : Obj) → elements (remove_reference_child_array obj Code.handle_all).0.child_array ≡ []
unfolding remove_reference_child_array elements deinit_ptparray
none_left obj = refl

-- Removing a reference drops its first occurrence, and says whether there was one; removing the
-- handle that stands for all leaves none.
pub remove_reference_child_array-erase :
    (obj : Obj) (h : ℕ)
    → IsHandles obj.child_array
    → h < 2 ^ 32 - 1
    → (elements (remove_reference_child_array obj h).0.child_array
        ≡ erase h (elements obj.child_array))
      × ((remove_reference_child_array obj h).1 ≡ is_some (index_of h (elements obj.child_array)))
      × (elements (remove_reference_child_array obj Code.handle_all).0.child_array ≡ [])
unfolding remove_reference_child_array
remove_reference_child_array-erase obj h p small =
    let kept = cast_small obj.child_array h p (omega arith) in
    let (valid, left, done) =
      rem_elem_ptparray-erase obj.child_array h p.valid (scalar obj.child_array p) in
    let not_all : (h == 0xFFFFFFFF) ≡ false = ground arith in
    rw not_all (
      left ∙ ap (λ v. erase v (elements obj.child_array)) kept,
      done ∙ ap (λ v. is_some (index_of v (elements obj.child_array))) kept,
      none_left obj,
    )
