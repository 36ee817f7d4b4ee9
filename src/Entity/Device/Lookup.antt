-- ===== src/Entity/Device/Lookup.antt =====
-- `_device_get_object_with_handle`, `_device_get_store_containing_obj` and `_device_get_store_ids` of
-- src/entity/mtp_device.c.
use cmtp_responder.Base.{
  ℕ, ◌+◌, ◌^◌, ◌≤◌, ◌<◌, ◌≡◌, refl, sym, Option, none, some, List, [], ◌∷◌, ◌++◌, arith, length,
  append-nil, Bool-cases, inl, inr, if◌then◌else◌, length-append,
}
use cmtp_responder.Property.PtpArray.{PtpArray, Allocator, Grants}
use cmtp_responder.Property.PtpArray.Append.{max_elements}
use cmtp_responder.Entity.Object.{Obj}
use cmtp_responder.Entity.Object.References.{
  IsHandles, Extends, Extends-refl, Extends-trans, Extends-one,
}
use cmtp_responder.Entity.Store.{Store, get_object_from_store}
use cmtp_responder.Entity.Device.{
  Device, append_ids, get_store_ids, object_in, or_next, get_object_with_handle, has_object,
  containing, get_store_containing_obj,
}

-- The object of a store that may not be there.
abbrev pub object_of : ℕ → Option Store → Option Obj
object_of h none = none
object_of h (some s) = get_object_from_store s h

object_lem :
    (h : ℕ) (s : Store) (q : Option Obj) (rest : Option Store) (later : Option Obj)
    → get_object_from_store s h ≡ q
    → later ≡ object_of h rest
    → or_next q later ≡ object_of h (if has_object q then some s else rest)
unfolding or_next has_object
object_lem h s none rest later found same = same
object_lem h s (some o) rest later found same = sym found

containing_lem :
    (h : ℕ) (ss : List Store)
    → object_in (λ s. get_object_from_store s h) ss ≡ object_of h (containing h ss)
unfolding object_in containing
containing_lem h [] = refl
containing_lem h (s ∷ ss) =
    object_lem h s (get_object_from_store s h) (containing h ss) _ refl (containing_lem h ss)

-- The object that the device finds for a handle is the one that the store which it names as
-- containing the handle finds; there is none where it names no store.
pub get_object_with_handle-get_store_containing_obj :
    (d : Device) (h : ℕ) → get_object_with_handle d h ≡ object_of h (get_store_containing_obj d h)
unfolding get_object_with_handle get_store_containing_obj
get_object_with_handle-get_store_containing_obj d h = containing_lem h d.store_list

-- The ids of the stores that are not hidden, the last store's first.
unfoldable pub visible_ids : List Store → List ℕ
visible_ids [] = []
visible_ids (s ∷ ss) = visible_ids ss ++ (if s.is_hidden then [] else s.store_id ∷ [])

abbrev pub IdsAreWords : List Store → Type 0
IdsAreWords [] = Unit
IdsAreWords (s ∷ ss) = (s.store_id < 2 ^ 32) × IdsAreWords ss

length-visible_ids : (ss : List Store) → length (visible_ids ss) ≤ length ss
unfolding visible_ids
length-visible_ids [] = omega arith
length-visible_ids (s ∷ ss) = elim (Bool-cases s.is_hidden) [
  | inl hidden ↦ rw (hidden, append-nil (visible_ids ss)) (omega (arith, length-visible_ids ss))
  | inr shown ↦
      rw shown
        (omega (arith, length-append (visible_ids ss) (s.store_id ∷ []), length-visible_ids ss))
]

append_ids_lem :
    (m : Allocator) (g : Grants m) (ss : List Store) (a : PtpArray)
    → IdsAreWords ss
    → IsHandles a
    → a.num_ele + length ss ≤ max_elements
    → Extends a (visible_ids ss) (append_ids m ss a)
unfolding append_ids visible_ids
append_ids_lem m g [] a words p few = Extends-refl a p
append_ids_lem m g (s ∷ ss) a words p few =
    let later = append_ids_lem m g ss a words.1 p (omega arith) in
    elim (Bool-cases s.is_hidden) [
      | inl hidden ↦ rw (hidden, append-nil (visible_ids ss)) later
      | inr shown ↦ rw shown (
          Extends-trans later (
            Extends-one m (append_ids m ss a) s.store_id g later.handles words.0
              (omega (arith, later.count, length-visible_ids ss))))
    ]

-- The listing of the stores appends the ids of those that are not hidden, from the last store to
-- the first, and returns the count.
pub get_store_ids-visible_ids :
    (m : Allocator) (g : Grants m) (d : Device) (a : PtpArray)
    → IdsAreWords d.store_list
    → IsHandles a
    → a.num_ele + length d.store_list ≤ max_elements
    → Extends a (visible_ids d.store_list) (get_store_ids m d a).0
      × ((get_store_ids m d a).1 ≡ a.num_ele + length (visible_ids d.store_list))
unfolding get_store_ids
get_store_ids-visible_ids m g d a words p few =
    let q = append_ids_lem m g d.store_list a words p few in (q, q.count)
