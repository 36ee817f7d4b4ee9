-- ===== src/Entity/Store/Chosen.antt =====
-- Which objects the listings of a store (src/entity/mtp_store.c) choose.
use cmtp_responder.Base.{
  ℕ, ◌+◌, ◌≤◌, ◌≡◌, ◌≢◌, ◌⊎◌, inl, inr, Bool, true, false, ◌↔◌, List, [], ◌∷◌, length, Bool-cases,
  arith,
}
use cmtp_responder.Property.PtpArray.{PtpArray, Allocator, Grants}
use cmtp_responder.Property.PtpArray.Append.{max_elements}
use cmtp_responder.Entity.Object.{Obj}
use cmtp_responder.Entity.Object.References.{IsHandles, Extends}
use cmtp_responder.Entity.Store.{
  Store, has_format, listed_format, is_child_with_format, get_objects_from_store,
  get_objects_from_store_by_format, get_child_handles_with_same_format,
}
use cmtp_responder.Entity.Store.Listing.{select, AreWords, get_objects_from_store-select}

-- Any format, written as 0 or 0xFFFFFFFF, or the object's own.
abbrev pub HasFormat : ℕ → Obj → Type 0
HasFormat fmt o = (o.obj_fmt ≡ fmt) ⊎ ((fmt ≡ 0xFFFFFFFF) ⊎ (fmt ≡ 0))

-- Under 0 every object, under 0xFFFFFFFF every one but the folders (0x3001), else those of the format.
abbrev pub IsListed : ℕ → Obj → Type 0
IsListed fmt o = (fmt ≡ 0) ⊎ ((o.obj_fmt ≡ fmt) ⊎ ((fmt ≡ 0xFFFFFFFF) × (o.obj_fmt ≢ 0x3001)))

-- Below the parent, of the format, or of any under 0.
abbrev pub IsChild : ℕ → ℕ → Obj → Type 0
IsChild h_parent fmt o = (o.h_parent ≡ h_parent) × ((o.obj_fmt ≡ fmt) ⊎ (fmt ≡ 0))

-- The handles of exactly the objects with the property, in their order.
pub data Picks (P : Obj → Type 0) : List Obj → List ℕ → Type 0 where
  end : Picks P [] []
  pick :
      {o : Obj} {os : List Obj} {hs : List ℕ}
      → P o
      → Picks P os hs
      → Picks P (o ∷ os) (o.obj_handle ∷ hs)
  pass : {o : Obj} {os : List Obj} {hs : List ℕ} → ¬ P o → Picks P os hs → Picks P (o ∷ os) hs

not_both : (b : Bool) → b ≡ false → b ≡ true → ⊥
not_both b f t = cc

select-Picks :
    (P : Obj → Type 0) (p : Obj → Bool) (os : List Obj)
    → ((o : Obj) → (p o ≡ true) ↔ P o)
    → Picks P os (select p os)
unfolding select
select-Picks P p [] tests = end
select-Picks P p (o ∷ os) tests = elim (Bool-cases (p o)) [
  | inl hit ↦ rw hit (pick ((tests o).0 hit) (select-Picks P p os tests))
  | inr miss ↦
      rw miss (pass (λ has. not_both (p o) miss ((tests o).1 has)) (select-Picks P p os tests))
]

has_format_iff : (fmt : ℕ) (o : Obj) → (has_format fmt o ≡ true) ↔ HasFormat fmt o
has_format_iff fmt o = (λ h. ground arith, λ h. ground arith)

listed_format_iff : (fmt : ℕ) (o : Obj) → (listed_format fmt o ≡ true) ↔ IsListed fmt o
listed_format_iff fmt o = (λ h. ground arith, λ h. ground arith)

is_child_with_format_iff :
    (h_parent fmt : ℕ) (o : Obj)
    → (is_child_with_format h_parent fmt o ≡ true) ↔ IsChild h_parent fmt o
is_child_with_format_iff h_parent fmt o = (λ h. ground arith, λ h. ground arith)

-- What a listing appends to the array: the handles of exactly the objects with the property, in the
-- order of the store.
abbrev pub Appends : (Obj → Type 0) → Store → PtpArray → PtpArray → Type 0
Appends P s a b = (hs : List ℕ) × Picks P s.obj_list hs × Extends a hs b

-- Where memory is granted, no handle of the store is the one for all and the array of handles has room
-- for every object within 2^26 elements, the three listings append, in the order of the store, the
-- handles of exactly the objects that have the format, that are listed under the format, and that are
-- children with the format. The format 0 is any; 0xFFFFFFFF is any for the first listing, any but that of
-- folders for the second, and none but itself for the third.
pub get_objects_from_store-Picks :
    (m : Allocator)
    → Grants m
    → (s : Store) → AreWords s.obj_list
    → (a : PtpArray) (fmt h_parent : ℕ) → IsHandles a
    → a.num_ele + length s.obj_list ≤ max_elements
    → Appends (HasFormat fmt) s a (get_objects_from_store m s 0xFFFFFFFF fmt a).0
      × Appends (IsListed fmt) s a (get_objects_from_store_by_format m s fmt a).0
      × Appends (IsChild h_parent fmt) s a (get_child_handles_with_same_format m s h_parent fmt a).0
get_objects_from_store-Picks m g s words a fmt h_parent h few =
    let (of_format, listed, children) =
      get_objects_from_store-select m g s words a fmt h_parent h few in
    (
      (
        select (has_format fmt) s.obj_list,
        select-Picks (HasFormat fmt) (has_format fmt) s.obj_list (has_format_iff fmt),
        of_format,
      ),
      (
        select (listed_format fmt) s.obj_list,
        select-Picks (IsListed fmt) (listed_format fmt) s.obj_list (listed_format_iff fmt),
        listed,
      ),
      (
        select (is_child_with_format h_parent fmt) s.obj_list,
        select-Picks (IsChild h_parent fmt) (is_child_with_format h_parent fmt) s.obj_list
            (is_child_with_format_iff h_parent fmt),
        children,
      ),
    )
