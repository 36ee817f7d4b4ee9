-- ===== src/Entity/Store/Insert.antt =====
-- `_entity_add_object_to_store` of src/entity/mtp_store.c: what the searches find afterwards.
use mathlib.Core.Option
use cmtp_responder.Base.{
  ℕ, ◌≡◌, refl, ◌∙◌, ap, sym, false, none, some, List, [], ◌∷◌, ◌++◌, arith, Bool-cases, inl, inr,
  if◌then◌else◌, ◌==◌, eq_of_==, eq-==,
}
use cmtp_responder.Property.PtpArray.{Allocator}
use cmtp_responder.Entity.Code
use cmtp_responder.Entity.Object.{Obj, add_reference_child_array}
use cmtp_responder.Entity.Store.{
  Store, find_object, get_object_from_store, update_object, add_object_to_store,
}
use cmtp_responder.Entity.Store.Find.{find_object-append, find_hit, find_miss}

ne-== : (a b : ℕ) → (a ≡ b → ⊥) → (a == b) ≡ false
ne-== a b h = ground arith

-- A change that keeps the handle.
abbrev Keeps : (Obj → Obj) → Type 0
Keeps f = (o : Obj) → (f o).obj_handle ≡ o.obj_handle

find_object-update_same :
    (f : Obj → Obj) (h : ℕ) (os : List Obj)
    → Keeps f
    → find_object h (update_object f h os) ≡ Option.map f (find_object h os)
unfolding find_object update_object
find_object-update_same f h [] keeps = refl
find_object-update_same f h (o ∷ os) keeps = elim (Bool-cases (o.obj_handle == h)) [
  | inl hit ↦ rw (hit, keeps o, hit) refl
  | inr miss ↦ rw (miss, miss) (find_object-update_same f h os keeps)
]

find_object-update_other :
    (f : Obj → Obj) (h k : ℕ) (os : List Obj)
    → Keeps f
    → (k ≡ h → ⊥)
    → find_object k (update_object f h os) ≡ find_object k os
unfolding find_object update_object
find_object-update_other f h k [] keeps other = refl
find_object-update_other f h k (o ∷ os) keeps other = elim (Bool-cases (o.obj_handle == h)) [
  | inl hit ↦
      let miss : (o.obj_handle == k) ≡ false =
        ne-== o.obj_handle k (λ e. other (sym e ∙ eq_of_== o.obj_handle h hit)) in
      rw (hit, keeps o, miss) refl
  | inr miss ↦ rw miss (
      ap (λ r. if o.obj_handle == k then some o else r)
        (find_object-update_other f h k os keeps other))
]

-- At another handle the new object is not found.
find_other-append :
    (k : ℕ) (obj : Obj) (os : List Obj)
    → (k ≡ obj.obj_handle → ⊥)
    → find_object k (os ++ obj ∷ []) ≡ find_object k os
find_other-append k obj [] other = find_miss k obj [] (ne-== obj.obj_handle k (λ e. other (sym e)))
find_other-append k obj (p ∷ os) other = elim (Bool-cases (p.obj_handle == k)) [
  | inl hit ↦ find_hit k p (os ++ obj ∷ []) hit ∙ sym (find_hit k p os hit)
  | inr miss ↦
      find_miss k p (os ++ obj ∷ []) miss
      ∙ find_other-append k obj os other
      ∙ sym (find_miss k p os miss)
]

-- The change that the parent of a new object undergoes.
abbrev pub refer : Allocator → ℕ → Obj → Obj
refer m handle o = (add_reference_child_array m o handle).0

refer-Keeps : (m : Allocator) (handle : ℕ) → Keeps (refer m handle)
unfolding add_reference_child_array
refer-Keeps m handle o = refl

-- What a search finds after an object with a new handle, other than its parent's, was added: the
-- object itself at its handle; at the parent's, unless that is the root, the parent with a reference
-- to the object; at any other what was there.
pub record Added (m : Allocator) (s : Store) (obj : Obj) (s' : Store) : Type 0 where
  pub itself : get_object_from_store s' obj.obj_handle ≡ some obj
  pub parent :
      (obj.h_parent ≡ Code.handle_root → ⊥)
      → get_object_from_store s' obj.h_parent
        ≡ Option.map (refer m obj.obj_handle) (get_object_from_store s obj.h_parent)
  pub others :
      (k : ℕ)
      → (k ≡ obj.obj_handle → ⊥)
      → (k ≡ obj.h_parent → ⊥)
      → get_object_from_store s' k ≡ get_object_from_store s k

-- After an object with a new handle, other than its parent's, is added, a search finds it at its
-- handle; at its parent's, unless that is the root, the parent with a reference to it; and at any
-- other handle what was found before.
pub add_object_to_store-Added :
    (m : Allocator) (s : Store) (obj : Obj)
    → get_object_from_store s obj.obj_handle ≡ none
    → (obj.obj_handle ≡ obj.h_parent → ⊥)
    → Added m s obj (add_object_to_store m s obj)
unfolding add_object_to_store get_object_from_store
add_object_to_store-Added m s obj new proper =
    let f = refer m obj.obj_handle in
    let keeps = refer-Keeps m obj.obj_handle in
    let objs = s.obj_list ++ obj ∷ [] in
    let there : find_object obj.obj_handle objs ≡ some obj =
      find_object-append obj.obj_handle s.obj_list (obj ∷ []) new
      ∙ find_hit obj.obj_handle obj [] (eq-== obj.obj_handle obj.obj_handle refl) in
    let old = find_other-append obj.h_parent obj s.obj_list (λ e. proper (sym e)) in
    elim (Bool-cases (obj.h_parent == Code.handle_root)) [
      | inl root ↦ rw root (record {
        itself = there;
        parent = λ below. absurd (below (eq_of_== obj.h_parent 0 root));
        others = λ k a b. find_other-append k obj s.obj_list a;
      })
      | inr below ↦ rw below (record {
        itself = find_object-update_other f obj.h_parent obj.obj_handle objs keeps proper ∙ there;
        parent = λ _. find_object-update_same f obj.h_parent objs keeps ∙ ap (Option.map f) old;
        others = λ k a b.
            find_object-update_other f obj.h_parent k objs keeps b
            ∙ find_other-append k obj s.obj_list a;
      })
    ]
