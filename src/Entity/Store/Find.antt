-- ===== src/Entity/Store/Find.antt =====
-- `_entity_get_object_from_store` of src/entity/mtp_store.c: the search by handle.
use mathlib.Core.Option.{some-injective, some-ne-none}
use mathlib.Core.Path.{subst}
use cmtp_responder.Base.{
  ℕ, ◌≡◌, refl, ◌∙◌, sym, true, false, none, some, List, [], ◌∷◌, ◌++◌, Bool-cases, inl, inr, ◌==◌,
  eq_of_==,
}
use cmtp_responder.Entity.Object.{Obj}
use cmtp_responder.Entity.Store.{find_object}

-- Every object of a list has the property.
abbrev pub All : (Obj → Type 0) → List Obj → Type 0
All P [] = Unit
All P (o ∷ os) = P o × All P os

pub find_hit :
    (h : ℕ) (o : Obj) (os : List Obj) → (o.obj_handle == h) ≡ true → find_object h (o ∷ os) ≡ some o
unfolding find_object
find_hit h o os e = rw e refl

pub find_miss :
    (h : ℕ) (o : Obj) (os : List Obj)
    → (o.obj_handle == h) ≡ false
    → find_object h (o ∷ os) ≡ find_object h os
unfolding find_object
find_miss h o os e = rw e refl

not_found : (h : ℕ) (o : Obj) → find_object h [] ≡ some o → ⊥
unfolding find_object
not_found h o e = cc

-- What is found has the handle, and what every object has.
pub find_object-All :
    (P : Obj → Type 0) (h : ℕ) (o : Obj) (os : List Obj)
    → All P os
    → find_object h os ≡ some o
    → (o.obj_handle ≡ h) × P o
find_object-All P h o [] all found = absurd (not_found h o found)
find_object-All P h o (p ∷ os) all found = elim (Bool-cases (p.obj_handle == h)) [
  | inl hit ↦
      let same = some-injective p o (sym (find_hit h p os hit) ∙ found) in
      subst (λ x. (x.obj_handle ≡ h) × P x) same (eq_of_== p.obj_handle h hit, all.0)
  | inr miss ↦ find_object-All P h o os all.1 (sym (find_miss h p os miss) ∙ found)
]

-- A search passes over objects with other handles, and ends at the first with the handle.
pub find_object-append :
    (h : ℕ) (os ps : List Obj)
    → find_object h os ≡ none
    → find_object h (os ++ ps) ≡ find_object h ps
find_object-append h [] ps none_there = refl
find_object-append h (o ∷ os) ps none_there = elim (Bool-cases (o.obj_handle == h)) [
  | inl hit ↦ absurd (some-ne-none o (sym (find_hit h o os hit) ∙ none_there))
  | inr miss ↦
      find_miss h o (os ++ ps) miss
      ∙ find_object-append h os ps (sym (find_miss h o os miss) ∙ none_there)
]
