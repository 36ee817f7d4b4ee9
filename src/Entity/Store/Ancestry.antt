-- ===== src/Entity/Store/Ancestry.antt =====
-- `_entity_check_if_B_parent_of_A` of src/entity/mtp_store.c: what its search over the children
-- finds.
use mathlib.Core.Option
use cmtp_responder.Base.{
  ℕ, suc, ◌+◌, ◌≤◌, ◌≡◌, refl, ◌∙◌, ap, sym, Bool, true, false, Option, none, some, List, [], ◌∷◌,
  arith, length, Bool-cases, inl, inr, ◌⊎◌, if◌then◌else◌, ◌==◌, is_some, eq_of_==, eq-==, ne_of_==,
}
use cmtp_responder.Property.PtpArray.{Allocator, Grants, elements}
use cmtp_responder.Property.PtpArray.Append.{max_elements}
use cmtp_responder.Property.PtpArray.Find.{index_of}
use cmtp_responder.Entity.Code
use cmtp_responder.Entity.Object.{Obj}
use cmtp_responder.Entity.Store.{
  Store, get_object_from_store, is_child_of, collect_children, any_parent, look_below, or_rest,
  check_parent,
}
use cmtp_responder.Entity.Store.Find.{All, find_object-All}
use cmtp_responder.Entity.Store.Listing.{select, AreWords, collect_children-select}

-- Only folders have children: an object is a folder, or none of the store has it as its parent.
abbrev pub IsLeaf : Store → Obj → Type 0
IsLeaf s o =
    (o.obj_fmt ≡ Code.fmt_association) ⊎ (select (is_child_of o.obj_handle) s.obj_list ≡ [])

look_below_lem :
    (q : Option Obj) (deeper rest : Option Bool)
    → ((o : Obj) → q ≡ some o → (o.obj_fmt == Code.fmt_association) ≡ false → deeper ≡ some false)
    → look_below q deeper rest ≡ rest
unfolding look_below or_rest
look_below_lem none deeper rest leaf = refl
look_below_lem (some o) deeper rest leaf = elim (Bool-cases (o.obj_fmt == Code.fmt_association)) [
  | inl folder ↦ rw folder refl
  | inr file ↦ rw (file, leaf o refl file) refl
]

is_some-map-suc : (o : Option ℕ) → is_some (Option.map suc o) ≡ is_some o
is_some-map-suc none = refl
is_some-map-suc (some n) = refl

any_parent_lem :
    (below : ℕ → Option Bool) (s : Store) (a : ℕ) (hs : List ℕ)
    → ((h : ℕ) (o : Obj)
        → get_object_from_store s h ≡ some o
        → (o.obj_fmt == Code.fmt_association) ≡ false
        → below h ≡ some false)
    → any_parent below s a hs ≡ some (is_some (index_of a hs))
unfolding any_parent index_of
any_parent_lem below s a [] leaves = refl
any_parent_lem below s a (h ∷ hs) leaves =
    let rest = any_parent_lem below s a hs leaves in
    elim (Bool-cases (a == h)) [
      | inl hit ↦ rw (hit, eq-== h a (sym (eq_of_== a h hit))) refl
      | inr miss ↦
          let other : (h == a) ≡ false = ground (arith, miss) in
          rw (miss, other, is_some-map-suc (index_of a hs))
            (look_below_lem (get_object_from_store s h) (below h) _ (leaves h) ∙ rest)
    ]

kept_empty : (b : Bool) {xs : List ℕ} → xs ≡ [] → (if b then xs else []) ≡ []
kept_empty true e = e
kept_empty false e = refl

leaf_below :
    (m : Allocator) (g : Grants m) (s : Store) (words : AreWords s.obj_list)
    → All (IsLeaf s) s.obj_list
    → length s.obj_list ≤ max_elements
    → (fuel a h : ℕ) (o : Obj) → get_object_from_store s h ≡ some o
    → (o.obj_fmt == Code.fmt_association) ≡ false
    → check_parent m s (suc fuel) a h ≡ some false
unfolding check_parent any_parent get_object_from_store
leaf_below m g s words leaves few fuel a h o found file =
    let (same, leaf) = find_object-All (IsLeaf s) h o s.obj_list leaves found in
    let kids : select (is_child_of h) s.obj_list ≡ [] = elim leaf [
      | inl folder ↦ absurd (ne_of_== o.obj_fmt Code.fmt_association file folder)
      | inr childless ↦ ap (λ (k : ℕ). select (is_child_of k) s.obj_list) (sym same) ∙ childless
    ] in
    ap (any_parent (check_parent m s fuel a) s a)
      (collect_children-select m g s words h few ∙ kept_empty _ kids)

-- In a store of at most 2^26 objects, none with the handle for all, where only folders have
-- children, the search answers after two levels, and says yes exactly when
-- `a` is a child of `b`: it never looks below a folder among the children.
pub check_parent-children :
    (m : Allocator) (g : Grants m) (s : Store) (words : AreWords s.obj_list)
    → All (IsLeaf s) s.obj_list
    → length s.obj_list ≤ max_elements
    → (fuel a b : ℕ)
    → check_parent m s (2 + fuel) a b
      ≡ some (is_some (index_of a (elements (collect_children m s b))))
unfolding check_parent
check_parent-children m g s words leaves few fuel a b =
    let twice : 2 + fuel ≡ suc (suc fuel) = omega arith in
    rw twice (
      any_parent_lem (check_parent m s (suc fuel) a) s a (elements (collect_children m s b))
        (leaf_below m g s words leaves few fuel a))
