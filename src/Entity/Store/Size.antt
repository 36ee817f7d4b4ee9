-- ===== src/Entity/Store/Size.antt =====
-- `_entity_get_object_tree_size` of src/entity/mtp_store.c against the sum over the tree.
use cmtp_responder.Base.{
  ℕ, zero, suc, ◌+◌, ◌%◌, ◌^◌, ◌≤◌, ◌<◌, ◌≡◌, refl, ◌∙◌, ap, not, Option, none, some, List, [], ◌∷◌,
  arith, length, Bool-cases, inl, inr, if◌then◌else◌, ◌==◌, is_some, eq_of_==,
}
use cmtp_responder.Property.PtpArray.{Allocator, Grants, elements}
use cmtp_responder.Property.PtpArray.Append.{max_elements}
use cmtp_responder.Entity.Code
use cmtp_responder.Entity.Object.{Obj}
use cmtp_responder.Entity.Store.{
  Store, find_object, get_object_from_store, is_child_of, collect_children, after_size, add_sizes,
  tree_size,
}
use cmtp_responder.Entity.Store.Find.{All, find_object-All}
use cmtp_responder.Entity.Store.Listing.{select, AreWords, collect_children-select}

-- The bytes of the files of a tree, by the walk to a depth: no wrap-around.
sum_over : (ℕ → ℕ) → List ℕ → ℕ
sum_over f [] = 0
sum_over f (h ∷ hs) = f h + sum_over f hs

total_of : (Obj → ℕ) → Option Obj → ℕ
total_of f none = 0
total_of f (some o) = f o

unfoldable pub total : Store → ℕ → Obj → ℕ
unfolding sum_over total_of
total s zero o = 0
total s (suc depth) o =
    if not (o.obj_fmt == Code.fmt_association)
    then o.file_size
    else sum_over (λ h. total_of (total s depth) (get_object_from_store s h))
        (select (is_child_of o.obj_handle) s.obj_list)

-- A child was added after its parent: its handle is larger. No handle exceeds the bound.
abbrev pub IsOrdered : ℕ → Obj → Type 0
IsOrdered bound o = (o.h_parent < o.obj_handle) × (o.obj_handle ≤ bound)

-- A size that a recursive call returns: the total, cut to 32 bits.
abbrev Sizes : (Option Obj → Option ℕ) → (Obj → ℕ) → Option Obj → Type 0
Sizes size_of f o = size_of o ≡ some (total_of f o % 2 ^ 32)

-- The property for every listed handle.
abbrev pub Each : (ℕ → Type 0) → List ℕ → Type 0
Each P [] = Unit
Each P (h ∷ hs) = P h × Each P hs

wrap_total :
    (t x rest : ℕ) → ((t + x % 2 ^ 32) % 2 ^ 64 + rest) % 2 ^ 32 ≡ (t + (x + rest)) % 2 ^ 32
wrap_total t x rest = omega arith

add_sizes_lem :
    (size_of : Option Obj → Option ℕ) (f : Obj → ℕ) (s : Store) (hs : List ℕ) (t : ℕ)
    → Each (λ h. Sizes size_of f (get_object_from_store s h)) hs
    → (r : ℕ) × (add_sizes size_of s hs t ≡ some r)
      × (r % 2 ^ 32 ≡ (t + sum_over (λ h. total_of f (get_object_from_store s h)) hs) % 2 ^ 32)
unfolding add_sizes after_size sum_over
add_sizes_lem size_of f s [] t sizes = (t, refl, ap (λ (k : ℕ). k % 2 ^ 32) (omega arith))
add_sizes_lem size_of f s (h ∷ hs) t sizes =
    let x = total_of f (get_object_from_store s h) in
    let (r, eq, same) = add_sizes_lem size_of f s hs ((t + x % 2 ^ 32) % 2 ^ 64) sizes.1 in
    let rest = sum_over (λ k. total_of f (get_object_from_store s k)) hs in
    (r, rw sizes.0 eq, same ∙ wrap_total t x rest)

-- The children of an object have larger handles, within the bound.
pub select-larger :
    (bound h : ℕ) (os : List Obj)
    → All (IsOrdered bound) os
    → Each (λ k. (h < k) × (k ≤ bound)) (select (is_child_of h) os)
unfolding select
select-larger bound h [] ordered = tt
select-larger bound h (o ∷ os) ordered = elim (Bool-cases (o.h_parent == h)) [
  | inl child ↦
      let same = eq_of_== o.h_parent h child in
      rw child ((omega (arith, ordered.0.0), ordered.0.1), select-larger bound h os ordered.1)
  | inr other ↦ rw other (select-larger bound h os ordered.1)
]

pub Each-map : {P Q : ℕ → Type 0} → ((h : ℕ) → P h → Q h) → (hs : List ℕ) → Each P hs → Each Q hs
Each-map f [] e = tt
Each-map f (h ∷ hs) e = (f h e.0, Each-map f hs e.1)

module _ (m : Allocator) (g : Grants m) (s : Store) (words : AreWords s.obj_list) (bound : ℕ)
    (ordered : All (IsOrdered bound) s.obj_list) (few : length s.obj_list ≤ max_elements) where
  kid_lem :
      (fuel k : ℕ) (q : Option Obj)
      → get_object_from_store s k ≡ q
      → k ≤ bound
      → bound < fuel + k
      → ((o : Obj)
          → o.obj_handle ≤ bound
          → bound < fuel + o.obj_handle
          → get_object_from_store s o.obj_handle ≡ some o
          → tree_size m s fuel (some o) ≡ some (total s fuel o % 2 ^ 32))
      → Sizes (tree_size m s fuel) (total s fuel) q
  unfolding total_of tree_size get_object_from_store
  kid_lem zero k q found low enough sized = absurd (omega arith)
  kid_lem (suc fuel) k none found low enough sized = refl
  kid_lem (suc fuel) k (some o) found low enough sized =
      let (same, _) = find_object-All (IsOrdered bound) k o s.obj_list ordered found in
      sized o (omega arith) (omega arith) (ap (λ (i : ℕ). find_object i s.obj_list) same ∙ found)

  tree_size_lem :
      (fuel : ℕ) (o : Obj)
      → o.obj_handle ≤ bound
      → bound < fuel + o.obj_handle
      → get_object_from_store s o.obj_handle ≡ some o
      → tree_size m s fuel (some o) ≡ some (total s fuel o % 2 ^ 32)
  unfolding tree_size total
  tree_size_lem zero o low enough there = absurd (omega arith)
  tree_size_lem (suc fuel) o low enough there =
      elim (Bool-cases (o.obj_fmt == Code.fmt_association)) [
        | inl folder ↦
            let kids = select (is_child_of o.obj_handle) s.obj_list in
            let listed : elements (collect_children m s o.obj_handle) ≡ kids =
              collect_children-select m g s words o.obj_handle few
              ∙ ap (λ b. if is_some b then kids else []) there in
            let each =
              Each-map
                (λ k p.
                  kid_lem fuel k (get_object_from_store s k) refl p.1 (omega (arith, p.0))
                    (tree_size_lem fuel))
                kids (select-larger bound o.obj_handle s.obj_list ordered) in
            let (r, eq, same) = add_sizes_lem (tree_size m s fuel) (total s fuel) s kids 0 each in
            rw (folder, listed, eq) (ap some (same ∙ omega arith))
        | inr file ↦ rw file refl
      ]

  -- In a store of at most 2^26 objects, none with the handle for all, where children have larger
  -- handles than their parents, up to a bound, the size of an object that a search finds is
  -- computed with fuel above the bound, and is the sum of the bytes of the files below it, cut to
  -- 32 bits.
  pub tree_size-total :
      (fuel h : ℕ) (o : Obj)
      → bound < fuel
      → get_object_from_store s h ≡ some o
      → tree_size m s fuel (some o) ≡ some (total s fuel o % 2 ^ 32)
  unfolding get_object_from_store
  tree_size-total fuel h o enough found =
      let (same, p) = find_object-All (IsOrdered bound) h o s.obj_list ordered found in
      tree_size_lem fuel o p.1 (omega arith) (ap (λ (i : ℕ). find_object i s.obj_list) same ∙ found)
