-- ===== src/Entity/Store/Delete/Terminates.antt =====
-- The recursion of `_entity_remove_object_mtp_store` of src/entity/mtp_store.c over a tree.
use mathlib.Core.Path.{subst}
use cmtp_responder.Base.{
  ℕ, zero, suc, ◌+◌, ◌≤◌, ◌<◌, ◌≡◌, refl, sym, Bool, true, false, Option, none, some, List, [], ◌∷◌,
  arith, Bool-cases, inl, inr, if◌then◌else◌, ◌==◌, is_some,
}
use cmtp_responder.Property.PtpArray.{Allocator, Grants, elements}
use cmtp_responder.Entity.Code
use cmtp_responder.Entity.Object.{Obj}
use cmtp_responder.Entity.Store.{
  Store, find_object, get_object_from_store, collect_children, is_child_of,
}
use cmtp_responder.Entity.Store.Find.{All, find_object-All}
use cmtp_responder.Entity.Store.Listing.{AreWords, select, collect_children-select}
use cmtp_responder.Entity.Store.Size.{IsOrdered, Each, Each-map, select-larger}
use cmtp_responder.Entity.Store.Delete.{
  Env, Run, tick, with_objects, delete_node, after_child, remove_child, remove_children,
  after_children, remove_folder, is_refused, remove_object,
}
use cmtp_responder.Entity.Store.Delete.Keeps.{
  Fits, Ends, ended, delete_node-Fits, after_sweep_lem, close_folder_lem, remove_file_lem,
}

-- A removal that ends for every object whose handle has the property.
abbrev Removes : ℕ → (ℕ → Type 0) → (Obj → Run → Option (Run × Bool)) → Type 0
Removes bound P rem =
    (o : Obj) (r : Run) → Fits bound r.store.obj_list → P o.obj_handle → Ends bound (rem o r)

-- A rest of the loop that ends.
abbrev Continues : ℕ → (Bool → Run → Option (Run × Option Bool)) → Type 0
Continues bound rest =
    (all : Bool) (r : Run) → Fits bound r.store.obj_list → Ends bound (rest all r)

module _ (bound : ℕ) (e : Env) where
  after_child_lem :
      (h : ℕ) (rest : Bool → Run → Option (Run × Option Bool)) (all : Bool)
      → Continues bound rest
      → (r : Run) (removed : Bool) → Fits bound r.store.obj_list
      → Ends bound (after_child e h rest all (some (r, removed)))
  unfolding after_child
  after_child_lem h rest all goes r true p =
      goes all (record (with_objects (delete_node h) r) { atleast_one = true })
        (delete_node-Fits bound h r.store.obj_list p)
  after_child_lem h rest all goes r false p = elim (Bool-cases (e.cancelled r.clock)) [
    | inl stop ↦ rw stop (ended bound _ none p)
    | inr on ↦ rw on (goes false (tick r) p)
  ]

  remove_child_lem :
      (P : ℕ → Type 0) (rem : Obj → Run → Option (Run × Bool)) (h : ℕ)
      (rest : Bool → Run → Option (Run × Option Bool)) (all : Bool)
      → Removes bound P rem
      → Continues bound rest
      → P h
      → (r : Run) (q : Option Obj) → find_object h r.store.obj_list ≡ q
      → Fits bound r.store.obj_list
      → Ends bound (remove_child rem e h rest all r q)
  unfolding remove_child
  remove_child_lem P rem h rest all removes goes held r none found p = goes all r p
  remove_child_lem P rem h rest all removes goes held r (some o) found p =
      let (same, _) = find_object-All (IsOrdered bound) h o r.store.obj_list p.ordered found in
      let one = removes o r p (subst P (sym same) held) in
      rw one.ends (after_child_lem h rest all goes one.run one.value one.fits)

  remove_children_lem :
      (P : ℕ → Type 0) (rem : Obj → Run → Option (Run × Bool)) (hs : List ℕ)
      → Removes bound P rem
      → Each P hs
      → Continues bound (remove_children rem e hs)
  unfolding remove_children get_object_from_store
  remove_children_lem P rem [] removes each all r p = ended bound r (some all) p
  remove_children_lem P rem (h ∷ hs) removes each all r p =
      elim (Bool-cases (e.cancelled r.clock)) [
        | inl stop ↦ rw stop (ended bound _ none p)
        | inr on ↦ rw on (
            remove_child_lem P rem h (λ b run. remove_children rem e hs b run) all removes
              (remove_children_lem P rem hs removes each.1) each.0 (tick r)
              (find_object h r.store.obj_list) refl p)
      ]

  after_children_lem :
      (o : Obj) (x : Option (Run × Option Bool)) → Ends bound x → Ends bound (after_children e o x)
  unfolding after_children
  after_children_lem o x p = rw p.ends (by_end p.value)
    where
      by_end : (v : Option Bool) → Ends bound (after_children e o (some (p.run, v)))
      by_end none = ended bound p.run false p.fits
      by_end (some all) = close_folder_lem bound e o all p.run p.fits

  remove_folder_lem :
      (P : ℕ → Type 0) (rem : Obj → Run → Option (Run × Bool)) (read_only : Bool) (o : Obj)
      → Removes bound P rem
      → (hs : List ℕ) → Each P hs
      → (r : Run) → Fits bound r.store.obj_list
      → Ends bound (remove_folder rem e read_only o r hs)
  unfolding remove_folder
  remove_folder_lem P rem read_only o removes [] each r p =
      after_sweep_lem bound e o (tick r)
        (e.remove_dir_children_recursive r.clock o.file_path read_only) p
  remove_folder_lem P rem read_only o removes (h ∷ hs) each r p =
      after_children_lem o _ (remove_children_lem P rem (h ∷ hs) removes each true r p)

-- The words that the arrays of handles need, from the order.
ordered-AreWords :
    (bound : ℕ) (os : List Obj) → bound < Code.handle_all → All (IsOrdered bound) os → AreWords os
ordered-AreWords bound [] small p = tt
ordered-AreWords bound (o ∷ os) small p =
    (omega (arith, p.0.1), ordered-AreWords bound os small p.1)

if-Each : (P : ℕ → Type 0) (b : Bool) (hs : List ℕ) → Each P hs → Each P (if b then hs else [])
if-Each P true hs each = each
if-Each P false hs each = tt

collect_children-Each :
    (bound fuel : ℕ) (o : Obj) (s : Store) (m : Allocator)
    → Grants m
    → bound < Code.handle_all
    → Fits bound s.obj_list
    → bound < suc fuel + o.obj_handle
    → Each (λ k. (k ≤ bound) × (bound < fuel + k)) (elements (collect_children m s o.obj_handle))
collect_children-Each bound fuel o s m g small p enough =
    rw
      (collect_children-select m g s (ordered-AreWords bound s.obj_list small p.ordered)
        o.obj_handle p.few)
      (if-Each (λ k. (k ≤ bound) × (bound < fuel + k))
        (is_some (get_object_from_store s o.obj_handle))
        (select (is_child_of o.obj_handle) s.obj_list)
        (Each-map (λ k l. (l.1, omega (arith, l.0))) (select (is_child_of o.obj_handle) s.obj_list)
          (select-larger bound o.obj_handle s.obj_list p.ordered)))

-- In a store of at most 2^26 objects, where children have larger handles than their parents, up to a
-- bound below the handle for all, the removal of an object ends with fuel above the bound, whatever
-- the file system and the flags answer, and leaves such a store.
pub remove_object-Ends :
    (bound : ℕ) (e : Env) (m : Allocator) (read_only : Bool) (format : ℕ)
    → Grants m
    → bound < Code.handle_all
    → (fuel : ℕ) (o : Obj) (r : Run) → Fits bound r.store.obj_list
    → o.obj_handle ≤ bound
    → bound < fuel + o.obj_handle
    → Ends bound (remove_object e m read_only format fuel o r)
unfolding remove_object
remove_object-Ends bound e m read_only format g small zero o r p low enough = absurd (omega arith)
remove_object-Ends bound e m read_only format g small (suc fuel) o r p low enough =
    elim (Bool-cases (e.cancelled r.clock)) [
      | inl stop ↦ rw stop (ended bound _ false p)
      | inr on ↦ elim (Bool-cases (is_refused format o)) [
        | inl refused ↦ rw (on, refused) (ended bound _ false p)
        | inr meant ↦ elim (Bool-cases (o.obj_fmt == Code.fmt_association)) [
          | inl folder ↦
              rw (on, meant, folder)
                (remove_folder_lem bound e (λ k. (k ≤ bound) × (bound < fuel + k))
                  (remove_object e m read_only format fuel) read_only o
                  (λ kid run fits held.
                    remove_object-Ends bound e m read_only format g small fuel kid run fits held.0
                      held.1)
                  (elements (collect_children m r.store o.obj_handle))
                  (collect_children-Each bound fuel o r.store m g small p enough) (tick r) p)
          | inr file ↦ rw (on, meant, file) (remove_file_lem bound e o (tick r) p)
        ]
      ]
    ]
