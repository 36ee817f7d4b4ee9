-- ===== src/Entity/Store/Delete/Keeps.antt =====
-- The steps of `_entity_remove_object_mtp_store` of src/entity/mtp_store.c, and the order of handles.
use cmtp_responder.Base.{
  ℕ, suc, ◌≤◌, ◌≡◌, refl, ap, Bool, true, false, Option, some, List, [], ◌∷◌, arith, length,
  Bool-cases, inl, inr, ◌==◌, ◌||◌, ltb,
}
use cmtp_responder.Property.PtpArray.Append.{max_elements}
use cmtp_responder.Entity.Code
use cmtp_responder.Entity.Object.{Obj, remove_reference_child_array}
use cmtp_responder.Entity.Store.{update_object}
use cmtp_responder.Entity.Store.Find.{All}
use cmtp_responder.Entity.Store.Size.{IsOrdered}
use cmtp_responder.Entity.Store.Delete.{
  Env, Run, Outcome, done, denied, failed, Swept, sweep_denied, sweep_failed, swept, tick,
  delete_node, drop_reference, finish, after_rmdir, close_folder, after_sweep, after_remove,
  remove_file,
}

-- The objects of a store during a deletion: ordered, and few enough for the arrays of handles.
pub record Fits (bound : ℕ) (os : List Obj) : Type 0 where
  pub ordered : All (IsOrdered bound) os
  pub few : length os ≤ max_elements

delete_node-All : (P : Obj → Type 0) (h : ℕ) (os : List Obj) → All P os → All P (delete_node h os)
unfolding delete_node
delete_node-All P h [] all = tt
delete_node-All P h (o ∷ os) all = elim (Bool-cases (o.obj_handle == h)) [
  | inl hit ↦ rw hit all.1
  | inr miss ↦ rw miss (all.0, delete_node-All P h os all.1)
]

length-delete_node : (h : ℕ) (os : List Obj) → length (delete_node h os) ≤ length os
unfolding delete_node
length-delete_node h [] = omega arith
length-delete_node h (o ∷ os) = elim (Bool-cases (o.obj_handle == h)) [
  | inl hit ↦ rw hit (omega arith)
  | inr miss ↦ rw miss (omega (arith, length-delete_node h os))
]

pub update_object-All :
    (P : Obj → Type 0) (f : Obj → Obj) (h : ℕ) (os : List Obj)
    → ((o : Obj) → P o → P (f o))
    → All P os
    → All P (update_object f h os)
unfolding update_object
update_object-All P f h [] keeps all = tt
update_object-All P f h (o ∷ os) keeps all = elim (Bool-cases (o.obj_handle == h)) [
  | inl hit ↦ rw hit (keeps o all.0, all.1)
  | inr miss ↦ rw miss (all.0, update_object-All P f h os keeps all.1)
]

pub length-update_object :
    (f : Obj → Obj) (h : ℕ) (os : List Obj) → length (update_object f h os) ≡ length os
unfolding update_object
length-update_object f h [] = refl
length-update_object f h (o ∷ os) = elim (Bool-cases (o.obj_handle == h)) [
  | inl hit ↦ rw hit refl
  | inr miss ↦ rw miss (ap suc (length-update_object f h os))
]

pub delete_node-Fits : (bound h : ℕ) (os : List Obj) → Fits bound os → Fits bound (delete_node h os)
delete_node-Fits bound h os p = record {
  ordered = delete_node-All (IsOrdered bound) h os p.ordered;
  few = omega (arith, length-delete_node h os, p.few);
}

keeps_order :
    (bound h : ℕ) (q : Obj)
    → IsOrdered bound q
    → IsOrdered bound (remove_reference_child_array q h).0
unfolding remove_reference_child_array
keeps_order bound h q p = elim (Bool-cases (h == Code.handle_all)) [
  | inl every ↦ rw every p
  | inr one ↦ rw one p
]

drop_reference-Fits :
    (bound : ℕ) (o : Obj) (os : List Obj) → Fits bound os → Fits bound (drop_reference o os)
unfolding drop_reference
drop_reference-Fits bound o os p =
    let f = λ (q : Obj). (remove_reference_child_array q o.obj_handle).0 in
    elim (Bool-cases (o.h_parent == Code.handle_root)) [
      | inl root ↦ rw root p
      | inr below ↦ rw below (record {
        ordered =
            update_object-All (IsOrdered bound) f o.h_parent os (keeps_order bound o.obj_handle)
              p.ordered;
        few = omega (arith, length-update_object f o.h_parent os, p.few);
      })
    ]

-- A step of the deletion ends, and leaves objects that fit.
pub record Ends {X : Type 0} (bound : ℕ) (x : Option (Run × X)) : Type 0 where
  pub run : Run
  pub value : X
  pub ends : x ≡ some (run, value)
  pub fits : Fits bound run.store.obj_list

pub ended :
    {X : Type 0} (bound : ℕ) (r : Run) (v : X)
    → Fits bound r.store.obj_list
    → Ends bound (some (r, v))
ended bound r v p = record { run = r; value = v; ends = refl; fits = p }

finish_lem :
    (bound : ℕ) (o : Obj) (all : Bool) (r : Run)
    → Fits bound r.store.obj_list
    → Ends bound (some (finish o all r))
unfolding finish
finish_lem bound o true r p = ended bound _ true (drop_reference-Fits bound o r.store.obj_list p)
finish_lem bound o false r p = elim (Bool-cases r.atleast_one) [
  | inl one ↦ rw one (ended bound _ false p)
  | inr none_yet ↦ rw none_yet (ended bound _ false p)
]

after_rmdir_lem :
    (bound : ℕ) (o : Obj) (r : Run) (out : Outcome)
    → Fits bound r.store.obj_list
    → Ends bound (some (after_rmdir o r out))
unfolding after_rmdir
after_rmdir_lem bound o r done p = finish_lem bound o true r p
after_rmdir_lem bound o r denied p = ended bound _ false p
after_rmdir_lem bound o r failed p = ended bound _ false p

pub close_folder_lem :
    (bound : ℕ) (e : Env) (o : Obj) (all : Bool) (r : Run)
    → Fits bound r.store.obj_list
    → Ends bound (some (close_folder e o all r))
unfolding close_folder
close_folder_lem bound e o true r p =
    after_rmdir_lem bound o (tick r) (e.rmdir r.clock o.file_path) p
close_folder_lem bound e o false r p = finish_lem bound o false r p

pub after_sweep_lem :
    (bound : ℕ) (e : Env) (o : Obj) (r : Run) (out : Swept)
    → Fits bound r.store.obj_list
    → Ends bound (some (after_sweep e o r out))
unfolding after_sweep
after_sweep_lem bound e o r sweep_failed p = ended bound _ false p
after_sweep_lem bound e o r sweep_denied p = ended bound _ false p
after_sweep_lem bound e o r (swept deleted found) p = elim (Bool-cases (found == 0)) [
  | inl empty ↦ rw empty (close_folder_lem bound e o true r p)
  | inr some_files ↦ elim (Bool-cases (deleted == 0)) [
    | inl kept ↦ rw (some_files, kept) (close_folder_lem bound e o false r p)
    | inr gone ↦ elim (Bool-cases (ltb deleted found)) [
      | inl fewer ↦
          rw (some_files, gone, fewer)
            (close_folder_lem bound e o false (record r { atleast_one = true }) p)
      | inr every ↦ rw (some_files, gone, every) (close_folder_lem bound e o true r p)
    ]
  ]
]

after_remove_lem :
    (bound : ℕ) (o : Obj) (r : Run) (out : Outcome)
    → Fits bound r.store.obj_list
    → Ends bound (some (after_remove o r out))
unfolding after_remove
after_remove_lem bound o r done p = finish_lem bound o true (record r { atleast_one = true }) p
after_remove_lem bound o r denied p = ended bound _ false p
after_remove_lem bound o r failed p = ended bound _ false p

pub remove_file_lem :
    (bound : ℕ) (e : Env) (o : Obj) (r : Run)
    → Fits bound r.store.obj_list
    → Ends bound (some (remove_file e o r))
unfolding remove_file
remove_file_lem bound e o r p =
    let protected =
      o.protcn_status == Code.protection_readonly
      || o.protcn_status == Code.protection_readonly_data in
    elim (Bool-cases protected) [
      | inl guarded ↦ rw guarded (ended bound _ false p)
      | inr free ↦ rw free (after_remove_lem bound o (tick r) (e.remove r.clock o.file_path) p)
    ]
