-- ===== src/Entity/Store/Enumerate/Ordered.antt =====
-- The enumeration of src/entity/mtp_store.c gives a store whose children have larger handles than
-- their parents.
use cmtp_responder.Base.{
  ℕ, ◌+◌, ◌<◌, ◌≤◌, ◌≡◌, ◌^◌, ◌%◌, refl, Bool, true, false, Option, none, some, List, [], ◌∷◌, ◌++◌,
  arith, ◌==◌, Bool-cases, inl, inr, if◌then◌else◌, length, length-append,
}
use cmtp_responder.Property.PtpArray.{Allocator}
use cmtp_responder.Property.PtpArray.Append.{max_elements}
use cmtp_responder.Entity.Code
use cmtp_responder.Entity.Object.{
  Obj, DirEntry, init_object_info_params, init_mtp_object_params, add_reference_child_array,
}
use cmtp_responder.Entity.Store.{Store, add_object_to_store, add_file_to_store, add_folder_to_store}
use cmtp_responder.Entity.Store.Find.{All}
use cmtp_responder.Entity.Store.Size.{IsOrdered}
use cmtp_responder.Entity.Store.Delete.Keeps.{Fits, update_object-All, length-update_object}
use cmtp_responder.Support.{get_file_name}
use cmtp_responder.Entity.Store.Enumerate.{
  Files, is_skipped, starts_with_slash, enum_entries, recursive_enum_folder_objects,
}

-- How many entries there are below.
unfoldable pub count_files : Files → ℕ
count_files Files.end = 0
count_files (Files.file discon path entry next) = 1 + count_files next
count_files (Files.folder discon path entry below next) = 1 + count_files below + count_files next
count_files (Files.unknown discon path next) = count_files next

-- The objects have handles below the next one, each larger than that of its parent.
abbrev pub IsGrown : Store × ℕ → Type 0
IsGrown (s, next) = All (λ o. (o.h_parent < o.obj_handle) × (o.obj_handle < next)) s.obj_list

-- A step that keeps the order, passes on at most so many handles and adds at most so many objects.
record Grows (n : ℕ) (before after : Store × ℕ) : Type 0 where
  grown : IsGrown after
  from : before.1 ≤ after.1
  to : after.1 ≤ before.1 + n
  few : length after.0.obj_list ≤ length before.0.obj_list + n

Grows-trans : {k n : ℕ} {a b c : Store × ℕ} → Grows k a b → Grows n b c → Grows (k + n) a c
Grows-trans p q = record {
  grown = q.grown;
  from = omega (arith, p.from, q.from);
  to = omega (arith, p.to, q.to);
  few = omega (arith, p.few, q.few);
}

Grows-more : {k n : ℕ} {a b : Store × ℕ} → k ≤ n → Grows k a b → Grows n a b
Grows-more more p = record {
  grown = p.grown;
  from = p.from;
  to = omega (arith, more, p.to);
  few = omega (arith, more, p.few);
}

Grows-idle : {n : ℕ} (a : Store × ℕ) → IsGrown a → Grows n a a
Grows-idle a p = record { grown = p; from = omega arith; to = omega arith; few = omega arith }

if-Grows :
    {n : ℕ} {a b c : Store × ℕ} (t : Bool)
    → Grows n a b
    → Grows n a c
    → Grows n a (if t then b else c)
if-Grows true p q = p
if-Grows false p q = q

All-append : (P : Obj → Type 0) (os : List Obj) (o : Obj) → All P os → P o → All P (os ++ o ∷ [])
All-append P [] o all one = (one, tt)
All-append P (p ∷ os) o all one = (all.0, All-append P os o all.1 one)

All-map : (P Q : Obj → Type 0) (os : List Obj) → ((o : Obj) → P o → Q o) → All P os → All Q os
All-map P Q [] f all = tt
All-map P Q (o ∷ os) f all = (f o all.0, All-map P Q os f all.1)

-- The property of the objects in a store where this handle is next.
abbrev Below : ℕ → Obj → Type 0
Below next o = (o.h_parent < o.obj_handle) × (o.obj_handle < next)

add_object-Grows :
    (m : Allocator) (s : Store) (obj : Obj)
    → IsGrown (s, obj.obj_handle)
    → obj.h_parent < obj.obj_handle
    → Grows 1 (s, obj.obj_handle) (add_object_to_store m s obj, obj.obj_handle + 1)
unfolding add_object_to_store add_reference_child_array
add_object-Grows m s obj p above =
    let h = obj.obj_handle in
    let f = λ (o : Obj). (add_reference_child_array m o h).0 in
    let os = s.obj_list ++ obj ∷ [] in
    let all : All (Below (h + 1)) os =
      All-append (Below (h + 1)) s.obj_list obj
        (All-map (Below h) (Below (h + 1)) s.obj_list (λ o b. (b.0, omega (arith, b.1))) p)
        (above, omega arith) in
    let one : length os ≡ length s.obj_list + 1 = length-append s.obj_list (obj ∷ []) in
    elim (Bool-cases (obj.h_parent == Code.handle_root)) [
      | inl root ↦
          rw root
            (record { grown = all; from = omega arith; to = omega arith; few = omega (arith, one) })
      | inr below ↦ rw below (record {
        grown = update_object-All (Below (h + 1)) f obj.h_parent os (λ o b. b) all;
        from = omega arith;
        to = omega arith;
        few = omega (arith, one, length-update_object f obj.h_parent os);
      })
    ]

parent_of_info :
    (store_id h_parent fmtcode : ℕ) (e : DirEntry)
    → (init_object_info_params store_id h_parent fmtcode e).h_parent ≡ h_parent
unfolding init_object_info_params
parent_of_info store_id h_parent fmtcode e = of_attribute e.attribute
  where
    of_attribute :
        (a : Option Bool)
        → (init_object_info_params store_id h_parent fmtcode (record e { attribute = a })).h_parent
          ≡ h_parent
    of_attribute none = refl
    of_attribute (some true) = refl
    of_attribute (some false) = refl

add_file-Grows :
    (m : Allocator) (s : Store) (next h_parent : ℕ) (path : List ℕ) (fmtcode : ℕ) (e : DirEntry)
    → IsGrown (s, next)
    → h_parent < next
    → next + 1 < 2 ^ 32
    → Grows 1
        (s, next)
        (
          (add_file_to_store m s next h_parent path fmtcode e).0,
          (add_file_to_store m s next h_parent path fmtcode e).2,
        )
unfolding add_file_to_store init_mtp_object_params
add_file-Grows m s next h_parent path fmtcode e p above small =
    let obj = (init_mtp_object_params next s.store_id h_parent path fmtcode e).0 in
    let same : (next + 1) % 2 ^ 32 ≡ next + 1 = omega arith in
    rw same (add_object-Grows m s obj p (rw (parent_of_info s.store_id h_parent fmtcode e) above))

add_folder-Grows :
    (m : Allocator) (s : Store) (next h_parent : ℕ) (path : List ℕ) (fmtcode : ℕ) (e : DirEntry)
    → IsGrown (s, next)
    → h_parent < next
    → next + 1 < 2 ^ 32
    → Grows 1
        (s, next)
        (
          (add_folder_to_store m s next h_parent path fmtcode e).0,
          (add_folder_to_store m s next h_parent path fmtcode e).2,
        )
unfolding add_folder_to_store add_file_to_store
add_folder-Grows m s next h_parent path fmtcode e p above small =
    add_file-Grows m s next h_parent path fmtcode e p above small

folder_handle :
    (m : Allocator) (s : Store) (next h_parent : ℕ) (path : List ℕ) (fmtcode : ℕ) (e : DirEntry)
    → next + 1 < 2 ^ 32
    → (add_folder_to_store m s next h_parent path fmtcode e).1.obj_handle
      < (add_folder_to_store m s next h_parent path fmtcode e).2
unfolding add_folder_to_store init_mtp_object_params
folder_handle m s next h_parent path fmtcode e small = omega (arith, small)

-- The rest of the entries, behind either of two steps.
if-entries :
    {k n : ℕ} (t : Bool) (a : Store × ℕ) (c : Store × ℕ)
    → Grows k a a
    → Grows k a c
    → (rest : Store × ℕ → Store × ℕ)
    → ((b : Store × ℕ) → IsGrown b → a.1 ≤ b.1 → b.1 ≤ a.1 + k → Grows n b (rest b))
    → Grows (k + n) a (rest (if t then a else c))
if-entries true a c stay step rest more = Grows-trans stay (more a stay.grown stay.from stay.to)
if-entries false a c stay step rest more = Grows-trans step (more c step.grown step.from step.to)

-- The entries of a folder whose handle is below the next one.
enum_entries-Grows :
    (m : Allocator) (fmtcode : List ℕ → ℕ) (h_parent : ℕ) (files : Files) (s : Store) (next : ℕ)
    → IsGrown (s, next)
    → h_parent < next
    → next + count_files files < 2 ^ 32
    → Grows (count_files files) (s, next) (enum_entries m fmtcode h_parent files (s, next))
unfolding enum_entries count_files
enum_entries-Grows m fmtcode h_parent Files.end s next p above small = Grows-idle (s, next) p
enum_entries-Grows m fmtcode h_parent (Files.file discon path e rest) s next p above small =
    let name = get_file_name path in
    let added = add_file_to_store m s next h_parent path (fmtcode name) e in
    let one =
      add_file-Grows m s next h_parent path (fmtcode name) e p above (omega (arith, small)) in
    if-Grows discon (Grows-idle (s, next) p) (
      if-entries (is_skipped name) (s, next) (added.0, added.2) (Grows-idle (s, next) p) one
        (enum_entries m fmtcode h_parent rest)
        (λ t q from to.
          enum_entries-Grows m fmtcode h_parent rest t.0 t.1 q (omega (arith, above, from))
            (omega (arith, small, to))))
enum_entries-Grows m fmtcode h_parent (Files.folder discon path e below rest) s next p above small =
    let name = get_file_name path in
    let added = add_folder_to_store m s next h_parent path (fmtcode name) e in
    let one =
      add_folder-Grows m s next h_parent path (fmtcode name) e p above (omega (arith, small)) in
    let inside = Grows-trans one (
      enum_entries-Grows m fmtcode added.1.obj_handle below added.0 added.2 one.grown
        (folder_handle m s next h_parent path (fmtcode name) e (omega (arith, small)))
        (omega (arith, one.to, small))) in
    if-Grows discon (Grows-idle (s, next) p) (
      if-entries (is_skipped name) (s, next)
        (if starts_with_slash added.1.file_path
          then enum_entries m fmtcode added.1.obj_handle below (added.0, added.2)
          else (added.0, added.2))
        (Grows-idle (s, next) p)
        (if-Grows (starts_with_slash added.1.file_path) inside (Grows-more (omega arith) one))
        (enum_entries m fmtcode h_parent rest)
        (λ t q from to.
          enum_entries-Grows m fmtcode h_parent rest t.0 t.1 q (omega (arith, above, from))
            (omega (arith, small, to))))
enum_entries-Grows m fmtcode h_parent (Files.unknown discon path rest) s next p above small =
    if-Grows discon (Grows-idle (s, next) p)
      (enum_entries-Grows m fmtcode h_parent rest s next p above small)

no_objects : (P : Obj → Type 0) (os : List Obj) → length os ≡ 0 → All P os
no_objects P [] e = tt
no_objects P (o ∷ os) e = absurd (omega (arith, e))

-- A store without objects, whatever is found below its root path, at most 2^26 entries, for which the
-- handles do not reach the one for all: after the enumeration each object has a larger handle than its
-- parent and none larger than the next, there are at most 2^26 objects, and the counter of handles has
-- moved on by at most the number of entries.
pub recursive_enum_folder_objects-Fits :
    (m : Allocator) (fmtcode : List ℕ → ℕ) (files : List ℕ → Files) (next : ℕ) (s : Store)
    → length s.obj_list ≡ 0
    → 0 < next
    → next + count_files (files s.root_path) < Code.handle_all
    → count_files (files s.root_path) ≤ max_elements
    → Fits
        (recursive_enum_folder_objects m fmtcode files next s).1
        (recursive_enum_folder_objects m fmtcode files next s).0.obj_list
      × (next ≤ (recursive_enum_folder_objects m fmtcode files next s).1)
      × ((recursive_enum_folder_objects m fmtcode files next s).1
          ≤ next + count_files (files s.root_path))
unfolding recursive_enum_folder_objects
recursive_enum_folder_objects-Fits m fmtcode files next s bare pos small few =
    let start = no_objects (Below next) s.obj_list bare in
    let all =
      if-Grows (starts_with_slash s.root_path)
        (enum_entries-Grows m fmtcode Code.handle_root (files s.root_path) s next start pos
          (omega (arith, small)))
        (Grows-idle (s, next) start) in
    let after = recursive_enum_folder_objects m fmtcode files next s in
    (
      record {
        ordered =
            All-map (Below after.1) (IsOrdered after.1) after.0.obj_list
              (λ o b. (b.0, omega (arith, b.1))) all.grown;
        few = omega (arith, all.few, bare, few);
      },
      all.from,
      all.to,
    )
