-- ===== src/Entity/Device.antt =====
-- src/entity/mtp_device.c: the stores of the device, and the lookups and deletions over them.
pub mod Info
pub mod Lookup
pub mod Deletion
pub mod Terminates
use cmtp_responder.Base.{
  ℕ, Bool, true, false, not, ◌||◌, Option, none, some, List, [], ◌∷◌, ltb, ◌==◌, if◌then◌else◌,
  length, get_elem?,
}
use cmtp_responder.Property.PtpArray.{PtpArray, Allocator, append_ele_ptparray}
use cmtp_responder.Entity.Code
use cmtp_responder.Entity.Object.{Obj}
use cmtp_responder.Entity.Store.{Store, get_object_from_store, get_object_from_store_by_path}
use cmtp_responder.Entity.Store.Delete.{Env, Run, delete_obj_mtp_store}

-- `mtp_device_t`: the first `num_stores` stores of its list.
pub record Device : Type 0 where
  pub store_list : List Store

unfoldable pub find_store : ℕ → List Store → Option Store
find_store store_id [] = none
find_store store_id (s ∷ ss) = if s.store_id == store_id then some s else find_store store_id ss

unfoldable pub get_store : Device → ℕ → Option Store
unfolding find_store
get_store d store_id = find_store store_id d.store_list

-- From the last store to the first; the results of the single appends are dropped.
append_ids : Allocator → List Store → PtpArray → PtpArray
append_ids m [] store_ids = store_ids
append_ids m (s ∷ ss) store_ids =
    let later = append_ids m ss store_ids in
    if s.is_hidden then later else (append_ele_ptparray m later s.store_id).0

unfoldable pub get_store_ids : Allocator → Device → PtpArray → PtpArray × ℕ
unfolding append_ids
get_store_ids m d store_ids =
    let filled = append_ids m d.store_list store_ids in (filled, filled.num_ele)

-- The result of the first store that has one.
or_next : Option Obj → Option Obj → Option Obj
or_next none next = next
or_next (some o) next = some o

object_in : (Store → Option Obj) → List Store → Option Obj
unfolding or_next
object_in f [] = none
object_in f (s ∷ ss) = or_next (f s) (object_in f ss)

unfoldable pub get_object_with_handle : Device → ℕ → Option Obj
unfolding object_in
get_object_with_handle d obj_handle =
    object_in (λ s. get_object_from_store s obj_handle) d.store_list

-- `none` is a NULL path.
unfoldable pub get_object_with_path : Device → Option (List ℕ) → Option Obj
unfolding object_in
get_object_with_path d none = none
get_object_with_path d (some path) =
    object_in (λ s. get_object_from_store_by_path s path) d.store_list

pub has_object : Option Obj → Bool
has_object none = false
has_object (some o) = true

pub containing : ℕ → List Store → Option Store
unfolding has_object
containing obj_handle [] = none
containing obj_handle (s ∷ ss) =
    if has_object (get_object_from_store s obj_handle) then some s else containing obj_handle ss

unfoldable pub get_store_containing_obj : Device → ℕ → Option Store
unfolding containing
get_store_containing_obj d obj_handle = containing obj_handle d.store_list

unfoldable pub get_store_at_index : Device → ℕ → Option Store
get_store_at_index d index =
    if ltb index (length d.store_list) then get_elem? d.store_list index else none

-- A deletion in one store: the store afterwards, the time and the response; `none` is fuel that ran
-- out.
pub with_store : Option (Run × ℕ) → Option (Store × ℕ × ℕ)
with_store none = none
with_store (some (r, response)) = some (r.store, r.clock, response)

-- The first store that contains the object is replaced.
pub delete_in : (Store → Option (Store × ℕ × ℕ)) → ℕ → List Store → Option (List Store × ℕ × ℕ)
unfolding has_object
delete_in delete obj_handle [] = some ([], 0, Code.response_invalid_obj_handle)
delete_in delete obj_handle (s ∷ ss) =
    let later = delete_in delete obj_handle ss in
    if has_object (get_object_from_store s obj_handle)
    then elim (delete s) [
      | none ↦ none
      | some (s', clock, response) ↦ some (s' ∷ ss, clock, response)
    ]
    else elim later [ none ↦ none | some (ss', clock, response) ↦ some (s ∷ ss', clock, response) ]

-- What the responses of the stores add up to: whether all was deleted, whether anything was, and
-- the last response.
pub record Tally : Type 0 where
  pub all_del : Bool
  pub atlst_one : Bool
  pub response : ℕ

unfoldable pub count_response : Tally → ℕ → Tally
count_response t response =
    if response == Code.response_partial_deletion
    then record { all_del = false; atlst_one = true; response = response }
    else if response == Code.response_store_readonly
        || (response == Code.response_writeprotected || response == Code.response_accessdenied)
    then record t { all_del = false; response = response }
    else record t { atlst_one = true; response = response }

unfoldable pub overall : Tally → ℕ
overall t =
    if t.all_del
    then Code.response_ok
    else if t.atlst_one
    then Code.response_partial_deletion
    else t.response

-- Every store in turn.
delete_everywhere :
    (ℕ → Store → Option (Store × ℕ × ℕ)) → List Store → ℕ → Tally → Option (List Store × ℕ × Tally)
delete_everywhere delete [] clock t = some ([], clock, t)
delete_everywhere delete (s ∷ ss) clock t = elim (delete clock s) [
  | none ↦ none
  | some (s', clock', response) ↦
      elim (delete_everywhere delete ss clock' (count_response t response)) [
        | none ↦ none
        | some (ss', clock'', t') ↦ some (s' ∷ ss', clock'', t')
      ]
]

-- The device afterwards and the response.
unfoldable pub delete_object :
    Env → Allocator → (fuel clock : ℕ) → Device → (obj_handle fmt : ℕ) → Option (Device × ℕ)
unfolding with_store delete_in delete_everywhere
delete_object e m fuel clock d obj_handle fmt =
    let delete = λ (now : ℕ) (s : Store).
      with_store (delete_obj_mtp_store e m fuel now s obj_handle fmt true) in
    let start : Tally = record { all_del = true; atlst_one = false; response = Code.response_ok } in
    if not (Code.handle_all == obj_handle)
    then elim (delete_in (delete clock) obj_handle d.store_list) [
      | none ↦ none
      | some (ss, now, response) ↦ some (record { store_list = ss }, response)
    ]
    else elim (delete_everywhere delete d.store_list clock start) [
      | none ↦ none
      | some (ss, now, t) ↦ some (record { store_list = ss }, overall t)
    ]
