-- ===== src/Entity/Store/Delete/Failed.antt =====
-- `_entity_delete_obj_mtp_store` of src/entity/mtp_store.c for one file: what each outcome of the
-- removal leaves, and what the host is told.
use cmtp_responder.Base.{
  ℕ, suc, ◌+◌, ◌≡◌, refl, Bool, false, ◌||◌, none, some, Bool-cases, inl, inr, ◌==◌,
}
use cmtp_responder.Property.PtpArray.{Allocator}
use cmtp_responder.Entity.Code
use cmtp_responder.Entity.Object.{Obj}
use cmtp_responder.Entity.Store.{Store, get_object_from_store}
use cmtp_responder.Entity.Store.Delete.{
  Env, Run, Outcome, done, denied, failed, answer, delete_node, drop_reference, finish,
  after_remove, remove_file, is_refused, remove_object, is_incomplete, settle, after_single,
  delete_single, delete_obj_mtp_store,
}

-- A file that may be removed, in a store that may be written.
pub record IsRemovable (s : Store) (h : ℕ) (o : Obj) : Type 0 where
  pub found : get_object_from_store s h ≡ some o
  pub one : (h == Code.handle_all) ≡ false
  pub writable : (s.access == Code.access_r) ≡ false
  pub is_file : (o.obj_fmt == Code.fmt_association) ≡ false
  pub unprotected :
      (o.protcn_status == Code.protection_readonly
        || o.protcn_status == Code.protection_readonly_data)
      ≡ false

-- What the host is told, and the store that is left.
unfoldable pub told : Outcome → ℕ
told done = Code.response_ok
told denied = Code.response_accessdenied
told failed = Code.response_ok

unfoldable pub left : Store → Obj → Outcome → Store
left s o done = record s { obj_list = delete_node o.obj_handle (drop_reference o s.obj_list) }
left s o denied = s
left s o failed = s

not_refused : (o : Obj) → is_refused Code.format_notused o ≡ false
unfolding is_refused
not_refused o = elim (Bool-cases (o.obj_fmt == Code.format_notused)) [
  | inl same ↦ rw same refl
  | inr other ↦ rw other refl
]

-- What the removal itself does with each outcome.
Settled : (e : Env) (o : Obj) (r : Run) (out : Outcome) → Type 0
Settled e o r out =
    (r' : Run) × (after_single o (some (after_remove o r out)) ≡ some (r', told out))
    × (r'.store ≡ left r.store o out)

settled_lem :
    (e : Env) (o : Obj) (r : Run) (out : Outcome) → r.atleast_one ≡ false → Settled e o r out
unfolding Settled after_single after_remove finish settle is_incomplete told left
settled_lem e o r done fresh = (_, refl, refl)
settled_lem e o r denied fresh = (answer Code.response_accessdenied r, rw fresh refl, refl)
settled_lem e o r failed fresh = (_, refl, refl)

-- Deleting one unprotected file of a writable store by its handle, with no cancellation at the
-- start: when the file is removed the object and its parent's reference go, and the
-- answer is OK; without permission the store stays, and the answer says so; on any other failure
-- the store stays, and the answer is OK all the same.
pub delete_obj_mtp_store-outcome :
    (e : Env) (m : Allocator) (fuel clock h fmt : ℕ) (s : Store) (o : Obj) (read_only : Bool)
    → IsRemovable s h o
    → e.cancelled clock ≡ false
    → (r : Run) × (delete_obj_mtp_store e m (suc fuel) clock s h fmt read_only
        ≡ some (r, told (e.remove (clock + 1) o.file_path)))
      × (r.store ≡ left s o (e.remove (clock + 1) o.file_path))
unfolding delete_obj_mtp_store delete_single remove_object remove_file Settled
delete_obj_mtp_store-outcome e m fuel clock h fmt s o read_only p on =
    let r : Run = record {
      store = s;
      clock = clock + 1 + 1;
      response = none;
      atleast_one = false;
    } in
    rw (p.writable, p.one, p.found, on, not_refused o, p.is_file, p.unprotected)
      (settled_lem e o r (e.remove (clock + 1) o.file_path) refl)
