-- ===== src/Entity/Device/Deletion.antt =====
-- `_device_delete_object` of src/entity/mtp_device.c for a single handle.
use mathlib.Core.Option.{some-injective, some-ne-none, none-ne-some}
use cmtp_responder.Base.{
  ℕ, ◌≡◌, refl, ◌∙◌, ap, sym, true, false, Option, none, some, List, [], ◌∷◌, Bool-cases, inl, inr,
  if◌then◌else◌, ◌==◌,
}
use cmtp_responder.Property.PtpArray.{Allocator}
use cmtp_responder.Entity.Code
use cmtp_responder.Entity.Store.{Store, get_object_from_store}
use cmtp_responder.Entity.Store.Delete.{Env, Run, delete_obj_mtp_store}
use cmtp_responder.Entity.Device.{
  Device, has_object, containing, get_store_containing_obj, with_store, delete_in, delete_object,
}

-- The stores with the first that contains the handle replaced.
unfoldable pub replaced : ℕ → Store → List Store → List Store
replaced h s' [] = []
replaced h s' (s ∷ ss) =
    if has_object (get_object_from_store s h) then s' ∷ ss else s ∷ replaced h s' ss

delete_in_missing :
    (delete : Store → Option (Store × ℕ × ℕ)) (h : ℕ) (ss : List Store)
    → containing h ss ≡ none
    → delete_in delete h ss ≡ some (ss, 0, Code.response_invalid_obj_handle)
unfolding delete_in containing
delete_in_missing delete h [] gone = refl
delete_in_missing delete h (s ∷ ss) gone =
    elim (Bool-cases (has_object (get_object_from_store s h))) [
      | inl hit ↦
          absurd (some-ne-none s (sym (ap (λ b. if b then some s else containing h ss) hit) ∙ gone))
      | inr miss ↦
          let later =
            delete_in_missing delete h ss
              (sym (ap (λ b. if b then some s else containing h ss) miss) ∙ gone) in
          rw (miss, later) refl
    ]

delete_in_found :
    (delete : Store → Option (Store × ℕ × ℕ)) (h : ℕ) (ss : List Store) (s s' : Store)
    (clock response : ℕ)
    → containing h ss ≡ some s
    → delete s ≡ some (s', clock, response)
    → delete_in delete h ss ≡ some (replaced h s' ss, clock, response)
unfolding delete_in containing replaced
delete_in_found delete h [] s s' clock response there done = absurd (none-ne-some s there)
delete_in_found delete h (t ∷ ss) s s' clock response there done =
    elim (Bool-cases (has_object (get_object_from_store t h))) [
      | inl hit ↦
          let same =
            some-injective t s
              (sym (ap (λ b. if b then some t else containing h ss) hit) ∙ there) in
          rw (hit, ap delete same ∙ done) refl
      | inr miss ↦
          let later =
            delete_in_found delete h ss s s' clock response
              (sym (ap (λ b. if b then some t else containing h ss) miss) ∙ there) done in
          rw (miss, later) refl
    ]

-- Deleting by handle: where no store contains it the device stays and the host hears of an invalid
-- handle; otherwise the first store that does is replaced by what its own deletion leaves, and the
-- answer is that deletion's.
pub delete_object-delete_obj_mtp_store :
    (e : Env) (m : Allocator) (fuel clock h fmt : ℕ) (d : Device)
    → (Code.handle_all == h) ≡ false
    → (get_store_containing_obj d h ≡ none
        → delete_object e m fuel clock d h fmt ≡ some (d, Code.response_invalid_obj_handle))
      × ((s : Store) (r : Run) (response : ℕ)
          → get_store_containing_obj d h ≡ some s
          → delete_obj_mtp_store e m fuel clock s h fmt true ≡ some (r, response)
          → delete_object e m fuel clock d h fmt
            ≡ some (record { store_list = replaced h r.store d.store_list }, response))
unfolding delete_object get_store_containing_obj with_store
delete_object-delete_obj_mtp_store e m fuel clock h fmt d one =
    let delete = λ (s : Store). with_store (delete_obj_mtp_store e m fuel clock s h fmt true) in
    (
      λ gone. rw (one, delete_in_missing delete h d.store_list gone) refl,
      λ s r response there done.
          rw
            (
              one,
              delete_in_found delete h d.store_list s r.store r.clock response there
                  (ap with_store done),
            )
            refl,
    )
