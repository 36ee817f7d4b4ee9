-- ===== src/Entity/Device/Terminates.antt =====
-- `_device_delete_object` of src/entity/mtp_device.c comes to an end for a single handle.
use cmtp_responder.Base.{
  ℕ, ◌<◌, ◌≡◌, ◌≢◌, refl, ◌∙◌, ap, sym, Bool, true, false, Option, none, some, List, [], ◌∷◌, arith,
  Bool-cases, inl, inr, ◌==◌, ne-==, is_some,
}
use cmtp_responder.Property.PtpArray.{Allocator, Grants}
use cmtp_responder.Entity.Code
use cmtp_responder.Entity.Object.{Obj}
use cmtp_responder.Entity.Store.{Store, get_object_from_store}
use cmtp_responder.Entity.Store.Find.{find_object-All}
use cmtp_responder.Entity.Store.Size.{IsOrdered}
use cmtp_responder.Entity.Store.Delete.{
  Env, Run, remove_object, after_single, delete_single, delete_obj_mtp_store,
}
use cmtp_responder.Entity.Store.Delete.Keeps.{Fits}
use cmtp_responder.Entity.Store.Delete.Terminates.{remove_object-Ends}
use cmtp_responder.Entity.Device.{Device, has_object, with_store, delete_in, delete_object}

-- The objects of every store fit.
abbrev pub AllFit : ℕ → List Store → Type 0
AllFit bound [] = Unit
AllFit bound (s ∷ ss) = Fits bound s.obj_list × AllFit bound ss

-- There is a result.
abbrev Comes {ℓ} : {A : Type ℓ} → Option A → Type ℓ
Comes {A} x = (a : A) × (x ≡ some a)

after_single-Comes :
    (o : Obj) (r : Run) (removed : Bool) → Comes (after_single o (some (r, removed)))
unfolding after_single
after_single-Comes o r true = (_, refl)
after_single-Comes o r false = (_, refl)

delete_single-Comes :
    (rem : Obj → Run → Option (Run × Bool)) (r : Run) (q : Option Obj)
    → ((o : Obj) → q ≡ some o → Comes (rem o r))
    → Comes (delete_single rem r q)
unfolding delete_single
delete_single-Comes rem r none ends = (_, refl)
delete_single-Comes rem r (some o) ends =
    let ((run, removed), e) = ends o refl in
    let (x, f) = after_single-Comes o run removed in (x, ap (after_single o) e ∙ f)

module _ (e : Env) (m : Allocator) (g : Grants m) (bound fuel h fmt : ℕ)
    (small : bound < Code.handle_all) (enough : bound < fuel) (one : h ≢ Code.handle_all) where
  delete_obj_mtp_store-Comes :
      (clock : ℕ) (s : Store)
      → Fits bound s.obj_list
      → Comes (delete_obj_mtp_store e m fuel clock s h fmt true)
  unfolding delete_obj_mtp_store get_object_from_store
  delete_obj_mtp_store-Comes clock s p =
      let r : Run = record { store = s; clock = clock; response = none; atleast_one = false } in
      elim (Bool-cases (s.access == Code.access_r)) [
        | inl locked ↦ rw locked (_, refl)
        | inr free ↦
            rw (free, ne-== h Code.handle_all one)
              (delete_single-Comes (remove_object e m true Code.format_notused fuel) r
                (get_object_from_store s h)
                (λ o found.
                  let (same, (above, low)) =
                    find_object-All (IsOrdered bound) h o s.obj_list p.ordered found in
                  let ends =
                    remove_object-Ends bound e m true Code.format_notused g small fuel o r p low
                      (omega arith) in
                  ((ends.run, ends.value), ends.ends)))
      ]

  delete_in-Comes :
      (clock : ℕ) (ss : List Store)
      → AllFit bound ss
      → Comes (delete_in (λ s. with_store (delete_obj_mtp_store e m fuel clock s h fmt true)) h ss)
  unfolding delete_in with_store
  delete_in-Comes clock [] fits = (_, refl)
  delete_in-Comes clock (s ∷ ss) fits =
      let ((r, response), done) = delete_obj_mtp_store-Comes clock s fits.0 in
      let (later, ended) = delete_in-Comes clock ss fits.1 in
      elim (Bool-cases (has_object (get_object_from_store s h))) [
        | inl hit ↦ rw (hit, done) (_, refl)
        | inr miss ↦ rw (miss, ended) (_, refl)
      ]

  -- In stores of at most 2^26 objects, where children have larger handles than their parents, up to a
  -- bound below the handle for all, the deletion of a single handle has a result with fuel above the
  -- bound, whatever the file system answers.
  pub is_some-delete_object :
      (clock : ℕ) (d : Device)
      → AllFit bound d.store_list
      → is_some (delete_object e m fuel clock d h fmt) ≡ true
  unfolding delete_object
  is_some-delete_object clock d fits =
      let (ended, eq) = delete_in-Comes clock d.store_list fits in
      rw (ne-== Code.handle_all h (λ same. one (sym same)), eq) refl
