-- ===== src/Handler/Told.antt =====
-- Each handler of src/mtp_cmd_handler.c sends one response, or none where the data was taken back.
pub mod Packets
pub mod Written
pub mod Parsed
pub mod Constructed
use cmtp_responder.Base.{
  ℕ, refl, inl, inr, Bool, true, false, not, ◌||◌, Option, none, some, [], ◌∷◌, ◌==◌,
}
use cmtp_responder.Property.PtpArray.{PtpArray}
use cmtp_responder.Entity.Code
use cmtp_responder.Entity.Object.{Obj}
use cmtp_responder.Entity.Device.{get_store}
use cmtp_responder.Entity.Store.{Store, fresh_handles}
use cmtp_responder.Handler.{
  World, State, DataSet, MtpErr, Phase, tick, param, has_param, send_response_code, send_data_set,
}
use cmtp_responder.Handler.Answers.{
  Quiet, Answered, Quiet-refl, Quiet-trans, if-Answered, if-Quiet_state, code-Answered,
  set_phase-Quiet, after_send-Answered, sent_block-Quiet, send_response-Responded,
  send_data_set-Answered,
}
use cmtp_responder.Handler.Util.{
  refresh, get_storage_entry, get_storage_ids, enumerate_stores, listed_handles, get_object_handles,
}
use cmtp_responder.Handler.Sessions.{
  with_session, open_session, close_session, reset_device, power_down, reset_cmd,
}
use cmtp_responder.Handler.Reads.{
  get_object_prop_desc, get_device_info, after_send_ids, send_ids, storage_ids, get_storage_info,
  send_handles, object_handles, get_object_info, get_interdep_prop_desc, handles_response,
}

module _ (s : State) where
  pub self : Quiet s s
  self = Quiet-refl s

  pub plain : (resp : ℕ) → Answered s (send_response_code resp s)
  plain resp = code-Answered s s resp self

  with_session-Quiet : (id : ℕ) → Quiet s (with_session id s)
  with_session-Quiet id = record { same_answers = refl; same_cmd = refl; unsent = λ u. u }

  pub open_session-Answered : Answered s (open_session s)
  unfolding open_session
  open_session-Answered = if-Answered s _ (plain Code.response_param_notsupported) (
      if-Answered s _ (plain Code.response_invalidparam) (
        if-Answered s _
          (inl (
            send_response-Responded s s Code.response_sessionalreadyopened 1
              (some (s.hdlr.session_id ∷ [])) self))
          (code-Answered s (with_session (param 0 s) s) Code.response_ok
            (with_session-Quiet (param 0 s)))))

  pub close_session-Answered : Answered s (close_session s)
  unfolding close_session
  close_session-Answered = if-Answered s _ (plain Code.response_param_notsupported) (
      if-Answered s _ (code-Answered s (with_session 0 s) Code.response_ok (with_session-Quiet 0))
        (plain Code.response_sessionnotopen))

  pub reset_device-Answered : Answered s (reset_device s)
  unfolding reset_device
  reset_device-Answered =
      if-Answered s _ (plain Code.response_param_notsupported) (plain Code.response_ok)

  -- The reset behind the response touches neither the phase nor what was sent; it clears the marks.
  reset_cmd-Answered : (t : State) → Answered s t → Answered s (reset_cmd t)
  unfolding reset_cmd
  reset_cmd-Answered t (inl r) = inl (record {
    blk = r.blk;
    told = r.told;
    type_eq = r.type_eq;
    tid_eq = r.tid_eq;
    phase_eq = r.phase_eq;
    unsent = λ u. refl;
  })
  reset_cmd-Answered t (inr q) =
      inr (record { same_answers = q.same_answers; phase_eq = q.phase_eq; unsent = λ u. refl })

  pub power_down-Answered : Answered s (power_down s)
  unfolding power_down
  power_down-Answered =
      if-Answered s _ (plain Code.response_param_notsupported)
        (reset_cmd-Answered _ (plain Code.response_ok))

module _ (w : World) (s : State) where
  prop_desc-Answered :
      (q : Option DataSet)
      → Answered s (elim q [
        | none ↦ send_response_code Code.response_prop_notsupported s
        | some prop ↦ send_data_set w prop s
      ])
  prop_desc-Answered none = plain s Code.response_prop_notsupported
  prop_desc-Answered (some prop) = send_data_set-Answered w prop s s (self s)

  pub get_object_prop_desc-Answered : Answered s (get_object_prop_desc w s)
  unfolding get_object_prop_desc
  get_object_prop_desc-Answered =
      if-Answered s _ (plain s Code.response_param_notsupported) (prop_desc-Answered _)

  pub get_device_info-Answered : Answered s (get_device_info w s)
  unfolding get_device_info
  get_device_info-Answered = if-Answered s _ (plain s Code.response_param_notsupported) (
      if-Answered s _ (plain s Code.response_param_notsupported)
        (send_data_set-Answered w w.device_info s s (self s)))

  after_send_ids-Answered : (r : State × Bool) → Quiet s r.0 → Answered s (after_send_ids r)
  unfolding after_send_ids
  after_send_ids-Answered (t, true) q = code-Answered s t Code.response_ok q
  after_send_ids-Answered (t, false) q =
      code-Answered s _ Code.response_gen_error (Quiet-trans q (set_phase-Quiet t Phase.notready))

  send_ids-Answered : (r : PtpArray × MtpErr) → Answered s (send_ids w r s)
  unfolding send_ids
  send_ids-Answered (ids, MtpErr.ok) =
      if-Answered s _ (after_send_ids-Answered _ (sent_block-Quiet w _ s))
        (plain s Code.response_gen_error)
  send_ids-Answered (ids, _) = plain s Code.response_gen_error

  pub storage_ids-Answered : Answered s (storage_ids w s)
  unfolding storage_ids
  storage_ids-Answered =
      if-Answered s (has_param 0 s || (has_param 1 s || has_param 2 s))
        (plain s Code.response_param_notsupported)
        (send_ids-Answered (get_storage_ids w.mem s.device (fresh_handles w.mem)))

  refresh-Quiet : (q : Option Store) (store_id : ℕ) → Quiet s (refresh w q store_id s)
  unfolding refresh tick
  refresh-Quiet none store_id = self s
  refresh-Quiet (some st) store_id = record {
    same_answers = refl;
    same_cmd = refl;
    unsent = λ u. u;
  }

  store_info-Answered :
      (t : State) (q : Option Store)
      → Quiet s t
      → Answered s (elim q [
        | none ↦ send_response_code Code.response_invalid_store_id t
        | some st ↦ send_data_set w (w.store_info st) t
      ])
  store_info-Answered t none q = code-Answered s t Code.response_invalid_store_id q
  store_info-Answered t (some st) q = send_data_set-Answered w (w.store_info st) s t q

  pub get_storage_info-Answered : Answered s (get_storage_info w s)
  unfolding get_storage_info get_storage_entry
  get_storage_info-Answered =
      if-Answered s _ (plain s Code.response_param_notsupported)
        (store_info-Answered _ _ (refresh-Quiet (get_store s.device (param 0 s)) (param 0 s)))

  send_handles-Answered :
      (t : State) (arr : PtpArray) → Quiet s t → Answered s (send_handles w arr t)
  unfolding send_handles
  send_handles-Answered t arr q =
      if-Answered s _ (after_send-Answered s _ (Quiet-trans q (sent_block-Quiet w _ t)))
        (code-Answered s t Code.response_gen_error q)

  enumerate_stores-Quiet : (h_parent : ℕ) → Quiet s (enumerate_stores w h_parent s)
  unfolding enumerate_stores tick
  enumerate_stores-Quiet h_parent =
      if-Quiet_state s (h_parent == Code.handle_all || h_parent == Code.handle_root) _ s
        (record { same_answers = refl; same_cmd = refl; unsent = λ u. u }) (self s)

  pub object_handles-Answered : Answered s (object_handles w s)
  unfolding object_handles get_object_handles
  object_handles-Answered =
      let t = enumerate_stores w (param 2 s) s in
      let q = enumerate_stores-Quiet (param 2 s) in
      let r =
        listed_handles w.mem t.device (param 0 s) (param 1 s) (param 2 s) (fresh_handles w.mem) in
      if-Answered s (not (handles_response r.1 == Code.response_ok))
        (code-Answered s t (handles_response r.1) q) (send_handles-Answered t r.0 q)

  object_info-Answered :
      (q : Option Obj)
      → Answered s (elim q [
        | none ↦ send_response_code Code.response_invalid_obj_handle s
        | some obj ↦ send_data_set w (w.obj_info s.clock obj) s
      ])
  object_info-Answered none = plain s Code.response_invalid_obj_handle
  object_info-Answered (some obj) = send_data_set-Answered w (w.obj_info s.clock obj) s s (self s)

  pub get_object_info-Answered : Answered s (get_object_info w s)
  unfolding get_object_info
  get_object_info-Answered =
      if-Answered s _ (plain s Code.response_param_notsupported) (object_info-Answered _)

  pub get_interdep_prop_desc-Answered : Answered s (get_interdep_prop_desc w s)
  unfolding get_interdep_prop_desc
  get_interdep_prop_desc-Answered = if-Answered s _ (plain s Code.response_param_notsupported) (
      if-Answered s _ (plain s Code.response_invalidcodeformat)
        (send_data_set-Answered w (w.interdep_prop_config_list (param 0 s)) s s (self s)))
