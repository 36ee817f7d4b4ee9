-- ===== src/Handler/Told/Written.antt =====
-- The responses of the handlers of src/mtp_cmd_handler.c that change objects.
use mathlib.Core.Bool.{false≢true}
use cmtp_responder.Base.{
  ℕ, ◌+◌, ◌≡◌, refl, inl, inr, Bool, true, false, not, ◌||◌, ◌&&◌, Option, none, some, List, ◌==◌,
  if◌then◌else◌, is_some,
}
use cmtp_responder.Container.{
  DataContainer, get_payload_data, get_payload_size, init_data_container, rcv_data_container,
}
use cmtp_responder.Entity.Code
use cmtp_responder.Entity.Object.{Obj}
use cmtp_responder.Entity.Store.{Store}
use cmtp_responder.Entity.Device.{Device, delete_object, get_store}
use cmtp_responder.Handler.{World, State, Phase, set_phase, tick, param, has_param}
use cmtp_responder.Handler.Event
use cmtp_responder.Handler.Answers.{
  Quiet, Answered, Quiet-trans, if-Quiet, if-Answered, code-Answered, set_phase-Quiet, device-Quiet,
  op_state-Quiet, tick-Quiet,
}
use cmtp_responder.Handler.Util.{remove_object_entry, removal_error}
use cmtp_responder.Handler.Incoming.{write_in_store, write_file_data}
use cmtp_responder.Handler.Writes.{
  delete_response, after_delete, delete, received_file, send_object, consume, received_value,
  set_object_prop_value, send_partial_object, property_response, rcv_file_in_data_container,
}
use cmtp_responder.Handler.Told.{plain}

-- A handler that may fail comes to an end, and answers.
abbrev pub Serves : State → Option State → Type 0
Serves s o = (t : State) × (o ≡ some t) × Answered s t

pub if-Serves :
    (s : State) (b : Bool) (x y : Option State)
    → Serves s x
    → Serves s y
    → Serves s (if b then x else y)
if-Serves s true x y p q = p
if-Serves s false x y p q = q

module _ (w : World) (s : State) where
  after_delete-Serves :
      (t : State) (q : Option (Device × ℕ))
      → Quiet s t
      → is_some q ≡ true
      → Serves s (
          after_delete (elim q [
            | none ↦ none
            | some (d, ret) ↦ some (record t { device = d }, removal_error ret)
          ]))
  unfolding after_delete
  after_delete-Serves t none q ended = absurd (false≢true ended)
  after_delete-Serves t (some (d, ret)) q ended = (
    _,
    refl,
    code-Answered s _ (delete_response (removal_error ret)) (
        Quiet-trans q (
          Quiet-trans (device-Quiet t d)
            (op_state-Quiet (record t { device = d }) Event.state_onservice))),
  )

  pub delete-Serves :
      is_some (delete_object w.env w.mem w.fuel s.clock s.device (param 0 s) (param 1 s)) ≡ true
      → Serves s (delete w s)
  unfolding delete remove_object_entry
  delete-Serves ended =
      if-Serves s (has_param 2 s) _ _ (_, refl, plain s Code.response_param_notsupported)
        (if-Serves s (not (Code.format_notused == param 1 s) && not (param 0 s == Code.handle_all))
          _ _ (_, refl, plain s Code.response_invalid_obj_fmtcode)
          (after_delete-Serves _
            (delete_object w.env w.mem w.fuel s.clock s.device (param 0 s) (param 1 s))
            (op_state-Quiet s Event.state_data_processing) ended))

  received_value-Answered :
      (t : State) (r : DataContainer × Bool) → Quiet s t → Answered s (received_value w r t)
  unfolding received_value
  received_value-Answered t (blk, false) q =
      code-Answered s _ Code.response_invalidpropvalue
        (Quiet-trans q (set_phase-Quiet t Phase.idle))
  received_value-Answered t (blk, true) q =
      let r =
        w.update_object_property t.clock t.device (param 0 t) (param 1 t) (get_payload_data blk)
          (get_payload_size blk) in
      code-Answered s (record t { device = r.0 }) (property_response r.1)
        (Quiet-trans q (device-Quiet t r.0))

  out-Quiet : Quiet s (tick (set_phase Phase.dataout s))
  out-Quiet = Quiet-trans (set_phase-Quiet s Phase.dataout) (tick-Quiet (set_phase Phase.dataout s))

  pub set_object_prop_value-Answered : Answered s (set_object_prop_value w s)
  unfolding set_object_prop_value
  set_object_prop_value-Answered =
      if-Answered s (has_param 2 s) (plain s Code.response_param_notsupported) (
        received_value-Answered _
          (rcv_data_container w.mem (init_data_container s.hdlr.usb_cmd.code s.hdlr.usb_cmd.tid)
            1000000 (w.rcv_temp_file_data s.clock))
          out-Quiet)

  pub send_partial_object-Answered : Answered s (send_partial_object s)
  unfolding send_partial_object
  send_partial_object-Answered = code-Answered s _ Code.response_ok (set_phase-Quiet s Phase.datain)

  write_in_store-Quiet :
      (obj : Obj) (fpath : List ℕ) (q : Option Store) (t : State)
      → Quiet s t
      → Quiet s (write_in_store w obj fpath q t).0
  unfolding write_in_store
  write_in_store-Quiet obj fpath none t q = q
  write_in_store-Quiet obj fpath (some store) t q =
      let one = Quiet-trans q (tick-Quiet t) in
      let two = Quiet-trans one (tick-Quiet (tick t)) in
      if-Quiet s (not (w.access t.clock fpath)) _ _ one (
        if-Quiet s (not (w.file_move (t.clock + 1) fpath obj.file_path)) _ _ two
          (Quiet-trans two (device-Quiet (tick (tick t)) _)))

  pub write_file_data-Quiet :
      (store_id : ℕ) (obj : Option Obj) (fpath : List ℕ) (t : State)
      → Quiet s t
      → Quiet s (write_file_data w store_id obj fpath t).0
  unfolding write_file_data
  write_file_data-Quiet store_id none fpath t q = q
  write_file_data-Quiet store_id (some obj) fpath t q =
      write_in_store-Quiet obj fpath (get_store t.device store_id) t q

  consume-Answered : (t : State) → Answered s t → Answered s (consume t)
  unfolding consume
  consume-Answered t (inl r) = inl (record {
    blk = r.blk;
    told = r.told;
    type_eq = r.type_eq;
    tid_eq = r.tid_eq;
    phase_eq = r.phase_eq;
    unsent = r.unsent;
  })
  consume-Answered t (inr q) =
      inr (record { same_answers = q.same_answers; phase_eq = q.phase_eq; unsent = q.unsent })

  received_file-Answered :
      (fpath : List ℕ) (r : DataContainer × Bool) (t : State)
      → Quiet s t
      → Answered s (received_file w fpath r t)
  unfolding received_file
  received_file-Answered fpath (blk, false) t q =
      code-Answered s _ Code.response_gen_error (Quiet-trans q (set_phase-Quiet t Phase.idle))
  received_file-Answered fpath (blk, true) t q = consume-Answered _ (
      code-Answered s _ _
        (write_file_data-Quiet t.hdlr.data4_send_obj.store_id t.hdlr.data4_send_obj.obj fpath t q))

  pub send_object-Answered : Answered s (send_object w s)
  unfolding send_object
  send_object-Answered =
      let file = w.rcv_temp_file_info s.clock in
      if-Answered s (has_param 0 s || (has_param 1 s || has_param 2 s))
        (code-Answered s _ Code.response_invalidparam (set_phase-Quiet s Phase.notready))
        (received_file-Answered file.path
          (rcv_file_in_data_container w (init_data_container s.hdlr.usb_cmd.code s.hdlr.usb_cmd.tid)
            file)
          _ out-Quiet)
