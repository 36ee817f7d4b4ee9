-- ===== src/Handler/Answering.antt =====
-- `__process_commands` of src/mtp_cmd_handler.c: every command is answered once.
use cmtp_responder.Base.{
  ℕ, ◌≤◌, ◌<◌, ◌≡◌, ◌≢◌, refl, ◌∙◌, ap, sym, inl, inr, Bool, true, false, ◌||◌, Option, some, ◌∷◌,
  ◌==◌, if◌then◌else◌, is_some, eq_of_==,
}
use cmtp_responder.Container.{CmdContainer, get_param_cmd_container}
use cmtp_responder.Container.Params.{HasFive, copy_cmd_container-get_param}
use cmtp_responder.Entity.Code
use cmtp_responder.Property.PtpArray.{Grants}
use cmtp_responder.Entity.Device.{delete_object}
use cmtp_responder.Entity.Device.Terminates.{AllFit, is_some-delete_object}
use cmtp_responder.Handler.{World, State, Phase, set_phase, param, send_event, send_response_code}
use cmtp_responder.Handler.Event
use cmtp_responder.Handler.Answers.{
  IsUnsent, answers, Quiet, Responded, Answered, Quiet-refl, Quiet-trans, if-Answered,
  code-Responded, send_event-Quiet, dataout-Answered, if-Quiet_state,
}
use cmtp_responder.Handler.Sessions.{begin_end_edit_object, vendor_command1}
use cmtp_responder.Handler.Writes.{send_object, send_partial_object}
use cmtp_responder.Handler.Process.{
  is_idle, is_abandoned, restore, finish, finish_with, elsewhere, await_data, send_object_done,
  send_partial_done, with_payload, dispatch, takes_data, serve, run, with_cmd, process_copy,
  process_commands,
}
use cmtp_responder.Handler.Told.{
  plain, open_session-Answered, close_session-Answered, reset_device-Answered, power_down-Answered,
  get_object_prop_desc-Answered, get_device_info-Answered, storage_ids-Answered,
  get_storage_info-Answered, object_handles-Answered, get_object_info-Answered,
  get_interdep_prop_desc-Answered,
}
use cmtp_responder.Handler.Told.Packets.{get_object-Answered, get_partial_object-Answered}
use cmtp_responder.Handler.Told.Written.{
  Serves, if-Serves, delete-Serves, set_object_prop_value-Answered, send_partial_object-Answered,
  send_object-Answered,
}
use cmtp_responder.Handler.Told.Constructed.{IsDelivered, send_object_info-Serves}

-- What comes behind the response changes neither the phase nor the responses.
then_same :
    {s t : State} (u : State)
    → Answered s t
    → answers u.sent ≡ answers t.sent
    → u.phase ≡ t.phase
    → (IsUnsent t → IsUnsent u)
    → Answered s u
then_same u (inl r) told at still = inl (record {
  blk = r.blk;
  told = told ∙ r.told;
  type_eq = r.type_eq;
  tid_eq = r.tid_eq;
  phase_eq = at ∙ r.phase_eq;
  unsent = λ x. still (r.unsent x);
})
then_same u (inr r) told at still = inr (record {
  same_answers = told ∙ r.same_answers;
  phase_eq = elim r.phase_eq [ inl e ↦ inl (at ∙ e) | inr e ↦ inr (at ∙ e) ];
  unsent = λ x. still (r.unsent x);
})

-- Nor does what comes in front of it.
after_Quiet : {s u t : State} → Quiet s u → Answered u t → Answered s t
after_Quiet q (inl r) = inl (record {
  blk = r.blk;
  told = r.told ∙ ap (λ l. r.blk ∷ l) q.same_answers;
  type_eq = r.type_eq;
  tid_eq = r.tid_eq ∙ ap (λ c. c.header.tid) q.same_cmd;
  phase_eq = r.phase_eq;
  unsent = λ x. r.unsent (q.unsent x);
})
after_Quiet q (inr r) = inr (record {
  same_answers = r.same_answers ∙ q.same_answers;
  phase_eq = r.phase_eq;
  unsent = λ x. r.unsent (q.unsent x);
})

then_event : {s t : State} (e : ℕ) → Answered s t → Answered s (send_event e t)
unfolding send_event answers
then_event {s} {t} e a = then_same (send_event e t) a refl refl (λ u. u)

restored :
    (b : Bool) (t : State)
    → ((if b then restore t else t).sent ≡ t.sent)
      × ((if b then restore t else t).phase ≡ t.phase)
      × (IsUnsent t → IsUnsent (if b then restore t else t))
unfolding restore
restored true t = (refl, refl, λ u. refl)
restored false t = (refl, refl, λ u. u)

finish-Answered : {s t : State} → Answered s t → Answered s (finish t)
unfolding finish
finish-Answered {s} {t} a =
    let (same, at, still) = restored (is_abandoned t) t in
    then_same (finish t) a (ap answers same) at still

-- The phase is idle behind the response already.
idle_after : {s : State} (t : State) → Responded s t → Answered s (set_phase Phase.idle t)
unfolding set_phase
idle_after {s} t r = inl (record {
  blk = r.blk;
  told = r.told;
  type_eq = r.type_eq;
  tid_eq = r.tid_eq;
  phase_eq = refl;
  unsent = r.unsent;
})

-- The header is all that is told of the command.
for_cmd :
    (c cmd : CmdContainer) (s t : State)
    → c.header ≡ cmd.header
    → Answered (with_cmd c s) t
    → Answered (with_cmd cmd s) t
for_cmd c cmd s t same (inl r) = inl (record {
  blk = r.blk;
  told = r.told;
  type_eq = r.type_eq;
  tid_eq = r.tid_eq ∙ ap (λ h. h.tid) same;
  phase_eq = r.phase_eq;
  unsent = r.unsent;
})
for_cmd c cmd s t same (inr r) =
    inr (record { same_answers = r.same_answers; phase_eq = r.phase_eq; unsent = r.unsent })

finish-Serves : {s : State} {o : Option State} → Serves s o → Serves s (finish_with o)
unfolding finish_with
finish-Serves (t, eq, a) = (finish t, ap finish_with eq, finish-Answered a)

module _ (w : World) (s : State) where
  dispatch-Answered : Answered s (dispatch w s)
  unfolding dispatch begin_end_edit_object vendor_command1
  dispatch-Answered =
      let code = s.hdlr.usb_cmd.code in
      let start = send_event Event.start_datain s in
      if-Answered s (code == Code.opcode_closesession) (close_session-Answered s) (
        if-Answered s (code == Code.opcode_getstorageids) (storage_ids-Answered w s) (
          if-Answered s (code == Code.opcode_getstorageinfo) (get_storage_info-Answered w s) (
            if-Answered s (code == Code.opcode_getobjecthandles) (object_handles-Answered w s) (
              if-Answered s (code == Code.opcode_getobjectinfo) (get_object_info-Answered w s) (
                if-Answered s (code == Code.opcode_getobject)
                  (then_event Event.done_datain (
                    after_Quiet (send_event-Quiet s Event.start_datain)
                      (get_object-Answered w start)))
                  (if-Answered s
                    (code == Code.opcode_android_getpartialobject
                      || code == Code.opcode_getpartialobject)
                    (get_partial_object-Answered w s)
                    (if-Answered s (code == Code.opcode_resetdevice) (reset_device-Answered s) (
                      if-Answered s (code == Code.opcode_getobjectpropdesc)
                        (get_object_prop_desc-Answered w s)
                        (if-Answered s (code == Code.opcode_powerdown) (power_down-Answered s) (
                          if-Answered s (code == Code.opcode_getinterdeppropdesc)
                            (get_interdep_prop_desc-Answered w s)
                            (if-Answered s (code == Code.opcode_vendor_op1)
                              (plain s Code.response_gen_error)
                              (if-Answered s
                                (code == Code.opcode_android_begineditobject
                                  || code == Code.opcode_android_endeditobject)
                                (plain s Code.response_ok)
                                (plain s Code.response_op_not_supported)))))))))))))

  await_data-Answered : Answered s (await_data w s)
  unfolding await_data
  await_data-Answered =
      let flag = (if elsewhere w s.filepath then record s { is_send_object = true } else s) in
      let flagged : Quiet s flag =
        if-Quiet_state s (elsewhere w s.filepath) (record s { is_send_object = true }) s
          (record { same_answers = refl; same_cmd = refl; unsent = λ u. u }) (Quiet-refl s) in
      let once = send_event Event.start_dataout flag in
      if-Answered s (s.hdlr.usb_cmd.code == Code.opcode_sendobject)
        (dataout-Answered s (send_event Event.start_dataout once) (
          Quiet-trans flagged (
            Quiet-trans (send_event-Quiet flag Event.start_dataout)
              (send_event-Quiet once Event.start_dataout))))
        (dataout-Answered s s (Quiet-refl s))

  send_object_done-Answered : Answered s (send_object_done w s)
  unfolding send_object_done
  send_object_done-Answered =
      let flag = record (send_object w s) { is_send_object = false } in
      then_event Event.done_dataout (then_same flag (send_object-Answered w s) refl refl (λ u. u))

  send_partial_done-Answered : Answered s (send_partial_done s)
  unfolding send_partial_done
  send_partial_done-Answered =
      let flag = record (send_partial_object s) {
        is_send_object = false;
        is_send_partial_object = true;
      } in
      then_event Event.done_dataout
        (then_same flag (send_partial_object-Answered w s) refl refl (λ u. u))

-- The test is at hand where it holds.
when_Serves :
    (s : State) (b : Bool) (x y : Option State)
    → (b ≡ true → Serves s x)
    → Serves s y
    → Serves s (if b then x else y)
when_Serves s true x y p q = p refl
when_Serves s false x y p q = q

module _ (w : World) (s : State)
    (delivered : s.hdlr.usb_cmd.code ≡ Code.opcode_sendobjectinfo → IsDelivered w s)
    (deleted : s.hdlr.usb_cmd.code ≡ Code.opcode_deleteobject
      → is_some (delete_object w.env w.mem w.fuel s.clock s.device (param 0 s) (param 1 s))
        ≡ true) where
  with_payload-Serves : Serves s (with_payload w s)
  unfolding with_payload
  with_payload-Serves =
      let code = s.hdlr.usb_cmd.code in
      when_Serves s (code == Code.opcode_sendobjectinfo) _ _
        (λ e. send_object_info-Serves w s (delivered (eq_of_== code Code.opcode_sendobjectinfo e)))
        (if-Serves s (code == Code.opcode_sendobject) _ _ (_, refl, send_object_done-Answered w s)
          (_, refl, set_object_prop_value-Answered w s))

  serve-Serves : Serves s (serve w s)
  unfolding serve
  serve-Serves =
      let code = s.hdlr.usb_cmd.code in
      let idle = is_idle s.phase in
      if-Serves s (takes_data code) _ _
        (if-Serves s idle _ _ (_, refl, await_data-Answered w s)
          (finish-Serves with_payload-Serves))
        (if-Serves s (code == Code.opcode_android_sendpartialobject) _ _
          (if-Serves s idle _ _
            (_, refl, dataout-Answered s _ (send_event-Quiet s Event.start_dataout))
            (finish-Serves (_, refl, send_partial_done-Answered w s)))
          (when_Serves s (code == Code.opcode_deleteobject) _ _
            (λ e.
              finish-Serves
                (delete-Serves w s (deleted (eq_of_== code Code.opcode_deleteobject e))))
            (finish-Serves (_, refl, dispatch-Answered w s))))

  run-Serves : Serves s (run w s)
  unfolding run
  run-Serves =
      let code = s.hdlr.usb_cmd.code in
      let told = send_response_code Code.response_sessionnotopen s in
      if-Serves s (code == Code.opcode_getdeviceinfo) _ _
        (_, refl, finish-Answered (get_device_info-Answered w s))
        (if-Serves s (code == Code.opcode_opensession) _ _
          (_, refl, finish-Answered (open_session-Answered s))
          (if-Serves s (s.hdlr.session_id == 0) _ _
            (
              _,
              refl,
              finish-Answered (
                  idle_after told (code-Responded s s Code.response_sessionnotopen (Quiet-refl s))),
            )
            serve-Serves))

enough :
    (w : World) (s : State) (h h' f f' : ℕ)
    → h ≡ h'
    → f ≡ f'
    → is_some (delete_object w.env w.mem w.fuel s.clock s.device h' f') ≡ true
    → is_some (delete_object w.env w.mem w.fuel s.clock s.device h f) ≡ true
enough w s h h' f f' e e' ended = rw (e, e') ended

-- What bounds the deletion of one object: memory is granted, the stores have at most 2^26 objects
-- each, children have larger handles than their parents, up to a bound, and the fuel is above it.
pub record IsDeletable (w : World) (s : State) (obj_handle : ℕ) : Type 0 where
  pub one : obj_handle ≢ Code.handle_all
  pub granted : Grants w.mem
  pub bound : ℕ
  pub small : bound < Code.handle_all
  pub enough : bound < w.fuel
  pub fits : AllFit bound s.device.store_list

deletable :
    (w : World) (s : State) (obj_handle fmt : ℕ)
    → IsDeletable w s obj_handle
    → is_some (delete_object w.env w.mem w.fuel s.clock s.device obj_handle fmt) ≡ true
deletable w s obj_handle fmt d =
    is_some-delete_object w.env w.mem d.granted d.bound w.fuel obj_handle fmt d.small d.enough d.one
      s.clock s.device d.fits

-- Every command of at most five parameters comes to an end. Either the host has one response since,
-- a response block with the transaction of the command, and the phase is idle; or it has none, and
-- the phase is that of data to come or not-ready. In both cases a mark of sent data that was not
-- there is not there. For SendObjectInfo the transport delivers bytes, no more than were asked for.
-- A DeleteObject names one object, not all; memory is granted, and in stores of at most 2^26 objects
-- the children have larger handles than their parents, up to a bound that the fuel exceeds.
pub process_commands-Answered :
    (w : World) (cmd : CmdContainer) (s : State)
    → HasFive cmd
    → HasFive s.hdlr.usb_cmd
    → cmd.no_param ≤ 5
    → (cmd.code ≡ Code.opcode_sendobjectinfo → IsDelivered w s)
    → (cmd.code ≡ Code.opcode_deleteobject → IsDeletable w s (get_param_cmd_container cmd 0))
    → (t : State) × (process_commands w cmd s ≡ some t) × Answered (with_cmd cmd s) t
unfolding process_commands process_copy
process_commands-Answered w cmd s five room few delivered deleted =
    let (c, eq, same, params) = copy_cmd_container-get_param cmd s.hdlr.usb_cmd five room few in
    let code : c.code ≡ cmd.code = ap (λ h. h.code) same in
    let (t, ran, a) =
      run-Serves w (with_cmd c s) (λ e. delivered (sym code ∙ e))
        (λ e.
          enough w s _ _ _ _ (params 0) (params 1)
            (deletable w s _ (get_param_cmd_container cmd 1) (deleted (sym code ∙ e)))) in
    (t, ap (process_copy w s) eq ∙ ran, for_cmd c cmd s t same a)
