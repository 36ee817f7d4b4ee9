-- ===== src/Handler/Sessionless.antt =====
-- `__process_commands` of src/mtp_cmd_handler.c outside a session.
use cmtp_responder.Base.{◌≤◌, ◌≡◌, refl, ◌∙◌, ap, sym, some, ◌∷◌, eq-==, ne-==, ◌≢◌, none}
use cmtp_responder.Container.{CmdContainer, resp_container_init, add_param_resp_container}
use cmtp_responder.Container.Params.{HasFive, copy_cmd_container-get_param}
use cmtp_responder.Entity.Code
use cmtp_responder.Handler.{
  World, State, Phase, Sent, set_phase, tick, emit, zero_blk, send_response, send_response_code,
}
use cmtp_responder.Handler.Answers.{IsUnsent}
use cmtp_responder.Handler.Process.{finish, run, with_cmd, process_copy, process_commands}
use cmtp_responder.Handler.Finish.{finish_unsent}

-- What a refused command leaves.
pub record IsRefused (cmd : CmdContainer) (s t : State) : Type 0 where
  pub blk : CmdContainer
  pub told : t.sent ≡ Sent.reply blk ∷ s.sent
  pub code_eq : blk.header.code ≡ Code.response_sessionnotopen
  pub tid_eq : blk.header.tid ≡ cmd.header.tid
  pub phase_eq : t.phase ≡ Phase.idle
  pub session_eq : t.hdlr.session_id ≡ 0
  pub device_eq : t.device ≡ s.device
  pub handle_eq : t.next_obj_handle ≡ s.next_obj_handle
  pub data_eq : t.hdlr.data4_send_obj ≡ s.hdlr.data4_send_obj

-- Behind the response that there is no session.
refused :
    (s : State)
    → s.hdlr.session_id ≡ 0
    → IsUnsent s
    → IsRefused s.hdlr.usb_cmd s
        (finish (set_phase Phase.idle (send_response_code Code.response_sessionnotopen s)))
unfolding set_phase send_response_code send_response tick emit resp_container_init
    add_param_resp_container
refused s closed u =
    let t = set_phase Phase.idle (send_response_code Code.response_sessionnotopen s) in
    rw (finish_unsent t u) (record {
      blk =
          (add_param_resp_container
            (resp_container_init zero_blk Code.response_sessionnotopen s.hdlr.usb_cmd.tid) 0
            none).0;
      told = refl;
      code_eq = refl;
      tid_eq = refl;
      phase_eq = refl;
      session_eq = closed;
      device_eq = refl;
      handle_eq = refl;
      data_eq = refl;
    })

-- The header is all that is told of the command.
for_cmd :
    (c cmd : CmdContainer) (s t : State)
    → c.header ≡ cmd.header
    → IsRefused c (with_cmd c s) t
    → IsRefused cmd s t
for_cmd c cmd s t same r = record {
  blk = r.blk;
  told = r.told;
  code_eq = r.code_eq;
  tid_eq = r.tid_eq ∙ ap (λ h. h.tid) same;
  phase_eq = r.phase_eq;
  session_eq = r.session_eq;
  device_eq = r.device_eq;
  handle_eq = r.handle_eq;
  data_eq = r.data_eq;
}

-- Outside a session, where no data are marked as sent, every command of at most five parameters but
-- GetDeviceInfo and OpenSession comes to an end, and one response is sent: that no session is open,
-- in the transaction of the command. The session stays closed, the device, the counter of handles
-- and the announced object stay as they are, and the phase is idle.
pub process_commands-IsRefused :
    (w : World) (cmd : CmdContainer) (s : State)
    → HasFive cmd
    → HasFive s.hdlr.usb_cmd
    → cmd.no_param ≤ 5
    → s.hdlr.session_id ≡ 0
    → IsUnsent s
    → cmd.code ≢ Code.opcode_getdeviceinfo
    → cmd.code ≢ Code.opcode_opensession
    → (t : State) × (process_commands w cmd s ≡ some t) × IsRefused cmd s t
unfolding process_commands process_copy run
process_commands-IsRefused w cmd s five room few closed u device session =
    let (c, eq, same, params) = copy_cmd_container-get_param cmd s.hdlr.usb_cmd five room few in
    let code : c.code ≡ cmd.code = ap (λ h. h.code) same in
    let t =
      finish
        (set_phase Phase.idle (send_response_code Code.response_sessionnotopen (with_cmd c s))) in
    let ran : run w (with_cmd c s) ≡ some t =
      rw
        (
          ne-== c.code Code.opcode_getdeviceinfo (λ e. device (sym code ∙ e)),
          ne-== c.code Code.opcode_opensession (λ e. session (sym code ∙ e)),
          eq-== s.hdlr.session_id 0 closed,
        )
        refl in
    (t, ap (process_copy w s) eq ∙ ran, for_cmd c cmd s t same (refused (with_cmd c s) closed u))
