-- ===== src/Handler/Sessions.antt =====
-- The handlers of src/mtp_cmd_handler.c that open and close sessions or only answer.
use cmtp_responder.Base.{ℕ, false, not, ◌||◌, none, some, [], ◌∷◌, ◌==◌, if◌then◌else◌}
use cmtp_responder.Entity.Code
use cmtp_responder.Handler.{
  State, SendData, zero_blk, param, has_param, send_response, send_response_code,
}

-- `memset(hdlr, 0, …)`
abbrev pub zero_data : SendData
zero_data = record {
  store_id = 0;
  h_parent = 0;
  obj_handle = 0;
  is_valid = false;
  is_data_sent = false;
  file_size = 0;
  obj = none;
}

unfoldable pub reset_cmd : State → State
reset_cmd s = record s {
  hdlr = record {
    usb_cmd = zero_blk;
    data4_send_obj = zero_data;
    session_id = 0;
    last_opcode = 0;
    last_fmt_code = 0;
  };
}

abbrev pub with_session : ℕ → State → State
with_session session_id s = record s { hdlr = record s.hdlr { session_id = session_id } }

unfoldable pub open_session : State → State
unfolding send_response send_response_code
open_session s =
    if has_param 1 s || has_param 2 s
    then send_response_code Code.response_param_notsupported s
    else if param 0 s == 0 || not (s.hdlr.usb_cmd.tid == 0)
    then send_response_code Code.response_invalidparam s
    else if not (s.hdlr.session_id == 0)
    then send_response Code.response_sessionalreadyopened 1 (some (s.hdlr.session_id ∷ [])) s
    else send_response_code Code.response_ok (with_session (param 0 s) s)

unfoldable pub close_session : State → State
unfolding send_response_code
close_session s =
    if has_param 0 s || (has_param 1 s || has_param 2 s)
    then send_response_code Code.response_param_notsupported s
    else if not (s.hdlr.session_id == 0)
    then send_response_code Code.response_ok (with_session 0 s)
    else send_response_code Code.response_sessionnotopen s

unfoldable pub reset_device : State → State
unfolding send_response_code
reset_device s =
    if has_param 0 s || (has_param 1 s || has_param 2 s)
    then send_response_code Code.response_param_notsupported s
    else send_response_code Code.response_ok s

unfoldable pub power_down : State → State
unfolding send_response_code reset_cmd
power_down s =
    if has_param 0 s || (has_param 1 s || has_param 2 s)
    then send_response_code Code.response_param_notsupported s
    else reset_cmd (send_response_code Code.response_ok s)

unfoldable pub begin_end_edit_object : State → State
unfolding send_response_code
begin_end_edit_object s = send_response_code Code.response_ok s

-- Both cases of the switch on the first parameter are empty.
unfoldable pub vendor_command1 : State → State
unfolding send_response_code
vendor_command1 s = send_response_code Code.response_gen_error s
