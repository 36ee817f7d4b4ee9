-- ===== src/Handler/Process.antt =====
-- `__process_commands` of src/mtp_cmd_handler.c: which handler a command has, in which session and
-- phase, and what is put right behind it.
use cmtp_responder.Base.{
  ℕ, ◌+◌, ◌%◌, ◌^◌, Bool, true, false, not, ◌&&◌, ◌||◌, Option, none, some, List, [], ◌∷◌, ◌==◌,
  if◌then◌else◌,
}
use cmtp_responder.Container.{CmdContainer, copy_cmd_container}
use cmtp_responder.Entity.Code
use cmtp_responder.Entity.Store.{same_path}
use cmtp_responder.Handler.{World, State, Phase, set_phase, send_event, send_response_code}
use cmtp_responder.Handler.Event
use cmtp_responder.Handler.Util.{with_store}
use cmtp_responder.Handler.Sessions.{
  zero_data, open_session, close_session, reset_device, power_down, begin_end_edit_object,
  vendor_command1,
}
use cmtp_responder.Handler.Reads.{
  get_object_prop_desc, get_device_info, storage_ids, get_storage_info, object_handles,
  get_object_info, get_object, get_partial_object, get_interdep_prop_desc,
}
use cmtp_responder.Handler.Writes.{
  with_data, delete, send_object_info, send_object, set_object_prop_value, send_partial_object,
}

abbrev pub is_idle : Phase → Bool
is_idle Phase.idle = true
is_idle p = false

-- The space that a SendObjectInfo reserved is given back where the next command does not send the
-- object.
unfoldable pub is_abandoned : State → Bool
is_abandoned s =
    s.hdlr.last_opcode == Code.opcode_sendobjectinfo
    && (not (s.hdlr.last_fmt_code == Code.fmt_association)
        && (not (s.hdlr.last_fmt_code == Code.fmt_undef)
            && (not (s.hdlr.usb_cmd.code == Code.opcode_sendobject)
                && (s.hdlr.data4_send_obj.is_valid && s.hdlr.data4_send_obj.is_data_sent))))

unfoldable pub restore : State → State
restore s = with_data zero_data (
    with_store
      (λ st. record st { free_space = (st.free_space + s.hdlr.data4_send_obj.file_size) % 2 ^ 64 })
      s.hdlr.data4_send_obj.store_id s)

-- The label `DONE`.
unfoldable pub finish : State → State
unfolding is_abandoned restore
finish s =
    let s' = (if is_abandoned s then restore s else s) in
    record s' { hdlr = record s'.hdlr { last_opcode = s.hdlr.usb_cmd.code } }

unfoldable pub finish_with : Option State → Option State
unfolding finish
finish_with none = none
finish_with (some s) = some (finish s)

-- "/tmp"
abbrev tmp : List ℕ
tmp = 47 ∷ 116 ∷ 109 ∷ 112 ∷ []

unfoldable pub elsewhere : World → Option (List ℕ) → Bool
unfolding same_path
elsewhere w none = false
elsewhere w (some path) = not (same_path (w.get_parent_path path) tmp)

-- A command with data to come: the data is waited for.
unfoldable pub await_data : World → State → State
unfolding set_phase send_event elsewhere
await_data w s =
    if s.hdlr.usb_cmd.code == Code.opcode_sendobject
    then set_phase Phase.dataout (
        send_event Event.start_dataout (
          send_event Event.start_dataout
            (if elsewhere w s.filepath then record s { is_send_object = true } else s)))
    else set_phase Phase.dataout s

unfoldable pub send_object_done : World → State → State
unfolding send_object send_event
send_object_done w s =
    send_event Event.done_dataout (record (send_object w s) { is_send_object = false })

unfoldable pub send_partial_done : State → State
unfolding send_partial_object send_event
send_partial_done s =
    send_event Event.done_dataout
      (record (send_partial_object s) { is_send_object = false; is_send_partial_object = true })

-- The handlers of commands with data.
unfoldable pub with_payload : World → State → Option State
unfolding send_object_info send_object_done set_object_prop_value
with_payload w s =
    if s.hdlr.usb_cmd.code == Code.opcode_sendobjectinfo
    then send_object_info w s
    else if s.hdlr.usb_cmd.code == Code.opcode_sendobject
    then some (send_object_done w s)
    else some (set_object_prop_value w s)

-- The switch, but for the commands with data and the deletion.
unfoldable pub dispatch : World → State → State
unfolding close_session reset_device power_down begin_end_edit_object vendor_command1
    get_object_prop_desc storage_ids get_storage_info object_handles get_object_info get_object
    get_partial_object get_interdep_prop_desc send_event send_response_code
dispatch w s =
    let code = s.hdlr.usb_cmd.code in
    if code == Code.opcode_closesession
    then close_session s
    else if code == Code.opcode_getstorageids
    then storage_ids w s
    else if code == Code.opcode_getstorageinfo
    then get_storage_info w s
    else if code == Code.opcode_getobjecthandles
    then object_handles w s
    else if code == Code.opcode_getobjectinfo
    then get_object_info w s
    else if code == Code.opcode_getobject
    then send_event Event.done_datain (get_object w (send_event Event.start_datain s))
    else if code == Code.opcode_android_getpartialobject || code == Code.opcode_getpartialobject
    then get_partial_object w s
    else if code == Code.opcode_resetdevice
    then reset_device s
    else if code == Code.opcode_getobjectpropdesc
    then get_object_prop_desc w s
    else if code == Code.opcode_powerdown
    then power_down s
    else if code == Code.opcode_getinterdeppropdesc
    then get_interdep_prop_desc w s
    else if code == Code.opcode_vendor_op1
    then vendor_command1 s
    else if code == Code.opcode_android_begineditobject || code == Code.opcode_android_endeditobject
    then begin_end_edit_object s
    else send_response_code Code.response_op_not_supported s

abbrev pub takes_data : ℕ → Bool
takes_data code =
    code == Code.opcode_sendobjectinfo
    || (code == Code.opcode_sendobject || code == Code.opcode_setobjectpropvalue)

-- In a session.
unfoldable pub serve : World → State → Option State
unfolding finish_with await_data with_payload dispatch delete send_partial_done set_phase send_event
serve w s =
    let code = s.hdlr.usb_cmd.code in
    if takes_data code
    then (if is_idle s.phase then some (await_data w s) else finish_with (with_payload w s))
    else if code == Code.opcode_android_sendpartialobject
    then (if is_idle s.phase
        then some (set_phase Phase.dataout (send_event Event.start_dataout s))
        else finish_with (some (send_partial_done s)))
    else if code == Code.opcode_deleteobject
    then finish_with (delete w s)
    else finish_with (some (dispatch w s))

unfoldable pub run : World → State → Option State
unfolding serve finish get_device_info open_session send_response_code set_phase
run w s =
    let code = s.hdlr.usb_cmd.code in
    if code == Code.opcode_getdeviceinfo
    then some (finish (get_device_info w s))
    else if code == Code.opcode_opensession
    then some (finish (open_session s))
    else if s.hdlr.session_id == 0
    then some (finish (set_phase Phase.idle (send_response_code Code.response_sessionnotopen s)))
    else serve w s

abbrev pub with_cmd : CmdContainer → State → State
with_cmd c s = record s { hdlr = record s.hdlr { usb_cmd = c } }

-- The local copy of the command.
unfoldable pub process_copy : World → State → Option CmdContainer → Option State
unfolding run
process_copy w s none = none
process_copy w s (some c) = run w (with_cmd c s)

-- `none` is fuel that ran out or an access outside a structure.
unfoldable pub process_commands : World → CmdContainer → State → Option State
unfolding process_copy
process_commands w cmd s = process_copy w s (copy_cmd_container cmd s.hdlr.usb_cmd)
