-- ===== src/Handler/Writes.antt =====
-- The handlers of src/mtp_cmd_handler.c that change objects: deletion, the two halves of the sending
-- of an object, and the setting of a property.
use cmtp_responder.Base.{
  ℕ, ◌^◌, Bool, true, false, not, ◌&&◌, ◌||◌, Option, none, some, List, [], ◌∷◌, ltb, ◌==◌,
  if◌then◌else◌,
}
use cmtp_responder.Container.Kind
use cmtp_responder.Container.{
  DataContainer, read_header, init_data_container, rcv_data_container, get_payload_data,
  get_payload_size,
}
use cmtp_responder.Entity.Code
use cmtp_responder.Entity.Object.{Obj}
use cmtp_responder.Handler.{
  World, State, SendData, TempFile, MtpErr, Phase, param, has_param, set_phase, tick, send_response,
  send_response_code,
}
use cmtp_responder.Handler.Event
use cmtp_responder.Handler.Util.{remove_object_entry}
use cmtp_responder.Handler.Incoming.{construct_object_entry, write_file_data}

unfoldable pub delete_response : MtpErr → ℕ
delete_response MtpErr.ok = Code.response_ok
delete_response MtpErr.store_read_only = Code.response_store_readonly
delete_response MtpErr.partial_deletion = Code.response_partial_deletion
delete_response MtpErr.object_write_protected = Code.response_writeprotected
delete_response MtpErr.access_denied = Code.response_accessdenied
delete_response MtpErr.invalid_objecthandle = Code.response_invalid_obj_handle
delete_response e = Code.response_gen_error

unfoldable pub after_delete : Option (State × MtpErr) → Option State
unfolding send_response_code delete_response
after_delete none = none
after_delete (some (s, e)) =
    some
      (send_response_code (delete_response e) (record s { mtp_op_state = Event.state_onservice }))

-- The handler `__delete_object`. `none` is fuel that ran out.
unfoldable pub delete : World → State → Option State
unfolding after_delete remove_object_entry send_response_code
delete w s =
    if has_param 2 s
    then some (send_response_code Code.response_param_notsupported s)
    else if not (Code.format_notused == param 1 s) && not (param 0 s == Code.handle_all)
    then some (send_response_code Code.response_invalid_obj_fmtcode s)
    else after_delete (
        remove_object_entry w (param 0 s) (param 1 s)
          (record s { mtp_op_state = Event.state_data_processing }))

abbrev pub with_data : SendData → State → State
with_data d s = record s { hdlr = record s.hdlr { data4_send_obj = d } }

unfoldable pub info_response : MtpErr → ℕ
info_response MtpErr.ok = Code.response_ok
info_response MtpErr.store_not_available = Code.response_storenotavailable
info_response MtpErr.invalid_param = Code.response_param_notsupported
info_response MtpErr.invalid_store = Code.response_invalid_store_id
info_response MtpErr.store_read_only = Code.response_store_readonly
info_response MtpErr.store_full = Code.response_storefull
info_response MtpErr.invalid_object_info = Code.response_invaliddataset
info_response MtpErr.invalid_objecthandle = Code.response_invalid_obj_handle
info_response MtpErr.invalid_parent = Code.response_invalidparent
info_response MtpErr.access_denied = Code.response_accessdenied
info_response e = Code.response_gen_error

-- What is kept for the second half: the object itself unless it is a folder, which is complete.
unfoldable pub keep : (store_id h_parent : ℕ) → Obj → SendData → SendData
keep store_id h_parent obj d =
    if obj.obj_fmt == Code.fmt_association
    then record d {
      obj = none;
      is_valid = false;
      obj_handle = obj.obj_handle;
      h_parent = h_parent;
      store_id = store_id;
    }
    else record d {
      is_valid = true;
      obj_handle = obj.obj_handle;
      h_parent = h_parent;
      store_id = store_id;
      obj = some obj;
      file_size = obj.file_size;
    }

-- The host hears where the object will be; the root is told as 0xFFFFFFFF.
unfoldable pub accept : (store_id h_parent : ℕ) → Obj → State → State
unfolding keep send_response
accept store_id h_parent obj s =
    let d = keep store_id h_parent obj s.hdlr.data4_send_obj in
    let parent = (if not (d.h_parent == Code.handle_root) then d.h_parent else 0xFFFFFFFF) in
    send_response Code.response_ok 3 (some (d.store_id ∷ parent ∷ d.obj_handle ∷ []))
      (record s { hdlr = record s.hdlr { data4_send_obj = d; last_fmt_code = obj.obj_fmt } })

unfoldable pub after_construct :
    (store_id h_parent : ℕ) → Option (State × (MtpErr × Option Obj)) → Option State
unfolding accept info_response send_response_code
after_construct store_id h_parent none = none
after_construct store_id h_parent (some (s, (MtpErr.ok, some obj))) =
    some (accept store_id h_parent obj s)
after_construct store_id h_parent (some (s, (e, obj))) =
    some (send_response_code (info_response e) s)

-- What an earlier SendObjectInfo left is given to the construction, and is no longer valid.
unfoldable pub forget : State → State
forget s =
    let d = s.hdlr.data4_send_obj in
    if d.is_valid then with_data (record d { obj = none; is_valid = false }) s else s

unfoldable pub received_info :
    World → (store_id h_parent : ℕ) → DataContainer × Bool → State → Option State
unfolding after_construct construct_object_entry forget set_phase
received_info w store_id h_parent (blk, false) s = some (set_phase Phase.notready s)
received_info w store_id h_parent (blk, true) s = after_construct store_id h_parent (
    construct_object_entry w store_id h_parent
      (if s.hdlr.data4_send_obj.is_valid then some s.hdlr.data4_send_obj.store_id else none)
      (get_payload_data blk) (get_payload_size blk) (forget s))

-- In the phase that is not ready there is no response.
unfoldable pub refuse : Phase → State → State
unfolding send_response_code
refuse Phase.notready s = s
refuse p s = send_response_code Code.response_param_notsupported s

-- The handler `__send_object_info`. `none` is a write in front of the name's array.
unfoldable pub send_object_info : World → State → Option State
unfolding received_info set_phase tick refuse
send_object_info w s =
    let store_id = (if param 0 s == 0 then s.default_store_id else param 0 s) in
    if has_param 2 s
    then some (refuse s.phase s)
    else received_info w store_id (param 1 s)
        (rcv_data_container w.mem (init_data_container s.hdlr.usb_cmd.code s.hdlr.usb_cmd.tid) 32000
          (w.rcv_temp_file_data s.clock))
        (tick (set_phase Phase.dataout s))

-- The header of the block must be that of the data for this command; the length is not compared for
-- files of 4 GiB and more.
unfoldable pub rcv_file_in_data_container : World → DataContainer → TempFile → DataContainer × Bool
rcv_file_in_data_container w dst file =
    if w.mem.malloc 16
    then (let h = read_header file.block in
        (
          record { header = h; block = some file.block },
          not (
              not (h.len == file.bytes_rcvd) && ltb file.bytes_rcvd (2 ^ 32)
              || (not (h.type == Kind.data_blk)
                  || (not (h.code == dst.code) || not (h.tid == dst.tid)))),
        ))
    else (record dst { block = none }, false)

unfoldable pub file_response : MtpErr → ℕ
file_response MtpErr.invalid_object_info = Code.response_novalid_objinfo
file_response MtpErr.ok = Code.response_ok
file_response MtpErr.store_full = Code.response_storefull
file_response e = Code.response_gen_error

-- The object information is consumed, whatever the outcome.
unfoldable pub consume : State → State
consume s = with_data (record s.hdlr.data4_send_obj { obj = none; is_valid = false }) s

unfoldable pub received_file : World → List ℕ → DataContainer × Bool → State → State
unfolding consume file_response write_file_data set_phase send_response_code
received_file w fpath (blk, false) s =
    send_response_code Code.response_gen_error (set_phase Phase.idle s)
received_file w fpath (blk, true) s =
    let (s', e) =
      write_file_data w s.hdlr.data4_send_obj.store_id s.hdlr.data4_send_obj.obj fpath s in
    consume (send_response_code (file_response e) s')

-- The handler `__send_object`.
unfoldable pub send_object : World → State → State
unfolding received_file set_phase tick send_response_code rcv_file_in_data_container
send_object w s =
    let file = w.rcv_temp_file_info s.clock in
    if has_param 0 s || (has_param 1 s || has_param 2 s)
    then send_response_code Code.response_invalidparam (set_phase Phase.notready s)
    else received_file w file.path
        (rcv_file_in_data_container w (init_data_container s.hdlr.usb_cmd.code s.hdlr.usb_cmd.tid)
          file)
        (tick (set_phase Phase.dataout s))

unfoldable pub property_response : MtpErr → ℕ
property_response MtpErr.access_denied = Code.response_accessdenied
property_response MtpErr.invalid_objecthandle = Code.response_invalid_obj_handle
property_response MtpErr.invalid_obj_prop_code = Code.response_prop_notsupported
property_response MtpErr.general = Code.response_gen_error
property_response MtpErr.ok = Code.response_ok
property_response e = Code.response_invalidpropvalue

unfoldable pub received_value : World → DataContainer × Bool → State → State
unfolding set_phase send_response_code property_response
received_value w (blk, false) s =
    send_response_code Code.response_invalidpropvalue (set_phase Phase.idle s)
received_value w (blk, true) s =
    let (d, e) =
      w.update_object_property s.clock s.device (param 0 s) (param 1 s) (get_payload_data blk)
        (get_payload_size blk) in
    send_response_code (property_response e) (record s { device = d })

unfoldable pub set_object_prop_value : World → State → State
unfolding received_value set_phase tick send_response_code
set_object_prop_value w s =
    if has_param 2 s
    then send_response_code Code.response_param_notsupported s
    else received_value w
        (rcv_data_container w.mem (init_data_container s.hdlr.usb_cmd.code s.hdlr.usb_cmd.tid)
          1000000 (w.rcv_temp_file_data s.clock))
        (tick (set_phase Phase.dataout s))

-- The container is made and dropped.
unfoldable pub send_partial_object : State → State
unfolding set_phase send_response_code
send_partial_object s = send_response_code Code.response_ok (set_phase Phase.datain s)
