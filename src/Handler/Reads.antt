-- ===== src/Handler/Reads.antt =====
-- The handlers of src/mtp_cmd_handler.c that send data to the host.
use cmtp_responder.Base.{
  ℕ, zero, suc, ◌+◌, ◌-◌, ◌%◌, ◌^◌, Bool, true, false, not, ◌&&◌, ◌||◌, Option, none, some, List,
  [], ◌∷◌, ltb, ◌==◌, if◌then◌else◌, length,
}
use cmtp_responder.Property.PtpArray.{PtpArray, get_size_ptparray, pack_ptparray, zeroed}
use cmtp_responder.Container.{
  DataContainer, header_size, init_data_container, alloc_buf_data_container,
}
use cmtp_responder.Entity.Code
use cmtp_responder.Entity.Object.{Obj}
use cmtp_responder.Entity.Store.{fresh_handles}
use cmtp_responder.Entity.Device.{get_object_with_handle}
use cmtp_responder.Handler.{
  World, State, MtpErr, Phase, Sent, param, has_param, set_phase, tick, emit, send_response,
  send_response_code, send_data_container, after_send, fill, send_data_set,
}
use cmtp_responder.Handler.Util.{
  get_storage_entry, get_storage_ids, get_object_entry, get_object_entry_size, get_object_handles,
}
use cmtp_responder.Handler.Incoming.{read_file_data_from_offset}

-- A new block for the command at hand, and whether memory was granted.
abbrev pub new_block : World → ℕ → ℕ → State → DataContainer × Bool
new_block w bufsz pkt_size s =
    alloc_buf_data_container w.mem (init_data_container s.hdlr.usb_cmd.code s.hdlr.usb_cmd.tid)
      bufsz pkt_size

unfoldable pub get_object_prop_desc : World → State → State
unfolding send_response_code send_data_set
get_object_prop_desc w s =
    if has_param 2 s
    then send_response_code Code.response_param_notsupported s
    else elim (w.prop_desc (param 1 s) (param 0 s)) [
      | none ↦ send_response_code Code.response_prop_notsupported s
      | some prop ↦ send_data_set w prop s
    ]

unfoldable pub get_device_info : World → State → State
unfolding send_response_code send_data_set
get_device_info w s =
    if has_param 0 s || (has_param 1 s || has_param 2 s)
    then send_response_code Code.response_param_notsupported s
    else if s.hdlr.session_id == 0 && not (s.hdlr.usb_cmd.tid == 0)
    then send_response_code Code.response_param_notsupported s
    else send_data_set w w.device_info s

-- The payload of an array: what `_prop_pack_ptparray` writes into the block.
abbrev pub packed : PtpArray → List ℕ
packed a = elim (pack_ptparray a (some (zeroed (get_size_ptparray a))) (get_size_ptparray a)).0 [
  | none ↦ []
  | some bytes ↦ bytes
]

-- The host that cancelled is answered all the same.
unfoldable pub after_send_ids : State × Bool → State
unfolding set_phase send_response_code
after_send_ids (s, true) = send_response_code Code.response_ok s
after_send_ids (s, false) = send_response_code Code.response_gen_error (set_phase Phase.notready s)

unfoldable pub send_ids : World → PtpArray × MtpErr → State → State
unfolding set_phase send_data_container after_send_ids send_response_code
send_ids w (ids, MtpErr.ok) s =
    let (blk, granted) = new_block w (get_size_ptparray ids) (get_size_ptparray ids) s in
    if granted
    then after_send_ids (send_data_container w (fill blk (packed ids)) (set_phase Phase.datain s))
    else send_response_code Code.response_gen_error s
send_ids w (ids, e) s = send_response_code Code.response_gen_error s

-- The handler `__get_storage_ids`.
unfoldable pub storage_ids : World → State → State
unfolding send_ids send_response_code
storage_ids w s =
    if has_param 0 s || (has_param 1 s || has_param 2 s)
    then send_response_code Code.response_param_notsupported s
    else send_ids w (get_storage_ids w.mem s.device (fresh_handles w.mem)) s

unfoldable pub get_storage_info : World → State → State
unfolding send_response_code send_data_set get_storage_entry
get_storage_info w s =
    if has_param 1 s || has_param 2 s
    then send_response_code Code.response_param_notsupported s
    else (let (s', store) = get_storage_entry w (param 0 s) s in
        elim store [
          | none ↦ send_response_code Code.response_invalid_store_id s'
          | some st ↦ send_data_set w (w.store_info st) s'
        ])

unfoldable pub handles_response : MtpErr → ℕ
handles_response MtpErr.invalid_store = Code.response_invalid_store_id
handles_response MtpErr.invalid_objecthandle = Code.response_invalid_obj_handle
handles_response MtpErr.invalid_parent = Code.response_invalidparent
handles_response MtpErr.store_not_available = Code.response_storenotavailable
handles_response MtpErr.ok = Code.response_ok
handles_response e = Code.response_gen_error

-- The array in a block; no memory for it is an error.
unfoldable pub send_handles : World → PtpArray → State → State
unfolding set_phase send_data_container after_send send_response_code
send_handles w arr s =
    let (blk, granted) = new_block w (get_size_ptparray arr) (get_size_ptparray arr) s in
    if granted
    then after_send (send_data_container w (fill blk (packed arr)) (set_phase Phase.datain s))
    else send_response_code Code.response_gen_error s

-- The handler `__get_object_handles`.
unfoldable pub object_handles : World → State → State
unfolding send_handles send_response_code handles_response
object_handles w s =
    let (s', (arr, e)) =
      get_object_handles w s (param 0 s) (param 1 s) (param 2 s) (fresh_handles w.mem) in
    if not (handles_response e == Code.response_ok)
    then send_response_code (handles_response e) s'
    else send_handles w arr s'

unfoldable pub get_object_info : World → State → State
unfolding send_response_code send_data_set get_object_entry
get_object_info w s =
    if has_param 1 s || has_param 2 s
    then send_response_code Code.response_param_notsupported s
    else elim (get_object_entry s.device (param 0 s)) [
      | none ↦ send_response_code Code.response_invalid_obj_handle s
      | some obj ↦ send_data_set w (w.obj_info s.clock obj) s
    ]

-- One packet: whether it went out, the host not having cancelled.
unfoldable pub send_packet : World → List ℕ → State → State × Bool
unfolding tick emit
send_packet w bytes s =
    if w.control_event s.clock == Code.eventcode_canceltransaction then (tick s, false) else (
      tick (tick (emit (Sent.packet bytes) s)),
      w.send (s.clock + 1) (length bytes) == length bytes,
    )

-- The packets behind the first, while `left` bytes are; each takes one at least, so that the rounds
-- are as many. The result is the response.
unfoldable pub packets : World → List ℕ → (rounds left : ℕ) → State → State × ℕ
unfolding send_packet tick set_phase
packets w path zero left s = (s, Code.response_ok)
packets w path (suc rounds) left s =
    let bytes = w.file_read s.clock path w.read_file_size in
    let (s', went) = send_packet w bytes (tick s) in
    let rest = packets w path rounds (left - length bytes) s' in
    if left == 0
    then (s, Code.response_ok)
    else if length bytes == 0
    then (set_phase Phase.notready (tick s), Code.response_incompletetransfer)
    else if not went
    then (set_phase Phase.notready s', Code.response_incompletetransfer)
    else rest

-- The first packet has the header; as many bytes go out as were asked for.
unfoldable pub first_packet :
    World → List ℕ → (packet_len num_bytes : ℕ) → DataContainer → State → State × ℕ
unfolding packets send_packet tick set_phase
first_packet w path packet_len num_bytes blk s =
    let bytes = w.file_read s.clock path packet_len in
    let (s', went) = send_packet w (fill blk bytes) (tick s) in
    let left = (num_bytes + header_size) % 2 ^ 64 - (header_size + length bytes) in
    if length bytes == 0
    then (set_phase Phase.notready (tick s), Code.response_incompletetransfer)
    else if not went
    then (set_phase Phase.notready s', Code.response_incompletetransfer)
    else packets w path left left s'

-- `EACCES`
abbrev pub eacces : ℕ
eacces = 13

unfoldable pub opened :
    World → List ℕ → (packet_len num_bytes : ℕ) → DataContainer → Option ℕ → State → State
unfolding first_packet send_response_code set_phase
opened w path packet_len num_bytes blk none s =
    let (s', resp) = first_packet w path packet_len num_bytes blk s in send_response_code resp s'
opened w path packet_len num_bytes blk (some error) s =
    if error == eacces
    then send_response_code Code.response_accessdenied (set_phase Phase.notready s)
    else send_response_code Code.response_gen_error (set_phase Phase.notready s)

-- The file of an object, in packets.
unfoldable pub send_file : World → Obj → State → State
unfolding opened send_response_code set_phase tick
send_file w obj s =
    let packet_len =
      (if ltb ((obj.file_size + header_size) % 2 ^ 64) w.read_file_size
        then obj.file_size % 2 ^ 32
        else (w.read_file_size - header_size) % 2 ^ 32) in
    let (blk, granted) = new_block w packet_len obj.file_size s in
    if not granted
    then send_response_code Code.response_gen_error s
    else opened w obj.file_path packet_len obj.file_size blk (w.file_open s.clock obj.file_path)
        (tick (set_phase Phase.datain s))

-- The handler `__get_object`.
unfoldable pub get_object : World → State → State
unfolding send_file send_response_code
get_object w s =
    if has_param 1 s || has_param 2 s
    then send_response_code Code.response_param_notsupported s
    else elim (get_object_with_handle s.device (param 0 s)) [
      | none ↦ send_response_code Code.response_invalid_obj_handle s
      | some obj ↦ send_file w obj s
    ]

-- How many bytes of a file to send; the difference is taken in 64 bits.
unfoldable pub send_bytes : (f_size offset data_sz : ℕ) → ℕ
send_bytes f_size offset data_sz =
    let there = (f_size + 2 ^ 64 - offset) % 2 ^ 64 in
    if ltb there data_sz then there % 2 ^ 32 else data_sz

-- A packet without bytes ends a transfer that fills its last packet.
unfoldable pub send_zlp : World → ℕ → State → State
unfolding emit
send_zlp w n s = if (n + header_size) % w.usb_packet_len == 0 then emit (Sent.packet []) s else s

unfoldable pub after_send_part : World → ℕ → State × Bool → State
unfolding set_phase send_response send_zlp
after_send_part w n (s, true) = send_response Code.response_ok 1 (some (n ∷ [])) (send_zlp w n s)
after_send_part w n (s, false) = set_phase Phase.notready s

-- What was read, in the block.
unfoldable pub send_part : World → DataContainer → ℕ → State × (MtpErr × List ℕ) → State
unfolding after_send_part send_data_container set_phase send_response_code
send_part w blk n (s, (MtpErr.ok, bytes)) =
    after_send_part w n (send_data_container w (fill blk bytes) (set_phase Phase.datain s))
send_part w blk n (s, (MtpErr.invalid_objecthandle, bytes)) =
    send_response_code Code.response_invalid_obj_handle s
send_part w blk n (s, (e, bytes)) = send_response_code Code.response_gen_error s

-- The handler `__get_partial_object`.
unfoldable pub get_partial_object : World → State → State
unfolding send_part send_bytes send_response_code
get_partial_object w s = elim (get_object_entry_size s.device (param 0 s)) [
  | none ↦ send_response_code Code.response_invalid_obj_handle s
  | some f_size ↦
      let n = send_bytes f_size (param 1 s) (param 2 s) in
      let (blk, granted) = new_block w n n s in
      if granted
      then send_part w blk n (read_file_data_from_offset w (param 0 s) (param 1 s) n s)
      else send_response_code Code.response_gen_error s
]

unfoldable pub get_interdep_prop_desc : World → State → State
unfolding send_response_code send_data_set
get_interdep_prop_desc w s =
    if has_param 1 s || has_param 2 s
    then send_response_code Code.response_param_notsupported s
    else if param 0 s == 0 || param 0 s == 0xFFFFFFFF
    then send_response_code Code.response_invalidcodeformat s
    else send_data_set w (w.interdep_prop_config_list (param 0 s)) s
