-- ===== src/Handler.antt =====
-- src/mtp_cmd_handler.c and src/mtp_cmd_handler_util.c: the state of the command handler, what it
-- sends to the host, and what it asks of its surroundings.
pub mod Event
pub mod Util
pub mod Incoming
pub mod Sessions
pub mod Reads
pub mod Writes
pub mod Process
pub mod Finish
pub mod Answers
pub mod Told
pub mod Answering
pub mod Reserve
pub mod Handles
pub mod Once
pub mod Receive
pub mod Sessionless
use cmtp_responder.Base.{
  ℕ, ◌+◌, Bool, true, false, not, Option, none, some, List, [], ◌∷◌, ◌==◌, if◌then◌else◌, length,
}
use cmtp_responder.Base.Bytes.{blit}
use cmtp_responder.Property.PtpArray.{Allocator}
use cmtp_responder.Container.{
  CmdContainer, DataContainer, header_size, get_param_cmd_container, resp_container_init,
  add_param_resp_container, init_data_container, alloc_buf_data_container,
}
use cmtp_responder.Entity.Code
use cmtp_responder.Entity.Object.{Obj}
use cmtp_responder.Entity.Store.{Store}
use cmtp_responder.Entity.Store.Delete.{Env}
use cmtp_responder.Entity.Store.Enumerate.{Files}
use cmtp_responder.Entity.Device.{Device}

-- `device_phase_t`
pub data Phase : Type 0 where
  notready idle datain dataout response : Phase

-- `mtp_err_t`, as far as the handler tells its values apart; `other` stands for the rest.
pub data MtpErr : Type 0 where
  ok general invalid_store store_read_only store_full invalid_objecthandle : MtpErr
  invalid_obj_prop_code invalid_parent access_denied store_not_available : MtpErr
  invalid_param invalid_object_info object_write_protected partial_deletion other : MtpErr

-- `data_4send_object_t`
pub record SendData : Type 0 where
  pub store_id : ℕ
  pub h_parent : ℕ
  pub obj_handle : ℕ
  pub is_valid : Bool
  pub is_data_sent : Bool
  pub file_size : ℕ
  pub obj : Option Obj

-- `mtp_handler_t`
pub record Handler : Type 0 where
  pub usb_cmd : CmdContainer
  pub data4_send_obj : SendData
  pub session_id : ℕ
  pub last_opcode : ℕ
  pub last_fmt_code : ℕ

-- What leaves the handler: a response, a packet of data, or an event for the event thread.
pub data Sent : Type 0 where
  reply : CmdContainer → Sent
  packet : List ℕ → Sent
  event : ℕ → Sent

-- The handler, the part of `g_device` and `g_status` that it changes, the counter of handles, the
-- flags and the path of the temporary file, the time, and what was sent, the latest first.
pub record State : Type 0 where
  pub hdlr : Handler
  pub phase : Phase
  pub mtp_op_state : ℕ
  pub device : Device
  pub default_store_id : ℕ
  pub default_hparent : ℕ
  pub next_obj_handle : ℕ
  pub is_send_object : Bool
  pub is_send_partial_object : Bool
  pub filepath : Option (List ℕ)
  pub clock : ℕ
  pub sent : List Sent

-- A data set that a function packs: its size, and the bytes that are written for a size. The
-- function returns how many it wrote, and 0 for a NULL buffer.
pub record DataSet : Type 0 where
  pub size : ℕ
  pub pack : ℕ → List ℕ

-- What the host sends with SendObject: the header of its block, the path of the temporary file and
-- the number of bytes that came.
pub record TempFile : Type 0 where
  pub block : List ℕ
  pub path : List ℕ
  pub bytes_rcvd : ℕ

-- The surroundings. Answers that other threads, the host or the file system give depend on the time,
-- which advances with every question. A failure is its `errno`.
pub record World : Type 0 where
  pub mem : Allocator
  pub env : Env
  pub fuel : ℕ
  pub read_file_size : ℕ
  pub usb_packet_len : ℕ
  pub read_usb_size : ℕ
  pub write_file_size : ℕ
  -- How many of so many bytes the transport sends.
  pub send : ℕ → ℕ → ℕ
  pub control_event : ℕ → ℕ
  pub rcv_temp_file_data : ℕ → List ℕ
  pub rcv_temp_file_info : ℕ → TempFile
  pub file_open : ℕ → List ℕ → Option ℕ
  pub file_seek : ℕ → ℕ → Bool
  pub file_read : ℕ → List ℕ → ℕ → List ℕ
  pub access : ℕ → List ℕ → Bool
  pub remove_file : ℕ → List ℕ → Bool
  -- The part of the bytes that reaches a file.
  pub file_write : List ℕ → List ℕ
  -- A new name below `/tmp` for a temporary file.
  pub fresh_name : ℕ → List ℕ
  pub file_move : ℕ → List ℕ → List ℕ → Bool
  pub dir_create : ℕ → List ℕ → Bool
  pub file_create : ℕ → List ℕ → Bool
  -- The size of the file system below a path and the bytes available on it.
  pub filesystem_info : ℕ → List ℕ → Option (ℕ × ℕ)
  pub is_path_len_valid : List ℕ → Bool
  -- What is found below a root path, and the format of a file by its name.
  pub files_below : ℕ → List ℕ → Files
  pub fmtcode : List ℕ → ℕ
  pub utf8_to_utf16 : ℕ → List ℕ → List ℕ
  pub utf16_to_utf8 : ℕ → List ℕ → List ℕ
  -- `Tmp_%04u.dat`
  pub tmp_name : ℕ → List ℕ
  pub get_parent_path : List ℕ → List ℕ
  pub device_info : DataSet
  pub store_info : Store → DataSet
  pub obj_info : ℕ → Obj → DataSet
  pub prop_desc : ℕ → ℕ → Option DataSet
  pub interdep_prop_config_list : ℕ → DataSet
  pub update_object_property : ℕ → Device → ℕ → ℕ → Option (List ℕ) → ℕ → Device × MtpErr

unfoldable pub set_phase : Phase → State → State
set_phase p s = record s { phase = p }

unfoldable pub tick : State → State
tick s = record s { clock = s.clock + 1 }

unfoldable pub emit : Sent → State → State
emit e s = record s { sent = e ∷ s.sent }

-- `_eh_send_event_req_to_eh_thread`
unfoldable pub send_event : ℕ → State → State
unfolding emit
send_event e s = emit (Sent.event e) s

-- `resp_blk_t blk = { 0 };`
abbrev pub zero_blk : CmdContainer
zero_blk = record {
  header = record { len = 0; type = 0; code = 0; tid = 0 };
  params = 0 ∷ 0 ∷ 0 ∷ 0 ∷ 0 ∷ [];
  no_param = 0;
}

-- No caller reads whether the block was sent.
unfoldable pub send_response : ℕ → ℕ → Option (List ℕ) → State → State
unfolding set_phase tick emit
send_response resp num_param params s =
    let blk =
      (add_param_resp_container (resp_container_init zero_blk resp s.hdlr.usb_cmd.tid) num_param
        params).0 in
    set_phase Phase.idle (tick (emit (Sent.reply blk) (set_phase Phase.response s)))

unfoldable pub send_response_code : ℕ → State → State
unfolding send_response
send_response_code resp s = send_response resp 0 none s

abbrev pub param : ℕ → State → ℕ
param i s = get_param_cmd_container s.hdlr.usb_cmd i

abbrev pub has_param : ℕ → State → Bool
has_param i s = not (param i s == 0)

-- The packet of a data container, and whether all of it was sent.
unfoldable pub send_data_container : World → List ℕ → State → State × Bool
unfolding tick emit
send_data_container w blk s =
    (tick (emit (Sent.packet blk) s), w.send s.clock (length blk) == length blk)

-- The tail of the handlers that answer with data: OK where the block was sent; where the host
-- cancelled, the phase says so and there is no response.
unfoldable pub after_send : State × Bool → State
unfolding set_phase send_response_code
after_send (s, true) = send_response_code Code.response_ok s
after_send (s, false) = set_phase Phase.notready s

-- The block with the payload behind its header.
abbrev pub fill : DataContainer → List ℕ → List ℕ
fill blk payload = elim blk.block [ none ↦ [] | some bytes ↦ blit header_size payload bytes ]

-- Packs a data set into a new block and sends it where the sizes agree.
unfoldable pub send_data_set : World → DataSet → State → State
unfolding set_phase send_data_container after_send send_response_code
send_data_set w data_set s =
    let (blk, granted) =
      alloc_buf_data_container w.mem (init_data_container s.hdlr.usb_cmd.code s.hdlr.usb_cmd.tid)
        data_set.size data_set.size in
    let payload = if granted then data_set.pack data_set.size else [] in
    if data_set.size == length payload
    then after_send (send_data_container w (fill blk payload) (set_phase Phase.datain s))
    else send_response_code Code.response_gen_error s
