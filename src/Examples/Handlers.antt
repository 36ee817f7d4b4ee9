-- ===== src/Examples/Handlers.antt =====
-- Runs of the command handler of src/mtp_cmd_handler.c on a device with one store.
use cmtp_responder.Base.{
  ℕ, ◌+◌, ◌≤◌, ◌≡◌, refl, true, false, Option, none, some, List, [], ◌∷◌, arith,
}
use cmtp_responder.Base.Bytes.{le_value}
use cmtp_responder.Examples.{granting, granting-Grants}
use cmtp_responder.Examples.Stores.{store, store-Ordered, letter, three, three-IsHandles, failing}
use cmtp_responder.Examples.Devices.{device}
use cmtp_responder.Container.{
  CmdContainer, read_header, read_field, init_data_container, get_param_cmd_container,
}
use cmtp_responder.Property.PtpArray.Append.{max_elements}
use cmtp_responder.Entity.Code
use cmtp_responder.Entity.Object.{Obj, ObjInfo, init_mtp_object_params}
use cmtp_responder.Entity.Store.{Store, add_object_to_store, add_file_to_store}
use cmtp_responder.Entity.Device.{Device, get_store, find_store}
use cmtp_responder.Handler.{World, State, DataSet, MtpErr, Phase, zero_blk, tick}
use cmtp_responder.Entity.Store.Enumerate.{Files, recursive_enum_folder_objects, enum_entries}
use cmtp_responder.Support.{strlcpy, name_loop, get_file_name}
use cmtp_responder.Handler.Sessions.{zero_data}
use cmtp_responder.Handler.Incoming.{add_object_entry}
use cmtp_responder.Handler.Util.{fill_empty, enumerate_stores, get_object_handles}
use cmtp_responder.Handler.Writes.{send_object, rcv_file_in_data_container}
use cmtp_responder.Handler.Process.{process_commands, with_cmd}
use cmtp_responder.Handler.Answers.{Answered}
use cmtp_responder.Handler.Answering.{IsDeletable, process_commands-Answered}
use cmtp_responder.Entity.Device.Terminates.{AllFit}
use cmtp_responder.Handler.Sessionless.{IsRefused, process_commands-IsRefused}
use cmtp_responder.Handler.Reserve.{Reserves, add_object_entry-Reserves}
use cmtp_responder.Handler.Handles.{
  Enumerated, Lists, AllWords, wanted, asked, count_objects, get_object_handles-Lists,
}
use cmtp_responder.Handler.Once.{IsBare, IsRejected, file_of, send_object-IsRejected}

abbrev two_bytes : DataSet
two_bytes = record { size = 2; pack = λ (n : ℕ). 1 ∷ 2 ∷ [] }

-- Everything is granted, sent and moved; a file of no bytes comes with SendObject.
abbrev pub around : World
around = record {
  mem = granting;
  env = failing;
  fuel = 1;
  read_file_size = 512;
  usb_packet_len = 512;
  read_usb_size = 16;
  write_file_size = 20;
  send = λ (now bytes : ℕ). bytes;
  control_event = λ (now : ℕ). 0;
  rcv_temp_file_data = λ (now : ℕ). 12 ∷ 0 ∷ 0 ∷ 0 ∷ 2 ∷ 0 ∷ 12 ∷ 16 ∷ 0 ∷ 0 ∷ 0 ∷ 0 ∷ [];
  rcv_temp_file_info = λ (now : ℕ). record {
    block = 12 ∷ 0 ∷ 0 ∷ 0 ∷ 2 ∷ 0 ∷ 13 ∷ 16 ∷ 0 ∷ 0 ∷ 0 ∷ 0 ∷ [];
    path = 47 ∷ 116 ∷ [];
    bytes_rcvd = 12;
  };
  file_open = λ (now : ℕ) (path : List ℕ). none;
  file_seek = λ (now offset : ℕ). true;
  file_read = λ (now : ℕ) (path : List ℕ) (bytes : ℕ). [];
  access = λ (now : ℕ) (path : List ℕ). true;
  remove_file = λ (now : ℕ) (path : List ℕ). true;
  file_write = λ (bytes : List ℕ). bytes;
  fresh_name = λ (now : ℕ). 47 ∷ 120 ∷ [];
  file_move = λ (now : ℕ) (from to : List ℕ). true;
  dir_create = λ (now : ℕ) (path : List ℕ). true;
  file_create = λ (now : ℕ) (path : List ℕ). true;
  filesystem_info = λ (now : ℕ) (path : List ℕ). none;
  is_path_len_valid = λ (path : List ℕ). true;
  files_below = λ (now : ℕ) (path : List ℕ).
      Files.file false (47 ∷ 110 ∷ []) (record { attribute = some false; fsize = 3 }) Files.end;
  fmtcode = λ (name : List ℕ). 0x3000;
  utf8_to_utf16 = λ (units : ℕ) (name : List ℕ). name;
  utf16_to_utf8 = λ (bytes : ℕ) (name : List ℕ). name;
  tmp_name = λ (handle : ℕ). 84 ∷ [];
  get_parent_path = λ (path : List ℕ). [];
  device_info = two_bytes;
  store_info = λ (st : Store). two_bytes;
  obj_info = λ (now : ℕ) (obj : Obj). two_bytes;
  prop_desc = λ (fmt prop : ℕ). some two_bytes;
  interdep_prop_config_list = λ (fmt : ℕ). two_bytes;
  update_object_property =
      λ (now : ℕ) (d : Device) (handle prop : ℕ) (payload : Option (List ℕ)) (bytes : ℕ).
        (d, MtpErr.ok);
}

-- A session with the data of a command to come.
abbrev waiting : State
waiting = record {
  hdlr = record {
    usb_cmd = zero_blk;
    data4_send_obj = zero_data;
    session_id = 1;
    last_opcode = 0;
    last_fmt_code = 0;
  };
  phase = Phase.dataout;
  mtp_op_state = 3;
  device = device;
  default_store_id = 0x20001;
  default_hparent = 0;
  next_obj_handle = 5;
  is_send_object = false;
  is_send_partial_object = false;
  filepath = none;
  clock = 0;
  sent = [];
}

abbrev closed : State
closed = record waiting { hdlr = record waiting.hdlr { session_id = 0 } }

abbrev cmd_of : ℕ → CmdContainer
cmd_of code = record {
  header = record { len = 12; type = 1; code = code; tid = 7 };
  params = 0 ∷ 0 ∷ 0 ∷ 0 ∷ 0 ∷ [];
  no_param = 0;
}

abbrev announce : CmdContainer
announce = cmd_of Code.opcode_sendobjectinfo

-- The removal of the letter, whose handle is 2.
abbrev remove : CmdContainer
remove = record {
  header = record { len = 20; type = 1; code = Code.opcode_deleteobject; tid = 7 };
  params = 2 ∷ 0 ∷ 0 ∷ 0 ∷ 0 ∷ [];
  no_param = 2;
}

abbrev deleting : World
deleting = record around { fuel = 5 }

store-AllFit : AllFit 4 (store ∷ [])
store-AllFit = (record { ordered = store-Ordered; few = omega arith }, tt)

remove-IsDeletable : IsDeletable deleting waiting 2
remove-IsDeletable = record {
  one = omega arith;
  granted = granting-Grants;
  bound = 4;
  small = omega arith;
  enough = omega arith;
  fits = store-AllFit;
}

process_commands_example :
    (t : State) × (process_commands deleting remove waiting ≡ some t)
    × Answered (with_cmd remove waiting) t
unfolding get_param_cmd_container
process_commands_example =
    process_commands-Answered deleting remove waiting refl refl (omega arith)
      (λ e. absurd (omega arith)) (λ e. remove-IsDeletable)

process_commands-IsRefused_example :
    (t : State) × (process_commands around (cmd_of Code.opcode_getobjecthandles) closed ≡ some t)
    × IsRefused (cmd_of Code.opcode_getobjecthandles) closed t
process_commands-IsRefused_example =
    process_commands-IsRefused around (cmd_of Code.opcode_getobjecthandles) closed refl refl
      (omega arith) refl refl (λ e. omega arith) (λ e. omega arith)

abbrev note : ObjInfo
note = record letter.obj_info { h_parent = 0 }

abbrev roomy : Store
roomy = record store { free_space = 1000 }

roomy_there : get_store (record { store_list = roomy ∷ [] }) 0x20001 ≡ some roomy
unfolding get_store find_store
roomy_there = refl

add_object_entry_example : Reserves 0x20001 roomy 0x3004 700 (
    add_object_entry around note
      (97 ∷ [])
      (record waiting { device = record { store_list = roomy ∷ [] } }))
add_object_entry_example =
    add_object_entry-Reserves around note (97 ∷ [])
      (record waiting { device = record { store_list = roomy ∷ [] } }) roomy roomy_there

-- The store holds nothing yet; one file is found below its root path.
abbrev unread : State
unread = record waiting { device = record { store_list = record store { obj_list = [] } ∷ [] } }

enumerated_words : AllWords (enumerate_stores around 0 unread).device.store_list
unfolding enumerate_stores fill_empty tick recursive_enum_folder_objects get_file_name name_loop
    strlcpy add_file_to_store add_object_to_store init_mtp_object_params enum_entries
enumerated_words = ((omega arith, tt), tt)

few_objects : 3 + count_objects (enumerate_stores around 0 unread).device.store_list ≤ max_elements
unfolding enumerate_stores fill_empty tick recursive_enum_folder_objects get_file_name name_loop
    strlcpy add_file_to_store add_object_to_store init_mtp_object_params enum_entries count_objects
few_objects = omega arith

get_object_handles_example :
    Enumerated around unread 0 (get_object_handles around unread 0x20001 0 0 three).0
    × Lists three
        (wanted 0 0)
        (get_object_handles around unread 0x20001 0 0 three).1
        (asked (get_object_handles around unread 0x20001 0 0 three).0.device 0x20001 0)
get_object_handles_example =
    get_object_handles-Lists around granting-Grants unread 0x20001 0 0 three enumerated_words
      three-IsHandles few_objects

abbrev sending : State
sending = record waiting {
  hdlr = record waiting.hdlr {
    usb_cmd = record zero_blk { header = record { len = 12; type = 1; code = 0x100D; tid = 0 } };
    data4_send_obj = record zero_data { store_id = 0x20001; is_valid = true; obj = some letter };
  };
}

sending-IsBare : IsBare sending
unfolding get_param_cmd_container
sending-IsBare = refl

store_there : get_store device 0x20001 ≡ some store
unfolding get_store find_store
store_there = refl

file_came : (file_of around sending).1 ≡ true
unfolding rcv_file_in_data_container read_header read_field init_data_container le_value
file_came = refl

send_object_example :
    (get_store (send_object around sending).device 0x20001
      ≡ some (add_object_to_store granting store letter))
    × IsRejected (send_object around sending) (send_object around (send_object around sending))
send_object_example =
    send_object-IsRejected around around sending letter store sending-IsBare store_there refl refl
      file_came refl
