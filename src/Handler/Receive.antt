-- ===== src/Handler/Receive.antt =====
-- The reception of packets in src/mtp_cmd_handler.c: commands, and data that are gathered in a
-- temporary file before their command is processed.
pub mod Control
pub mod Gather
pub mod Whole
pub mod First
use cmtp_responder.Base.{
  ℕ, ◌+◌, ◌-◌, ◌%◌, ◌^◌, Bool, true, false, not, ◌&&◌, ◌||◌, Option, none, some, List, [], ◌++◌,
  ltb, ◌==◌, if◌then◌else◌, length, take, drop,
}
use cmtp_responder.Base.Bytes.{blit}
use cmtp_responder.Container.Kind
use cmtp_responder.Container.{
  CmdContainer, header_size, read_header, read_cmd, validate_cmd_container,
  copy_cmd_container_unknown_params,
}
use cmtp_responder.Entity.Code
use cmtp_responder.Handler.{World, State, Handler, Phase, zero_blk, set_phase, tick}
use cmtp_responder.Handler.Event
use cmtp_responder.Handler.Process.{process_commands}

-- `temp_file_struct_t`. The file that is open is what was written to it, and `stored` is what the
-- closed file holds.
pub record Temp : Type 0 where
  pub cmd_buf : List ℕ
  pub header_buf : List ℕ
  pub cmd_size : ℕ
  pub data_size : ℕ
  pub data_count : ℕ
  pub fhandle : Option (List ℕ)
  pub stored : Option (List ℕ)
  pub file_size : ℕ
  pub size_remaining : ℕ
  pub temp_buff : List ℕ

-- `mtp_mgr_t` with the state of the handler, and the control event that the code itself set.
pub record Mgr : Type 0 where
  pub st : State
  pub temp : Temp
  pub ctrl_event_code : ℕ

unfoldable pub set_phase_of : Phase → Mgr → Mgr
unfolding set_phase
set_phase_of p m = record m { st = set_phase p m.st }

with_state : Mgr → Option State → Option Mgr
with_state m none = none
with_state m (some s) = some (record m { st = s })

processed : World → Mgr → Option CmdContainer → Option Mgr
unfolding with_state
processed w m none = none
processed w m (some cmd) = with_state m (process_commands w cmd m.st)

-- The command of a block, of which the parameters are counted by its length.
unfoldable pub process_block : World → List ℕ → Mgr → Option Mgr
unfolding processed
process_block w blk m = processed w m (copy_cmd_container_unknown_params (read_cmd blk) zero_blk)

-- The command is that of the last packet, if this looks like one, or else the one that was saved.
unfoldable pub finish_receiving : World → List ℕ → Mgr → Option Mgr
unfolding set_phase_of
finish_receiving w bytes m =
    let counted = record m { temp = record m.temp { data_count = 0 } } in
    let ready = record counted {
      st = record counted.st { mtp_op_state = Event.state_onservice };
    } in
    let from_packet = process_block w bytes ready in
    let from_saved = process_block w m.temp.cmd_buf ready in
    if validate_cmd_container bytes (length bytes)
    then from_packet
    else if validate_cmd_container m.temp.cmd_buf m.temp.cmd_size
    then from_saved
    else some (set_phase_of Phase.idle counted)

-- The bytes are appended to the file that is open.
unfoldable pub append_to : List ℕ → Option (List ℕ) → Option (List ℕ)
append_to out none = none
append_to out (some there) = some (there ++ out)

unfoldable pub write_out : World → List ℕ → Temp → Temp
unfolding append_to
write_out w bytes t = record t { fhandle = append_to (w.file_write bytes) t.fhandle }

unfoldable pub close_file : Temp → Temp
close_file t = record t { data_size = 0; fhandle = none; stored = t.fhandle }

-- The buffer goes to the file.
unfoldable pub flush : World → Temp → Temp
unfolding write_out
flush w t = record (write_out w (take t.data_size t.temp_buff) t) { data_size = 0 }

-- What is in the buffer goes to the file where the packet would not fit behind it.
unfoldable pub make_room : World → ℕ → Temp → Temp
unfolding flush
make_room w len t = if ltb w.write_file_size ((t.data_size + len) % 2 ^ 32) then flush w t else t

unfoldable pub fill : List ℕ → Temp → Temp
fill bytes t = record t {
  temp_buff = blit t.data_size bytes t.temp_buff;
  data_size = (t.data_size + length bytes) % 2 ^ 32;
}

unfoldable pub count_packet : ℕ → Temp → Temp
count_packet len t = record t {
  data_count = (t.data_count + 1) % 2 ^ 32;
  size_remaining = (t.size_remaining + len) % 2 ^ 32;
}

-- A short packet ends the file, and so does the length that the header announced.
unfoldable pub is_complete : World → ℕ → Temp → Bool
is_complete w len t = ltb len w.read_usb_size || t.size_remaining == t.file_size

-- The file and the buffer after a packet, and whether the file is complete.
unfoldable pub next_packet : World → List ℕ → Temp → Temp × Bool
unfolding make_room fill count_packet is_complete flush close_file
next_packet w bytes t =
    let filled = fill bytes (make_room w (length bytes) (count_packet (length bytes) t)) in
    if is_complete w (length bytes) filled
    then (close_file (flush w filled), true)
    else (filled, false)

after_packet : World → List ℕ → Mgr → Temp × Bool → Option Mgr
unfolding finish_receiving
after_packet w bytes m (t, true) = finish_receiving w bytes (record m { temp = t })
after_packet w bytes m (t, false) = some (record m { temp = t })

unfoldable pub receive_temp_file_next_packets : World → List ℕ → Mgr → Option Mgr
unfolding after_packet next_packet
receive_temp_file_next_packets w bytes m = after_packet w bytes m (next_packet w bytes m.temp)

-- The first packet has the header, which says how long the data are.
unfoldable pub first_of_file : World → List ℕ → Temp → Temp × Bool
unfolding write_out close_file
first_of_file w bytes t =
    let body = drop header_size bytes in
    let opened = record t {
      fhandle = some [];
      header_buf = take header_size bytes;
      file_size = ((read_header bytes).len + 2 ^ 32 - header_size) % 2 ^ 32;
      data_size = (length bytes + 2 ^ 32 - header_size) % 2 ^ 32;
    } in
    if opened.data_size == opened.file_size then (close_file (write_out w body opened), true) else (
      record opened {
        data_count = (t.data_count + 1) % 2 ^ 32;
        size_remaining = opened.data_size;
        temp_buff = blit 0 body t.temp_buff;
      },
      false,
    )

-- Where the command did not name a file, the temporary file has a new name.
name_file : World → State → State
unfolding tick
name_file w s =
    if not s.is_send_object then record (tick s) { filepath = some (w.fresh_name s.clock) } else s

path_of : State → List ℕ
path_of s = elim s.filepath [ none ↦ [] | some path ↦ path ]

-- A file that is there is closed and removed first; `none` is a copy of a negative length.
unfoldable pub receive_temp_file_first_packet : World → List ℕ → Mgr → Option Mgr
unfolding name_file path_of finish_receiving after_packet first_of_file tick
receive_temp_file_first_packet w bytes m =
    let s = name_file w (record m.st { mtp_op_state = Event.state_data_transfer_dl }) in
    let there = w.access s.clock (path_of s) in
    let named = record m { st = tick (tick (tick s)) } in
    let closed = record named { temp = record m.temp { fhandle = none } } in
    let cleared = (if there then closed else named) in
    let failed = finish_receiving w bytes cleared in
    let unopened = record cleared { temp = record cleared.temp { fhandle = none } } in
    if there && not (w.remove_file (s.clock + 1) (path_of s))
    then failed
    else if not (w.file_create (s.clock + 2) (path_of s))
    then finish_receiving w bytes unopened
    else if ltb (length bytes) header_size
    then none
    else after_packet w bytes cleared (first_of_file w bytes cleared.temp)

unfoldable pub save_cmd_buffer : List ℕ → Temp → Temp
save_cmd_buffer bytes t = record t {
  cmd_buf = blit 0 bytes t.cmd_buf;
  cmd_size = length bytes;
  data_count = 0;
}

-- In the phase that waits for data, packets are data; in the idle phase they are commands; in any
-- other the packet is dropped.
unfoldable pub receive_packet : World → List ℕ → Mgr → Option Mgr
unfolding set_phase_of process_block save_cmd_buffer receive_temp_file_first_packet
    receive_temp_file_next_packets
receive_packet w bytes m = elim m.st.phase [
  | Phase.idle ↦
      let run = process_block w bytes (record m { temp = save_cmd_buffer bytes m.temp }) in
      if not (validate_cmd_container bytes (length bytes))
      then some (set_phase_of Phase.notready m)
      else run
  | Phase.dataout ↦
      let first = receive_temp_file_first_packet w bytes m in
      let next = receive_temp_file_next_packets w bytes m in
      if m.temp.data_count == 0 then first else next
  | _ ↦ some (
      set_phase_of Phase.idle
        (record m { st = record m.st { mtp_op_state = Event.state_onservice } }))
]
