-- ===== src/Handler/Receive/Control.antt =====
-- Packets and control events in src/mtp_cmd_handler.c: a cancelled transaction, the reset of the device,
-- and `_receive_mq_data_cb`.
use cmtp_responder.Base.{
  ℕ, zero, suc, ◌+◌, ◌-◌, ◌*◌, Bool, ◌&&◌, ◌||◌, Option, none, some, List, ltb, ◌==◌, if◌then◌else◌,
  length, take, drop,
}
use cmtp_responder.Base.Bytes.{blit}
use cmtp_responder.Container.Kind
use cmtp_responder.Container.{header_size, read_header}
use cmtp_responder.Entity.Code
use cmtp_responder.Handler.{World, Phase, tick}
use cmtp_responder.Handler.Event
use cmtp_responder.Handler.Receive.{Mgr, set_phase_of, receive_packet}

-- The header that would be that of a command with `i` parameters at the end of the data; `none` is a
-- read in front of the buffer.
unfoldable pub header_at : List ℕ → ℕ → Option (List ℕ)
header_at buffer i =
    if ltb (length buffer) (header_size + 4 * i)
    then none
    else some (drop (length buffer - (header_size + 4 * i)) buffer)

is_command : List ℕ → ℕ → Bool
is_command tail i =
    (read_header tail).len == header_size + 4 * i && (read_header tail).type == Kind.cmd_blk

-- The command that ends the data, in front of what is left of the buffer, and its length.
look_at : Option (List ℕ) → ℕ → List ℕ → Option (List ℕ × ℕ) → Option (List ℕ × ℕ)
unfolding is_command
look_at none i buffer rest = none
look_at (some tail) i buffer rest =
    let len = header_size + 4 * i in
    if is_command tail i then some (blit 0 (take len tail) buffer, len) else rest

-- `left` of the five counts of parameters are still to be tried.
unfoldable pub find_command : (left : ℕ) → List ℕ → Option (List ℕ × ℕ)
unfolding look_at header_at
find_command zero buffer = some (buffer, length buffer)
find_command (suc left) buffer =
    let rest = find_command left buffer in
    look_at (header_at buffer (5 - suc left)) (5 - suc left) buffer rest

-- The file that is open is closed and removed.
unfoldable pub drop_file : Mgr → Mgr
drop_file m = record m {
  st = record m.st { mtp_op_state = Event.state_onservice };
  temp = record m.temp { fhandle = none };
  ctrl_event_code = 0;
}

receive_found : World → Mgr → Option (List ℕ × ℕ) → Option Mgr
unfolding receive_packet
receive_found w m none = none
receive_found w m (some (buffer, buf_len)) = receive_packet w (take buf_len buffer) m

-- A cancelled transaction ends with a short packet, which may hold the next command.
unfoldable pub cancel_transaction : World → List ℕ → Mgr → Option Mgr
unfolding receive_found find_command drop_file set_phase_of
cancel_transaction w buffer m =
    let idle = set_phase_of Phase.idle m in
    let ended = receive_found w (drop_file idle) (find_command 5 buffer) in
    if length buffer == w.read_usb_size || ltb (length buffer) header_size
    then some (record idle { ctrl_event_code = Code.eventcode_canceltransaction })
    else ended

-- The session is closed.
unfoldable pub device_reset : Mgr → Mgr
unfolding set_phase_of
device_reset m =
    let idle = set_phase_of Phase.idle m in
    record idle {
      st = record idle.st {
        hdlr = record idle.st.hdlr { session_id = 0 };
        mtp_op_state = Event.state_onservice;
      };
      ctrl_event_code = 0;
    }

-- The control event is taken: what the code set, or what the driver did.
unfoldable pub control_event_of : World → Mgr → ℕ
control_event_of w m =
    if m.ctrl_event_code == 0 then w.control_event m.st.clock else m.ctrl_event_code

-- `_receive_mq_data_cb`; the buffer is not NULL.
unfoldable pub receive_mq_data_cb : World → List ℕ → Mgr → Option Mgr
unfolding receive_packet cancel_transaction device_reset control_event_of tick
receive_mq_data_cb w buffer m =
    let event = control_event_of w m in
    let taken = record m { st = tick m.st; ctrl_event_code = 0 } in
    let packet = receive_packet w buffer taken in
    let reset = receive_packet w buffer (device_reset taken) in
    let cancel = cancel_transaction w buffer taken in
    if ltb m.st.mtp_op_state Event.state_ready_service
    then some m
    else if event == Code.eventcode_canceltransaction
    then cancel
    else if event == Code.eventcode_devicereset
    then reset
    else packet
