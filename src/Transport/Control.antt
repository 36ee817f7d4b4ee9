-- ===== src/Transport/Control.antt =====
-- `__handle_control_request` of src/transport/mtp_usb_driver.c: the class requests of the control
-- endpoint.
use cmtp_responder.Base.{ℕ, Bool, true, false, not, ◌&&◌, ◌||◌, Option, some, if◌then◌else◌}
use cmtp_responder.Entity.Code
use cmtp_responder.Handler.{Phase}
use cmtp_responder.Handler.Event

-- The requests; `other` stands for any other value, GETEVENT among them.
pub data Request : Type 0 where
  cancel_io reset get_status other : Request

-- The static flags of the function, and what it reads or sets of `g_status` and `g_device`.
pub record Ctl : Type 0 where
  pub kernel_reset : Bool
  pub host_cancel : Bool
  pub sent_busy : Bool
  pub ctrl_event_code : ℕ
  pub mtp_op_state : ℕ
  pub phase : Phase
  pub status_ok : Bool

-- `_reset_mtp_device` of src/entity/mtp_device.c.
unfoldable pub reset_mtp_device : Ctl → Ctl
reset_mtp_device c = record c {
  ctrl_event_code = 0;
  mtp_op_state = Event.state_onservice;
  status_ok = true;
  phase = Phase.idle;
}

abbrev pub response_devicebusy : ℕ
response_devicebusy = 0x2019

abbrev pub response_transactioncancelled : ℕ
response_transactioncancelled = 0x201F

-- The flags after a status with this code.
answered : ℕ → Bool → Ctl → Ctl × Option ℕ
answered code busy c = (record c { sent_busy = busy }, some code)

-- The phase is that of a device that is not ready.
abbrev pub is_notready : Phase → Bool
is_notready Phase.notready = true
is_notready p = false

-- The flags afterwards and the code of the status that is made.
unfoldable pub status_of : Ctl → Ctl × Option ℕ
unfolding answered
status_of c =
    if c.host_cancel || (not c.sent_busy && not c.kernel_reset)
    then answered response_devicebusy true (record c { host_cancel = false })
    else if is_notready c.phase
    then answered response_transactioncancelled false c
    else if c.status_ok
    then answered Code.response_ok false (record c { kernel_reset = false })
    else answered Code.response_gen_error false c

-- The status is made in a variable of the function; the call that sends it is commented out.
unfoldable pub handle_control_request : Request → Ctl → Ctl
unfolding reset_mtp_device status_of
handle_control_request cancel_io c = record c {
  host_cancel = true;
  ctrl_event_code = Code.eventcode_canceltransaction;
}
handle_control_request reset c = record (reset_mtp_device c) { kernel_reset = true }
handle_control_request get_status c = (status_of c).0
handle_control_request other c = c
