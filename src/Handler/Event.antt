-- ===== src/Handler/Event.antt =====
-- Events of include/mtp_event_handler.h that the command handler sends, and the states of
-- include/util/mtp_util.h that it sets.
use cmtp_responder.Base.{ℕ}

abbrev pub start_datain : ℕ
start_datain = 6

abbrev pub done_datain : ℕ
done_datain = 7

abbrev pub start_dataout : ℕ
start_dataout = 8

abbrev pub done_dataout : ℕ
done_dataout = 9

abbrev pub state_onservice : ℕ
state_onservice = 3

abbrev pub state_data_processing : ℕ
state_data_processing = 5

abbrev pub state_ready_service : ℕ
state_ready_service = 2

abbrev pub state_data_transfer_dl : ℕ
state_data_transfer_dl = 4
