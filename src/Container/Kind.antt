-- ===== src/Container/Kind.antt =====
-- `container_type_t` of include/ptp_container.h.
use cmtp_responder.Base.{ℕ}

abbrev pub undefined : ℕ
undefined = 0

abbrev pub cmd_blk : ℕ
cmd_blk = 1

abbrev pub data_blk : ℕ
data_blk = 2

abbrev pub resp_blk : ℕ
resp_blk = 3

abbrev pub event_blk : ℕ
event_blk = 4
