-- ===== src/Transport.antt =====
-- src/transport/: what the transport puts on the queue to the USB writer, and its handling of control
-- requests. A queue is the list of its messages, the latest first.
pub mod Split
pub mod Control
use cmtp_responder.Base.{
  ℕ, zero, suc, ◌+◌, Bool, true, Option, none, some, List, [], ◌∷◌, ltb, ◌==◌, if◌then◌else◌,
  length, take, drop,
}

-- `msg_type_t`
pub data MsgType : Type 0 where
  undefined_packet data_packet bulk_packet event_packet zlp_packet : MsgType

-- `msgq_ptr_t`; its length is that of its buffer.
pub record Msg : Type 0 where
  pub mtype : MsgType
  pub buffer : List ℕ

-- What a call leaves in the queue, and what it returns.
pub record Posted : Type 0 where
  pub queue : List Msg
  pub sent : ℕ

-- `_util_msgq_send`: the queue takes a message or not, which may change with every message.
pub post : (List Msg → Bool) → Msg → List Msg → Option (List Msg)
post takes m queue = if takes queue then some (m ∷ queue) else none

-- `while (len)`, with the rounds left; `none` is a round that is missing. Memory is granted.
pub send_loop :
    (List Msg → Bool) → (tx_size left : ℕ) → List ℕ → (pkt_len : ℕ) → List Msg → Option Posted
unfolding post
send_loop takes tx_size zero buf pkt_len queue = none
send_loop takes tx_size (suc left) buf pkt_len queue =
    let sent_len = if ltb (length buf) tx_size then length buf else tx_size in
    let msg : Msg = record { mtype = data_packet; buffer = take sent_len buf } in
    let next : Option Posted = elim (post takes msg queue) [
      | none ↦ some (record { queue = queue; sent = 0 })
      | some after ↦ send_loop takes tx_size left (drop sent_len buf) pkt_len after
    ] in
    if length buf == 0 then some (record { queue = queue; sent = pkt_len }) else next

-- `none` is a loop that does not end.
unfoldable pub send_pkt_to_tx_mq :
    (List Msg → Bool) → (tx_size : ℕ) → Option (List ℕ) → List Msg → Option Posted
unfolding send_loop
send_pkt_to_tx_mq takes tx_size none queue = some (record { queue = queue; sent = 0 })
send_pkt_to_tx_mq takes tx_size (some buf) queue =
    if length buf == 0
    then some (record { queue = queue; sent = 0 })
    else send_loop takes tx_size (length buf + 1) buf (length buf) queue

-- `while (pkt_len > tx_size)`, and the packet behind the loop.
pub bulk_loop :
    (List Msg → Bool) → (tx_size left : ℕ) → List ℕ → (sent_len : ℕ) → List Msg → Option Posted
unfolding post
bulk_loop takes tx_size zero buf sent_len queue = none
bulk_loop takes tx_size (suc left) buf sent_len queue =
    let whole : Msg = record { mtype = bulk_packet; buffer = take tx_size buf } in
    let last : Msg = record { mtype = bulk_packet; buffer = buf } in
    let next : Option Posted = elim (post takes whole queue) [
      | none ↦ some (record { queue = queue; sent = 0 })
      | some after ↦ bulk_loop takes tx_size left (drop tx_size buf) (sent_len + tx_size) after
    ] in
    let end : Option Posted = elim (post takes last queue) [
      | none ↦ some (record { queue = queue; sent = 0 })
      | some after ↦ some (record { queue = after; sent = sent_len + length buf })
    ] in
    if ltb tx_size (length buf) then next else end

unfoldable pub send_bulk_pkt_to_tx_mq :
    (List Msg → Bool) → (tx_size : ℕ) → Option (List ℕ) → List Msg → Option Posted
unfolding bulk_loop
send_bulk_pkt_to_tx_mq takes tx_size none queue = some (record { queue = queue; sent = 0 })
send_bulk_pkt_to_tx_mq takes tx_size (some buf) queue =
    if length buf == 0
    then some (record { queue = queue; sent = 0 })
    else bulk_loop takes tx_size (length buf) buf 0 queue

-- `_transport_send_zlp`; a message that the queue does not take is lost.
unfoldable pub send_zlp : (List Msg → Bool) → List Msg → List Msg
unfolding post
send_zlp takes queue =
    let zlp : Msg = record { mtype = zlp_packet; buffer = [] } in
    elim (post takes zlp queue) [ none ↦ queue | some after ↦ after ]

-- The queue, the count, and whether the call succeeded.
unfoldable pub send_event :
    (List Msg → Bool) → (tx_size : ℕ) → Option (List ℕ) → List Msg → List Msg × Option ℕ
unfolding post
send_event takes tx_size none queue = (queue, none)
send_event takes tx_size (some buf) queue =
    let msg : Msg = record { mtype = event_packet; buffer = buf } in
    let posted : List Msg × Option ℕ = elim (post takes msg queue) [
      | none ↦ (queue, none)
      | some after ↦ (after, some (length buf))
    ] in
    if ltb tx_size (length buf) then (queue, none) else posted

-- `_hdlr_send_bulk_data` of src/ptp_container.c.
unfoldable pub send_bulk_data :
    (List Msg → Bool)
    → (tx_size : ℕ) → Option (List ℕ)
    → (len : ℕ) → List Msg
    → Option (List Msg × Bool)
unfolding send_bulk_pkt_to_tx_mq
send_bulk_data takes tx_size dst len queue = elim (send_bulk_pkt_to_tx_mq takes tx_size dst queue) [
  | none ↦ none
  | some p ↦ some (p.queue, p.sent == len)
]

-- Where the USB writer writes.
pub data Endpoint : Type 0 where
  ep_in ep_status : Endpoint

-- The queue of the writer, the oldest first; what was written, the latest first; and whether the
-- current transaction was cancelled.
pub record Writer : Type 0 where
  pub pending : List Msg
  pub written : List (Endpoint × List ℕ)
  pub cancelled : Bool

-- The result of `write`: all bytes, an error for which the queue is emptied (ENOMEM, ECANCELED), or
-- another error.
pub data Status : Type 0 where
  ok dropped failed : Status

-- The writer after a packet to an endpoint; `none` is the end of the thread.
writes : Endpoint → Msg → Status → Writer → Option Writer
writes ep m ok w = some (record w { written = (ep, m.buffer) ∷ w.written })
writes ep_in m dropped w = some (record w { pending = []; cancelled = true })
writes ep_status m dropped w = none
writes ep m failed w = none

-- A zero-length packet is no data packet: an error ends the thread.
zero_length : Status → Writer → Option Writer
zero_length ok w = some (record w { written = (ep_in, []) ∷ w.written })
zero_length _ w = none

handle_msg : Msg → MsgType → Status → Writer → Option Writer
unfolding writes zero_length
handle_msg m data_packet status w = writes ep_in m status w
handle_msg m bulk_packet status w = writes ep_in m status w
handle_msg m event_packet status w = writes ep_status m status w
handle_msg m zlp_packet status w = zero_length status w
handle_msg m undefined_packet status w = none

-- One round of `_transport_thread_usb_write`, which waits while the queue is empty.
unfoldable pub usb_write : Status → Writer → Option Writer
unfolding handle_msg
usb_write status w = elim w.pending [
  | [] ↦ some w
  | m ∷ rest ↦ handle_msg m m.mtype status (record w { pending = rest })
]
