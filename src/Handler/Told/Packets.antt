-- ===== src/Handler/Told/Packets.antt =====
-- The responses of `__get_object` and `__get_partial_object` of src/mtp_cmd_handler.c.
use cmtp_responder.Base.{
  ℕ, zero, suc, ◌+◌, ◌-◌, ◌%◌, ◌^◌, inl, inr, Bool, true, false, not, ◌||◌, Option, none, some,
  List, [], ◌∷◌, ltb, ◌==◌, if◌then◌else◌, length, Bool-cases, is_some, take,
}
use cmtp_responder.Container.{DataContainer, header_size}
use cmtp_responder.Entity.Code
use cmtp_responder.Entity.Object.{Obj}
use cmtp_responder.Entity.Device.{get_object_with_handle}
use cmtp_responder.Handler.{
  World, State, MtpErr, Phase, Sent, set_phase, tick, emit, param, has_param, fill,
  send_response_code,
}
use cmtp_responder.Handler.Answers.{
  Quiet, Answered, Quiet-refl, Quiet-trans, if-Quiet, if-Answered, code-Answered, set_phase-Quiet,
  tick-Quiet, packet-Quiet, notready-Answered, sent_block-Quiet, send_response-Responded,
}
use cmtp_responder.Handler.Util.{get_object_entry_size}
use cmtp_responder.Handler.Incoming.{read_object, read_file_data_from_offset}
use cmtp_responder.Handler.Reads.{
  send_packet, packets, first_packet, opened, send_file, get_object, send_zlp, after_send_part,
  send_part, get_partial_object, new_block, send_bytes,
}
use cmtp_responder.Handler.Told.{plain}

send_packet-Quiet : (w : World) (bytes : List ℕ) (s : State) → Quiet s (send_packet w bytes s).0
unfolding send_packet
send_packet-Quiet w bytes s =
    let out = emit (Sent.packet bytes) s in
    if-Quiet s (w.control_event s.clock == Code.eventcode_canceltransaction) _ _ (tick-Quiet s)
      (Quiet-trans (packet-Quiet s bytes) (Quiet-trans (tick-Quiet out) (tick-Quiet (tick out))))

packets-Quiet :
    (w : World) (path : List ℕ) (rounds left : ℕ) (s : State)
    → Quiet s (packets w path rounds left s).0
unfolding packets
packets-Quiet w path zero left s = Quiet-refl s
packets-Quiet w path (suc rounds) left s =
    let bytes = w.file_read s.clock path w.read_file_size in
    let r = send_packet w bytes (tick s) in
    let out : Quiet s r.0 = Quiet-trans (tick-Quiet s) (send_packet-Quiet w bytes (tick s)) in
    if-Quiet s (left == 0) _ _ (Quiet-refl s) (
      if-Quiet s (length bytes == 0) _ _
        (Quiet-trans (tick-Quiet s) (set_phase-Quiet (tick s) Phase.notready))
        (if-Quiet s (not r.1) _ _ (Quiet-trans out (set_phase-Quiet r.0 Phase.notready))
          (Quiet-trans out (packets-Quiet w path rounds (left - length bytes) r.0))))

first_packet-Quiet :
    (w : World) (path : List ℕ) (packet_len num_bytes : ℕ) (blk : DataContainer) (s : State)
    → Quiet s (first_packet w path packet_len num_bytes blk s).0
unfolding first_packet
first_packet-Quiet w path packet_len num_bytes blk s =
    let bytes = w.file_read s.clock path packet_len in
    let r = send_packet w (fill blk bytes) (tick s) in
    let left = (num_bytes + header_size) % 2 ^ 64 - (header_size + length bytes) in
    let out : Quiet s r.0 =
      Quiet-trans (tick-Quiet s) (send_packet-Quiet w (fill blk bytes) (tick s)) in
    if-Quiet s (length bytes == 0) _ _
      (Quiet-trans (tick-Quiet s) (set_phase-Quiet (tick s) Phase.notready))
      (if-Quiet s (not r.1) _ _ (Quiet-trans out (set_phase-Quiet r.0 Phase.notready))
        (Quiet-trans out (packets-Quiet w path left left r.0)))

module _ (w : World) (s : State) where
  opened-Answered :
      (path : List ℕ) (packet_len num_bytes : ℕ) (blk : DataContainer) (q : Option ℕ) (t : State)
      → Quiet s t
      → Answered s (opened w path packet_len num_bytes blk q t)
  unfolding opened
  opened-Answered path packet_len num_bytes blk none t q =
      let r = first_packet w path packet_len num_bytes blk t in
      code-Answered s r.0 r.1 (Quiet-trans q (first_packet-Quiet w path packet_len num_bytes blk t))
  opened-Answered path packet_len num_bytes blk (some error) t q =
      let back = Quiet-trans q (set_phase-Quiet t Phase.notready) in
      if-Answered s _ (code-Answered s _ Code.response_accessdenied back)
        (code-Answered s _ Code.response_gen_error back)

  send_file-Answered : (obj : Obj) → Answered s (send_file w obj s)
  unfolding send_file
  send_file-Answered obj =
      let packet_len =
        (if ltb ((obj.file_size + header_size) % 2 ^ 64) w.read_file_size
          then obj.file_size % 2 ^ 32
          else (w.read_file_size - header_size) % 2 ^ 32) in
      if-Answered s _ (plain s Code.response_gen_error) (
        opened-Answered obj.file_path packet_len obj.file_size
          (new_block w packet_len obj.file_size s).0 (w.file_open s.clock obj.file_path) _
          (Quiet-trans (set_phase-Quiet s Phase.datain) (tick-Quiet (set_phase Phase.datain s))))

  object-Answered :
      (q : Option Obj)
      → Answered s (elim q [
        | none ↦ send_response_code Code.response_invalid_obj_handle s
        | some obj ↦ send_file w obj s
      ])
  object-Answered none = plain s Code.response_invalid_obj_handle
  object-Answered (some obj) = send_file-Answered obj

  pub get_object-Answered : Answered s (get_object w s)
  unfolding get_object
  get_object-Answered =
      if-Answered s (has_param 1 s || has_param 2 s) (plain s Code.response_param_notsupported)
        (object-Answered (get_object_with_handle s.device (param 0 s)))

  send_zlp-Quiet : (n : ℕ) (t : State) → Quiet t (send_zlp w n t)
  unfolding send_zlp
  send_zlp-Quiet n t = elim (Bool-cases ((n + header_size) % w.usb_packet_len == 0)) [
    | inl full ↦ rw full (packet-Quiet t [])
    | inr part ↦ rw part (Quiet-refl t)
  ]

  after_send_part-Answered :
      (n : ℕ) (r : State × Bool) → Quiet s r.0 → Answered s (after_send_part w n r)
  unfolding after_send_part
  after_send_part-Answered n (t, true) q = inl (
      send_response-Responded s (send_zlp w n t) Code.response_ok 1 (some (n ∷ []))
        (Quiet-trans q (send_zlp-Quiet n t)))
  after_send_part-Answered n (t, false) q = notready-Answered s t q

  read-Quiet : (offset data_sz : ℕ) (q : Option Obj) → Quiet s (read_object w offset data_sz q s).0
  unfolding read_object
  read-Quiet offset data_sz none = Quiet-refl s
  read-Quiet offset data_sz (some obj) =
      let one = tick-Quiet s in
      let two = Quiet-trans one (tick-Quiet (tick s)) in
      let three = Quiet-trans two (tick-Quiet (tick (tick s))) in
      if-Quiet s (obj.protcn_status == 0x8003) _ _ (Quiet-refl s) (
        if-Quiet s (is_some (w.file_open s.clock (take 1045 obj.file_path))) _ _ one (
          if-Quiet s (not (w.file_seek (s.clock + 1) offset)) _ _ two (
            if-Quiet s (not (data_sz == length (w.file_read (s.clock + 2) obj.file_path data_sz))) _
              _ three three)))

  read_data-Quiet :
      (obj_handle offset data_sz : ℕ)
      → Quiet s (read_file_data_from_offset w obj_handle offset data_sz s).0
  unfolding read_file_data_from_offset
  read_data-Quiet obj_handle offset data_sz =
      read-Quiet offset data_sz (get_object_with_handle s.device obj_handle)

  send_part-Answered :
      (blk : DataContainer) (n : ℕ) (r : State × (MtpErr × List ℕ))
      → Quiet s r.0
      → Answered s (send_part w blk n r)
  unfolding send_part
  send_part-Answered blk n (t, (MtpErr.ok, bytes)) q =
      after_send_part-Answered n _ (Quiet-trans q (sent_block-Quiet w (fill blk bytes) t))
  send_part-Answered blk n (t, (MtpErr.invalid_objecthandle, bytes)) q =
      code-Answered s t Code.response_invalid_obj_handle q
  send_part-Answered blk n (t, (_, bytes)) q = code-Answered s t Code.response_gen_error q

  part-Answered :
      (q : Option ℕ)
      → Answered s (elim q [
        | none ↦ send_response_code Code.response_invalid_obj_handle s
        | some f_size ↦
            let n = send_bytes f_size (param 1 s) (param 2 s) in
            let (blk, granted) = new_block w n n s in
            if granted
            then send_part w blk n (read_file_data_from_offset w (param 0 s) (param 1 s) n s)
            else send_response_code Code.response_gen_error s
      ])
  part-Answered none = plain s Code.response_invalid_obj_handle
  part-Answered (some f_size) =
      let n = send_bytes f_size (param 1 s) (param 2 s) in
      if-Answered s _ (send_part-Answered _ n _ (read_data-Quiet (param 0 s) (param 1 s) n))
        (plain s Code.response_gen_error)

  pub get_partial_object-Answered : Answered s (get_partial_object w s)
  unfolding get_partial_object
  get_partial_object-Answered = part-Answered (get_object_entry_size s.device (param 0 s))
