-- ===== src/Handler/Told/Constructed.antt =====
-- The response of `__send_object_info` of src/mtp_cmd_handler.c.
use mathlib.Core.Bool.{false≢true}
use cmtp_responder.Base.{
  ℕ, ◌+◌, ◌%◌, ◌^◌, ◌≤◌, ◌<◌, ◌≡◌, refl, ◌∙◌, ap, inl, inr, ◌⊎◌, Bool, true, false, not, ◌||◌, ◌&&◌,
  Option, none, some, List, ◌∷◌, ◌++◌, ltb, ◌==◌, if◌then◌else◌, is_some, Bool-cases, arith, length,
  get_or, drop, replicate, ltb-false, eq_of_==,
}
use cmtp_responder.Base.Bytes.{blit}
use cmtp_responder.Property.PtpArray.{Allocator}
use cmtp_responder.Container.{
  header_size, read_header, DataContainer, get_payload_data, get_payload_size, init_data_container,
  rcv_data_container,
}
use cmtp_responder.Property.PtpString.{PtpString, room_for}
use cmtp_responder.Entity.Code
use cmtp_responder.Entity.Object.{Obj, ObjInfo}
use cmtp_responder.Entity.Store.{Store}
use cmtp_responder.Entity.Device.{get_store}
use cmtp_responder.Handler.{
  World, State, SendData, MtpErr, Phase, set_phase, tick, param, has_param,
}
use cmtp_responder.Handler.Answers.{
  Quiet, Answered, Quiet-trans, if-Quiet, if-Quiet_state, code-Answered, set_phase-Quiet,
  device-Quiet, tick-Quiet, notready-Answered, send_response-Responded,
}
use cmtp_responder.Handler.Util.{refresh}
use cmtp_responder.Handler.Incoming.{
  read_info, parse_raw_obj_info, enter, at_path, place, add_in_store, add_below, add_object_entry,
  find_parent, enter_parsed, construct_in_store, refresh_old, construct_at, construct_object_entry,
  destination, new_object, create_path, name_of, zero_info, unprotect, temp_file,
}
use cmtp_responder.Handler.Writes.{
  accept, keep, after_construct, forget, received_info, send_object_info, refuse,
}
use cmtp_responder.Handler.Told.{plain}
use cmtp_responder.Handler.Told.Written.{Serves, if-Serves}
use cmtp_responder.Handler.Told.Parsed.{parse_rawstring_total, room_for_payload, count_byte}

-- An operation that may fail does not, and is quiet.
abbrev Works : State → Option (State × (MtpErr × Option Obj)) → Type 0
Works s o = (r : State × (MtpErr × Option Obj)) × (o ≡ some r) × Quiet s r.0

if-Works :
    (s : State) (b : Bool) (x y : Option (State × (MtpErr × Option Obj)))
    → Works s x
    → Works s y
    → Works s (if b then x else y)
if-Works s true x y p q = p
if-Works s false x y p q = q

-- The block has a count for the name that is a byte, where it is long enough to have one.
abbrev IsParsable : Option (List ℕ) → ℕ → Type 0
IsParsable none data_sz = Unit
IsParsable (some buf) data_sz =
    52 ≤ data_sz → (get_or (drop 52 buf) 0 0 < 256) × (0 < room_for data_sz)

module _ (w : World) (s : State) where
  enter-Quiet :
      (store : Store) (obj : Obj) (t : State) → Quiet s t → Quiet s (enter w store obj t).0
  unfolding enter
  enter-Quiet store obj t q =
      let one = Quiet-trans q (tick-Quiet t) in
      if-Quiet s (obj.obj_fmt == Code.fmt_association) _ _
        (if-Quiet s _ _ _ (Quiet-trans one (device-Quiet (tick t) _)) one)
        (Quiet-trans q (device-Quiet t _))

  at_path-Quiet :
      (store : Store) (info : ObjInfo) (handle : ℕ) (path : Option (List ℕ)) (t : State)
      → Quiet s t
      → Quiet s (at_path w store info handle path t).0
  unfolding at_path
  at_path-Quiet store info handle none t q = q
  at_path-Quiet store info handle (some path) t q =
      let temp = record t { filepath = some (store.root_path ++ 47 ∷ temp_file) } in
      let q' : Quiet s temp = record {
        same_answers = q.same_answers;
        same_cmd = q.same_cmd;
        unsent = q.unsent;
      } in
      if-Quiet s
        (is_some
          (create_path w (length store.root_path + length temp_file + 2) store.root_path temp_file))
        _ _ (enter-Quiet store (new_object handle info path) temp q') q'

  place-Quiet :
      (store : Store) (info : ObjInfo) (dir file_name : List ℕ) (t : State)
      → Quiet s t
      → Quiet s (place w store info dir file_name t).0
  unfolding place
  place-Quiet store info dir file_name t q =
      let handle = t.next_obj_handle in
      at_path-Quiet store info handle (create_path w 1046 dir (name_of w handle file_name))
        (record t { next_obj_handle = (handle + 1) % 2 ^ 32 })
        (record { same_answers = q.same_answers; same_cmd = q.same_cmd; unsent = q.unsent })

  add_in_store-Quiet :
      (info : ObjInfo) (file_name : List ℕ) (dir : Option (List ℕ)) (q : Option Store) (t : State)
      → Quiet s t
      → Quiet s (add_in_store w info file_name dir q t).0
  unfolding add_in_store
  add_in_store-Quiet info file_name dir none t q = q
  add_in_store-Quiet info file_name dir (some store) t q =
      if-Quiet s (ltb store.free_space info.file_size) _ _ q (
        place-Quiet store (unprotect info) (elim dir [ none ↦ store.root_path | some path ↦ path ])
          file_name t q)

  add_below-Quiet :
      (info : ObjInfo) (file_name : List ℕ) (e : MtpErr ⊎ Option (List ℕ)) (t : State)
      → Quiet s t
      → Quiet s (add_below w info file_name e t).0
  unfolding add_below
  add_below-Quiet info file_name (inl e) t q = q
  add_below-Quiet info file_name (inr dir) t q =
      add_in_store-Quiet info file_name dir (get_store t.device info.store_id) t q

  add_object_entry-Quiet :
      (info : ObjInfo) (file_name : List ℕ) (t : State)
      → Quiet s t
      → Quiet s (add_object_entry w info file_name t).0
  unfolding add_object_entry
  add_object_entry-Quiet info file_name t q =
      add_below-Quiet info file_name (find_parent t.device info.h_parent) t q

  enter_parsed-Works :
      (store_id h_parent data_sz : ℕ) (p : Option (ObjInfo × List ℕ × ℕ)) (t : State)
      → Quiet s t
      → is_some p ≡ true
      → Works s (enter_parsed w store_id h_parent data_sz p t)
  unfolding enter_parsed
  enter_parsed-Works store_id h_parent data_sz none t q there = absurd (false≢true there)
  enter_parsed-Works store_id h_parent data_sz (some (info, file_name, parsed)) t q there =
      if-Works s (not (parsed == data_sz)) _ _ (_, refl, q)
        (
          _,
          refl,
          add_object_entry-Quiet (record info { store_id = store_id; h_parent = h_parent })
              file_name t q,
        )

kept_unsent :
    (store_id h_parent : ℕ) (obj : Obj) (d : SendData)
    → (keep store_id h_parent obj d).is_data_sent ≡ d.is_data_sent
unfolding keep
kept_unsent store_id h_parent obj d = elim (Bool-cases (obj.obj_fmt == Code.fmt_association)) [
  | inl folder ↦ rw folder refl
  | inr file ↦ rw file refl
]

read_total :
    (w : World) (info : ObjInfo) (buf : List ℕ) (fname_len : ℕ) (q : Option (PtpString × ℕ))
    → is_some q ≡ true
    → is_some (read_info w info buf fname_len q) ≡ true
unfolding read_info
read_total w info buf fname_len none there = there
read_total w info buf fname_len (some r) there = refl

-- The fixed part is there, so the name is parsed without a write in front of its array.
parse_total :
    (w : World) (payload : Option (List ℕ)) (data_sz : ℕ) (info : ObjInfo) (fname_len : ℕ)
    → IsParsable payload data_sz
    → is_some (parse_raw_obj_info w payload data_sz info fname_len) ≡ true
unfolding parse_raw_obj_info
parse_total w none data_sz info fname_len fit = refl
parse_total w (some buf) data_sz info fname_len fit = elim (Bool-cases (ltb data_sz 52)) [
  | inl short ↦ rw short refl
  | inr long ↦
      let (small, room) = fit (ltb-false data_sz 52 long) in
      rw long (
        read_total w info buf fname_len _ (
          parse_rawstring_total (record { num_chars = 0; str = replicate 256 0 }) (drop 52 buf)
            data_sz small room))
]

module _ (w : World) (s : State) where
  construct_in_store-Works :
      (store_id h_parent : ℕ) (payload : Option (List ℕ)) (data_sz : ℕ) (q : Option Store)
      (t : State)
      → Quiet s t
      → IsParsable payload data_sz
      → Works s (construct_in_store w store_id h_parent payload data_sz q t)
  unfolding construct_in_store
  construct_in_store-Works store_id h_parent payload data_sz none t q fit = (_, refl, q)
  construct_in_store-Works store_id h_parent payload data_sz (some store) t q fit =
      if-Works s (store.access == Code.access_r) _ _ (_, refl, q)
        (if-Works s (store.free_space == 0 || ltb store.capacity store.free_space) _ _ (_, refl, q)
          (enter_parsed-Works w s store_id h_parent data_sz _ t q
            (parse_total w payload data_sz zero_info 1025 fit)))

  refresh-Quiet :
      (q : Option Store) (store_id : ℕ) (t : State) → Quiet s t → Quiet s (refresh w q store_id t)
  unfolding refresh tick
  refresh-Quiet none store_id t q = q
  refresh-Quiet (some st) store_id t q = record {
    same_answers = q.same_answers;
    same_cmd = q.same_cmd;
    unsent = q.unsent;
  }

  refresh_old-Quiet : (old : Option ℕ) (t : State) → Quiet s t → Quiet s (refresh_old w old t)
  unfolding refresh_old
  refresh_old-Quiet none t q = q
  refresh_old-Quiet (some old) t q = refresh-Quiet (get_store t.device old) old t q

  construct_at-Works :
      (old : Option ℕ) (payload : Option (List ℕ)) (data_sz : ℕ) (e : MtpErr ⊎ (ℕ × ℕ)) (t : State)
      → Quiet s t
      → IsParsable payload data_sz
      → Works s (construct_at w old payload data_sz e t)
  unfolding construct_at
  construct_at-Works old payload data_sz (inl e) t q fit = (_, refl, q)
  construct_at-Works old payload data_sz (inr (store_id, h_parent)) t q fit =
      let t' = refresh_old w old t in
      construct_in_store-Works store_id h_parent payload data_sz (get_store t'.device store_id) t'
        (refresh_old-Quiet old t q) fit

  accept-Responded :
      (store_id h_parent : ℕ) (obj : Obj) (t : State)
      → Quiet s t
      → Answered s (accept store_id h_parent obj t)
  unfolding accept
  accept-Responded store_id h_parent obj t q =
      let d = keep store_id h_parent obj t.hdlr.data4_send_obj in
      let t' : State = record t {
        hdlr = record t.hdlr { data4_send_obj = d; last_fmt_code = obj.obj_fmt };
      } in
      inl (
        send_response-Responded s t' Code.response_ok 3 _ (record {
          same_answers = q.same_answers;
          same_cmd = q.same_cmd;
          unsent = λ u. kept_unsent store_id h_parent obj t.hdlr.data4_send_obj ∙ q.unsent u;
        }))

  after_construct-Serves :
      (store_id h_parent : ℕ) (r : State × (MtpErr × Option Obj))
      → Quiet s r.0
      → Serves s (after_construct store_id h_parent (some r))
  unfolding after_construct
  after_construct-Serves store_id h_parent (t, (MtpErr.ok, some obj)) q =
      (_, refl, accept-Responded store_id h_parent obj t q)
  after_construct-Serves store_id h_parent (t, (MtpErr.ok, none)) q =
      (_, refl, code-Answered s t _ q)
  after_construct-Serves store_id h_parent (t, (_, obj)) q = (_, refl, code-Answered s t _ q)

  forget-Quiet : (t : State) → Quiet s t → Quiet s (forget t)
  unfolding forget
  forget-Quiet t q =
      if-Quiet_state s t.hdlr.data4_send_obj.is_valid _ _
        (record { same_answers = q.same_answers; same_cmd = q.same_cmd; unsent = q.unsent }) q

  received_info-Serves :
      (store_id h_parent : ℕ) (r : DataContainer × Bool) (t : State)
      → Quiet s t
      → (r.1 ≡ true → IsParsable (get_payload_data r.0) (get_payload_size r.0))
      → Serves s (received_info w store_id h_parent r t)
  unfolding received_info construct_object_entry
  received_info-Serves store_id h_parent (blk, false) t q fit = (_, refl, notready-Answered s t q)
  received_info-Serves store_id h_parent (blk, true) t q fit =
      let (r, eq, q') =
        construct_at-Works
          (if t.hdlr.data4_send_obj.is_valid then some t.hdlr.data4_send_obj.store_id else none)
          (get_payload_data blk) (get_payload_size blk) (destination (forget t) store_id h_parent)
          (forget t) (forget-Quiet t q) (fit refl) in
      let (u, eq', a) = after_construct-Serves store_id h_parent r q' in
      (u, ap (after_construct store_id h_parent) eq ∙ eq', a)

both_left : (a b : Bool) → (a && b) ≡ true → a ≡ true
both_left true b h = refl
both_left false b h = absurd (false≢true h)

abbrev Fits : DataContainer × Bool → Type 0
Fits r = r.1 ≡ true → IsParsable (get_payload_data r.0) (get_payload_size r.0)

if-Fits : (b : Bool) (x y : DataContainer × Bool) → Fits x → Fits y → Fits (if b then x else y)
if-Fits true x y p q = p
if-Fits false x y p q = q

-- A block that the transport delivered can be parsed: it is not longer than was asked for, and the
-- count of the name is a byte.
received-Fits :
    (m : Allocator) (dst : DataContainer) (size : ℕ) (received : List ℕ)
    → length received ≤ (size + header_size + 4) % 2 ^ 32
    → 64 < (size + header_size + 4) % 2 ^ 32
    → (size + header_size + 4) % 2 ^ 32 ≤ 32016
    → get_or received 64 m.junk < 256
    → Fits (rcv_data_container m dst size received)
unfolding rcv_data_container get_payload_data get_payload_size
received-Fits m dst size received fits long few byte =
    let n = (size + header_size + 4) % 2 ^ 32 in
    let blk = blit 0 received (replicate n m.junk) in
    if-Fits (m.malloc n) _ _
      (λ good wide.
        let whole = eq_of_== (read_header blk).len (length received) (both_left _ _ good) in
        (
          omega (arith, count_byte received n m.junk fits long),
          room_for_payload (read_header blk).len (omega arith) wide,
        ))
      (λ bad. absurd (false≢true bad))

-- What the transport delivers for SendObjectInfo: no more bytes than were asked for, of which the
-- count of the name is one.
abbrev pub IsDelivered : World → State → Type 0
IsDelivered w s =
    (length (w.rcv_temp_file_data s.clock) ≤ 32016)
    × (get_or (w.rcv_temp_file_data s.clock) 64 w.mem.junk < 256)

refuse-Answered : (s : State) (p : Phase) → s.phase ≡ p → Answered s (refuse p s)
unfolding refuse
refuse-Answered s Phase.notready at =
    inr (record { same_answers = refl; phase_eq = inr at; unsent = λ u. u })
refuse-Answered s _ at = plain s Code.response_param_notsupported

pub send_object_info-Serves :
    (w : World) (s : State) → IsDelivered w s → Serves s (send_object_info w s)
unfolding send_object_info
send_object_info-Serves w s (few, byte) =
    let dst = init_data_container s.hdlr.usb_cmd.code s.hdlr.usb_cmd.tid in
    let received = w.rcv_temp_file_data s.clock in
    if-Serves s (has_param 2 s) _ _ (_, refl, refuse-Answered s s.phase refl)
      (received_info-Serves w s (if param 0 s == 0 then s.default_store_id else param 0 s)
        (param 1 s) (rcv_data_container w.mem dst 32000 received) (tick (set_phase Phase.dataout s))
        (Quiet-trans (set_phase-Quiet s Phase.dataout) (tick-Quiet (set_phase Phase.dataout s)))
        (received-Fits w.mem dst 32000 received (omega arith) (omega arith) (omega arith) byte))
