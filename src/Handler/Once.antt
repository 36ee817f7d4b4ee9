-- ===== src/Handler/Once.antt =====
-- `__send_object` of src/mtp_cmd_handler.c: an announced object is stored once.
use mathlib.Core.Bool.{false≢true}
use mathlib.Core.Path.{subst}
use mathlib.Core.Option.{some-ne-none, none-ne-some, some-injective}
use cmtp_responder.Base.{
  ◌+◌, ◌==◌, arith, ℕ, ◌≡◌, refl, ◌∙◌, ap, sym, Bool, true, false, not, ◌||◌, Option, none, some,
  List, ◌∷◌,
}
use cmtp_responder.Container.{
  CmdContainer, DataContainer, get_param_cmd_container, resp_container_init,
  add_param_resp_container, init_data_container,
}
use cmtp_responder.Entity.Code
use cmtp_responder.Entity.Object.{Obj}
use cmtp_responder.Entity.Store.{Store, add_object_to_store}
use cmtp_responder.Entity.Device.{Device, get_store}
use cmtp_responder.Handler.{
  World, State, MtpErr, Phase, Sent, set_phase, tick, emit, zero_blk, has_param, send_response,
  send_response_code,
}
use cmtp_responder.Handler.Incoming.{write_in_store, write_file_data}
use cmtp_responder.Handler.Writes.{
  file_response, consume, received_file, rcv_file_in_data_container, send_object,
}
use cmtp_responder.Handler.Answers.{Quiet-refl}
use cmtp_responder.Handler.Told.Written.{write_file_data-Quiet}
use cmtp_responder.Handler.Reserve.{find_store-id, with_store-there, add_object-free_space}

-- The block of a response without parameters.
abbrev response_blk : ℕ → State → CmdContainer
response_blk code s =
    (add_param_resp_container (resp_container_init zero_blk code s.hdlr.usb_cmd.tid) 0 none).0

-- The command has no parameters.
abbrev pub IsBare : State → Type 0
IsBare s = (has_param 0 s || (has_param 1 s || has_param 2 s)) ≡ false

-- The file that came, and whether its header is that of the command's data.
abbrev pub file_of : World → State → DataContainer × Bool
file_of w s =
    rcv_file_in_data_container w (init_data_container s.hdlr.usb_cmd.code s.hdlr.usb_cmd.tid)
      (w.rcv_temp_file_info s.clock)

-- The host hears of an error, and the device is as before.
pub record IsRejected (s t : State) : Type 0 where
  pub blk : CmdContainer
  pub told : t.sent ≡ Sent.reply blk ∷ s.sent
  pub code_eq : blk.header.code ≡ Code.response_gen_error
  pub device_eq : t.device ≡ s.device

rejected :
    (s u : State) (r : State × MtpErr)
    → r ≡ (u, MtpErr.invalid_param)
    → u.sent ≡ s.sent
    → u.device ≡ s.device
    → IsRejected s (consume (send_response_code (file_response r.1) r.0))
unfolding consume file_response set_phase send_response_code send_response tick emit
    resp_container_init add_param_resp_container
rejected s u r nothing same device = rw nothing (record {
  blk = response_blk Code.response_gen_error u;
  told = ap (λ l. Sent.reply (response_blk Code.response_gen_error u) ∷ l) same;
  code_eq = refl;
  device_eq = device;
})

wrote_nothing :
    (w : World) (id : ℕ) (q : Option Obj) (fpath : List ℕ) (u : State)
    → q ≡ none
    → write_file_data w id q fpath u ≡ (u, MtpErr.invalid_param)
unfolding write_file_data
wrote_nothing w id none fpath u gone = refl
wrote_nothing w id (some o) fpath u gone = absurd (some-ne-none o gone)

received_nothing :
    (w : World) (fpath : List ℕ) (r : DataContainer × Bool) (s u : State)
    → u.hdlr.data4_send_obj.obj ≡ none
    → u.sent ≡ s.sent
    → u.device ≡ s.device
    → IsRejected s (received_file w fpath r u)
unfolding received_file set_phase send_response_code send_response tick emit resp_container_init
    add_param_resp_container
received_nothing w fpath (blk, false) s u gone same device = record {
  blk = response_blk Code.response_gen_error u;
  told = ap (λ l. Sent.reply (response_blk Code.response_gen_error u) ∷ l) same;
  code_eq = refl;
  device_eq = device;
}
received_nothing w fpath (blk, true) s u gone same device =
    rejected s u _
      (wrote_nothing w u.hdlr.data4_send_obj.store_id u.hdlr.data4_send_obj.obj fpath u gone) same
      device

-- A command without parameters, where nothing is announced.
send_nothing :
    (w : World) (s : State)
    → IsBare s
    → s.hdlr.data4_send_obj.obj ≡ none
    → IsRejected s (send_object w s)
unfolding send_object set_phase tick
send_nothing w s bare gone = rw bare (
    received_nothing w (w.rcv_temp_file_info s.clock).path (file_of w s) s
      (tick (set_phase Phase.dataout s)) gone refl refl)

-- What a file that came leaves: the command, and no announced object.
consumed :
    (w : World) (fpath : List ℕ) (r : DataContainer × Bool) (u : State)
    → r.1 ≡ true
    → (received_file w fpath r u).hdlr.data4_send_obj.obj ≡ none
unfolding received_file consume
consumed w fpath (blk, false) u came = absurd (false≢true came)
consumed w fpath (blk, true) u came = refl

send_object-obj :
    (w : World) (s : State)
    → IsBare s
    → (file_of w s).1 ≡ true
    → (send_object w s).hdlr.data4_send_obj.obj ≡ none
unfolding send_object
send_object-obj w s bare came = rw bare (
    consumed w (w.rcv_temp_file_info s.clock).path (file_of w s) (tick (set_phase Phase.dataout s))
      came)

store_named : (d : Device) (id : ℕ) (st : Store) → get_store d id ≡ some st → st.store_id ≡ id
unfolding get_store
store_named d id st there = find_store-id id d.store_list st there

module _ (w : World) (fpath : List ℕ) (obj : Obj) (st : Store) (id : ℕ) (u : State)
    (there : get_store u.device id ≡ some st) (present : w.access u.clock fpath ≡ true)
    (moved : w.file_move (u.clock + 1) fpath obj.file_path ≡ true) where
  write_in_store-added :
      (q : Option Store)
      → q ≡ some st
      → get_store (write_in_store w obj fpath q u).0.device id
        ≡ some (add_object_to_store w.mem st obj)
  unfolding write_in_store tick
  write_in_store-added none found = absurd (none-ne-some st found)
  write_in_store-added (some st') found =
      let named : st'.store_id ≡ id =
        ap (λ x. x.store_id) (some-injective st' st found) ∙ store_named u.device id st there in
      rw (present, moved, named)
        (with_store-there id st (λ x. add_object_to_store w.mem x obj) u
          (λ x. (add_object-free_space w.mem x obj).1) there)

  write_file_data-added :
      (q : Option Obj)
      → q ≡ some obj
      → get_store (write_file_data w id q fpath u).0.device id
        ≡ some (add_object_to_store w.mem st obj)
  unfolding write_file_data
  write_file_data-added none announced = absurd (none-ne-some obj announced)
  write_file_data-added (some o) announced =
      subst
        (λ x.
          get_store (write_in_store w x fpath (get_store u.device id) u).0.device id
          ≡ some (add_object_to_store w.mem st obj))
        (sym (some-injective o obj announced)) (write_in_store-added (get_store u.device id) there)

-- A file that came, where an object is announced for a store.
received_file-added :
    (w : World) (fpath : List ℕ) (obj : Obj) (st : Store) (u : State) (r : DataContainer × Bool)
    → get_store u.device u.hdlr.data4_send_obj.store_id ≡ some st
    → w.access u.clock fpath ≡ true
    → w.file_move (u.clock + 1) fpath obj.file_path ≡ true
    → r.1 ≡ true
    → u.hdlr.data4_send_obj.obj ≡ some obj
    → get_store (received_file w fpath r u).device u.hdlr.data4_send_obj.store_id
      ≡ some (add_object_to_store w.mem st obj)
unfolding received_file consume send_response_code send_response set_phase tick emit
received_file-added w fpath obj st u (blk, false) there present moved came announced =
    absurd (false≢true came)
received_file-added w fpath obj st u (blk, true) there present moved came announced =
    write_file_data-added w fpath obj st u.hdlr.data4_send_obj.store_id u there present moved
      u.hdlr.data4_send_obj.obj announced

received_file-cmd :
    (w : World) (fpath : List ℕ) (r : DataContainer × Bool) (u : State)
    → (received_file w fpath r u).hdlr.usb_cmd ≡ u.hdlr.usb_cmd
unfolding received_file consume send_response_code send_response set_phase tick emit
received_file-cmd w fpath (blk, false) u = refl
received_file-cmd w fpath (blk, true) u =
    (write_file_data-Quiet w u u.hdlr.data4_send_obj.store_id u.hdlr.data4_send_obj.obj fpath u
      (Quiet-refl u)).same_cmd

send_object-cmd :
    (w : World) (s : State) → IsBare s → (send_object w s).hdlr.usb_cmd ≡ s.hdlr.usb_cmd
unfolding send_object set_phase tick
send_object-cmd w s bare = rw bare (
    received_file-cmd w (w.rcv_temp_file_info s.clock).path (file_of w s)
      (tick (set_phase Phase.dataout s)))

send_object-added :
    (w : World) (s : State) (obj : Obj) (st : Store)
    → IsBare s
    → get_store s.device s.hdlr.data4_send_obj.store_id ≡ some st
    → w.access (s.clock + 1) (w.rcv_temp_file_info s.clock).path ≡ true
    → w.file_move (s.clock + 2) (w.rcv_temp_file_info s.clock).path obj.file_path ≡ true
    → (file_of w s).1 ≡ true
    → s.hdlr.data4_send_obj.obj ≡ some obj
    → get_store (send_object w s).device s.hdlr.data4_send_obj.store_id
      ≡ some (add_object_to_store w.mem st obj)
unfolding send_object set_phase tick
send_object-added w s obj st bare there present moved came announced = rw bare (
    received_file-added w (w.rcv_temp_file_info s.clock).path obj st
      (tick (set_phase Phase.dataout s)) (file_of w s) there present
      (ap (λ n. w.file_move n (w.rcv_temp_file_info s.clock).path obj.file_path) (omega arith)
        ∙ moved)
      came announced)

-- Where an object is announced for a store of the device, a SendObject without parameters whose
-- file came, is there and can be moved adds that object to that store; a further SendObject, in
-- whatever surroundings, is rejected with a general error and leaves the device as it is.
pub send_object-IsRejected :
    (w w' : World) (s : State) (obj : Obj) (st : Store)
    → IsBare s
    → get_store s.device s.hdlr.data4_send_obj.store_id ≡ some st
    → w.access (s.clock + 1) (w.rcv_temp_file_info s.clock).path ≡ true
    → w.file_move (s.clock + 2) (w.rcv_temp_file_info s.clock).path obj.file_path ≡ true
    → (file_of w s).1 ≡ true
    → s.hdlr.data4_send_obj.obj ≡ some obj
    → (get_store (send_object w s).device s.hdlr.data4_send_obj.store_id
        ≡ some (add_object_to_store w.mem st obj))
      × IsRejected (send_object w s) (send_object w' (send_object w s))
send_object-IsRejected w w' s obj st bare there present moved came announced = (
  send_object-added w s obj st bare there present moved came announced,
  send_nothing w' (send_object w s)
      (ap
          (λ c.
            not (get_param_cmd_container c 0 == 0)
            || (not (get_param_cmd_container c 1 == 0) || not (get_param_cmd_container c 2 == 0)))
          (send_object-cmd w s bare)
        ∙ bare)
      (send_object-obj w s bare came),
)
