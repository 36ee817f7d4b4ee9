-- ===== src/Examples/Devices.antt =====
-- Runs of the functions of src/entity/mtp_device.c, and of the property values.
use cmtp_responder.Base.{
  ℕ, ◌≡◌, ◌↔◌, refl, true, none, some, [], ◌∷◌, arith, replicate, take, drop, ◌++◌, if◌then◌else◌,
}
use cmtp_responder.Base.Bytes.{le_value}
use cmtp_responder.Examples.{granting}
use cmtp_responder.Examples.Stores.{store, failing}
use cmtp_responder.Property.Value.{
  PropInfo, range_form, is_value_type, is_valid_integer, set_current_integer,
}
use cmtp_responder.Property.Value.Valid.{
  Permits, is_valid_integer_iff, set_current_integer-le_value,
}
use cmtp_responder.Entity.Code
use cmtp_responder.Entity.Store.{Store}
use cmtp_responder.Entity.Store.Delete.{Run, delete_obj_mtp_store}
use cmtp_responder.Entity.Device.{Device, get_store_containing_obj, delete_object}
use cmtp_responder.Entity.Device.Deletion.{replaced, delete_object-delete_obj_mtp_store}

abbrev pub device : Device
device = record { store_list = store ∷ [] }

delete_object_example :
    (get_store_containing_obj device 2 ≡ none
      → delete_object failing granting 1 0 device 2 0
        ≡ some (device, Code.response_invalid_obj_handle))
    × ((s : Store) (r : Run) (response : ℕ)
        → get_store_containing_obj device 2 ≡ some s
        → delete_obj_mtp_store failing granting 1 0 s 2 0 true ≡ some (r, response)
        → delete_object failing granting 1 0 device 2 0
          ≡ some (record { store_list = replaced 2 r.store (store ∷ []) }, response))
delete_object_example = delete_object-delete_obj_mtp_store failing granting 1 0 2 0 device refl

-- A percentage.
abbrev percent : PropInfo
percent = record {
  data_type = 2;
  dts_size = 1;
  form_flag = range_form;
  min_val = 0;
  max_val = 100;
  step_size = 1;
  supp_values = [];
  supp_strings = [];
}

is_valid_integer_example :
    (is_valid_integer percent 101 ≡ true)
    ↔ ((is_value_type 2 ≡ true) × Permits percent 101 range_form)
is_valid_integer_example = is_valid_integer_iff percent 101

set_current_integer_example :
    ((set_current_integer percent (replicate 16 0) 77).1 ≡ is_valid_integer percent 77)
    × (le_value (take 4 (set_current_integer percent (replicate 16 0) 77).0)
        ≡ (if is_valid_integer percent 77 then 77 else le_value (take 4 (replicate 16 0))))
    × ((set_current_integer percent (replicate 16 0) 77).0 ≡ (
        if is_valid_integer percent 77
        then take 4 (set_current_integer percent (replicate 16 0) 77).0 ++ drop 4 (replicate 16 0)
        else replicate 16 0))
set_current_integer_example =
    set_current_integer-le_value percent (replicate 16 0) 77 refl (omega arith)
