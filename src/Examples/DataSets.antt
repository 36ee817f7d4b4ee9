-- ===== src/Examples/DataSets.antt =====
-- Runs of the packing functions of src/entity/mtp_property.c, mtp_object.c and mtp_device.c.
use cmtp_responder.Base.{
  zero, suc, ap, Option, ◌+◌, refl, ℕ, ◌^◌, ◌≡◌, none, some, List, [], ◌∷◌, ◌++◌, arith, length,
  drop, replicate,
}
use mathlib.Core.Path.{subst}
use cmtp_responder.Examples.{granting, granting-Grants}
use cmtp_responder.Property.PtpArray.{PtpArray, uint16}
use cmtp_responder.Property.PtpArray.Append.{Appended}
use cmtp_responder.Property.PtpString.Wire.{Units}
use cmtp_responder.Property.Defaults.{build_supp_props_default, get_supp_obj_props}
use cmtp_responder.Property.Defaults.Described.{supported, AllFound, get_supp_obj_props-AllFound}
use cmtp_responder.Base.Bytes.{le_bytes}
use cmtp_responder.Property.PtpString.{PtpString, text, size_ptpstring, copy_char_to_ptpstring}
use cmtp_responder.Property.PtpString.Put.{string_size}
use cmtp_responder.Property.PtpString.Wire.{IsValid}
use cmtp_responder.Property.Value.{enum_form, is_value_type}
use cmtp_responder.Property.Desc.{
  ObjPropDesc, is_array_type, size_obj_prop_desc, pack_obj_prop_desc,
}
use cmtp_responder.Property.Desc.Wire.{
  IsDescribed, IsArray, desc_bytes, default_bytes, form_bytes, value_bytes,
}
use cmtp_responder.Property.Desc.Pack.{pack_obj_prop_desc-size}
use cmtp_responder.Property.Interdep.{
  InterdepPropConfig, looked_at, is_for, get_size_interdep_prop, get_size_interdep_proplist,
  pack_interdep_proplist,
}
use cmtp_responder.Property.Interdep.Pack.{
  chosen, proplist_bytes, configs_bytes, config_bytes, props_bytes,
  pack_interdep_proplist-looked_at,
}
use cmtp_responder.Entity.Object.{ObjInfo}
use cmtp_responder.Entity.Object.Info.{FileTimes, keywords, get_object_info_size, pack_obj_info}
use cmtp_responder.Entity.Object.Info.Pack.{obj_info_bytes, pack_obj_info-size}
use cmtp_responder.Entity.Store.Info.{StoreInfo, get_store_info_size, pack_store_info}
use cmtp_responder.Entity.Store.Info.Pack.{store_info_bytes, pack_store_info-size}
use cmtp_responder.Entity.Device.Info.{DeviceInfo, get_device_info_size, pack_device_info}
use cmtp_responder.Entity.Device.Info.Pack.{HasStrings, device_info_bytes, pack_device_info-size}
use cmtp_responder.Handler.Incoming.{parse_raw_obj_info}
use cmtp_responder.Handler.Incoming.Parse.{IsInfo, told, parse_raw_obj_info-pack_obj_info}
use cmtp_responder.Examples.Handlers.{around}

abbrev room : List ℕ
room = replicate 120 7

-- The protection status of an object.
abbrev protection : ObjPropDesc
protection = record {
  propinfo = record {
    data_type = 4;
    dts_size = 2;
    form_flag = enum_form;
    min_val = 0;
    max_val = 0;
    step_size = 0;
    supp_values = 0 ∷ 1 ∷ 0x8002 ∷ 0x8003 ∷ [];
    supp_strings = [];
  };
  prop_code = 0xDC03;
  get_set = 0;
  default_integer = replicate 16 0;
  default_str = none;
  default_array = none;
  group_code = 8;
  reg_exp = none;
  max_len = 0;
}

protection-IsDescribed : IsDescribed protection
unfolding IsArray
protection-IsDescribed = record {
  default_string = tt;
  default_array = tt;
  regular = tt;
  strings = tt;
  integer = omega arith;
  listed = λ e. omega arith;
  unsized = λ e. omega (arith, e);
  few_values = omega arith;
  few_strings = omega arith;
}

pack_obj_prop_desc_example :
    (pack_obj_prop_desc protection (some room) 120
      ≡ some (
        some (desc_bytes protection ++ drop (size_obj_prop_desc protection) room),
        size_obj_prop_desc protection,
      ))
    × (size_obj_prop_desc protection ≡ length (desc_bytes protection))
unfolding size_obj_prop_desc desc_bytes le_bytes default_bytes is_array_type is_value_type
    form_bytes value_bytes
pack_obj_prop_desc_example =
    pack_obj_prop_desc-size protection room 120 protection-IsDescribed (omega arith) (omega arith)
      (omega arith)

abbrev configs : List InterdepPropConfig
configs =
    record { format_code = 0x3001; propdesc_list = some protection ∷ [] }
    ∷ record { format_code = 0x3801; propdesc_list = [] }
    ∷ []

pack_interdep_proplist_example :
    (pack_interdep_proplist configs 0x3001 (some room) 120
      ≡ some (
        some (
            proplist_bytes (chosen 0x3001 (looked_at configs))
            ++ drop (get_size_interdep_proplist configs 0x3001) room),
        get_size_interdep_proplist configs 0x3001,
      ))
    × (get_size_interdep_proplist configs 0x3001
        ≡ length (proplist_bytes (chosen 0x3001 (looked_at configs))))
unfolding looked_at chosen is_for proplist_bytes configs_bytes config_bytes props_bytes
    get_size_interdep_proplist get_size_interdep_prop size_obj_prop_desc desc_bytes le_bytes
    default_bytes is_array_type is_value_type form_bytes value_bytes
pack_interdep_proplist_example =
    pack_interdep_proplist-looked_at configs 0x3001 room 120
      ((protection-IsDescribed, tt), ((protection-IsDescribed, tt), tt)) (omega arith) (omega arith)
      (omega arith)

-- One letter and its terminator.
abbrev letter : PtpString
letter = record { num_chars = 2; str = 65 ∷ 0 ∷ 9 ∷ [] }

letter-IsValid : IsValid letter
letter-IsValid = record {
  counted = omega arith;
  small = omega arith;
  units = (omega arith, (omega arith, tt));
}

abbrev times : FileTimes
times = record { created = letter; modified = letter }

abbrev info : ObjInfo
info = record {
  store_id = 0x20001;
  obj_fmt = 0x3001;
  protcn_status = 0;
  file_size = 2 ^ 33;
  thumb_file_size = 0;
  h_parent = 5;
  association_type = 1;
}

abbrev store_info : StoreInfo
store_info = record {
  store_type = 3;
  fs_type = 3;
  access = 0;
  capacity = 1000;
  free_space = 500;
  free_space_in_objs = 0xFFFFFFFF;
  store_desc = letter;
  vol_label = letter;
}

pack_store_info_example :
    (pack_store_info store_info (some room) 120 ≡ (
      some (store_info_bytes store_info ++ drop (get_store_info_size store_info) room),
      get_store_info_size store_info,
    ))
    × (get_store_info_size store_info ≡ length (store_info_bytes store_info))
unfolding get_store_info_size string_size size_ptpstring
pack_store_info_example =
    pack_store_info-size store_info letter-IsValid letter-IsValid room 120 (omega arith)
      (omega arith)

-- A variable that held an object of 8 GiB.
abbrev large : ObjInfo
large = record info { file_size = 2 ^ 33 }

abbrev small : ObjInfo
small = record info { file_size = 5 }

small-IsInfo : IsInfo small
small-IsInfo = record {
  store_id = omega arith;
  obj_fmt = omega arith;
  protcn_status = omega arith;
  thumb_file_size = omega arith;
  h_parent = omega arith;
  association_type = omega arith;
}

abbrev new_string : PtpString
new_string = record { num_chars = 0; str = replicate 255 7 }

-- The literal with a byte behind it that is 0.
abbrev literal : List ℕ
literal = 0 ∷ []

pack_obj_info_example :
    (pack_obj_info new_string literal (some times) info letter (some room) 120 ≡ (
      some (
          obj_info_bytes times info letter (keywords new_string literal)
          ++ drop (get_object_info_size new_string literal (some times) letter) room),
      get_object_info_size new_string literal (some times) letter,
    ))
    × (get_object_info_size new_string literal (some times) letter
        ≡ length (obj_info_bytes times info letter (keywords new_string literal)))
unfolding get_object_info_size string_size size_ptpstring keywords copy_char_to_ptpstring
pack_obj_info_example =
    pack_obj_info-size new_string literal times info letter letter-IsValid letter-IsValid
      letter-IsValid refl (omega arith, tt) room 120 (omega arith) (omega arith)

parse_raw_obj_info_example :
    (name : PtpString) × (parse_raw_obj_info around
        (some (obj_info_bytes times small letter letter))
        (length (obj_info_bytes times small letter letter))
        large
        100
      ≡ some (
        told large small,
        around.utf16_to_utf8 100 name.str,
        length (obj_info_bytes times small letter letter),
      ))
    × (text name ≡ text letter)
parse_raw_obj_info_example =
    parse_raw_obj_info-pack_obj_info around times small large letter letter 100 small-IsInfo
      letter-IsValid letter-IsValid letter-IsValid letter-IsValid

abbrev device_info : DeviceInfo
device_info = record {
  std_version = 0x64;
  vendor_extn_id = 6;
  vendor_extn_version = 0x64;
  vendor_extn_desc = letter;
  functional_mode = 0;
  ops_supported = 0x1001 ∷ 0x1002 ∷ [];
  events_supported = 0x4002 ∷ [];
  capture_fmts = [];
  object_fmts = 0x3001 ∷ [];
  manufacturer = letter;
  model = letter;
  device_version = letter;
  serial_no = letter;
}

device_info-HasStrings : HasStrings device_info
device_info-HasStrings = record {
  desc = letter-IsValid;
  manufacturer = letter-IsValid;
  model = letter-IsValid;
  version = letter-IsValid;
  serial = letter-IsValid;
}

pack_device_info_example :
    (pack_device_info device_info (some room) 120 ≡ (
      some (device_info_bytes device_info ++ drop (get_device_info_size device_info) room),
      get_device_info_size device_info,
    ))
    × (get_device_info_size device_info ≡ length (device_info_bytes device_info))
unfolding get_device_info_size string_size size_ptpstring
pack_device_info_example =
    pack_device_info-size device_info device_info-HasStrings room 120 (omega arith) (omega arith)

-- A conversion of ASCII, and a new string.
abbrev ascii : List ℕ → Option (List ℕ)
ascii text = some (replicate (length text) 65)

ascii-Units : (n : ℕ) → Units (replicate n 65)
ascii-Units zero = tt
ascii-Units (suc n) = (omega arith, ascii-Units n)

some_text : (t u : List ℕ) → ascii t ≡ some u → replicate (length t) 65 ≡ u
some_text t u e = ap (λ (o : Option (List ℕ)). elim o [ none ↦ [] | some l ↦ l ]) e

abbrev codes : PtpArray
codes = record { type = uint16; arr_size = 0; num_ele = 0; array_entry = none }

get_supp_obj_props_example :
    Appended codes supported
      (get_supp_obj_props granting (build_supp_props_default ascii new_string) codes).0
    × ((get_supp_obj_props granting (build_supp_props_default ascii new_string) codes).1 ≡ 0 + 13)
    × AllFound (build_supp_props_default ascii new_string) supported
get_supp_obj_props_example =
    get_supp_obj_props-AllFound ascii
      (λ t u e. subst (λ (l : List ℕ). Units l) (some_text t u e) (ascii-Units (length t)))
      new_string refl granting granting-Grants codes (record { room = refl; fits = omega arith })
      refl (omega arith) (omega arith)
