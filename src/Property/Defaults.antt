-- ===== src/Property/Defaults.antt =====
-- `_prop_build_supp_props_default` of src/entity/mtp_property.c: the descriptions of the properties that
-- every object has, and the lookups among them.
pub mod Described
use cmtp_responder.Base.{
  ℕ, Option, none, some, List, [], ◌∷◌, ◌==◌, if◌then◌else◌, length, replicate,
}
use cmtp_responder.Base.Bytes.{le_bytes}
use cmtp_responder.Support.{utf8_to_utf16}
use cmtp_responder.Property.PtpArray.{Allocator, PtpArray, append_loop}
use cmtp_responder.Property.PtpString.{PtpString}
use cmtp_responder.Property.Value.{
  FormFlag, no_form, enum_form, date_time_form, regular_expression_form, datatype_string,
}
use cmtp_responder.Property.Desc.{
  ObjPropDesc, init_obj_prop_desc, set_default_integer, set_default_string, add_supp_integer_val,
  set_regexp,
}

-- An entry of `props_list_default`, which is static.
abbrev pub zeroed : ObjPropDesc
zeroed = record {
  propinfo = record {
    data_type = 0;
    dts_size = 0;
    form_flag = no_form;
    min_val = 0;
    max_val = 0;
    step_size = 0;
    supp_values = [];
    supp_strings = [];
  };
  prop_code = 0;
  get_set = 0;
  default_integer = replicate 16 0;
  default_str = none;
  default_array = none;
  group_code = 0;
  reg_exp = none;
  max_len = 0;
}

abbrev pub groupcode_general : ℕ
groupcode_general = 8

abbrev pub get_only : ℕ
get_only = 0

abbrev pub get_and_set : ℕ
get_and_set = 1

unfoldable pub described : (propcode data_type get_set : ℕ) → FormFlag → ObjPropDesc
described propcode data_type get_set form =
    init_obj_prop_desc zeroed propcode data_type get_set form groupcode_general

-- The calls whose result is dropped.
unfoldable pub with_default : ℕ → ObjPropDesc → ObjPropDesc
with_default default_val p = (set_default_integer p (le_bytes 4 default_val)).0

unfoldable pub with_guid : ObjPropDesc → ObjPropDesc
with_guid p = (set_default_integer p (replicate 16 0)).0

unfoldable pub with_text : PtpString → List ℕ → ObjPropDesc → ObjPropDesc
with_text fresh temp p = (set_default_string p fresh (some temp)).0

unfoldable pub with_regexp : PtpString → List ℕ → ObjPropDesc → ObjPropDesc
with_regexp fresh temp p = (set_regexp p fresh (some temp)).0

unfoldable pub with_values : List ℕ → ObjPropDesc → ObjPropDesc
with_values [] p = p
with_values (v ∷ vs) p =
    with_values vs (record p { propinfo = (add_supp_integer_val p.propinfo v).0 })

-- The regular expression of a file name, as its bytes.
abbrev pub file_name_regexp : List ℕ
file_name_regexp =
    91 ∷ 97 ∷ 45 ∷ 122 ∷ 65 ∷ 45 ∷ 90 ∷ 33 ∷ 35 ∷ 92 ∷ 36 ∷ 37 ∷ 38 ∷ 96 ∷ 92 ∷ 40 ∷ 92 ∷ 41 ∷ 92
    ∷ 45 ∷ 48 ∷ 45 ∷ 57 ∷ 64 ∷ 92 ∷ 94 ∷ 95 ∷ 92 ∷ 39 ∷ 92 ∷ 123 ∷ 92 ∷ 125 ∷ 92 ∷ 126 ∷ 93 ∷ 123
    ∷ 49 ∷ 44 ∷ 56 ∷ 125 ∷ 92 ∷ 46 ∷ 91 ∷ 91 ∷ 97 ∷ 45 ∷ 122 ∷ 65 ∷ 45 ∷ 90 ∷ 33 ∷ 35 ∷ 92 ∷ 36 ∷ 37
    ∷ 38 ∷ 96 ∷ 92 ∷ 40 ∷ 92 ∷ 41 ∷ 92 ∷ 45 ∷ 48 ∷ 45 ∷ 57 ∷ 64 ∷ 92 ∷ 94 ∷ 95 ∷ 92 ∷ 39 ∷ 92 ∷ 123
    ∷ 92 ∷ 125 ∷ 92 ∷ 126 ∷ 93 ∷ 123 ∷ 49 ∷ 44 ∷ 51 ∷ 125 ∷ 93 ∷ []

-- What `temp` holds after the regular expression, and after the empty text.
unfoldable pub regexp_units : (List ℕ → Option (List ℕ)) → List ℕ
regexp_units convert = (utf8_to_utf16 convert (replicate 129 0) 129 file_name_regexp).0

unfoldable pub empty_units : (List ℕ → Option (List ℕ)) → List ℕ
unfolding regexp_units
empty_units convert = (utf8_to_utf16 convert (regexp_units convert) 129 []).0

-- `fresh` is a new string; memory is granted. The OMA DRM extension is supported.
unfoldable pub build_supp_props_default : (List ℕ → Option (List ℕ)) → PtpString → List ObjPropDesc
unfolding described with_default with_guid with_text with_regexp with_values empty_units
build_supp_props_default convert fresh =
    let empty = with_text fresh (empty_units convert) in
    with_default 0 (described 0xDC01 6 get_only no_form)
    ∷ with_default 0x3001 (described 0xDC02 4 get_only no_form)
    ∷ with_default 0
        (with_values (0 ∷ 1 ∷ 0x8002 ∷ 0x8003 ∷ []) (described 0xDC03 4 get_only enum_form))
    ∷ with_values (0 ∷ []) (described 0xDC04 8 get_only no_form)
    ∷ empty (
        with_regexp fresh (regexp_units convert)
          (described 0xDC07 datatype_string get_and_set regular_expression_form))
    ∷ with_default 0 (described 0xDC0B 6 get_only no_form)
    ∷ with_guid (described 0xDC41 10 get_only no_form)
    ∷ with_default 0 (with_values (0 ∷ 1 ∷ []) (described 0xDC4F 2 get_only enum_form))
    ∷ empty (described 0xDC09 datatype_string get_only date_time_form)
    ∷ empty (described 0xDC08 datatype_string get_only date_time_form)
    ∷ empty (described 0xDC44 datatype_string get_only no_form)
    ∷ with_default 0 (with_values (0 ∷ 1 ∷ []) (described 0xDC05 4 get_and_set enum_form))
    ∷ with_default 0 (with_values (0 ∷ 1 ∷ []) (described 0xDB01 2 get_only enum_form))
    ∷ []

-- The format does not matter.
unfoldable pub get_obj_prop_desc : List ObjPropDesc → (propcode : ℕ) → Option ObjPropDesc
get_obj_prop_desc [] propcode = none
get_obj_prop_desc (p ∷ ps) propcode =
    let rest = get_obj_prop_desc ps propcode in if p.prop_code == propcode then some p else rest

unfoldable pub prop_codes : List ObjPropDesc → List ℕ
prop_codes [] = []
prop_codes (p ∷ ps) = p.prop_code ∷ prop_codes ps

-- The array and the count that is returned.
unfoldable pub get_supp_obj_props : Allocator → List ObjPropDesc → PtpArray → PtpArray × ℕ
unfolding prop_codes append_loop
get_supp_obj_props m props supp_props =
    let supp = append_loop m (length props) (prop_codes props) supp_props in (supp, supp.num_ele)
