-- ===== src/Property/Desc.antt =====
-- src/entity/mtp_property.c: the description of an object property, and its data set on the wire.
pub mod Wire
pub mod Pack
use mathlib.Core.Option
use cmtp_responder.Base.{
  ℕ, ◌+◌, ◌-◌, ◌*◌, ◌/◌, ◌%◌, ◌^◌, Bool, true, false, not, ◌&&◌, ◌||◌, Option, none, some, List, [],
  ◌∷◌, ◌++◌, ltb, ◌==◌, if◌then◌else◌, length, take, replicate,
}
use cmtp_responder.Base.Bytes.{le_bytes, blit}
use cmtp_responder.Base.Cursor.{Write, ◌▸◌, done, put, put_packed, Cursor}
use cmtp_responder.Property.PtpArray.{PtpArray, get_size_ptparray, pack_ptparray}
use cmtp_responder.Property.PtpString.{
  PtpString, wchar_type, size_ptpstring, pack_ptpstring, copy_char_to_ptpstring,
}
use cmtp_responder.Property.Value.{
  PropInfo, FormFlag, no_form, range_form, enum_form, date_time_form, regular_expression_form,
  byte_array_form, long_string_form, other_form, is_value_type, datatype_string,
}

-- `obj_prop_desc_t`, with the rest of its `prop_info_t`. The members of a union are fields of their
-- own: the data type and the form say which of them counts. A NULL pointer is `none`.
pub record ObjPropDesc : Type 0 where
  pub propinfo : PropInfo
  pub open propinfo use *
  pub prop_code : ℕ
  pub get_set : ℕ
  pub default_integer : List ℕ
  pub default_str : Option PtpString
  pub default_array : Option PtpArray
  pub group_code : ℕ
  pub reg_exp : Option PtpString
  pub max_len : ℕ

-- `(data_type & PTP_DATATYPE_ARRAYMASK) == PTP_DATATYPE_ARRAY`, for a type of 16 bits.
unfoldable pub is_array_type : ℕ → Bool
is_array_type data_type = data_type / 2 ^ 4 % 2 ^ 8 == 0 && data_type / 2 ^ 14 % 2 == 1

unfoldable pub form_code : FormFlag → ℕ
form_code no_form = 0
form_code range_form = 1
form_code enum_form = 2
form_code date_time_form = 3
form_code regular_expression_form = 4
form_code byte_array_form = 5
form_code long_string_form = 0xFF
form_code (other_form code) = code

-- The types of one form, as the form sets them.
unfoldable pub type_of_form : FormFlag → ℕ → ℕ
type_of_form byte_array_form data_type = 0x4002
type_of_form long_string_form data_type = 0x4004
type_of_form _ data_type = data_type

-- The types of the integers and of their arrays, in steps of two.
unfoldable pub dts_size_of : ℕ → ℕ
dts_size_of data_type =
    let kind = if ltb 0x4000 data_type then data_type - 0x4000 else data_type in
    if kind == 1 || kind == 2
    then 1
    else if kind == 3 || kind == 4
    then 2
    else if kind == 5 || kind == 6
    then 4
    else if kind == 7 || kind == 8
    then 8
    else if kind == 9 || kind == 10
    then 16
    else 0

-- The fields that are not set keep what `there` has.
unfoldable pub init_obj_prop_desc :
    ObjPropDesc → (propcode data_type get_set : ℕ) → FormFlag → ℕ → ObjPropDesc
unfolding type_of_form dts_size_of
init_obj_prop_desc there propcode data_type get_set form_flag group_code =
    let type = type_of_form form_flag data_type in
    record there {
      propinfo = record there.propinfo {
        data_type = type;
        dts_size = dts_size_of type;
        form_flag = form_flag;
        supp_values = [];
        supp_strings = [];
      };
      prop_code = propcode;
      get_set = get_set;
      default_integer = replicate 16 0;
      default_str = none;
      default_array = none;
      group_code = group_code;
      reg_exp = none;
      max_len = 0;
    }

-- `value` is what stands in memory from the address that is given.
unfoldable pub set_default_integer : ObjPropDesc → List ℕ → ObjPropDesc × Bool
set_default_integer p value =
    if is_value_type p.data_type
    then (record p { default_integer = blit 0 (take p.dts_size value) p.default_integer }, true)
    else (p, false)

-- `fresh` is the new string; memory is granted.
unfoldable pub set_default_string : ObjPropDesc → PtpString → Option (List ℕ) → ObjPropDesc × Bool
set_default_string p fresh val =
    if p.data_type == datatype_string
    then (record p { default_str = some (copy_char_to_ptpstring fresh val wchar_type) }, true)
    else (p, false)

unfoldable pub add_supp_integer_val : PropInfo → ℕ → PropInfo × Bool
add_supp_integer_val p value =
    if not (is_value_type p.data_type) || not (form_code p.form_flag == 2)
    then (p, false)
    else (record p { supp_values = p.supp_values ++ value ∷ [] }, true)

unfoldable pub add_supp_string_val : PropInfo → PtpString → Option (List ℕ) → PropInfo × Bool
add_supp_string_val p fresh val =
    if not (p.data_type == datatype_string) || not (form_code p.form_flag == 2)
    then (p, false)
    else (
      record p {
        supp_strings = p.supp_strings ++ some (copy_char_to_ptpstring fresh val wchar_type) ∷ [];
      },
      true,
    )

unfoldable pub set_regexp : ObjPropDesc → PtpString → Option (List ℕ) → ObjPropDesc × Bool
set_regexp p fresh regex =
    if not (p.data_type == datatype_string) || not (form_code p.form_flag == 4)
    then (p, false)
    else (record p { reg_exp = some (copy_char_to_ptpstring fresh regex wchar_type) }, true)

unfoldable pub size_array : Option PtpArray → ℕ
size_array none = 0
size_array (some a) = get_size_ptparray a

unfoldable pub pack_array : Option PtpArray → Option (List ℕ) → ℕ → Option (List ℕ) × ℕ
pack_array none buf size = (buf, 0)
pack_array (some a) buf size = pack_ptparray a buf size

pub size_strings : List (Option PtpString) → ℕ
size_strings [] = 0
size_strings (s ∷ ss) = size_ptpstring s + size_strings ss

unfoldable pub size_default : ObjPropDesc → ℕ
unfolding size_array
size_default p =
    if p.data_type == datatype_string
    then size_ptpstring p.default_str
    else if is_array_type p.data_type
    then size_array p.default_array
    else if is_value_type p.data_type
    then p.dts_size
    else 0

unfoldable pub size_form : ObjPropDesc → FormFlag → ℕ
unfolding size_strings
size_form p range_form = if not (p.data_type == datatype_string) then 3 * p.dts_size else 0
size_form p enum_form =
    if not (p.data_type == datatype_string)
    then 2 + length p.supp_values * p.dts_size
    else 2 + size_strings p.supp_strings
size_form p regular_expression_form = size_ptpstring p.reg_exp
size_form p byte_array_form = 4
size_form p long_string_form = 4
size_form p _ = 0

unfoldable pub size_obj_prop_desc : ObjPropDesc → ℕ
unfolding size_default size_form
size_obj_prop_desc p = (10 + size_default p + size_form p p.form_flag) % 2 ^ 32

unfoldable pub write_string : Option PtpString → Write
write_string s = put_packed (pack_ptpstring s) (size_ptpstring s)

unfoldable pub write_default : ObjPropDesc → Write
unfolding write_string
write_default p =
    if p.data_type == datatype_string
    then write_string p.default_str
    else if is_array_type p.data_type
    then put_packed (pack_array p.default_array) (size_array p.default_array)
    else if is_value_type p.data_type
    then put p.dts_size p.default_integer
    else done

pub write_strings : List (Option PtpString) → Write
unfolding write_string
write_strings [] = done
write_strings (s ∷ ss) = write_string s ▸ write_strings ss

-- Each value is cut to 32 bits.
pub write_values : ℕ → List ℕ → Write
write_values dts_size [] = done
write_values dts_size (v ∷ vs) = put dts_size (le_bytes 4 v) ▸ write_values dts_size vs

-- The fields of the range follow one another in memory.
unfoldable pub write_form : ObjPropDesc → FormFlag → Write
unfolding write_string write_strings write_values
write_form p range_form =
    let step = le_bytes 4 p.step_size in
    let max = le_bytes 4 p.max_val ++ step in
    let min = le_bytes 4 p.min_val ++ max in
    put p.dts_size min ▸ put p.dts_size max ▸ put p.dts_size step
write_form p enum_form =
    if p.data_type == datatype_string
    then put 2 (le_bytes 4 (length p.supp_strings)) ▸ write_strings p.supp_strings
    else put 2 (le_bytes 4 (length p.supp_values)) ▸ write_values p.dts_size p.supp_values
write_form p regular_expression_form = write_string p.reg_exp
write_form p byte_array_form = put 4 (le_bytes 4 p.max_len)
write_form p long_string_form = put 4 (le_bytes 4 p.max_len)
write_form p _ = done

unfoldable pub write_obj_prop_desc : ObjPropDesc → Write
unfolding write_default write_form
write_obj_prop_desc p =
    put 2 (le_bytes 2 p.prop_code)
    ▸ put 2 (le_bytes 2 p.data_type)
    ▸ put 1 (le_bytes 1 p.get_set)
    ▸ write_default p
    ▸ put 4 (le_bytes 4 p.group_code)
    ▸ put 1 (le_bytes 1 (form_code p.form_flag))
    ▸ write_form p p.form_flag

-- The loops over the enumerated values count in 16 bits: where the list has 2^16 nodes or more they do
-- not stop at its end, but follow the NULL pointer there.
unfoldable pub runs_off : ObjPropDesc → FormFlag → Bool
runs_off p enum_form =
    if p.data_type == datatype_string
    then not (ltb (length p.supp_strings) (2 ^ 16))
    else not (ltb (length p.supp_values) (2 ^ 16))
runs_off p _ = false

-- Behind the writes, if none of them returned early.
unfoldable pub packed_desc : ObjPropDesc → Cursor × Bool → Option (Option (List ℕ) × ℕ)
unfolding runs_off
packed_desc p (c, on) = if on && runs_off p p.form_flag then none else some (some c.buf, c.at)

-- `none` is a NULL pointer that is followed.
unfoldable pub pack_obj_prop_desc : ObjPropDesc → Option (List ℕ) → ℕ → Option (Option (List ℕ) × ℕ)
unfolding packed_desc
pack_obj_prop_desc p none size = some (none, 0)
pack_obj_prop_desc p (some buf) size =
    let written = packed_desc p (write_obj_prop_desc p (record { buf = buf; at = 0 })) in
    if ltb size (size_obj_prop_desc p) then some (some buf, 0) else written
