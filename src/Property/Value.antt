-- ===== src/Property/Value.antt =====
-- src/entity/mtp_property.c: which values a property may take, and the current value of an integer
-- property of an object.
pub mod Valid
use cmtp_responder.Base.Bytes.{le_bytes, blit}
use cmtp_responder.Property.PtpString.{PtpString, is_equal_ptpstring, copy_ptpstring}
use cmtp_responder.Base.{
  ℕ, ◌/◌, ◌%◌, ◌^◌, Bool, true, false, not, ◌&&◌, Option, none, some, List, [], ◌∷◌, ltb, leb, ◌==◌,
  if◌then◌else◌, get_or, replicate, take,
}

-- `form_flag_t`; `other_form` stands for any other value of the byte that holds it.
pub data FormFlag : Type 0 where
  no_form range_form enum_form date_time_form : FormFlag
  regular_expression_form byte_array_form long_string_form : FormFlag
  other_form : ℕ → FormFlag

-- `prop_info_t` without the code, the access and the default value. Enumerated values are the values of the list's nodes:
-- integers cut to 32 bits, or strings, of which a NULL pointer is `none`.
pub record PropInfo : Type 0 where
  pub data_type : ℕ
  pub dts_size : ℕ
  pub form_flag : FormFlag
  pub min_val : ℕ
  pub max_val : ℕ
  pub step_size : ℕ
  pub supp_values : List ℕ
  pub supp_strings : List (Option PtpString)

-- `(data_type & PTP_DATATYPE_VALUEMASK) == PTP_DATATYPE_VALUE`, for a type of 16 bits.
unfoldable pub is_value_type : ℕ → Bool
is_value_type data_type = data_type / 2 ^ 4 % 2 ^ 12 == 0

any_value : ℕ → List ℕ → Bool
any_value value [] = false
any_value value (v ∷ vs) = if value == v % 2 ^ 32 then true else any_value value vs

form_allows : PropInfo → ℕ → FormFlag → Bool
unfolding any_value
form_allows p value no_form = true
form_allows p value range_form = leb p.min_val value && leb value p.max_val
form_allows p value enum_form = any_value value p.supp_values
form_allows p value _ = false

unfoldable pub is_valid_integer : PropInfo → ℕ → Bool
unfolding form_allows is_value_type
is_valid_integer p value =
    if not (is_value_type p.data_type) then false else form_allows p value p.form_flag

abbrev pub datatype_string : ℕ
datatype_string = 0xFFFF

any_string : PtpString → List (Option PtpString) → Bool
any_string s [] = false
any_string s (none ∷ vs) = any_string s vs
any_string s (some v ∷ vs) = if is_equal_ptpstring s v then true else any_string s vs

-- A string with a time has a `T` behind the date.
form_allows_string : PropInfo → PtpString → FormFlag → Bool
unfolding any_string
form_allows_string p s enum_form = any_string s p.supp_strings
form_allows_string p s date_time_form =
    if not (get_or s.str 8 0 == 84) && ltb 9 s.num_chars then false else true
form_allows_string p s _ = true

-- `none` is a NULL string.
unfoldable pub is_valid_string : PropInfo → Option PtpString → Bool
unfolding form_allows_string
is_valid_string p none = false
is_valid_string p (some s) =
    if not (p.data_type == datatype_string) then false else form_allows_string p s p.form_flag

-- The bytes of the current value and whether it was set.
unfoldable pub set_current_integer_val : PropInfo → List ℕ → ℕ → List ℕ × Bool
set_current_integer_val p integer val =
    if is_valid_integer p val
    then (blit 0 (take p.dts_size (le_bytes 8 val)) (blit 0 (replicate p.dts_size 0) integer), true)
    else (integer, false)

-- The four bytes of the current value of a device property.
unfoldable pub set_current_integer : PropInfo → List ℕ → ℕ → List ℕ × Bool
set_current_integer p integer val =
    if is_valid_integer p val then (blit 0 (le_bytes 4 val) integer, true) else (integer, false)

-- The copy is made into a new string; memory is granted.
unfoldable pub set_current_string :
    PropInfo → (fresh : PtpString) → Option PtpString → Option PtpString → Option PtpString × Bool
set_current_string p fresh current none = (current, false)
set_current_string p fresh current (some s) =
    if is_valid_string p (some s) then (some (copy_ptpstring fresh s), true) else (current, false)
