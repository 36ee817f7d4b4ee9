-- ===== src/Property/Desc/Wire.antt =====
-- `_prop_size_obj_prop_desc` and `_prop_pack_obj_prop_desc` of src/entity/mtp_property.c: the data set
-- of a description on the wire.
use cmtp_responder.Base.{
  ◌<◌, ◌^◌, ℕ, ◌*◌, ◌≤◌, ◌≡◌, refl, ◌∙◌, ap, inl, inr, true, Option, none, some, List, [], ◌∷◌,
  ◌++◌, arith, ◌==◌, if◌then◌else◌, length, take, Bool-cases, length-append, length-take,
  take-append_le,
}
use cmtp_responder.Base.Bytes.{le_bytes, length-le_bytes}
use cmtp_responder.Base.Cursor.{
  put_packed, Packs, Appends, ▸-Appends, done-Appends, put-Appends, put_packed-Appends,
}
use cmtp_responder.Property.PtpArray.{PtpArray, elem_size, elements, is_scalar, get_size_ptparray}
use cmtp_responder.Property.PtpArray
use cmtp_responder.Property.PtpArray.Grow.{max_room}
use cmtp_responder.Property.PtpArray.Pack
use cmtp_responder.Property.PtpString.{PtpString, size_ptpstring, pack_ptpstring}
use cmtp_responder.Property.PtpString.Wire
use cmtp_responder.Property.PtpString.Put
use cmtp_responder.Property.Value.{
  FormFlag, range_form, enum_form, regular_expression_form, byte_array_form, long_string_form,
  is_value_type, datatype_string,
}
use cmtp_responder.Property.Desc.{
  ObjPropDesc, is_array_type, form_code, size_array, pack_array, size_strings, size_default,
  write_string, write_default, write_strings, write_values,
}

-- A string that is there is valid.
abbrev pub IsString : Option PtpString → Type 0
IsString none = Unit
IsString (some p) = Wire.IsValid p

abbrev pub AreStrings : List (Option PtpString) → Type 0
AreStrings [] = Unit
AreStrings (s ∷ ss) = IsString s × AreStrings ss

unfoldable pub string_bytes : Option PtpString → List ℕ
string_bytes none = []
string_bytes (some p) = Wire.wire p

unfoldable pub strings_bytes : List (Option PtpString) → List ℕ
strings_bytes [] = []
strings_bytes (s ∷ ss) = string_bytes s ++ strings_bytes ss

pub length-string_bytes :
    (s : Option PtpString) → IsString s → length (string_bytes s) ≡ size_ptpstring s
unfolding string_bytes Put.string_size size_ptpstring
length-string_bytes none v = refl
length-string_bytes (some p) v = Put.length-wire p v

pub pack_string_law :
    (s : Option PtpString) → IsString s → Packs (pack_ptpstring s) (string_bytes s)
unfolding string_bytes pack_ptpstring
pack_string_law none v tail room = refl
pack_string_law (some p) v tail room = Put.pack_ptpstring-Packs p v tail room

pub write_string-Appends :
    (s : Option PtpString) → IsString s → Appends (write_string s) (string_bytes s)
unfolding write_string
write_string-Appends s v =
    rw (← length-string_bytes s v)
      (put_packed-Appends (pack_ptpstring s) (string_bytes s) (pack_string_law s v))

unfoldable pub IsArray : Option PtpArray → Type 0
IsArray none = Unit
IsArray (some a) = PtpArray.IsValid a × (is_scalar a.type ≡ true) × (a.num_ele ≤ max_room)

unfoldable pub array_bytes : Option PtpArray → List ℕ
array_bytes none = []
array_bytes (some a) = Pack.wire (elem_size a.type) (elements a)

array_wire_size :
    (a : PtpArray)
    → IsArray (some a)
    → length (Pack.wire (elem_size a.type) (elements a)) ≡ get_size_ptparray a
unfolding Pack.wire elements IsArray
array_wire_size a v =
    let count : length (elements a) ≡ a.num_ele =
      omega (arith, length-take a.num_ele (PtpArray.block a.array_entry), v.0.room, v.0.fits) in
    let body : length (PtpArray.block_bytes (elem_size a.type) (elements a))
        ≡ a.num_ele * elem_size a.type =
      Pack.length-block_bytes (elem_size a.type) (elements a)
      ∙ ap (λ (n : ℕ). n * elem_size a.type) count in
    length-append (le_bytes 4 (length (elements a)))
      (PtpArray.block_bytes (elem_size a.type) (elements a))
    ∙ omega
        (arith, length-le_bytes 4 (length (elements a)), body, Pack.get_size_ptparray_lem a v.1 v.2)

pub length-array_bytes : (a : Option PtpArray) → IsArray a → length (array_bytes a) ≡ size_array a
unfolding array_bytes size_array IsArray
length-array_bytes none v = refl
length-array_bytes (some a) v = array_wire_size a v

pack_array_law : (a : Option PtpArray) → IsArray a → Packs (pack_array a) (array_bytes a)
unfolding array_bytes pack_array IsArray
pack_array_law none v tail room = refl
pack_array_law (some a) v tail room =
    let size : length (array_bytes (some a)) ≡ get_size_ptparray a = array_wire_size a v in
    rw size (
      Pack.pack_ptparray-wire a tail (get_size_ptparray a) v.0 v.1 v.2 (omega arith)
        (omega (arith, size, room)))

pub write_array-Appends :
    (a : Option PtpArray)
    → IsArray a
    → Appends (put_packed (pack_array a) (size_array a)) (array_bytes a)
write_array-Appends a v =
    rw (← length-array_bytes a v)
      (put_packed-Appends (pack_array a) (array_bytes a) (pack_array_law a v))

-- The default value, the form and the whole description on the wire.
unfoldable pub default_bytes : ObjPropDesc → List ℕ
default_bytes p =
    if p.data_type == datatype_string
    then string_bytes p.default_str
    else if is_array_type p.data_type
    then array_bytes p.default_array
    else if is_value_type p.data_type
    then take p.dts_size p.default_integer
    else []

unfoldable pub value_bytes : ℕ → List ℕ → List ℕ
value_bytes dts_size [] = []
value_bytes dts_size (v ∷ vs) = take dts_size (le_bytes 4 v) ++ value_bytes dts_size vs

unfoldable pub form_bytes : ObjPropDesc → FormFlag → List ℕ
form_bytes p range_form =
    take p.dts_size (le_bytes 4 p.min_val)
    ++ take p.dts_size (le_bytes 4 p.max_val)
    ++ take p.dts_size (le_bytes 4 p.step_size)
form_bytes p enum_form =
    if p.data_type == datatype_string
    then le_bytes 2 (length p.supp_strings) ++ strings_bytes p.supp_strings
    else le_bytes 2 (length p.supp_values) ++ value_bytes p.dts_size p.supp_values
form_bytes p regular_expression_form = string_bytes p.reg_exp
form_bytes p byte_array_form = le_bytes 4 p.max_len
form_bytes p long_string_form = le_bytes 4 p.max_len
form_bytes p _ = []

unfoldable pub desc_bytes : ObjPropDesc → List ℕ
desc_bytes p =
    le_bytes 2 p.prop_code
    ++ le_bytes 2 p.data_type
    ++ le_bytes 1 p.get_set
    ++ default_bytes p
    ++ le_bytes 4 p.group_code
    ++ le_bytes 1 (form_code p.form_flag)
    ++ form_bytes p p.form_flag

-- The forms that give values of 32 bits.
abbrev pub GivesValues : FormFlag → Type 0
GivesValues range_form = Unit
GivesValues enum_form = Unit
GivesValues _ = ⊥

-- Strings and arrays that are there are valid; a value has no more bytes than the block of a default
-- value, and where the form gives values, no more than these; fewer than 2^16 values are enumerated; a
-- string has no size of a value.
pub record IsDescribed (p : ObjPropDesc) : Type 0 where
  pub default_string : IsString p.default_str
  pub default_array : IsArray p.default_array
  pub regular : IsString p.reg_exp
  pub strings : AreStrings p.supp_strings
  pub integer : p.dts_size ≤ length p.default_integer
  pub listed : GivesValues p.form_flag → p.dts_size ≤ 4
  pub few_values : length p.supp_values < 2 ^ 16
  pub few_strings : length p.supp_strings < 2 ^ 16
  pub unsized : p.data_type ≡ datatype_string → p.dts_size ≡ 0

pub take_of_4 :
    (n v : ℕ) (rest : List ℕ) → n ≤ 4 → take n (le_bytes 4 v ++ rest) ≡ take n (le_bytes 4 v)
take_of_4 n v rest few = take-append_le n (le_bytes 4 v) rest (omega (arith, length-le_bytes 4 v))

pub take_2 : (v : ℕ) → take 2 (le_bytes 4 v) ≡ le_bytes 2 v
unfolding le_bytes
take_2 v = refl

pub write_default-Appends :
    (p : ObjPropDesc) → IsDescribed p → Appends (write_default p) (default_bytes p)
unfolding write_default default_bytes
write_default-Appends p d = elim (Bool-cases (p.data_type == datatype_string)) [
  | inl str ↦ rw str (write_string-Appends p.default_str d.default_string)
  | inr no_str ↦ rw no_str (elim (Bool-cases (is_array_type p.data_type)) [
    | inl arr ↦ rw arr (write_array-Appends p.default_array d.default_array)
    | inr no_arr ↦ rw no_arr (elim (Bool-cases (is_value_type p.data_type)) [
      | inl val ↦ rw val (put-Appends p.dts_size p.default_integer d.integer)
      | inr no_val ↦ rw no_val done-Appends
    ])
  ])
]

pub length-default_bytes :
    (p : ObjPropDesc) → IsDescribed p → length (default_bytes p) ≡ size_default p
unfolding size_default default_bytes
length-default_bytes p d = elim (Bool-cases (p.data_type == datatype_string)) [
  | inl str ↦ rw str (length-string_bytes p.default_str d.default_string)
  | inr no_str ↦ rw no_str (elim (Bool-cases (is_array_type p.data_type)) [
    | inl arr ↦ rw arr (length-array_bytes p.default_array d.default_array)
    | inr no_arr ↦ rw no_arr (elim (Bool-cases (is_value_type p.data_type)) [
      | inl val ↦ rw val (omega (arith, length-take p.dts_size p.default_integer, d.integer))
      | inr no_val ↦ rw no_val refl
    ])
  ])
]

pub write_strings-Appends :
    (ss : List (Option PtpString)) → AreStrings ss → Appends (write_strings ss) (strings_bytes ss)
unfolding write_strings strings_bytes
write_strings-Appends [] v = done-Appends
write_strings-Appends (s ∷ ss) v =
    ▸-Appends (write_string-Appends s v.0) (write_strings-Appends ss v.1)

pub length-strings_bytes :
    (ss : List (Option PtpString)) → AreStrings ss → length (strings_bytes ss) ≡ size_strings ss
unfolding size_strings strings_bytes
length-strings_bytes [] v = refl
length-strings_bytes (s ∷ ss) v = omega (
  arith,
  length-append (string_bytes s) (strings_bytes ss),
  length-string_bytes s v.0,
  length-strings_bytes ss v.1,
)

pub write_values-Appends :
    (n : ℕ) (vs : List ℕ) → n ≤ 4 → Appends (write_values n vs) (value_bytes n vs)
unfolding write_values value_bytes
write_values-Appends n [] few = done-Appends
write_values-Appends n (v ∷ vs) few =
    ▸-Appends (put-Appends n (le_bytes 4 v) (omega (arith, length-le_bytes 4 v)))
      (write_values-Appends n vs few)

pub length-value_bytes : (n : ℕ) (vs : List ℕ) → n ≤ 4 → length (value_bytes n vs) ≡ length vs * n
unfolding value_bytes
length-value_bytes n [] few = omega arith
length-value_bytes n (v ∷ vs) few = omega (
  arith,
  length-append (take n (le_bytes 4 v)) (value_bytes n vs),
  length-take n (le_bytes 4 v),
  length-le_bytes 4 v,
  length-value_bytes n vs few,
)
