-- ===== src/Property/Desc/Pack.antt =====
-- `_prop_pack_obj_prop_desc` of src/entity/mtp_property.c writes what the size function announces.
use cmtp_responder.Base.{
  Bool, true, false, ◌&&◌, ltb, lt→ltb, ap, ◌∙◌, ℕ, ◌+◌, ◌*◌, ◌^◌, ◌≤◌, ◌<◌, ◌≡◌, refl, inl, inr,
  some, List, ◌++◌, arith, ◌==◌, length, take, drop, Bool-cases, eq_of_==, length-append,
  length-take,
}
use cmtp_responder.Base.Bytes.{le_bytes, length-le_bytes}
use cmtp_responder.Base.Cursor.{
  Appends, ▸-Appends, done-Appends, put-Appends, Appends-eq, put_all, pack_by_lem, pack_by-Packs,
  Cursor, pack_by, PacksBack,
}
use cmtp_responder.Property.Value.{
  FormFlag, no_form, range_form, enum_form, date_time_form, regular_expression_form,
  byte_array_form, long_string_form, other_form, datatype_string,
}
use cmtp_responder.Property.Desc.Wire.{
  IsDescribed, GivesValues, strings_bytes, value_bytes, default_bytes, form_bytes, desc_bytes,
  take_of_4, take_2, write_default-Appends, length-default_bytes, write_strings-Appends,
  length-strings_bytes, write_values-Appends, length-value_bytes, write_string-Appends,
  length-string_bytes,
}
use cmtp_responder.Property.Desc.{
  ObjPropDesc, form_code, size_default, size_form, size_obj_prop_desc, write_form,
  write_obj_prop_desc, runs_off, packed_desc, pack_obj_prop_desc,
}

write_enum-Appends :
    (p : ObjPropDesc)
    → IsDescribed p
    → GivesValues p.form_flag
    → Appends (write_form p enum_form) (form_bytes p enum_form)
unfolding write_form form_bytes
write_enum-Appends p d gives =
    let count = λ (n : ℕ).
      Appends-eq (put-Appends 2 (le_bytes 4 n) (omega (arith, length-le_bytes 4 n))) (take_2 n) in
    elim (Bool-cases (p.data_type == datatype_string)) [
      | inl str ↦ rw str (
          ▸-Appends (count (length p.supp_strings))
            (write_strings-Appends p.supp_strings d.strings))
      | inr no_str ↦ rw no_str (
          ▸-Appends (count (length p.supp_values))
            (write_values-Appends p.dts_size p.supp_values (d.listed gives)))
    ]

write_range-Appends :
    (p : ObjPropDesc) → p.dts_size ≤ 4 → Appends (write_form p range_form) (form_bytes p range_form)
unfolding write_form form_bytes
write_range-Appends p few =
    let step = le_bytes 4 p.step_size in
    let max = le_bytes 4 p.max_val ++ step in
    let min = le_bytes 4 p.min_val ++ max in
    ▸-Appends
      (▸-Appends
        (Appends-eq
          (put-Appends p.dts_size min (
            omega
              (arith, few, length-append (le_bytes 4 p.min_val) max, length-le_bytes 4 p.min_val)))
          (take_of_4 p.dts_size p.min_val max few))
        (Appends-eq
          (put-Appends p.dts_size max (
            omega
              (arith, few, length-append (le_bytes 4 p.max_val) step, length-le_bytes 4 p.max_val)))
          (take_of_4 p.dts_size p.max_val step few)))
      (put-Appends p.dts_size step (omega (arith, few, length-le_bytes 4 p.step_size)))

write_form-Appends :
    (p : ObjPropDesc) (form : FormFlag)
    → IsDescribed p
    → p.form_flag ≡ form
    → Appends (write_form p form) (form_bytes p form)
unfolding write_form form_bytes
write_form-Appends p no_form d e = done-Appends
write_form-Appends p range_form d e = write_range-Appends p (d.listed (rw e tt))
write_form-Appends p enum_form d e = write_enum-Appends p d (rw e tt)
write_form-Appends p date_time_form d e = done-Appends
write_form-Appends p regular_expression_form d e = write_string-Appends p.reg_exp d.regular
write_form-Appends p byte_array_form d e = put_all 4 p.max_len
write_form-Appends p long_string_form d e = put_all 4 p.max_len
write_form-Appends p (other_form code) d e = done-Appends

length-enum_bytes :
    (p : ObjPropDesc)
    → IsDescribed p
    → GivesValues p.form_flag
    → length (form_bytes p enum_form) ≡ size_form p enum_form
unfolding form_bytes size_form
length-enum_bytes p d gives = elim (Bool-cases (p.data_type == datatype_string)) [
  | inl str ↦ rw str (
      omega (
        arith,
        length-append (le_bytes 2 (length p.supp_strings)) (strings_bytes p.supp_strings),
        length-le_bytes 2 (length p.supp_strings),
        length-strings_bytes p.supp_strings d.strings,
      ))
  | inr no_str ↦ rw no_str (
      omega (
        arith,
        length-append (le_bytes 2 (length p.supp_values)) (value_bytes p.dts_size p.supp_values),
        length-le_bytes 2 (length p.supp_values),
        length-value_bytes p.dts_size p.supp_values (d.listed gives),
      ))
]

length-range_bytes :
    (p : ObjPropDesc)
    → IsDescribed p
    → p.dts_size ≤ 4
    → length (form_bytes p range_form) ≡ size_form p range_form
unfolding form_bytes size_form
length-range_bytes p d few =
    let part = λ (v : ℕ).
      let t : length (take p.dts_size (le_bytes 4 v)) ≡ p.dts_size =
        omega (arith, few, length-take p.dts_size (le_bytes 4 v), length-le_bytes 4 v) in
      t in
    let whole : length (form_bytes p range_form) ≡ 3 * p.dts_size = omega (
      arith,
      length-append
          (take p.dts_size (le_bytes 4 p.min_val) ++ take p.dts_size (le_bytes 4 p.max_val))
          (take p.dts_size (le_bytes 4 p.step_size)),
      length-append (take p.dts_size (le_bytes 4 p.min_val))
          (take p.dts_size (le_bytes 4 p.max_val)),
      part p.min_val,
      part p.max_val,
      part p.step_size,
    ) in
    elim (Bool-cases (p.data_type == datatype_string)) [
      | inl str ↦ rw str (omega (arith, whole, d.unsized (eq_of_== _ _ str)))
      | inr no_str ↦ rw no_str whole
    ]

length-form_bytes :
    (p : ObjPropDesc) (form : FormFlag)
    → IsDescribed p
    → p.form_flag ≡ form
    → length (form_bytes p form) ≡ size_form p form
unfolding form_bytes size_form
length-form_bytes p no_form d e = refl
length-form_bytes p range_form d e = length-range_bytes p d (d.listed (rw e tt))
length-form_bytes p enum_form d e = length-enum_bytes p d (rw e tt)
length-form_bytes p date_time_form d e = refl
length-form_bytes p regular_expression_form d e = length-string_bytes p.reg_exp d.regular
length-form_bytes p byte_array_form d e = length-le_bytes 4 p.max_len
length-form_bytes p long_string_form d e = length-le_bytes 4 p.max_len
length-form_bytes p (other_form code) d e = refl

write_obj_prop_desc-Appends :
    (p : ObjPropDesc) → IsDescribed p → Appends (write_obj_prop_desc p) (desc_bytes p)
unfolding write_obj_prop_desc desc_bytes
write_obj_prop_desc-Appends p d =
    ▸-Appends
      (▸-Appends
        (▸-Appends
          (▸-Appends
            (▸-Appends (▸-Appends (put_all 2 p.prop_code) (put_all 2 p.data_type))
              (put_all 1 p.get_set))
            (write_default-Appends p d))
          (put_all 4 p.group_code))
        (put_all 1 (form_code p.form_flag)))
      (write_form-Appends p p.form_flag d refl)

-- The description on the wire is as long as the fields, the default value and the form.
length-desc_bytes :
    (p : ObjPropDesc)
    → IsDescribed p
    → length (desc_bytes p) ≡ 10 + size_default p + size_form p p.form_flag
unfolding desc_bytes
length-desc_bytes p d =
    let code = le_bytes 2 p.prop_code in
    let type = le_bytes 2 p.data_type in
    let access = le_bytes 1 p.get_set in
    let group = le_bytes 4 p.group_code in
    let form = le_bytes 1 (form_code p.form_flag) in
    omega (
      arith,
      length-append (code ++ type ++ access ++ default_bytes p ++ group ++ form)
          (form_bytes p p.form_flag),
      length-append (code ++ type ++ access ++ default_bytes p ++ group) form,
      length-append (code ++ type ++ access ++ default_bytes p) group,
      length-append (code ++ type ++ access) (default_bytes p),
      length-append (code ++ type) access,
      length-append code type,
      length-le_bytes 2 p.prop_code,
      length-le_bytes 2 p.data_type,
      length-le_bytes 1 p.get_set,
      length-le_bytes 4 p.group_code,
      length-le_bytes 1 (form_code p.form_flag),
      length-default_bytes p d,
      length-form_bytes p p.form_flag d refl,
    )

pub size_obj_prop_desc_lem :
    (p : ObjPropDesc)
    → IsDescribed p
    → length (desc_bytes p) < 2 ^ 32
    → size_obj_prop_desc p ≡ length (desc_bytes p)
unfolding size_obj_prop_desc
size_obj_prop_desc_lem p d few = omega (arith, length-desc_bytes p d)

on_list : (p : ObjPropDesc) (form : FormFlag) → IsDescribed p → runs_off p form ≡ false
unfolding runs_off
on_list p no_form d = refl
on_list p range_form d = refl
on_list p enum_form d =
    let few_strings = lt→ltb (length p.supp_strings) (2 ^ 16) d.few_strings in
    let few_values = lt→ltb (length p.supp_values) (2 ^ 16) d.few_values in
    rw (few_strings, few_values)
      (elim (Bool-cases (p.data_type == datatype_string)) [
        | inl str ↦ rw str refl
        | inr no_str ↦ rw no_str refl
      ])
on_list p date_time_form d = refl
on_list p regular_expression_form d = refl
on_list p byte_array_form d = refl
on_list p long_string_form d = refl
on_list p (other_form code) d = refl

and_false : (on : Bool) → (on && false) ≡ false
and_false true = refl
and_false false = refl

-- A described property comes back from packing.
packed_desc_lem :
    (p : ObjPropDesc) (r : Cursor × Bool)
    → IsDescribed p
    → packed_desc p r ≡ some (some r.0.buf, r.0.at)
unfolding packed_desc
packed_desc_lem p (c, on) d = rw (on_list p p.form_flag d) (rw (and_false on) refl)

pack_obj_prop_desc_lem :
    (p : ObjPropDesc) (buf : List ℕ) (size : ℕ)
    → IsDescribed p
    → pack_obj_prop_desc p (some buf) size
      ≡ some (pack_by (write_obj_prop_desc p) (size_obj_prop_desc p) (some buf) size)
unfolding pack_obj_prop_desc pack_by
pack_obj_prop_desc_lem p buf size d =
    rw (packed_desc_lem p (write_obj_prop_desc p (record { buf = buf; at = 0 })) d)
      (elim (Bool-cases (ltb size (size_obj_prop_desc p))) [
        | inl short ↦ rw short refl
        | inr long ↦ rw long refl
      ])

-- A property whose strings and arrays are valid, whose values have no more bytes than their fields hold
-- and of which fewer than 2^16 are enumerated, with a data set of fewer than 2^32 bytes: into a buffer
-- with room for the announced size, packing comes back, writes exactly the data set, which has the
-- announced size, leaves what lies behind it, and returns the size.
pub pack_obj_prop_desc-size :
    (p : ObjPropDesc) (buf : List ℕ) (size : ℕ)
    → IsDescribed p
    → length (desc_bytes p) < 2 ^ 32
    → size_obj_prop_desc p ≤ size
    → size_obj_prop_desc p ≤ length buf
    → (pack_obj_prop_desc p (some buf) size
        ≡ some (some (desc_bytes p ++ drop (size_obj_prop_desc p) buf), size_obj_prop_desc p))
      × (size_obj_prop_desc p ≡ length (desc_bytes p))
pack_obj_prop_desc-size p buf size d few enough room =
    let exact = size_obj_prop_desc_lem p d few in
    (
      pack_obj_prop_desc_lem p buf size d
          ∙ ap some (
              pack_by_lem (size_obj_prop_desc p) buf size (write_obj_prop_desc-Appends p d) exact
                enough room),
      exact,
    )

pub pack_obj_prop_desc-PacksBack :
    (p : ObjPropDesc)
    → IsDescribed p
    → length (desc_bytes p) < 2 ^ 32
    → PacksBack (pack_obj_prop_desc p) (desc_bytes p)
pack_obj_prop_desc-PacksBack p d few tail room =
    pack_obj_prop_desc_lem p tail (length (desc_bytes p)) d
    ∙ ap some (
        pack_by-Packs (size_obj_prop_desc p) (write_obj_prop_desc-Appends p d)
          (size_obj_prop_desc_lem p d few) tail room)
