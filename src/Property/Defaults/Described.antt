-- ===== src/Property/Defaults/Described.antt =====
-- The descriptions of `_prop_build_supp_props_default` of src/entity/mtp_property.c are well-formed,
-- and each property that is told to be supported has one.
use mathlib.Core.Path.{subst}
use cmtp_responder.Base.{
  ◌^◌, length-append, ℕ, ◌+◌, ◌≤◌, ◌<◌, ◌≡◌, refl, ap, ◌∙◌, inl, inr, true, not, Option, some, List,
  [], ◌∷◌, map, arith, ◌==◌, ◌||◌, Bool-cases, eq_of_==, eq-==, length, take, replicate,
}
use cmtp_responder.Base.Bytes.{le_bytes, length-blit}
use cmtp_responder.Property.PtpArray.{
  Allocator, Grants, PtpArray, uint16, IsValid, is_scalar, cast, append_loop,
}
use cmtp_responder.Property.PtpArray.Grow.{max_room}
use cmtp_responder.Property.PtpArray.Append.{Appended, max_elements, append_loop_lem}
use cmtp_responder.Property.PtpString.{PtpString, max_ptp_string_chars}
use cmtp_responder.Property.PtpString.Wire.{Units}
use cmtp_responder.Property.PtpString.Copied.{replicate-Units, utf8_to_utf16-Units, copied-IsValid}
use cmtp_responder.Property.Value.{
  PropInfo, FormFlag, no_form, enum_form, date_time_form, regular_expression_form, datatype_string,
  is_value_type,
}
use cmtp_responder.Property.Desc.{
  ObjPropDesc, dts_size_of, type_of_form, form_code, init_obj_prop_desc, set_default_integer,
  set_default_string, add_supp_integer_val, set_regexp,
}
use cmtp_responder.Property.Desc.Wire.{IsDescribed, IsArray, GivesValues}
use cmtp_responder.Property.Defaults.{
  described, with_default, with_guid, with_text, with_regexp, with_values, regexp_units,
  empty_units, build_supp_props_default, file_name_regexp, get_obj_prop_desc, prop_codes,
  get_supp_obj_props, get_only, get_and_set,
}

dts_size_bound : (t : ℕ) → dts_size_of t ≤ 16
unfolding dts_size_of
dts_size_bound t = ground arith

described-IsDescribed :
    (c t g : ℕ) (f : FormFlag)
    → (GivesValues f → dts_size_of (type_of_form f t) ≤ 4)
    → (type_of_form f t ≡ datatype_string → dts_size_of (type_of_form f t) ≡ 0)
    → IsDescribed (described c t g f)
unfolding described init_obj_prop_desc IsArray
described-IsDescribed c t g f few unsized = record {
  default_string = tt;
  default_array = tt;
  regular = tt;
  strings = tt;
  few_values = omega arith;
  few_strings = omega arith;
  integer = dts_size_bound (type_of_form f t);
  listed = few;
  unsized = unsized;
}

described-supp_values : (c t g : ℕ) (f : FormFlag) → length (described c t g f).supp_values ≡ 0
unfolding described init_obj_prop_desc
described-supp_values c t g f = refl

set_default_integer-IsDescribed :
    (p : ObjPropDesc) (v : List ℕ) → IsDescribed p → IsDescribed (set_default_integer p v).0
unfolding set_default_integer
set_default_integer-IsDescribed p v d = elim (Bool-cases (is_value_type p.data_type)) [
  | inl val ↦ rw val (record {
    default_string = d.default_string;
    default_array = d.default_array;
    regular = d.regular;
    strings = d.strings;
    integer = omega (arith, d.integer, length-blit 0 (take p.dts_size v) p.default_integer);
    listed = d.listed;
    few_values = d.few_values;
    few_strings = d.few_strings;
    unsized = d.unsized;
  })
  | inr other ↦ rw other d
]

add_supp_integer_val-IsDescribed :
    (p : ObjPropDesc) (v : ℕ)
    → length p.supp_values + 1 < 2 ^ 16
    → IsDescribed p
    → IsDescribed (record p { propinfo = (add_supp_integer_val p.propinfo v).0 })
unfolding add_supp_integer_val
add_supp_integer_val-IsDescribed p v few d =
    elim (Bool-cases (not (is_value_type p.data_type) || not (form_code p.form_flag == 2))) [
      | inl other ↦ rw other d
      | inr listed ↦ rw listed (record {
        default_string = d.default_string;
        default_array = d.default_array;
        regular = d.regular;
        strings = d.strings;
        integer = d.integer;
        listed = d.listed;
        few_values = omega (arith, few, length-append p.supp_values (v ∷ []));
        few_strings = d.few_strings;
        unsized = d.unsized;
      })
    ]

add_supp_integer_val-length :
    (p : PropInfo) (v : ℕ)
    → length (add_supp_integer_val p v).0.supp_values ≤ length p.supp_values + 1
unfolding add_supp_integer_val
add_supp_integer_val-length p v =
    elim (Bool-cases (not (is_value_type p.data_type) || not (form_code p.form_flag == 2))) [
      | inl other ↦ rw other (omega arith)
      | inr listed ↦ rw listed (omega (arith, length-append p.supp_values (v ∷ [])))
    ]

with_values-IsDescribed :
    (vs : List ℕ) (p : ObjPropDesc)
    → length p.supp_values + length vs < 2 ^ 16
    → IsDescribed p
    → IsDescribed (with_values vs p)
unfolding with_values
with_values-IsDescribed [] p few d = d
with_values-IsDescribed (v ∷ vs) p few d =
    with_values-IsDescribed vs (record p { propinfo = (add_supp_integer_val p.propinfo v).0 })
      (omega (arith, few, add_supp_integer_val-length p.propinfo v))
      (add_supp_integer_val-IsDescribed p v (omega (arith, few)) d)

set_default_string-IsDescribed :
    (p : ObjPropDesc) (fresh : PtpString) (temp : List ℕ)
    → length fresh.str ≡ max_ptp_string_chars
    → Units temp
    → IsDescribed p
    → IsDescribed (set_default_string p fresh (some temp)).0
unfolding set_default_string
set_default_string-IsDescribed p fresh temp room u d =
    elim (Bool-cases (p.data_type == datatype_string)) [
      | inl str ↦ rw str (record {
        default_string = copied-IsValid fresh temp room u;
        default_array = d.default_array;
        regular = d.regular;
        strings = d.strings;
        integer = d.integer;
        listed = d.listed;
        few_values = d.few_values;
        few_strings = d.few_strings;
        unsized = d.unsized;
      })
      | inr other ↦ rw other d
    ]

set_regexp-IsDescribed :
    (p : ObjPropDesc) (fresh : PtpString) (temp : List ℕ)
    → length fresh.str ≡ max_ptp_string_chars
    → Units temp
    → IsDescribed p
    → IsDescribed (set_regexp p fresh (some temp)).0
unfolding set_regexp
set_regexp-IsDescribed p fresh temp room u d =
    elim (Bool-cases (not (p.data_type == datatype_string) || not (form_code p.form_flag == 4))) [
      | inl other ↦ rw other d
      | inr str ↦ rw str (record {
        default_string = d.default_string;
        default_array = d.default_array;
        regular = copied-IsValid fresh temp room u;
        strings = d.strings;
        integer = d.integer;
        listed = d.listed;
        few_values = d.few_values;
        few_strings = d.few_strings;
        unsized = d.unsized;
      })
    ]

-- A lookup by the code gives a well-formed description with that code.
pub record Found (props : List ObjPropDesc) (c : ℕ) : Type 0 where
  pub desc : ObjPropDesc
  pub got : get_obj_prop_desc props c ≡ some desc
  pub coded : desc.prop_code ≡ c
  pub is_described : IsDescribed desc

abbrev pub AllFound : List ObjPropDesc → List ℕ → Type 0
AllFound props [] = Unit
AllFound props (c ∷ cs) = Found props c × AllFound props cs

abbrev AllDescribed : List ObjPropDesc → Type 0
AllDescribed [] = Unit
AllDescribed (p ∷ ps) = IsDescribed p × AllDescribed ps

first_match :
    (p : ObjPropDesc) (ps : List ObjPropDesc) (c : ℕ)
    → IsDescribed p
    → (p.prop_code == c) ≡ true
    → Found (p ∷ ps) c
unfolding get_obj_prop_desc
first_match p ps c d same = record {
  desc = p;
  got = rw same refl;
  coded = eq_of_== p.prop_code c same;
  is_described = d;
}

match_behind :
    (p : ObjPropDesc) (ps : List ObjPropDesc) (c : ℕ)
    → IsDescribed p
    → Found ps c
    → Found (p ∷ ps) c
unfolding get_obj_prop_desc
match_behind p ps c d f = elim (Bool-cases (p.prop_code == c)) [
  | inl same ↦ first_match p ps c d same
  | inr other ↦ record {
    desc = f.desc;
    got = rw other f.got;
    coded = f.coded;
    is_described = f.is_described;
  }
]

all_behind :
    (p : ObjPropDesc) (ps : List ObjPropDesc) (cs : List ℕ)
    → IsDescribed p
    → AllFound ps cs
    → AllFound (p ∷ ps) cs
all_behind p ps [] d f = tt
all_behind p ps (c ∷ cs) d f = (match_behind p ps c d f.0, all_behind p ps cs d f.1)

all_found : (ps : List ObjPropDesc) → AllDescribed ps → AllFound ps (prop_codes ps)
unfolding prop_codes
all_found [] d = tt
all_found (p ∷ ps) d = (
  first_match p ps p.prop_code d.0 (eq-== p.prop_code p.prop_code refl),
  all_behind p ps (prop_codes ps) d.0 (all_found ps d.1),
)

-- The codes of the properties of an object, in their order.
abbrev pub supported : List ℕ
supported =
    0xDC01 ∷ 0xDC02 ∷ 0xDC03 ∷ 0xDC04 ∷ 0xDC07 ∷ 0xDC0B ∷ 0xDC41 ∷ 0xDC4F ∷ 0xDC09 ∷ 0xDC08 ∷ 0xDC44
    ∷ 0xDC05 ∷ 0xDB01 ∷ []

module _ (convert : List ℕ → Option (List ℕ)) (wide : (t u : List ℕ) → convert t ≡ some u → Units u)
    (fresh : PtpString) (room : length fresh.str ≡ max_ptp_string_chars) where
  regexp_units-Units : Units (regexp_units convert)
  unfolding regexp_units
  regexp_units-Units =
      utf8_to_utf16-Units convert wide (replicate 129 0) 129 file_name_regexp
        (replicate-Units 129 0 (omega arith))

  empty_units-Units : Units (empty_units convert)
  unfolding empty_units
  empty_units-Units =
      utf8_to_utf16-Units convert wide (regexp_units convert) 129 [] regexp_units-Units

  number :
      (v : ℕ) {p : ObjPropDesc}
      → IsDescribed p
      → IsDescribed (set_default_integer p (le_bytes 4 v)).0
  number v {p} d = set_default_integer-IsDescribed p (le_bytes 4 v) d

  text :
      {p : ObjPropDesc}
      → IsDescribed p
      → IsDescribed (set_default_string p fresh (some (empty_units convert))).0
  text {p} d = set_default_string-IsDescribed p fresh (empty_units convert) room empty_units-Units d

  described_all : AllDescribed (build_supp_props_default convert fresh)
  unfolding build_supp_props_default dts_size_of type_of_form with_guid with_regexp
  described_all =
      let plain = λ (c t : ℕ) (h : t < 16).
        described-IsDescribed c t get_only no_form (λ e. elim e [ ]) (λ e. omega (arith, e)) in
      let listed = λ (c t g : ℕ) (vs : List ℕ) (h : t < 5) (few : length vs < 5).
        with_values-IsDescribed vs (described c t g enum_form)
          (omega (arith, few, described-supp_values c t g enum_form))
          (described-IsDescribed c t g enum_form (λ e. ground arith) (λ e. omega (arith, e))) in
      let dated = λ (c : ℕ).
        described-IsDescribed c datatype_string get_only date_time_form (λ e. elim e [ ])
          (λ e. refl) in
      let named =
        described-IsDescribed 0xDC44 datatype_string get_only no_form (λ e. elim e [ ])
          (λ e. refl) in
      let file = described 0xDC07 datatype_string get_and_set regular_expression_form in
      let matched =
        set_regexp-IsDescribed file fresh (regexp_units convert) room regexp_units-Units (
          described-IsDescribed 0xDC07 datatype_string get_and_set regular_expression_form
            (λ e. elim e [ ]) (λ e. refl)) in
      (
        number 0 (plain 0xDC01 6 (omega arith)),
        (
          number 0x3001 (plain 0xDC02 4 (omega arith)),
          (
            number 0 (
                listed 0xDC03 4 get_only (0 ∷ 1 ∷ 0x8002 ∷ 0x8003 ∷ []) (omega arith)
                  (omega arith)),
            (
              with_values-IsDescribed (0 ∷ []) (described 0xDC04 8 get_only no_form)
                  (omega (arith, described-supp_values 0xDC04 8 get_only no_form))
                  (plain 0xDC04 8 (omega arith)),
              (
                text matched,
                (
                  number 0 (plain 0xDC0B 6 (omega arith)),
                  (
                    set_default_integer-IsDescribed (described 0xDC41 10 get_only no_form)
                        (replicate 16 0) (plain 0xDC41 10 (omega arith)),
                    (
                      number 0 (listed 0xDC4F 2 get_only (0 ∷ 1 ∷ []) (omega arith) (omega arith)),
                      (
                        text (dated 0xDC09),
                        (
                          text (dated 0xDC08),
                          (
                            text named,
                            (
                              number 0 (
                                  listed 0xDC05 4 get_and_set (0 ∷ 1 ∷ []) (omega arith)
                                    (omega arith)),
                              (
                                number 0 (
                                    listed 0xDB01 2 get_only (0 ∷ 1 ∷ []) (omega arith)
                                      (omega arith)),
                                tt,
                              ),
                            ),
                          ),
                        ),
                      ),
                    ),
                  ),
                ),
              ),
            ),
          ),
        ),
      )

  codes_lem : prop_codes (build_supp_props_default convert fresh) ≡ supported
  unfolding build_supp_props_default prop_codes with_default with_guid with_text with_regexp
      with_values described init_obj_prop_desc set_default_integer set_default_string set_regexp
      add_supp_integer_val is_value_type form_code type_of_form dts_size_of
  codes_lem = refl

  count : length (build_supp_props_default convert fresh) ≡ 13
  unfolding build_supp_props_default
  count = refl

  thirteen :
      map (cast uint16) (take (length (build_supp_props_default convert fresh)) supported)
      ≡ supported
  unfolding build_supp_props_default cast
  thirteen = refl

  -- With a conversion to 16-bit units, granted memory, a new string of full room and an array of 16-bit
  -- words with room for thirteen more: the supported properties are told by appending just these
  -- thirteen codes, in order, and returning the number of elements, and for each of them the lookup
  -- gives a description with its code that is well-formed.
  pub get_supp_obj_props-AllFound :
      (m : Allocator)
      → Grants m
      → (arr : PtpArray) → IsValid arr
      → arr.type ≡ uint16
      → arr.arr_size ≤ max_room
      → arr.num_ele + 13 ≤ max_elements
      → Appended arr supported (get_supp_obj_props m (build_supp_props_default convert fresh) arr).0
        × ((get_supp_obj_props m (build_supp_props_default convert fresh) arr).1 ≡ arr.num_ele + 13)
        × AllFound (build_supp_props_default convert fresh) supported
  unfolding get_supp_obj_props is_scalar
  get_supp_obj_props-AllFound m g arr valid words bounded few =
      let props = build_supp_props_default convert fresh in
      let told : map (cast arr.type) (take (length props) (prop_codes props)) ≡ supported =
        ap (λ l. map (cast arr.type) (take (length props) l)) codes_lem
        ∙ ap (λ t. map (cast t) (take (length props) supported)) words
        ∙ thirteen in
      let number_of : length (prop_codes props) ≡ 13 = ap (λ (l : List ℕ). length l) codes_lem in
      let appended =
        append_loop_lem m g (length props) (prop_codes props) arr valid (ap is_scalar words) bounded
          (omega (arith, few, count)) (omega (arith, number_of, count)) in
      let result =
        subst (λ l. Appended arr l (append_loop m (length props) (prop_codes props) arr)) told
          appended in
      (
        result,
        result.num_ele,
        subst (λ l. AllFound props l) codes_lem (all_found props described_all),
      )
