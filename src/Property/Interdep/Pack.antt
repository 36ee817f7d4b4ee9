-- ===== src/Property/Interdep/Pack.antt =====
-- `_prop_pack_interdep_proplist` of src/entity/mtp_property.c: the data set on the wire.
use cmtp_responder.Base.{
  ℕ, ◌+◌, ◌%◌, ◌^◌, ◌≤◌, ◌<◌, ◌≡◌, refl, inl, inr, Option, none, some, List, [], ◌∷◌, ◌++◌, arith,
  if◌then◌else◌, length, drop, Bool-cases, length-append,
}
use cmtp_responder.Base.Bytes.{le_bytes, length-le_bytes}
use cmtp_responder.Base.Cursor.{
  PacksBack, Appends, ▸-Appends, done-Appends, put_all, put_blindly-Appends, pack_if_back_lem,
  pack_if_back-PacksBack,
}
use cmtp_responder.Property.Desc.{ObjPropDesc, pack_obj_prop_desc}
use cmtp_responder.Property.Desc.Wire.{IsDescribed, desc_bytes}
use cmtp_responder.Property.Desc.Pack.{size_obj_prop_desc_lem, pack_obj_prop_desc-PacksBack}
use cmtp_responder.Property.Interdep.{
  InterdepPropConfig, size_props, get_size_interdep_prop, write_props, pack_interdep_prop, is_for,
  looked_at, count_loop, count_interdep_proplist, size_configs, get_size_interdep_proplist,
  write_configs, pack_interdep_proplist,
}

-- Descriptions; a node without a value has none.
unfoldable pub props_bytes : List (Option ObjPropDesc) → List ℕ
props_bytes [] = []
props_bytes (none ∷ ps) = props_bytes ps
props_bytes (some p ∷ ps) = desc_bytes p ++ props_bytes ps

unfoldable pub config_bytes : InterdepPropConfig → List ℕ
config_bytes c = le_bytes 4 (length c.propdesc_list) ++ props_bytes (looked_at c.propdesc_list)

unfoldable pub configs_bytes : List InterdepPropConfig → List ℕ
configs_bytes [] = []
configs_bytes (c ∷ cs) = config_bytes c ++ configs_bytes cs

-- The configurations for the format or for any.
unfoldable pub chosen : ℕ → List InterdepPropConfig → List InterdepPropConfig
chosen format_code [] = []
chosen format_code (c ∷ cs) =
    if is_for format_code c then c ∷ chosen format_code cs else chosen format_code cs

-- Each description that is there is well-formed.
abbrev pub AreDescribed : List (Option ObjPropDesc) → Type 0
AreDescribed [] = Unit
AreDescribed (none ∷ ps) = AreDescribed ps
AreDescribed (some p ∷ ps) = IsDescribed p × AreDescribed ps

abbrev pub AreConfigs : List InterdepPropConfig → Type 0
AreConfigs [] = Unit
AreConfigs (c ∷ cs) = AreDescribed (looked_at c.propdesc_list) × AreConfigs cs

write_props-Appends :
    (ps : List (Option ObjPropDesc))
    → AreDescribed ps
    → length (props_bytes ps) < 2 ^ 32
    → Appends (write_props ps) (props_bytes ps) × (size_props ps ≡ length (props_bytes ps))
unfolding write_props props_bytes size_props
write_props-Appends [] d few = (done-Appends, refl)
write_props-Appends (none ∷ ps) d few = write_props-Appends ps d few
write_props-Appends (some p ∷ ps) d few =
    let both = length-append (desc_bytes p) (props_bytes ps) in
    let (rest, size) = write_props-Appends ps d.1 (omega (arith, both)) in
    let exact = size_obj_prop_desc_lem p d.0 (omega (arith, both)) in
    (
      ▸-Appends
          (rw exact (
            put_blindly-Appends (pack_obj_prop_desc p) (desc_bytes p)
              (pack_obj_prop_desc-PacksBack p d.0 (omega (arith, both)))))
          rest,
      omega (arith, both, exact, size),
    )

props_fit :
    (c : InterdepPropConfig)
    → length (config_bytes c) < 2 ^ 32
    → length (props_bytes (looked_at c.propdesc_list)) < 2 ^ 32
unfolding config_bytes
props_fit c few =
    let count = le_bytes 4 (length c.propdesc_list) in
    omega (arith, length-append count (props_bytes (looked_at c.propdesc_list)))

config_size :
    (c : InterdepPropConfig)
    → AreDescribed (looked_at c.propdesc_list)
    → length (config_bytes c) < 2 ^ 32
    → get_size_interdep_prop c ≡ length (config_bytes c)
unfolding config_bytes get_size_interdep_prop
config_size c d few =
    let count = le_bytes 4 (length c.propdesc_list) in
    let both = length-append count (props_bytes (looked_at c.propdesc_list)) in
    let four = length-le_bytes 4 (length c.propdesc_list) in
    omega
      (arith, both, four, (write_props-Appends (looked_at c.propdesc_list) d (props_fit c few)).1)

pack_interdep_prop-PacksBack :
    (c : InterdepPropConfig)
    → AreDescribed (looked_at c.propdesc_list)
    → length (config_bytes c) < 2 ^ 32
    → PacksBack (pack_interdep_prop c) (config_bytes c)
unfolding pack_interdep_prop
pack_interdep_prop-PacksBack c d few =
    pack_if_back-PacksBack (get_size_interdep_prop c)
      (unfold config_bytes in
        ▸-Appends (put_all 4 (length c.propdesc_list))
          (write_props-Appends (looked_at c.propdesc_list) d (props_fit c few)).0)
      (config_size c d few)

write_configs-Appends :
    (cs : List InterdepPropConfig) (format_code : ℕ)
    → AreConfigs cs
    → length (configs_bytes (chosen format_code cs)) < 2 ^ 32
    → Appends (write_configs cs format_code) (configs_bytes (chosen format_code cs))
      × (size_configs cs format_code ≡ length (configs_bytes (chosen format_code cs)))
      × (count_loop cs format_code ≡ length (chosen format_code cs))
unfolding write_configs configs_bytes chosen size_configs count_loop
write_configs-Appends [] format_code d few = (done-Appends, refl, refl)
write_configs-Appends (c ∷ cs) format_code d few = elim (Bool-cases (is_for format_code c)) [
  | inl yes_for ↦
      let both = length-append (config_bytes c) (configs_bytes (chosen format_code cs)) in
      let whole : length (config_bytes c ++ configs_bytes (chosen format_code cs)) < 2 ^ 32 =
        rw yes_for at few in
      let (rest, size, count) =
        write_configs-Appends cs format_code d.1 (omega (arith, both, whole)) in
      let exact = config_size c d.0 (omega (arith, both, whole)) in
      rw yes_for (
        ▸-Appends
            (rw exact (
              put_blindly-Appends (pack_interdep_prop c) (config_bytes c)
                (pack_interdep_prop-PacksBack c d.0 (omega (arith, both, whole)))))
            rest,
        omega (arith, both, exact, size),
        omega (arith, count),
      )
  | inr not_for ↦ rw not_for (write_configs-Appends cs format_code d.1 (rw not_for at few))
]

-- The data set of interdependent properties.
unfoldable pub proplist_bytes : List InterdepPropConfig → List ℕ
proplist_bytes cs = le_bytes 4 (length cs) ++ configs_bytes cs

-- Where the first description of the first configuration, the only ones that the loops look at, has
-- valid strings and arrays, values of no more bytes than their fields hold and fewer than 2^16 enumerated
-- ones, and where the data set has fewer than 2^32 bytes: into a buffer with room for the announced
-- size, packing comes back and writes, if that configuration is for the format or for any, its data set
-- once for each configuration of the list and their number, and else the number 0; what is written has
-- the announced size, and what lies behind is left. In the data set of a configuration its first
-- description stands once for each.
pub pack_interdep_proplist-looked_at :
    (cs : List InterdepPropConfig) (format_code : ℕ) (buf : List ℕ) (size : ℕ)
    → AreConfigs (looked_at cs)
    → length (proplist_bytes (chosen format_code (looked_at cs))) < 2 ^ 32
    → get_size_interdep_proplist cs format_code ≤ size
    → get_size_interdep_proplist cs format_code ≤ length buf
    → (pack_interdep_proplist cs format_code (some buf) size
        ≡ some (
          some (
              proplist_bytes (chosen format_code (looked_at cs))
              ++ drop (get_size_interdep_proplist cs format_code) buf),
          get_size_interdep_proplist cs format_code,
        ))
      × (get_size_interdep_proplist cs format_code
          ≡ length (proplist_bytes (chosen format_code (looked_at cs))))
unfolding pack_interdep_proplist get_size_interdep_proplist proplist_bytes count_interdep_proplist
pack_interdep_proplist-looked_at cs format_code buf size d few enough room =
    let seen = looked_at cs in
    let picked = chosen format_code seen in
    let count = le_bytes 4 (length picked) in
    let both = length-append count (configs_bytes picked) in
    let four = length-le_bytes 4 (length picked) in
    let (body, total, number) =
      write_configs-Appends seen format_code d (omega (arith, both, few)) in
    let exact : (4 + size_configs seen format_code) % 2 ^ 32
        ≡ length (count ++ configs_bytes picked) =
      omega (arith, both, four, total, few) in
    (
      pack_if_back_lem ((4 + size_configs seen format_code) % 2 ^ 32) buf size
          (▸-Appends (rw number (put_all 4 (length picked))) body) exact enough room,
      exact,
    )
