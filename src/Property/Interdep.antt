-- ===== src/Property/Interdep.antt =====
-- src/entity/mtp_property.c: the lists of interdependent properties, and their data set.
pub mod Pack
use cmtp_responder.Base.{
  ℕ, ◌+◌, ◌%◌, ◌^◌, Bool, ◌||◌, Option, none, some, List, [], ◌∷◌, ◌==◌, if◌then◌else◌, length,
  replicate,
}
use cmtp_responder.Base.Bytes.{le_bytes}
use cmtp_responder.Base.Cursor.{Write, ◌▸◌, done, put, put_blindly, pack_if_back}
use cmtp_responder.Property.Desc.{ObjPropDesc, size_obj_prop_desc, pack_obj_prop_desc}

-- `interdep_prop_config_t`; a node without a value is `none`.
pub record InterdepPropConfig : Type 0 where
  pub format_code : ℕ
  pub propdesc_list : List (Option ObjPropDesc)

-- What a loop over a list looks at whose `node` is not advanced: the first value, once for each node.
unfoldable pub looked_at {ℓ} : {A : Type ℓ} → List A → List A
looked_at [] = []
looked_at (x ∷ xs) = replicate (length (x ∷ xs)) x

pub size_props : List (Option ObjPropDesc) → ℕ
size_props [] = 0
size_props (none ∷ ps) = size_props ps
size_props (some p ∷ ps) = size_obj_prop_desc p + size_props ps

unfoldable pub get_size_interdep_prop : InterdepPropConfig → ℕ
unfolding size_props looked_at
get_size_interdep_prop config = (4 + size_props (looked_at config.propdesc_list)) % 2 ^ 32

pub write_props : List (Option ObjPropDesc) → Write
write_props [] = done
write_props (none ∷ ps) = write_props ps
write_props (some p ∷ ps) =
    put_blindly (pack_obj_prop_desc p) (size_obj_prop_desc p) ▸ write_props ps

unfoldable pub pack_interdep_prop :
    InterdepPropConfig → Option (List ℕ) → ℕ → Option (Option (List ℕ) × ℕ)
unfolding write_props looked_at
pack_interdep_prop config =
    pack_if_back
      (put 4 (le_bytes 4 (length config.propdesc_list))
        ▸ write_props (looked_at config.propdesc_list))
      (get_size_interdep_prop config)

abbrev pub formatcode_notused : ℕ
formatcode_notused = 0

unfoldable pub is_for : ℕ → InterdepPropConfig → Bool
is_for format_code config =
    config.format_code == format_code || config.format_code == formatcode_notused

pub count_loop : List InterdepPropConfig → ℕ → ℕ
unfolding is_for
count_loop [] format_code = 0
count_loop (c ∷ cs) format_code =
    let rest = count_loop cs format_code in if is_for format_code c then rest + 1 else rest

unfoldable pub count_interdep_proplist : List InterdepPropConfig → ℕ → ℕ
unfolding count_loop looked_at
count_interdep_proplist configs format_code = count_loop (looked_at configs) format_code

pub size_configs : List InterdepPropConfig → ℕ → ℕ
unfolding is_for
size_configs [] format_code = 0
size_configs (c ∷ cs) format_code =
    let rest = size_configs cs format_code in
    if is_for format_code c then get_size_interdep_prop c + rest else rest

unfoldable pub get_size_interdep_proplist : List InterdepPropConfig → ℕ → ℕ
unfolding size_configs looked_at
get_size_interdep_proplist configs format_code =
    (4 + size_configs (looked_at configs) format_code) % 2 ^ 32

pub write_configs : List InterdepPropConfig → ℕ → Write
unfolding is_for
write_configs [] format_code = done
write_configs (c ∷ cs) format_code =
    let rest = write_configs cs format_code in
    if is_for format_code c
    then put_blindly (pack_interdep_prop c) (get_size_interdep_prop c) ▸ rest
    else rest

unfoldable pub pack_interdep_proplist :
    List InterdepPropConfig → ℕ → Option (List ℕ) → ℕ → Option (Option (List ℕ) × ℕ)
unfolding count_interdep_proplist write_configs looked_at
pack_interdep_proplist configs format_code =
    pack_if_back
      (put 4 (le_bytes 4 (count_interdep_proplist configs format_code))
        ▸ write_configs (looked_at configs) format_code)
      (get_size_interdep_proplist configs format_code)
