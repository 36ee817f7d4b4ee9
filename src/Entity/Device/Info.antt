-- ===== src/Entity/Device/Info.antt =====
-- src/entity/mtp_device.c: the DeviceInfo data set.
pub mod Pack
use cmtp_responder.Base.{ℕ, ◌+◌, ◌*◌, Option, List, [], ◌∷◌, length}
use cmtp_responder.Base.Bytes.{le_bytes}
use cmtp_responder.Base.Cursor.{Write, ◌▸◌, done, put, pack_by}
use cmtp_responder.Property.PtpString.Put.{string_size, put_string}
use cmtp_responder.Property.PtpString.{PtpString}
use cmtp_responder.Entity.Code

-- `device_info_t`, with the tables that its pointers name.
pub record DeviceInfo : Type 0 where
  pub std_version : ℕ
  pub vendor_extn_id : ℕ
  pub vendor_extn_version : ℕ
  pub vendor_extn_desc : PtpString
  pub functional_mode : ℕ
  pub ops_supported : List ℕ
  pub events_supported : List ℕ
  pub capture_fmts : List ℕ
  pub object_fmts : List ℕ
  pub manufacturer : PtpString
  pub model : PtpString
  pub device_version : PtpString
  pub serial_no : PtpString

unfoldable pub get_device_info_size : DeviceInfo → ℕ
get_device_info_size info =
    2
    + 4
    + 2
    + string_size info.vendor_extn_desc
    + 2
    + 4
    + 2 * length info.ops_supported
    + 4
    + 2 * length info.events_supported
    + 4
    + 4
    + 2 * length info.capture_fmts
    + 4
    + 2 * length info.object_fmts
    + string_size info.manufacturer
    + string_size info.model
    + string_size info.device_version
    + string_size info.serial_no

-- The codes of a table, one after the other.
pub write_codes : List ℕ → Write
write_codes [] = done
write_codes (c ∷ cs) = put 2 (le_bytes 2 c) ▸ write_codes cs

-- The number of the codes and the codes.
unfoldable pub write_table : List ℕ → Write
unfolding write_codes
write_table codes = put 4 (le_bytes 4 (length codes)) ▸ write_codes codes

-- There are no device properties.
unfoldable pub write_device_info : DeviceInfo → Write
unfolding write_table
write_device_info info =
    put 2 (le_bytes 2 info.std_version)
    ▸ put 4 (le_bytes 4 info.vendor_extn_id)
    ▸ put 2 (le_bytes 2 info.vendor_extn_version)
    ▸ put_string info.vendor_extn_desc
    ▸ put 2 (le_bytes 2 info.functional_mode)
    ▸ write_table info.ops_supported
    ▸ write_table info.events_supported
    ▸ put 4 (le_bytes 4 0)
    ▸ write_table info.capture_fmts
    ▸ write_table info.object_fmts
    ▸ put_string info.manufacturer
    ▸ put_string info.model
    ▸ put_string info.device_version
    ▸ put_string info.serial_no

unfoldable pub pack_device_info : DeviceInfo → Option (List ℕ) → ℕ → Option (List ℕ) × ℕ
unfolding write_device_info get_device_info_size pack_by
pack_device_info info = pack_by (write_device_info info) (get_device_info_size info)
