-- ===== src/Entity/Device/Info/Pack.antt =====
-- `_pack_device_info` of src/entity/mtp_device.c: the DeviceInfo data set on the wire.
use cmtp_responder.Base.{
  ℕ, ◌+◌, ◌*◌, ◌≤◌, ◌≡◌, sym, ◌∙◌, append-nil, some, List, [], ◌∷◌, ◌++◌, arith, length, drop,
  length-append,
}
use cmtp_responder.Base.Bytes.{le_bytes, length-le_bytes}
use cmtp_responder.Base.Cursor.{put, Appends-eq, put_all, Appends, ◌▸▸◌, done-Appends, pack_by_lem}
use cmtp_responder.Property.PtpString.Wire.{IsValid, wire}
use cmtp_responder.Property.PtpString.Put.{length-wire, put_string-Appends}
use cmtp_responder.Property.PtpArray.{block_bytes}
use cmtp_responder.Property.PtpArray.Pack
use cmtp_responder.Entity.Device.Info.{
  DeviceInfo, get_device_info_size, write_codes, write_table, write_device_info, pack_device_info,
}

-- The fields in their order; a table is a counted array of 16-bit codes, as it is anywhere on the wire.
unfoldable pub device_info_bytes : DeviceInfo → List ℕ
device_info_bytes info =
    le_bytes 2 info.std_version
    ++ le_bytes 4 info.vendor_extn_id
    ++ le_bytes 2 info.vendor_extn_version
    ++ wire info.vendor_extn_desc
    ++ le_bytes 2 info.functional_mode
    ++ Pack.wire 2 info.ops_supported
    ++ Pack.wire 2 info.events_supported
    ++ Pack.wire 2 []
    ++ Pack.wire 2 info.capture_fmts
    ++ Pack.wire 2 info.object_fmts
    ++ wire info.manufacturer
    ++ wire info.model
    ++ wire info.device_version
    ++ wire info.serial_no

write_codes-Appends : (codes : List ℕ) → Appends (write_codes codes) (block_bytes 2 codes)
unfolding write_codes block_bytes
write_codes-Appends [] = done-Appends
write_codes-Appends (c ∷ cs) = put_all 2 c ▸▸ write_codes-Appends cs

write_table-Appends : (codes : List ℕ) → Appends (write_table codes) (Pack.wire 2 codes)
unfolding write_table Pack.wire
write_table-Appends codes = put_all 4 (length codes) ▸▸ write_codes-Appends codes

no_codes : Appends (put 4 (le_bytes 4 0)) (Pack.wire 2 [])
unfolding Pack.wire block_bytes
no_codes = Appends-eq (put_all 4 0) (sym (append-nil (le_bytes 4 0)))

length-table : (codes : List ℕ) → length (Pack.wire 2 codes) ≡ 4 + length codes * 2
unfolding Pack.wire
length-table codes =
    length-append (le_bytes 4 (length codes)) (block_bytes 2 codes)
    ∙ omega (arith, length-le_bytes 4 (length codes), Pack.length-block_bytes 2 codes)

-- The strings of a device are valid.
pub record HasStrings (info : DeviceInfo) : Type 0 where
  pub desc : IsValid info.vendor_extn_desc
  pub manufacturer : IsValid info.manufacturer
  pub model : IsValid info.model
  pub version : IsValid info.device_version
  pub serial : IsValid info.serial_no

module _ (info : DeviceInfo) (s : HasStrings info) where
  write_device_info-Appends : Appends (write_device_info info) (device_info_bytes info)
  unfolding write_device_info device_info_bytes
  write_device_info-Appends =
      put_all 2 info.std_version
      ▸▸ put_all 4 info.vendor_extn_id
      ▸▸ put_all 2 info.vendor_extn_version
      ▸▸ put_string-Appends info.vendor_extn_desc s.desc
      ▸▸ put_all 2 info.functional_mode
      ▸▸ write_table-Appends info.ops_supported
      ▸▸ write_table-Appends info.events_supported
      ▸▸ no_codes
      ▸▸ write_table-Appends info.capture_fmts
      ▸▸ write_table-Appends info.object_fmts
      ▸▸ put_string-Appends info.manufacturer s.manufacturer
      ▸▸ put_string-Appends info.model s.model
      ▸▸ put_string-Appends info.device_version s.version
      ▸▸ put_string-Appends info.serial_no s.serial

  device_info_size : get_device_info_size info ≡ length (device_info_bytes info)
  unfolding get_device_info_size device_info_bytes
  device_info_size =
      simp (length-append, length-le_bytes, length-table)
        (omega (
          arith,
          length-wire info.vendor_extn_desc s.desc,
          length-wire info.manufacturer s.manufacturer,
          length-wire info.model s.model,
          length-wire info.device_version s.version,
          length-wire info.serial_no s.serial,
        ))

  -- With valid strings, packing into a buffer with room for the announced size writes exactly the data
  -- set, which has the announced size, leaves what lies behind it, and returns the size.
  pub pack_device_info-size :
      (buf : List ℕ) (size : ℕ)
      → get_device_info_size info ≤ size
      → get_device_info_size info ≤ length buf
      → (pack_device_info info (some buf) size ≡ (
        some (device_info_bytes info ++ drop (get_device_info_size info) buf),
        get_device_info_size info,
      ))
        × (get_device_info_size info ≡ length (device_info_bytes info))
  unfolding pack_device_info
  pack_device_info-size buf size enough room = (
    pack_by_lem (get_device_info_size info) buf size write_device_info-Appends device_info_size
        enough room,
    device_info_size,
  )
