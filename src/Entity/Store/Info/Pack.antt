-- ===== src/Entity/Store/Info/Pack.antt =====
-- `_entity_pack_store_info` of src/entity/mtp_store.c: the StorageInfo data set on the wire.
use cmtp_responder.Base.{ℕ, ◌≤◌, ◌≡◌, refl, some, List, ◌++◌, arith, length, drop, length-append}
use cmtp_responder.Base.Bytes.{le_bytes}
use cmtp_responder.Base.Cursor.{put_whole, Appends, ◌▸▸◌, pack_by_lem}
use cmtp_responder.Property.PtpString.Wire.{IsValid, wire}
use cmtp_responder.Property.PtpString.Put.{length-wire, put_string-Appends}
use cmtp_responder.Entity.Store.Info.{
  StoreInfo, get_store_info_size, write_store_info, pack_store_info,
}

-- The fixed members and the two strings.
unfoldable pub store_info_bytes : StoreInfo → List ℕ
store_info_bytes info =
    (le_bytes 2 info.store_type ++ le_bytes 2 info.fs_type ++ le_bytes 2 info.access)
    ++ (le_bytes 8 info.capacity
        ++ le_bytes 8 info.free_space
        ++ le_bytes 4 info.free_space_in_objs)
    ++ wire info.store_desc
    ++ wire info.vol_label

module _ (info : StoreInfo) (desc : IsValid info.store_desc) (label : IsValid info.vol_label) where
  write_store_info-Appends : Appends (write_store_info info) (store_info_bytes info)
  unfolding write_store_info store_info_bytes le_bytes
  write_store_info-Appends =
      put_whole 6 (le_bytes 2 info.store_type ++ le_bytes 2 info.fs_type ++ le_bytes 2 info.access)
        refl
      ▸▸ put_whole 20
          (le_bytes 8 info.capacity
            ++ le_bytes 8 info.free_space
            ++ le_bytes 4 info.free_space_in_objs)
          refl
      ▸▸ put_string-Appends info.store_desc desc
      ▸▸ put_string-Appends info.vol_label label

  store_info_size : get_store_info_size info ≡ length (store_info_bytes info)
  unfolding get_store_info_size store_info_bytes le_bytes
  store_info_size = omega (
    arith,
    length-append (wire info.store_desc) (wire info.vol_label),
    length-wire info.store_desc desc,
    length-wire info.vol_label label,
  )

  -- With valid strings, packing into a buffer with room for the announced size writes exactly the data
  -- set, which has the announced size, leaves what lies behind it, and returns the size.
  pub pack_store_info-size :
      (buf : List ℕ) (size : ℕ)
      → get_store_info_size info ≤ size
      → get_store_info_size info ≤ length buf
      → (pack_store_info info (some buf) size ≡ (
        some (store_info_bytes info ++ drop (get_store_info_size info) buf),
        get_store_info_size info,
      ))
        × (get_store_info_size info ≡ length (store_info_bytes info))
  unfolding pack_store_info
  pack_store_info-size buf size enough room = (
    pack_by_lem (get_store_info_size info) buf size write_store_info-Appends store_info_size enough
        room,
    store_info_size,
  )
