-- ===== src/Entity/Object/Info/Pack.antt =====
-- `_entity_pack_obj_info` of src/entity/mtp_object.c: the ObjectInfo data set on the wire.
use cmtp_responder.Base.{
  ℕ, ◌≤◌, ◌≡◌, refl, some, List, ◌++◌, arith, length, drop, length-append, replicate,
}
use cmtp_responder.Base.Bytes.{le_bytes}
use cmtp_responder.Base.Cursor.{put_all, put_whole, Appends, ◌▸▸◌, pack_by_lem}
use cmtp_responder.Property.PtpArray.{block_bytes}
use cmtp_responder.Property.PtpString.{PtpString, copy_char_to_ptpstring, max_ptp_string_chars}
use cmtp_responder.Property.PtpString.Copied.{copied-IsValid}
use cmtp_responder.Property.PtpString.Wire.{IsValid, Units, wire}
use cmtp_responder.Property.PtpString.Put.{length-wire, put_string-Appends}
use cmtp_responder.Entity.Object.{ObjInfo}
use cmtp_responder.Entity.Object.Info.{
  FileTimes, keywords, get_object_info_size, compressed_size, write_obj_info, pack_obj_info,
}

-- The fixed members: thumbnails, images and sequences have no size.
unfoldable pub fixed_bytes : ObjInfo → List ℕ
fixed_bytes info =
    (le_bytes 4 info.store_id ++ le_bytes 2 info.obj_fmt ++ le_bytes 2 info.protcn_status)
    ++ le_bytes 4 (compressed_size info.file_size)
    ++ le_bytes 2 0
    ++ le_bytes 4 info.thumb_file_size
    ++ le_bytes 4 0
    ++ le_bytes 4 0
    ++ replicate 12 0
    ++ le_bytes 4 info.h_parent
    ++ le_bytes 2 info.association_type
    ++ replicate 8 0

unfoldable pub obj_info_bytes : FileTimes → ObjInfo → (file_name keywords : PtpString) → List ℕ
obj_info_bytes times info file_name keywords =
    fixed_bytes info ++ wire file_name ++ wire times.created ++ wire times.modified ++ wire keywords

pub length-fixed_bytes : (info : ObjInfo) → length (fixed_bytes info) ≡ 52
unfolding fixed_bytes le_bytes
length-fixed_bytes info = refl

module _ (there : PtpString) (literal : List ℕ) (times : FileTimes) (info : ObjInfo)
    (file_name : PtpString) (name : IsValid file_name) (created : IsValid times.created)
    (modified : IsValid times.modified) (room : length there.str ≡ max_ptp_string_chars)
    (units : Units literal) where
  keywords-IsValid : IsValid (keywords there literal)
  unfolding keywords
  keywords-IsValid = copied-IsValid there literal room units

  write_obj_info-Appends :
      Appends
        (write_obj_info there literal times info file_name)
        (obj_info_bytes times info file_name (keywords there literal))
  unfolding write_obj_info obj_info_bytes fixed_bytes le_bytes wire copy_char_to_ptpstring
      block_bytes
  write_obj_info-Appends =
      put_whole 8
        (le_bytes 4 info.store_id ++ le_bytes 2 info.obj_fmt ++ le_bytes 2 info.protcn_status) refl
      ▸▸ put_all 4 (compressed_size info.file_size)
      ▸▸ put_all 2 0
      ▸▸ put_all 4 info.thumb_file_size
      ▸▸ put_all 4 0
      ▸▸ put_all 4 0
      ▸▸ put_whole 12 (replicate 12 0) refl
      ▸▸ put_all 4 info.h_parent
      ▸▸ put_all 2 info.association_type
      ▸▸ put_whole 8 (replicate 8 0) refl
      ▸▸ put_string-Appends file_name name
      ▸▸ put_string-Appends times.created created
      ▸▸ put_string-Appends times.modified modified
      ▸▸ put_string-Appends (keywords there literal) keywords-IsValid

  object_info_size :
      get_object_info_size there literal (some times) file_name
      ≡ length (obj_info_bytes times info file_name (keywords there literal))
  unfolding get_object_info_size obj_info_bytes
  object_info_size =
      simp (length-append, length-fixed_bytes)
        (omega (
          arith,
          length-wire file_name name,
          length-wire times.created created,
          length-wire times.modified modified,
          length-wire (keywords there literal) keywords-IsValid,
        ))

  -- With a valid name and valid times, whatever 16-bit units memory holds from the address of the empty
  -- literal on: packing into a buffer with room for the announced size writes exactly the data set, which
  -- ends with the keywords that were read there, and which has the announced size, leaves what lies
  -- behind it, and returns the size.
  pub pack_obj_info-size :
      (buf : List ℕ) (size : ℕ)
      → get_object_info_size there literal (some times) file_name ≤ size
      → get_object_info_size there literal (some times) file_name ≤ length buf
      → (pack_obj_info there literal (some times) info file_name (some buf) size ≡ (
        some (
            obj_info_bytes times info file_name (keywords there literal)
            ++ drop (get_object_info_size there literal (some times) file_name) buf),
        get_object_info_size there literal (some times) file_name,
      ))
        × (get_object_info_size there literal (some times) file_name
            ≡ length (obj_info_bytes times info file_name (keywords there literal)))
  unfolding pack_obj_info
  pack_obj_info-size buf size enough room = (
    pack_by_lem (get_object_info_size there literal (some times) file_name) buf size
        write_obj_info-Appends object_info_size enough room,
    object_info_size,
  )
