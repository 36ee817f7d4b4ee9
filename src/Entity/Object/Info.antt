-- ===== src/Entity/Object/Info.antt =====
-- src/entity/mtp_object.c: the ObjectInfo data set.
pub mod Pack
use cmtp_responder.Base.{ℕ, ◌+◌, ◌^◌, Option, none, some, List, ◌++◌, leb, if◌then◌else◌, replicate}
use cmtp_responder.Base.Bytes.{le_bytes}
use cmtp_responder.Base.Cursor.{Write, ◌▸◌, put, pack_by}
use cmtp_responder.Property.PtpString.Put.{string_size, put_string}
use cmtp_responder.Property.PtpString.{PtpString, wchar_type, copy_char_to_ptpstring}
use cmtp_responder.Entity.Object.{ObjInfo}

-- The times of the file as strings, created and modified, are those that the file system gives.
pub record FileTimes : Type 0 where
  pub created : PtpString
  pub modified : PtpString

-- `keywords`, in a variable that holds `there`. `literal` is what memory holds from the address of
-- `""` on, in units of 16 bits: the first has the NUL of the literal and the byte behind it, which
-- decides whether the keywords are empty.
unfoldable pub keywords : PtpString → (literal : List ℕ) → PtpString
keywords there literal = copy_char_to_ptpstring there (some literal) wchar_type

-- `FIXED_LENGTH_MEMBERS_SIZE` is 52. `none` is a file without times.
unfoldable pub get_object_info_size : PtpString → List ℕ → Option FileTimes → PtpString → ℕ
unfolding keywords
get_object_info_size there literal none file_name = 0
get_object_info_size there literal (some times) file_name =
    52
    + string_size file_name
    + string_size times.created
    + string_size times.modified
    + string_size (keywords there literal)

-- A file of 4 GiB or more has no size in 32 bits.
unfoldable pub compressed_size : ℕ → ℕ
compressed_size file_size = if leb (2 ^ 32) file_size then 0xFFFFFFFF else file_size

unfoldable pub write_obj_info : PtpString → List ℕ → FileTimes → ObjInfo → PtpString → Write
unfolding compressed_size keywords
write_obj_info there literal times info file_name =
    put 8 (le_bytes 4 info.store_id ++ le_bytes 2 info.obj_fmt ++ le_bytes 2 info.protcn_status)
    ▸ put 4 (le_bytes 4 (compressed_size info.file_size))
    ▸ put 2 (le_bytes 2 0)
    ▸ put 4 (le_bytes 4 info.thumb_file_size)
    ▸ put 4 (le_bytes 4 0)
    ▸ put 4 (le_bytes 4 0)
    ▸ put 12 (replicate 12 0)
    ▸ put 4 (le_bytes 4 info.h_parent)
    ▸ put 2 (le_bytes 2 info.association_type)
    ▸ put 8 (replicate 8 0)
    ▸ put_string file_name
    ▸ put_string times.created
    ▸ put_string times.modified
    ▸ put_string (keywords there literal)

unfoldable pub pack_obj_info :
    PtpString
    → List ℕ
    → Option FileTimes
    → ObjInfo
    → PtpString
    → Option (List ℕ)
    → ℕ
    → Option (List ℕ) × ℕ
unfolding write_obj_info get_object_info_size pack_by
pack_obj_info there literal none info file_name buf buf_sz = (buf, 0)
pack_obj_info there literal (some times) info file_name buf buf_sz =
    pack_by (write_obj_info there literal times info file_name)
      (get_object_info_size there literal (some times) file_name) buf buf_sz
