-- ===== src/Entity/Store/Info.antt =====
-- src/entity/mtp_store.c: the information of a store, and the StorageInfo data set.
pub mod Pack
use cmtp_responder.Base.{ℕ, ◌+◌, Option, List, ◌++◌}
use cmtp_responder.Base.Bytes.{le_bytes}
use cmtp_responder.Base.Cursor.{Write, ◌▸◌, put, pack_by}
use cmtp_responder.Property.PtpString.Put.{string_size, put_string}
use cmtp_responder.Property.PtpString.{PtpString, wchar_type, copy_char_to_ptpstring}

-- `store_info_t`
pub record StoreInfo : Type 0 where
  pub store_type : ℕ
  pub fs_type : ℕ
  pub access : ℕ
  pub capacity : ℕ
  pub free_space : ℕ
  pub free_space_in_objs : ℕ
  pub store_desc : PtpString
  pub vol_label : PtpString

abbrev pub max_storage : ℕ
max_storage = 31457280

abbrev pub max_storage_in_objts : ℕ
max_storage_in_objts = 0xFFFFFFFF

-- The strings are cleared: `zero_string` has a count of 0.
unfoldable pub init_store_info : PtpString → StoreInfo
init_store_info zero_string = record {
  store_type = 3;
  fs_type = 3;
  access = 0;
  capacity = max_storage;
  free_space = 31457279;
  free_space_in_objs = max_storage_in_objts;
  store_desc = zero_string;
  vol_label = zero_string;
}

unfoldable pub init_store_info_params :
    StoreInfo
    → (capacity store_type fs_type access : ℕ) → Option (List ℕ)
    → Option (List ℕ)
    → StoreInfo
init_store_info_params info capacity store_type fs_type access store_desc label = record {
  store_type = store_type;
  fs_type = fs_type;
  access = access;
  capacity = capacity;
  free_space = capacity;
  free_space_in_objs = max_storage_in_objts;
  store_desc = copy_char_to_ptpstring info.store_desc store_desc wchar_type;
  vol_label = copy_char_to_ptpstring info.vol_label label wchar_type;
}

-- `FIXED_LENGTH_MEMBERS_MTPSTORE_SIZE` is 26.
unfoldable pub get_store_info_size : StoreInfo → ℕ
get_store_info_size info = 26 + string_size info.store_desc + string_size info.vol_label

unfoldable pub write_store_info : StoreInfo → Write
write_store_info info =
    put 6 (le_bytes 2 info.store_type ++ le_bytes 2 info.fs_type ++ le_bytes 2 info.access)
    ▸ put 20 (
        le_bytes 8 info.capacity
        ++ le_bytes 8 info.free_space
        ++ le_bytes 4 info.free_space_in_objs)
    ▸ put_string info.store_desc
    ▸ put_string info.vol_label

unfoldable pub pack_store_info : StoreInfo → Option (List ℕ) → ℕ → Option (List ℕ) × ℕ
unfolding write_store_info get_store_info_size pack_by
pack_store_info info = pack_by (write_store_info info) (get_store_info_size info)
