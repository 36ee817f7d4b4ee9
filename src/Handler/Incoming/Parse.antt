-- ===== src/Handler/Incoming/Parse.antt =====
-- `_entity_parse_raw_obj_info` of src/entity/mtp_object.c reads what `_entity_pack_obj_info` writes.
use cmtp_responder.Base.{
  ℕ, ◌+◌, ◌*◌, ◌/◌, append-nil, ◌<◌, ◌^◌, ◌≡◌, refl, sym, ap, ◌∙◌, false, some, List, [], ◌++◌,
  arith, ltb, not-ltb, length, drop, get_or, replicate, length-append, length-replicate,
  append_assoc, get_or-append, drop-append,
}
use cmtp_responder.Base.Bytes.{le_bytes, le_value-le_bytes}
use cmtp_responder.Container.{read_field}
use cmtp_responder.Property.PtpString.{PtpString, size_ptpstring, text}
use cmtp_responder.Property.PtpString.Wire.{IsValid, wire, parse_rawstring-wire}
use cmtp_responder.Property.PtpString.Put.{string_size, length-wire}
use cmtp_responder.Entity.Object.{ObjInfo}
use cmtp_responder.Entity.Object.Info.{FileTimes, compressed_size}
use cmtp_responder.Entity.Object.Info.Pack.{fixed_bytes, obj_info_bytes, length-fixed_bytes}
use cmtp_responder.Handler.{World}
use cmtp_responder.Handler.Incoming.{read_info, parse_raw_obj_info}

-- The members have their widths.
pub record IsInfo (info : ObjInfo) : Type 0 where
  pub store_id : info.store_id < 2 ^ 32
  pub obj_fmt : info.obj_fmt < 2 ^ 16
  pub protcn_status : info.protcn_status < 2 ^ 16
  pub thumb_file_size : info.thumb_file_size < 2 ^ 32
  pub h_parent : info.h_parent < 2 ^ 32
  pub association_type : info.association_type < 2 ^ 16

compressed_small : (n : ℕ) → compressed_size n < 2 ^ 32
unfolding compressed_size
compressed_small n = ground arith

-- What is read of the fixed members, whatever follows.
abbrev members : ObjInfo → List ℕ → ObjInfo
members there buf = record {
  store_id = read_field 4 0 buf;
  obj_fmt = read_field 2 4 buf;
  protcn_status = read_field 2 6 buf;
  file_size = there.file_size / 2 ^ 32 * 2 ^ 32 + read_field 4 8 buf;
  thumb_file_size = read_field 4 14 buf;
  h_parent = read_field 4 38 buf;
  association_type = read_field 2 42 buf;
}

-- The information as it was packed, in a variable that held `there`.
abbrev pub told : (there info : ObjInfo) → ObjInfo
told there info = record info {
  file_size = there.file_size / 2 ^ 32 * 2 ^ 32 + compressed_size info.file_size;
}

members-fixed_bytes :
    (there info : ObjInfo) (tail : List ℕ)
    → IsInfo info
    → members there (fixed_bytes info ++ tail) ≡ told there info
unfolding fixed_bytes le_bytes read_field
members-fixed_bytes there info tail is = λ i. record {
  store_id = le_value-le_bytes 4 info.store_id is.store_id i;
  obj_fmt = le_value-le_bytes 2 info.obj_fmt is.obj_fmt i;
  protcn_status = le_value-le_bytes 2 info.protcn_status is.protcn_status i;
  file_size =
      there.file_size / 2 ^ 32 * 2 ^ 32
      + le_value-le_bytes 4 (compressed_size info.file_size) (compressed_small info.file_size) i;
  thumb_file_size = le_value-le_bytes 4 info.thumb_file_size is.thumb_file_size i;
  h_parent = le_value-le_bytes 4 info.h_parent is.h_parent i;
  association_type = le_value-le_bytes 2 info.association_type is.association_type i;
}

string_size_lem : (p : PtpString) → string_size p ≡ p.num_chars * 2 + 1
unfolding string_size size_ptpstring
string_size_lem p = refl

sized : (p : PtpString) → size_ptpstring (some p) ≡ string_size p
unfolding string_size
sized p = refl

-- A string that is skipped by its count.
skip_string :
    (buf head rest : List ℕ) (at : ℕ) (p : PtpString)
    → IsValid p
    → buf ≡ head ++ (wire p ++ rest)
    → at ≡ length head
    → at + (get_or buf at 0 * 2 + 1) ≡ length (head ++ wire p)
unfolding string_size size_ptpstring
skip_string buf head rest at p v e f =
    let count : get_or buf at 0 ≡ p.num_chars =
      ap (λ b. get_or b at 0) e
      ∙ ap (λ n. get_or (head ++ (wire p ++ rest)) n 0) f
      ∙ get_or-append head (wire p ++ rest) 0
      ∙ (unfold wire in refl) in
    omega (arith, f, count, length-append head (wire p), length-wire p v)

-- The object's information, as it was packed with a valid name, valid times and any valid keywords,
-- comes back, with the text of the name and the number of the bytes of the data set. Of the size of
-- the file it gives the lower 32 bits, which are all set for 4 GiB and more; the upper 32 bits are those
-- that stood in the variable that is filled.
pub parse_raw_obj_info-pack_obj_info :
    (w : World) (times : FileTimes) (info there : ObjInfo) (file_name keywords : PtpString)
    (fname_len : ℕ)
    → IsInfo info
    → IsValid file_name
    → IsValid times.created
    → IsValid times.modified
    → IsValid keywords
    → (name : PtpString) × (parse_raw_obj_info w
          (some (obj_info_bytes times info file_name keywords))
          (length (obj_info_bytes times info file_name keywords))
          there
          fname_len
        ≡ some (
          told there info,
          w.utf16_to_utf8 fname_len name.str,
          length (obj_info_bytes times info file_name keywords),
        ))
      × (text name ≡ text file_name)
unfolding parse_raw_obj_info read_info obj_info_bytes
parse_raw_obj_info-pack_obj_info w times info there file_name keywords fname_len is name created
      modified keys =
    let front = fixed_bytes info in
    let n = wire file_name in
    let c = wire times.created in
    let m = wire times.modified in
    let k = wire keywords in
    let buf = front ++ n ++ c ++ m ++ k in
    let nested : buf ≡ front ++ (n ++ (c ++ (m ++ k))) = simp append_assoc in
    let sizes : length buf
        ≡ 52
          + string_size file_name
          + string_size times.created
          + string_size times.modified
          + string_size keywords =
      simp (length-append, length-fixed_bytes)
        (omega (
          arith,
          length-wire file_name name,
          length-wire times.created created,
          length-wire times.modified modified,
          length-wire keywords keys,
        )) in
    let behind : drop 52 buf ≡ n ++ (c ++ (m ++ k)) =
      ap (λ b. drop 52 b) nested
      ∙ ap (λ j. drop j (front ++ (n ++ (c ++ (m ++ k))))) (sym (length-fixed_bytes info))
      ∙ drop-append front (n ++ (c ++ (m ++ k))) in
    let long : ltb (length buf) 52 ≡ false = not-ltb (length buf) 52 (omega (arith, sizes)) in
    let (r, taken, parsed, said) =
      parse_rawstring-wire file_name name (record { num_chars = 0; str = replicate 256 0 })
        (c ++ (m ++ k)) (length buf) (omega (arith, sizes, sized file_name))
        (omega (
          arith,
          sizes,
          string_size_lem file_name,
          string_size_lem times.created,
          string_size_lem times.modified,
          name.small,
          created.small,
          modified.small,
          string_size_lem keywords,
          keys.small,
        ))
        (omega (arith, name.small, length-replicate {A = ℕ} 256 0)) in
    let first : 52 + taken ≡ length (front ++ n) = omega (
      arith,
      said.taken_eq,
      sized file_name,
      length-append front n,
      length-fixed_bytes info,
      length-wire file_name name,
    ) in
    let second =
      skip_string buf (front ++ n) (m ++ k) (52 + taken) times.created created (simp append_assoc)
        first in
    let third =
      skip_string buf (front ++ n ++ c) (k) (length (front ++ n ++ c)) times.modified modified
        (simp append_assoc) refl in
    let fourth =
      skip_string buf (front ++ n ++ c ++ m) [] (length (front ++ n ++ c ++ m)) keywords keys
        (simp (append_assoc, append-nil)) refl in
    let kept : members there buf ≡ told there info =
      ap (members there) nested ∙ members-fixed_bytes there info (n ++ (c ++ (m ++ k))) is in
    let skip = λ (at : ℕ). at + (get_or buf at 0 * 2 + 1) in
    let end : skip (skip (skip (52 + taken))) ≡ length buf =
      ap skip (ap skip second ∙ third) ∙ fourth in
    (
      r,
      rw long (rw behind (rw parsed (λ i. some (kept i, w.utf16_to_utf8 fname_len r.str, end i)))),
      said.text_eq,
    )
