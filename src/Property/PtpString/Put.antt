-- ===== src/Property/PtpString/Put.antt =====
-- Strings in a buffer that is filled from its start: `temp += _prop_pack_ptpstring(…, temp, size)`.
use cmtp_responder.Base.{ℕ, ◌≡◌, some, arith, length, take, length-take}
use cmtp_responder.Base.Cursor.{Write, put_returned, Appends, Packs, put_returned-Appends}
use cmtp_responder.Property.PtpArray.Pack.{length-block_bytes}
use cmtp_responder.Property.PtpString.{PtpString, size_ptpstring, pack_ptpstring}
use cmtp_responder.Property.PtpString.Wire.{wire, IsValid, pack_ptpstring-wire}

unfoldable pub string_size : PtpString → ℕ
string_size p = size_ptpstring (some p)

unfoldable pub put_string : PtpString → Write
unfolding string_size
put_string p = put_returned (pack_ptpstring (some p)) (string_size p)

pub length-wire : (p : PtpString) → IsValid p → length (wire p) ≡ string_size p
unfolding size_ptpstring wire string_size
length-wire p v =
    omega (
      arith,
      length-block_bytes 2 (take p.num_chars p.str),
      length-take p.num_chars p.str,
      v.counted,
    )

pub pack_ptpstring-Packs : (p : PtpString) → IsValid p → Packs (pack_ptpstring (some p)) (wire p)
pack_ptpstring-Packs p v tail room =
    let size : length (wire p) ≡ size_ptpstring (some p) = unfold string_size in length-wire p v in
    rw size (
      pack_ptpstring-wire p v tail (size_ptpstring (some p)) (omega arith)
        (omega (arith, size, room)))

pub put_string-Appends : (p : PtpString) → IsValid p → Appends (put_string p) (wire p)
unfolding put_string
put_string-Appends p v =
    rw (← length-wire p v)
      (put_returned-Appends (pack_ptpstring (some p)) (wire p) (pack_ptpstring-Packs p v))
