-- ===== src/Examples/Strings.antt =====
-- Runs of the string functions of src/entity/mtp_property.c.
use cmtp_responder.Base.{
  ℕ, ◌≡◌, ◌↔◌, refl, none, some, List, [], ◌∷◌, ◌++◌, ◌<◌, ◌≤◌, arith, drop, replicate, get_or,
}
use cmtp_responder.Property.PtpString.{PtpString, pack_ptpstring, parse_rawstring, size_ptpstring}
use cmtp_responder.Property.PtpString.Wire.{
  wire, IsValid, Parsed, pack_ptpstring-wire, parse_rawstring-wire, parse_rawstring_underflow,
}

abbrev blank : PtpString
blank = record { num_chars = 0; str = replicate 255 0 }

-- "hi"
abbrev hi : PtpString
hi = record { num_chars = 3; str = 104 ∷ 105 ∷ 0 ∷ [] }

hi-IsValid : IsValid hi
hi-IsValid = record {
  counted = omega arith;
  small = omega arith;
  units = (omega arith, (omega arith, (omega arith, tt)));
}

-- A character above 127 among them.
abbrev source : List ℕ
source = 104 ∷ 233 ∷ 0 ∷ 7 ∷ []

abbrev room : List ℕ
room = replicate 10 1

pack_ptpstring_example :
    pack_ptpstring (some hi) (some room) 10
    ≡ (some (wire hi ++ drop (size_ptpstring (some hi)) room), size_ptpstring (some hi))
unfolding size_ptpstring
pack_ptpstring_example = pack_ptpstring-wire hi hi-IsValid room 10 (omega arith) (omega arith)

parse_rawstring_example :
    (r : PtpString) × (taken : ℕ) × (parse_rawstring blank (some (wire hi ++ 9 ∷ [])) 8
      ≡ some (r, taken))
    × Parsed hi taken r
unfolding size_ptpstring
parse_rawstring_example =
    parse_rawstring-wire hi hi-IsValid blank (9 ∷ []) 8 (omega arith) (omega arith) (omega arith)

-- A count byte of one in two bytes.
parse_rawstring_underflow_example :
    (parse_rawstring blank (some (1 ∷ 65 ∷ [])) 2 ≡ none)
    ↔ ((0 < get_or (1 ∷ 65 ∷ []) 0 0) × (2 ≤ 2))
parse_rawstring_underflow_example =
    parse_rawstring_underflow blank (1 ∷ 65 ∷ []) 2 (omega arith) (omega arith) (omega arith)

parse_rawstring_run : parse_rawstring blank (some (1 ∷ 65 ∷ [])) 2 ≡ none
unfolding parse_rawstring
parse_rawstring_run = refl
