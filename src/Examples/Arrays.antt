-- ===== src/Examples/Arrays.antt =====
-- Runs of the array functions of src/entity/mtp_property.c.
use cmtp_responder.Base.{
  ℕ, ◌+◌, ◌^◌, ◌≡◌, refl, true, none, some, List, [], ◌∷◌, arith, is_some, replicate,
}
use cmtp_responder.Examples.{granting, granting-Grants}
use cmtp_responder.Property.PtpArray.{
  uint32, PtpArray, append_ele_ptparray, find_ele_ptparray, rem_elem_ptparray, elements, cast,
  is_scalar, IsValid,
}
use cmtp_responder.Property.PtpArray.Append.{Appended, append_ele_ptparray_lem}
use cmtp_responder.Property.PtpArray.Find.{index_of}
use cmtp_responder.Property.PtpArray.Remove.{erase, rem_elem_ptparray-erase}

-- Three handles, in a block that they fill.
abbrev full : PtpArray
full = record { type = uint32; arr_size = 3; num_ele = 3; array_entry = some (5 ∷ 9 ∷ 5 ∷ []) }

full-IsValid : IsValid full
full-IsValid = record { room = refl; fits = omega arith }

abbrev empty : PtpArray
empty = record { type = uint32; arr_size = 0; num_ele = 0; array_entry = none }

empty-IsValid : IsValid empty
empty-IsValid = record { room = refl; fits = omega arith }

append_ele_ptparray_example :
    (b : PtpArray) × (append_ele_ptparray granting full (2 ^ 32 + 8) ≡ (b, true))
    × Appended full (cast uint32 (2 ^ 32 + 8) ∷ []) b
unfolding is_scalar
append_ele_ptparray_example =
    append_ele_ptparray_lem granting granting-Grants full (2 ^ 32 + 8) full-IsValid refl
      (omega arith) (omega arith)

rem_elem_ptparray_example :
    IsValid (rem_elem_ptparray full 5).0
    × (elements (rem_elem_ptparray full 5).0 ≡ erase (cast uint32 5) (elements full))
    × ((rem_elem_ptparray full 5).1 ≡ is_some (index_of (cast uint32 5) (elements full)))
unfolding is_scalar
rem_elem_ptparray_example = rem_elem_ptparray-erase full 5 full-IsValid refl

abbrev room : List ℕ
room = replicate 20 1

-- The removal of the first five, and the bytes of what is left.
rem_elem_run : elements (rem_elem_ptparray full 5).0 ≡ 9 ∷ 5 ∷ []
unfolding elements rem_elem_ptparray find_ele_ptparray is_scalar cast
rem_elem_run = refl
