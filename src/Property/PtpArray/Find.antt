-- ===== src/Property/PtpArray/Find.antt =====
-- `_prop_find_ele_ptparray` of src/entity/mtp_property.c against the first position of a value.
use cmtp_responder.Base.{
  ℕ, zero, suc, ◌+◌, ◌≤◌, ◌≡◌, refl, ap, ◌∙◌, true, Option, none, some, List, [], ◌∷◌, arith, ◌==◌,
  if◌then◌else◌, length, take,
}
use mathlib.Core.Option
use cmtp_responder.Property.PtpArray.{
  DataType, PtpArray, cast, is_scalar, find_loop, find_in_block, find_ele_ptparray, capacity, block,
  elements, IsValid,
}

-- The first position of a value.
unfoldable pub index_of : ℕ → List ℕ → Option ℕ
index_of v [] = none
index_of v (x ∷ xs) = if x == v then some 0 else Option.map suc (index_of v xs)

find_loop-index_of :
    (v n ii : ℕ) (xs : List ℕ)
    → n ≤ length xs
    → find_loop v n ii xs ≡ Option.map (λ k. ii + k) (index_of v (take n xs))
unfolding find_loop index_of
find_loop-index_of v zero ii xs h = refl
find_loop-index_of v (suc n) ii [] h = elim h [ ]
find_loop-index_of v (suc n) ii (x ∷ xs) h = ground (arith, find_loop-index_of v n (ii + 1) xs)

map_zero_add : (o : Option ℕ) → Option.map (λ k. 0 + k) o ≡ o
map_zero_add none = refl
map_zero_add (some k) = ap some (omega arith)

find_in_block-index_of :
    (t : DataType) (v n : ℕ) (o : Option (List ℕ))
    → is_scalar t ≡ true
    → n ≤ capacity o
    → find_in_block t v n o ≡ index_of (cast t v) (take n (block o))
unfolding find_in_block index_of
find_in_block-index_of t v zero none scalar h = refl
find_in_block-index_of t v (suc n) none scalar h = elim h [ ]
find_in_block-index_of t v n (some xs) scalar h =
    rw scalar (find_loop-index_of (cast t v) n 0 xs h ∙ map_zero_add _)

-- The search returns the first position at which the array holds the element, cut to the array's
-- type, and reports a missing one.
pub find_ele_ptparray-index_of :
    (a : PtpArray) (v : ℕ)
    → IsValid a
    → is_scalar a.type ≡ true
    → find_ele_ptparray a v ≡ index_of (cast a.type v) (elements a)
unfolding find_ele_ptparray elements
find_ele_ptparray-index_of a v valid scalar =
    find_in_block-index_of a.type v a.num_ele a.array_entry scalar
      (omega (arith, valid.room, valid.fits))
