-- ===== src/Property/PtpArray/Remove.antt =====
-- `_prop_rem_elem_ptparray` of src/entity/mtp_property.c against the removal of the first match.
use native.Mathlib.Numerals.{towards_suc}
use mathlib.Core.Option
use cmtp_responder.Base.{
  ℕ, zero, suc, ◌+◌, ◌-◌, ◌≤◌, ◌<◌, ◌≡◌, refl, ◌∙◌, ap, sym, true, Option, none, some, List, [],
  ◌∷◌, inl, inr, ◌⊎◌, is_some, Bool-cases, arith, ◌==◌, if◌then◌else◌, length, get_or, set, take,
  length-set, length-take,
}
use cmtp_responder.Property.PtpArray.{
  PtpArray, cast, is_scalar, shift_loop, rem_elem_ptparray, capacity, block, elements, IsValid,
}
use cmtp_responder.Property.PtpArray.Find.{index_of, find_ele_ptparray-index_of}

-- A list without the element at a position, and without the first element of a value.
unfoldable pub remove_at : ℕ → List ℕ → List ℕ
remove_at i [] = []
remove_at zero (x ∷ xs) = xs
remove_at (suc i) (x ∷ xs) = x ∷ remove_at i xs

unfoldable pub erase : ℕ → List ℕ → List ℕ
erase v [] = []
erase v (x ∷ xs) = if x == v then xs else x ∷ erase v xs

-- A loop that starts behind the first element leaves it.
shift_loop-cons :
    (left ii x : ℕ) (xs : List ℕ) → shift_loop left (suc ii) (x ∷ xs) ≡ x ∷ shift_loop left ii xs
unfolding shift_loop
shift_loop-cons zero ii x xs = refl
shift_loop-cons (suc left) ii x xs =
    simp towards_suc (shift_loop-cons left (suc ii) x (set xs ii (get_or xs (suc ii) 0)))

-- From the start, the loop moves the elements behind the first down by one.
shift_loop_zero :
    (left x : ℕ) (xs : List ℕ)
    → left ≤ length xs
    → take left (shift_loop left 0 (x ∷ xs)) ≡ take left xs
unfolding shift_loop
shift_loop_zero zero x xs h = refl
shift_loop_zero (suc left) x [] h = elim h [ ]
shift_loop_zero (suc left) x (y ∷ ys) h =
    rw (shift_loop-cons left 0 y (y ∷ ys))
      (ap (λ l. y ∷ l) (shift_loop_zero left y ys (omega arith)))

-- The loop from the position `i` on takes the element there out of the first `k + 1`.
shift_loop-remove_at :
    (i k : ℕ) (xs : List ℕ)
    → i ≤ k
    → k < length xs
    → take k (shift_loop (k - i) i xs) ≡ remove_at i (take (suc k) xs)
unfolding remove_at
shift_loop-remove_at i k [] h l = elim l [ ]
shift_loop-remove_at zero k (x ∷ xs) h l =
    let same : k - 0 ≡ k = omega arith in rw same (shift_loop_zero k x xs (omega arith))
shift_loop-remove_at (suc i) zero (x ∷ xs) h l = elim h [ ]
shift_loop-remove_at (suc i) (suc k) (x ∷ xs) h l =
    let same : suc k - suc i ≡ k - i = omega arith in
    rw (same, shift_loop-cons (k - i) i x xs)
      (ap (λ l. x ∷ l) (shift_loop-remove_at i k xs (omega arith) (omega arith)))

-- Where the search finds a value, removing that position is removing the value.
index_of-erase :
    (v : ℕ) (xs : List ℕ)
    → ((index_of v xs ≡ none) × (erase v xs ≡ xs))
      ⊎ ((i : ℕ) × (index_of v xs ≡ some i) × (i < length xs) × (remove_at i xs ≡ erase v xs))
unfolding index_of erase remove_at
index_of-erase v [] = inl (refl, refl)
index_of-erase v (x ∷ xs) = elim (Bool-cases (x == v)) [
  | inl hit ↦ inr (0, rw hit, omega arith, rw hit)
  | inr miss ↦ elim (index_of-erase v xs) [
    | inl (gone, same) ↦ inl (rw (miss, gone), rw (miss, same))
    | inr (i, found, below, same) ↦ inr (suc i, rw (miss, found), omega arith, rw (miss, same))
  ]
]

length-shift_loop : (left ii : ℕ) (xs : List ℕ) → length (shift_loop left ii xs) ≡ length xs
unfolding shift_loop
length-shift_loop zero ii xs = refl
length-shift_loop (suc left) ii xs =
    length-shift_loop left (ii + 1) (set xs ii (get_or xs (ii + 1) 0)) ∙ length-set xs ii _

shift_block :
    (i k : ℕ) (o : Option (List ℕ))
    → i ≤ k
    → k < capacity o
    → (capacity (Option.map (shift_loop (k - i) i) o) ≡ capacity o)
      × (take k (block (Option.map (shift_loop (k - i) i) o))
          ≡ remove_at i (take (suc k) (block o)))
shift_block i k none h l = elim l [ ]
shift_block i k (some xs) h l = (length-shift_loop (k - i) i xs, shift_loop-remove_at i k xs h l)

-- Removing an element drops its first occurrence, keeps the others in order, reports whether there
-- was one, and keeps the array valid.
pub rem_elem_ptparray-erase :
    (a : PtpArray) (v : ℕ)
    → IsValid a
    → is_scalar a.type ≡ true
    → IsValid (rem_elem_ptparray a v).0
      × (elements (rem_elem_ptparray a v).0 ≡ erase (cast a.type v) (elements a))
      × ((rem_elem_ptparray a v).1 ≡ is_some (index_of (cast a.type v) (elements a)))
unfolding rem_elem_ptparray elements
rem_elem_ptparray-erase a v valid scalar =
    let searched = find_ele_ptparray-index_of a v valid scalar in
    elim (index_of-erase (cast a.type v) (elements a)) [
      | inl (gone, same) ↦ rw (searched ∙ gone, gone) (valid, sym same, refl)
      | inr (i, found, below, same) ↦
          let inside : i < a.num_ele =
            omega (arith, below, length-take a.num_ele (block a.array_entry)) in
          let shifted =
            shift_block i (a.num_ele - 1) a.array_entry (omega arith)
              (omega (arith, valid.room, valid.fits)) in
          let whole : suc (a.num_ele - 1) ≡ a.num_ele = omega arith in
          rw (searched ∙ found, found)
            (
              record { room = valid.room ∙ sym shifted.0; fits = omega (arith, valid.fits) },
              shifted.1 ∙ ap (λ n. remove_at i (take n (block a.array_entry))) whole ∙ same,
              refl,
            )
    ]
