-- ===== src/Property/Value/Valid.antt =====
-- The values that `_prop_is_valid_integer` and `_prop_set_current_integer` of
-- src/entity/mtp_property.c accept and store.
use cmtp_responder.Base.{
  ℕ, ◌%◌, ◌^◌, ◌≤◌, ◌<◌, ◌≡◌, ◌↔◌, refl, ◌∙◌, ap, true, List, [], ◌∷◌, ◌++◌, arith, ◌==◌,
  if◌then◌else◌, length, take, drop, sym, Bool-cases, inl, inr, eq_of_==, ne_of_==, ◌⊎◌,
}
use cmtp_responder.Base.Bytes.{
  le_bytes, le_value, blit, length-le_bytes, le_value-le_bytes, blit_zero,
}
use cmtp_responder.Property.Value.{
  PropInfo, FormFlag, no_form, range_form, enum_form, date_time_form, regular_expression_form,
  byte_array_form, long_string_form, other_form, is_value_type, any_value, form_allows,
  is_valid_integer, set_current_integer,
}

-- A value is among those of a list, each cut to 32 bits.
abbrev pub IsListed : ℕ → List ℕ → Type 0
IsListed value [] = ⊥
IsListed value (v ∷ vs) = (value ≡ v % 2 ^ 32) ⊎ IsListed value vs

-- What each form permits.
abbrev pub Permits : PropInfo → ℕ → FormFlag → Type 0
Permits p value no_form = Unit
Permits p value range_form = (p.min_val ≤ value) × (value ≤ p.max_val)
Permits p value enum_form = IsListed value p.supp_values
Permits p value date_time_form = ⊥
Permits p value regular_expression_form = ⊥
Permits p value byte_array_form = ⊥
Permits p value long_string_form = ⊥
Permits p value (other_form code) = ⊥

any_value_iff : (value : ℕ) (vs : List ℕ) → (any_value value vs ≡ true) ↔ IsListed value vs
unfolding any_value
any_value_iff value [] = (λ h. cc, λ h. absurd h)
any_value_iff value (v ∷ vs) =
    let (to, from) = any_value_iff value vs in
    elim (Bool-cases (value == v % 2 ^ 32)) [
      | inl hit ↦ rw hit (λ h. inl (eq_of_== value (v % 2 ^ 32) hit), λ h. refl)
      | inr miss ↦ rw miss (
        λ h. inr (to h),
        λ h. elim h [
          | inl same ↦ absurd (ne_of_== value (v % 2 ^ 32) miss same)
          | inr later ↦ from later
        ],
      )
    ]

form_allows_iff :
    (p : PropInfo) (value : ℕ) (form : FormFlag)
    → (form_allows p value form ≡ true) ↔ Permits p value form
unfolding form_allows
form_allows_iff p value no_form = (λ h. tt, λ h. refl)
form_allows_iff p value range_form = (λ h. ground arith, λ h. ground arith)
form_allows_iff p value enum_form = any_value_iff value p.supp_values
form_allows_iff p value date_time_form = (λ h. cc, λ h. absurd h)
form_allows_iff p value regular_expression_form = (λ h. cc, λ h. absurd h)
form_allows_iff p value byte_array_form = (λ h. cc, λ h. absurd h)
form_allows_iff p value long_string_form = (λ h. cc, λ h. absurd h)
form_allows_iff p value (other_form code) = (λ h. cc, λ h. absurd h)

-- An integer is valid exactly for a property of an integer type whose form permits it: any, one
-- within the range, or one of the listed.
pub is_valid_integer_iff :
    (p : PropInfo) (value : ℕ)
    → (is_valid_integer p value ≡ true)
      ↔ ((is_value_type p.data_type ≡ true) × Permits p value p.form_flag)
unfolding is_valid_integer
is_valid_integer_iff p value =
    let (to, from) = form_allows_iff p value p.form_flag in
    elim (Bool-cases (is_value_type p.data_type)) [
      | inl integer ↦ rw integer (λ h. (refl, to h), λ h. from h.1)
      | inr other ↦ rw other (λ h. cc, λ h. cc)
    ]

front : (val : ℕ) (rest : List ℕ) → take 4 (le_bytes 4 val ++ rest) ≡ le_bytes 4 val
unfolding le_bytes
front val rest = refl

-- Setting a device property, whose block has 16 bytes, to a valid 32-bit value stores a value that reads
-- back in its first four bytes and leaves the others; an invalid one leaves all bytes as they are. The
-- flag says which.
pub set_current_integer-le_value :
    (p : PropInfo) (integer : List ℕ) (val : ℕ)
    → length integer ≡ 16
    → val < 2 ^ 32
    → ((set_current_integer p integer val).1 ≡ is_valid_integer p val)
      × (le_value (take 4 (set_current_integer p integer val).0)
          ≡ (if is_valid_integer p val then val else le_value (take 4 integer)))
      × ((set_current_integer p integer val).0 ≡ (
          if is_valid_integer p val
          then take 4 (set_current_integer p integer val).0 ++ drop 4 integer
          else integer))
unfolding set_current_integer
set_current_integer-le_value p integer val long small = elim (Bool-cases (is_valid_integer p val)) [
  | inl valid ↦
      let whole : blit 0 (le_bytes 4 val) integer ≡ le_bytes 4 val ++ drop 4 integer =
        blit_zero (le_bytes 4 val) integer (omega (arith, long, length-le_bytes 4 val))
        ∙ ap (λ n. le_bytes 4 val ++ drop n integer) (length-le_bytes 4 val) in
      let stored : take 4 (blit 0 (le_bytes 4 val) integer) ≡ le_bytes 4 val =
        ap (take 4) whole ∙ front val _ in
      rw valid (
        refl,
        ap le_value stored ∙ le_value-le_bytes 4 val (omega arith),
        whole ∙ ap (λ l. l ++ drop 4 integer) (sym stored),
      )
  | inr invalid ↦ rw invalid (refl, refl, refl)
]
