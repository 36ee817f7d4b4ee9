-- ===== src/Property/PtpString/Copied.antt =====
-- `_prop_copy_char_to_ptpstring` of src/entity/mtp_property.c on memory of 16-bit units makes a valid
-- string.
use cmtp_responder.Base.{
  ℕ, zero, suc, ◌≤◌, ◌<◌, ◌^◌, ◌≡◌, refl, ap, inl, inr, none, some, List, [], ◌∷◌, ◌++◌, map, arith,
  ◌==◌, Bool-cases, Option, length, take, set, replicate, length-take, length-append, length-map,
}
use cmtp_responder.Base.Bytes.{blit}
use cmtp_responder.Support.{wchar_ncpy, converted, utf8_to_utf16}
use cmtp_responder.Property.PtpString.{
  PtpString, wchar_type, max_ptp_string_chars, copy_char_to_ptpstring,
}
use cmtp_responder.Property.PtpString.Copy.{until_nul, copy_char_to_ptpstring-text}
use cmtp_responder.Property.PtpString.Wire.{Units, IsValid}

until_nul-Units : (s : List ℕ) → Units s → Units (until_nul s)
unfolding until_nul
until_nul-Units [] u = tt
until_nul-Units (c ∷ s) u = elim (Bool-cases (c == 0)) [
  | inl nul ↦ rw nul tt
  | inr more ↦ rw more (u.0, until_nul-Units s u.1)
]

take-Units : (n : ℕ) (s : List ℕ) → Units s → Units (take n s)
take-Units zero s u = tt
take-Units (suc n) [] u = tt
take-Units (suc n) (c ∷ s) u = (u.0, take-Units n s u.1)

map_id-Units : (s : List ℕ) → Units s → Units (map (λ c. c) s)
map_id-Units [] u = tt
map_id-Units (c ∷ s) u = (u.0, map_id-Units s u.1)

append-Units : (s t : List ℕ) → Units s → Units t → Units (s ++ t)
append-Units [] t u v = v
append-Units (c ∷ s) t u v = (u.0, append-Units s t u.1 v)

pub replicate-Units : (n v : ℕ) → v < 2 ^ 16 → Units (replicate n v)
replicate-Units zero v small = tt
replicate-Units (suc n) v small = (small, replicate-Units n v small)

blit-Units : (src dst : List ℕ) → Units src → Units dst → Units (blit 0 src dst)
unfolding blit
blit-Units [] dst u v = v
blit-Units (b ∷ src) [] u v = tt
blit-Units (b ∷ src) (d ∷ dst) u v = (u.0, blit-Units src dst u.1 v.1)

set_first-Units : (dst : List ℕ) → Units dst → Units (set dst 0 0)
set_first-Units [] v = v
set_first-Units (d ∷ dst) v = (omega arith, v.1)

wchar_ncpy-Units : (src : List ℕ) (n : ℕ) → Units src → Units (wchar_ncpy src n)
unfolding wchar_ncpy
wchar_ncpy-Units src zero u = tt
wchar_ncpy-Units [] (suc n) u = tt
wchar_ncpy-Units (c ∷ src) (suc n) u = elim (Bool-cases (c == 0)) [
  | inl nul ↦ rw nul (replicate-Units (suc n) 0 (omega arith))
  | inr more ↦ rw more (u.0, wchar_ncpy-Units src n u.1)
]

converted-Units :
    (dest : List ℕ) (items : ℕ) (o : Option (List ℕ))
    → ((u : List ℕ) → o ≡ some u → Units u)
    → Units dest
    → Units (converted dest items o).0
unfolding converted
converted-Units dest items none wide v = set_first-Units dest v
converted-Units dest items (some u) wide v =
    let text = append-Units u (0 ∷ []) (wide u refl) (omega arith, tt) in
    blit-Units (wchar_ncpy (u ++ 0 ∷ []) items) dest (wchar_ncpy-Units (u ++ 0 ∷ []) items text) v

-- A conversion to 16-bit units leaves these in a buffer of them.
pub utf8_to_utf16-Units :
    (convert : List ℕ → Option (List ℕ))
    → ((t u : List ℕ) → convert t ≡ some u → Units u)
    → (dest : List ℕ) (items : ℕ) (src : List ℕ) → Units dest
    → Units (utf8_to_utf16 convert dest items src).0
unfolding utf8_to_utf16
utf8_to_utf16-Units convert wide dest items src v =
    converted-Units dest items (convert src) (wide src) v

room_of : (n : ℕ) (str s : List ℕ) → take n str ≡ s ++ 0 ∷ [] → n ≡ suc (length s) → n ≤ length str
room_of n str s e count =
    let size = ap (λ (l : List ℕ). length l) e in
    omega (arith, size, count, length-take n str, length-append s (0 ∷ []))

-- A string that was copied from such units into a fresh one.
pub copied-IsValid :
    (fresh : PtpString) (mem : List ℕ)
    → length fresh.str ≡ max_ptp_string_chars
    → Units mem
    → IsValid (copy_char_to_ptpstring fresh (some mem) wchar_type)
copied-IsValid fresh mem room u =
    let p = copy_char_to_ptpstring fresh (some mem) wchar_type in
    let s = map (λ c. c) (take 254 (until_nul mem)) in
    let units : Units s =
      map_id-Units (take 254 (until_nul mem))
        (take-Units 254 (until_nul mem) (until_nul-Units mem u)) in
    let few : length s ≤ 254 =
      omega
        (arith, length-map (λ c. c) (take 254 (until_nul mem)), length-take 254 (until_nul mem)) in
    elim (copy_char_to_ptpstring-text fresh mem room).0.shape [
      | inl none_left ↦ record {
        counted = omega (arith, none_left);
        small = omega (arith, none_left);
        units = rw none_left tt;
      }
      | inr says ↦ record {
        counted = room_of p.num_chars p.str s says.terminated says.count;
        small = omega (arith, says.count, few);
        units = rw says.terminated (append-Units s (0 ∷ []) units (omega arith, tt));
      }
    ]
