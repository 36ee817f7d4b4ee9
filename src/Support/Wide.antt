-- ===== src/Support/Wide.antt =====
-- `_util_wchar_ncpy` and `_util_conv_wstr_to_guid` of src/util/mtp_support.c.
use cmtp_responder.Base.{
  ℕ, zero, suc, ◌+◌, ◌-◌, ◌%◌, ◌^◌, ◌≤◌, ◌≡◌, ◌≢◌, refl, ◌∙◌, ap, sym, List, [], ◌∷◌, ◌++◌, arith,
  ne-==, length, take, drop, replicate, length-append, length-drop, drop-append, take-append_le,
}
use cmtp_responder.Support.{wchar_ncpy, words_value, guid_loop, conv_wstr_to_guid}

-- The units of a string: none is NUL.
abbrev pub IsText : List ℕ → Type 0
IsText [] = Unit
IsText (c ∷ s) = (c ≢ 0) × IsText s

-- A text that is shorter than the count is copied and filled up with NULs; of any other just `n` units
-- are written, and no NUL.
pub wchar_ncpy_lem :
    (s rest : List ℕ) (n : ℕ)
    → IsText s
    → wchar_ncpy (s ++ 0 ∷ rest) n ≡ take n s ++ replicate (n - length s) 0
unfolding wchar_ncpy
wchar_ncpy_lem s rest zero t =
    let none_left : 0 - length s ≡ 0 = omega arith in ap (λ k. replicate k 0) (sym none_left)
wchar_ncpy_lem [] rest (suc n) t =
    let all : suc n ≡ suc n - 0 = omega arith in ap (λ k. replicate k 0) all
wchar_ncpy_lem (c ∷ s) rest (suc n) t =
    let left : n - length s ≡ suc n - suc (length s) = omega arith in
    rw (ne-== c 0 t.0) (
      ap (λ l. c ∷ l) (wchar_ncpy_lem s rest n t.1)
      ∙ ap (λ k. c ∷ (take n s ++ replicate k 0)) left)

drop-append_le : (n : ℕ) (xs ys : List ℕ) → n ≤ length xs → drop n (xs ++ ys) ≡ drop n xs ++ ys
drop-append_le zero xs ys h = refl
drop-append_le (suc n) [] ys h = elim h [ ]
drop-append_le (suc n) (x ∷ xs) ys h = drop-append_le n xs ys (omega arith)

-- A block of eight units is added to the halves.
guid_block :
    (left : ℕ) (a rest : List ℕ) (low high : ℕ)
    → length a ≡ 8
    → guid_loop (suc left) (a ++ rest) (low, high)
      ≡ guid_loop left rest (
        (low + words_value (take 4 a)) % 2 ^ 64,
        (high + words_value (take 4 (drop 4 a))) % 2 ^ 64,
      )
unfolding guid_loop
guid_block left [] rest low high e = absurd (omega (arith, e))
guid_block left (u ∷ us) rest low high e =
    let a = u ∷ us in
    let behind : drop 8 (a ++ rest) ≡ rest =
      ap (λ k. drop k (a ++ rest)) (sym e) ∙ drop-append a rest in
    let first : take 4 (a ++ rest) ≡ take 4 a = take-append_le 4 a rest (omega (arith, e)) in
    let second : take 4 (drop 4 (a ++ rest)) ≡ take 4 (drop 4 a) =
      ap (λ l. take 4 l) (drop-append_le 4 a rest (omega (arith, e)))
      ∙ take-append_le 4 (drop 4 a) rest (omega (arith, e, length-drop 4 a)) in
    λ i.
      guid_loop left (behind i)
        ((low + words_value (first i)) % 2 ^ 64, (high + words_value (second i)) % 2 ^ 64)

-- The identifier of an object is made from its path by a sum, which forgets the order: paths that
-- differ by an exchange of two blocks of eight units, at the start, have the same identifier.
pub conv_wstr_to_guid_swap :
    (a b rest : List ℕ)
    → length a ≡ 8
    → length b ≡ 8
    → conv_wstr_to_guid (a ++ (b ++ rest)) ≡ conv_wstr_to_guid (b ++ (a ++ rest))
unfolding conv_wstr_to_guid
conv_wstr_to_guid_swap a b rest ea eb =
    let n = length rest + 14 in
    let fuel : length (a ++ (b ++ rest)) ≡ suc (suc n) =
      length-append a (b ++ rest) ∙ omega (arith, ea, eb, length-append b rest) in
    let fuel' : length (b ++ (a ++ rest)) ≡ suc (suc n) =
      length-append b (a ++ rest) ∙ omega (arith, ea, eb, length-append a rest) in
    let sum : (x y : ℕ) → ((0 + x) % 2 ^ 64 + y) % 2 ^ 64 ≡ ((0 + y) % 2 ^ 64 + x) % 2 ^ 64 =
      λ x y. omega arith in
    rw fuel (
      rw fuel' (
        guid_block (suc n) a (b ++ rest) 0 0 ea
        ∙ guid_block n b rest _ _ eb
        ∙ (λ i. guid_loop n rest (
          sum (words_value (take 4 a)) (words_value (take 4 b)) i,
          sum (words_value (take 4 (drop 4 a))) (words_value (take 4 (drop 4 b))) i,
        ))
        ∙ sym (guid_block (suc n) b (a ++ rest) 0 0 eb ∙ guid_block n a rest _ _ ea)))
