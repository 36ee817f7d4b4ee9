-- ===== src/Property/PtpString/Copy.antt =====
-- `_prop_copy_char_to_ptpstring`, `_prop_copy_ptpstring` and `_prop_is_equal_ptpstring` of
-- src/entity/mtp_property.c.
use cmtp_responder.Base.{
  append_assoc, append-nil, ℕ, zero, suc, ◌+◌, ◌-◌, ◌≤◌, ◌<◌, ◌≡◌, refl, ◌∙◌, ap, sym, inl, inr,
  ◌⊎◌, eq_of_==, ne_of_==, true, some, List, [], ◌∷◌, ◌++◌, map, arith, ◌==◌, if◌then◌else◌,
  Bool-cases, length, get_or, set, take, length-set, length-take, take-set_at, take-take,
  take-set_self, take_short, take-map, length-map, ◌↔◌,
}
use cmtp_responder.Property.PtpString.{
  PtpString, char_type, wchar_type, max_ptp_string_chars, widen, copy_loop, terminate, copy_units,
  copy_char_to_ptpstring, copy_str, copy_ptpstring, equal_loop, is_equal_ptpstring, text,
}

-- A C string: the units in front of the NUL.
unfoldable pub until_nul : List ℕ → List ℕ
until_nul [] = []
until_nul (c ∷ s) = if c == 0 then [] else c ∷ until_nul s

-- What a copy loop that starts behind `i` units leaves: the string, its count, and the room.
record Copied (i : ℕ) (dst new : List ℕ) (out : List ℕ × ℕ) : Type 0 where
  count : out.1 ≡ i + length new
  room : length out.0 ≡ length dst
  units : take out.1 out.0 ≡ take i dst ++ new

copy_loop_lem :
    (unit : ℕ → ℕ) (left i : ℕ) (src dst : List ℕ)
    → i + left ≤ length dst
    → Copied i dst (map unit (take left (until_nul src))) (copy_loop unit left i src dst)
unfolding copy_loop until_nul
copy_loop_lem unit zero i src dst h = record {
  count = omega arith;
  room = refl;
  units = sym (append-nil _);
}
copy_loop_lem unit (suc left) i [] dst h = record {
  count = omega arith;
  room = refl;
  units = sym (append-nil _);
}
copy_loop_lem unit (suc left) i (c ∷ src) dst h = elim (Bool-cases (c == 0)) [
  | inl nul ↦ rw nul (record { count = omega arith; room = refl; units = sym (append-nil _) })
  | inr more ↦
      let rest =
        copy_loop_lem unit left (i + 1) src (set dst i (unit c))
          (omega (arith, length-set dst i (unit c))) in
      let next : i + 1 ≡ suc i = omega arith in
      rw more (record {
        count = omega (arith, rest.count);
        room = rest.room ∙ length-set dst i (unit c);
        units =
            rest.units
            ∙ ap (λ l. l ++ map unit (take left (until_nul src)))
                (ap (λ k. take k (set dst i (unit c))) next
                  ∙ take-set_at i dst (unit c) (omega arith))
            ∙ append_assoc (take i dst) (unit c ∷ []) _;
      })
]

-- `p` says `s` and ends with the terminator.
pub record Says (p : PtpString) (s : List ℕ) : Type 0 where
  pub count : p.num_chars ≡ suc (length s)
  pub text_eq : text p ≡ s
  pub terminated : take p.num_chars p.str ≡ s ++ 0 ∷ []

-- A string of `n` units, with the terminator in the last.
abbrev ended : List ℕ → ℕ → PtpString
ended str n = record { num_chars = n; str = set str (n - 1) 0 }

terminate_at :
    (p : PtpString) (n : ℕ) (str s : List ℕ)
    → p ≡ ended str (suc n)
    → length s ≡ n
    → take n str ≡ s
    → n < length str
    → Says p s
unfolding text
terminate_at p n str s e l t h =
    let pred : suc n - 1 ≡ n = omega arith in
    rw (e, pred)
      (record {
        count = omega (arith, l);
        text_eq = rw pred (take-set_self n str 0 ∙ t);
        terminated = take-set_at n str 0 h ∙ ap (λ x. x ++ 0 ∷ []) t;
      })

terminate_lem :
    (p : PtpString) (unit : ℕ → ℕ) (s dst : List ℕ) (out : List ℕ × ℕ)
    → length dst ≡ max_ptp_string_chars
    → Copied 0 dst (map unit (take max_ptp_string_chars s)) out
    → Says (terminate p out) (map unit (take 254 s))
unfolding terminate
terminate_lem p unit s dst (str, i) room c = elim (Bool-cases (i == 255)) [
  | inl full ↦
      let all = eq_of_== i 255 full in
      let new = map unit (take 254 s) in
      let front : take 254 str ≡ new =
        sym (take-take 255 254 str (omega arith))
        ∙ ap (take 254) (ap (λ k. take k str) (sym all) ∙ c.units)
        ∙ take-map unit 254 (take 255 s)
        ∙ ap (map unit) (take-take 255 254 s (omega arith)) in
      terminate_at (terminate p (str, i)) 254 str new (rw full (ap (ended str) all))
        (sym (ap length front) ∙ omega (arith, length-take 254 str, c.room)) front
        (omega (arith, c.room))
  | inr short ↦
      let few = map unit (take 255 s) in
      let below : length (take 255 s) ≤ 254 =
        omega
          (arith, c.count, length-map unit (take 255 s), length-take 255 s, ne_of_== i 255 short) in
      let same : few ≡ map unit (take 254 s) = ap (map unit) (take_short 254 s below) in
      terminate_at (terminate p (str, i)) i str (map unit (take 254 s))
        (rw short (ap (ended str) (omega arith))) (ap length (sym same) ∙ omega (arith, c.count))
        (c.units ∙ same) (omega (arith, c.room, c.count, below, length-map unit (take 255 s)))
]

-- What copying the C string `src` into `p` leaves: nothing, or its first 254 units and the
-- terminator.
pub record Holds (unit : ℕ → ℕ) (src : List ℕ) (p : PtpString) : Type 0 where
  pub text_eq : text p ≡ map unit (take 254 (until_nul src))
  pub shape : (p.num_chars ≡ 0) ⊎ Says p (map unit (take 254 (until_nul src)))

until_nul_empty : (s : List ℕ) → (get_or s 0 0 == 0) ≡ true → until_nul s ≡ []
unfolding until_nul
until_nul_empty [] h = refl
until_nul_empty (c ∷ s) h = rw h

copy_units_lem :
    (unit : ℕ → ℕ) (p : PtpString) (src : List ℕ)
    → length p.str ≡ max_ptp_string_chars
    → Holds unit src (copy_units unit p src)
unfolding copy_units text
copy_units_lem unit p src room = elim (Bool-cases (get_or src 0 0 == 0)) [
  | inl empty ↦ rw empty (record { text_eq = rw (until_nul_empty src empty); shape = inl refl })
  | inr more ↦
      let says =
        terminate_lem p unit (until_nul src) p.str (copy_loop unit 255 0 src p.str) room
          (copy_loop_lem unit 255 0 src p.str (omega arith)) in
      rw more (record { text_eq = says.text_eq; shape = inr says })
]

-- Copying a C string of either character width stores its units up to the NUL, at most 254 of
-- them, followed by the terminator; an empty string has no units and no terminator.
pub copy_char_to_ptpstring-text :
    (p : PtpString) (src : List ℕ)
    → length p.str ≡ max_ptp_string_chars
    → Holds (λ c. c) src (copy_char_to_ptpstring p (some src) wchar_type)
      × Holds widen src (copy_char_to_ptpstring p (some src) char_type)
unfolding copy_char_to_ptpstring
copy_char_to_ptpstring-text p src room =
    (copy_units_lem (λ c. c) p src room, copy_units_lem widen p src room)

copy_str_lem :
    (n : ℕ) (src dst : List ℕ)
    → n ≤ length src
    → n ≤ length dst
    → take n (copy_str n src dst) ≡ take n src
unfolding copy_str
copy_str_lem zero src dst h l = refl
copy_str_lem (suc n) [] dst h l = elim h [ ]
copy_str_lem (suc n) (c ∷ src) [] h l = elim l [ ]
copy_str_lem (suc n) (c ∷ src) (d ∷ dst) h l =
    ap (λ x. c ∷ x) (copy_str_lem n src dst (omega arith) (omega arith))

length-copy_str : (n : ℕ) (src dst : List ℕ) → length (copy_str n src dst) ≡ length dst
unfolding copy_str
length-copy_str zero src dst = refl
length-copy_str (suc n) [] dst = refl
length-copy_str (suc n) (c ∷ src) [] = refl
length-copy_str (suc n) (c ∷ src) (d ∷ dst) = ap suc (length-copy_str n src dst)

equal_loop_iff :
    (n : ℕ) (xs ys : List ℕ)
    → n ≤ length xs
    → n ≤ length ys
    → (equal_loop n xs ys ≡ true) ↔ (take n xs ≡ take n ys)
unfolding equal_loop
equal_loop_iff zero xs ys h l = (λ _. refl, λ _. refl)
equal_loop_iff (suc n) [] ys h l = elim h [ ]
equal_loop_iff (suc n) (x ∷ xs) [] h l = elim l [ ]
equal_loop_iff (suc n) (x ∷ xs) (y ∷ ys) h l =
    let (to, from) = equal_loop_iff n xs ys (omega arith) (omega arith) in
    (λ e. ground (arith, to), λ e. ground (arith, from))

-- Two strings whose units are in their arrays compare equal exactly when their counts and their
-- counted units agree.
pub is_equal_ptpstring_iff :
    (a b : PtpString)
    → a.num_chars ≤ length a.str
    → b.num_chars ≤ length b.str
    → (is_equal_ptpstring a b ≡ true)
      ↔ ((a.num_chars ≡ b.num_chars) × (take a.num_chars a.str ≡ take b.num_chars b.str))
unfolding is_equal_ptpstring
is_equal_ptpstring_iff a b ha hb = elim (Bool-cases (a.num_chars == b.num_chars)) [
  | inl same ↦
      let e = eq_of_== a.num_chars b.num_chars same in
      let (to, from) = equal_loop_iff a.num_chars a.str b.str ha (omega arith) in
      rw same (
        λ h. (e, to h ∙ ap (λ n. take n b.str) e),
        λ h. from (h.1 ∙ ap (λ n. take n b.str) (sym e)),
      )
  | inr other ↦ rw other (λ h. cc, λ h. absurd (ne_of_== a.num_chars b.num_chars other h.0))
]

-- A copy compares equal to its source.
is_equal_ptpstring-copy_ptpstring :
    (dst src : PtpString)
    → src.num_chars ≤ length src.str
    → src.num_chars ≤ length dst.str
    → is_equal_ptpstring (copy_ptpstring dst src) src ≡ true
unfolding copy_ptpstring
is_equal_ptpstring-copy_ptpstring dst src hs hd =
    let units = copy_str_lem src.num_chars src.str dst.str hs hd in
    let room = length-copy_str src.num_chars src.str dst.str in
    (is_equal_ptpstring_iff (copy_ptpstring dst src) src (omega (arith, room)) hs).1 (refl, units)
