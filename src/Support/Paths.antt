-- ===== src/Support/Paths.antt =====
-- `_util_get_parent_path`, `_util_get_file_name` and their like of src/util/mtp_support.c.
use cmtp_responder.Base.{
  ℕ, zero, suc, ◌+◌, ◌-◌, ◌≤◌, ◌<◌, ◌≡◌, ◌≢◌, refl, ◌∙◌, ap, sym, false, none, some, List, [], ◌∷◌,
  ◌++◌, arith, ◌==◌, eq-==, ne-==, length, get_or, take, drop, length-append, get_or-append,
  drop-append, take-length, take-append_le, append_assoc,
}
use cmtp_responder.Support.{
  slash, dot, last_index, strlcpy, name_loop, get_file_name, name_wo_extn, get_file_name_wo_extn,
  parent_of, get_parent_path, behind_dot, get_file_extn, up_to_dot, max_pathname_size,
}

-- No character is `c`.
abbrev pub Lacks : ℕ → List ℕ → Type 0
Lacks c [] = Unit
Lacks c (x ∷ xs) = (x ≢ c) × Lacks c xs

last_index-none : (c : ℕ) (xs : List ℕ) → Lacks c xs → last_index c xs ≡ none
unfolding last_index
last_index-none c [] h = refl
last_index-none c (x ∷ xs) h = rw (last_index-none c xs h.1) (rw (ne-== x c h.0) refl)

last_index-append :
    (c : ℕ) (xs ys : List ℕ) → Lacks c ys → last_index c (xs ++ c ∷ ys) ≡ some (length xs)
unfolding last_index
last_index-append c [] ys h = rw (last_index-none c ys h) (rw (eq-== c c refl) refl)
last_index-append c (x ∷ xs) ys h = rw (last_index-append c xs ys h) refl

take_all : (n : ℕ) (xs : List ℕ) → length xs ≤ n → take n xs ≡ xs
take_all zero [] h = refl
take_all zero (x ∷ xs) h = elim h [ ]
take_all (suc n) [] h = refl
take_all (suc n) (x ∷ xs) h = ap (λ l. x ∷ l) (take_all n xs (omega arith))

-- The prefix of a list, and what is behind the separator.
take_front : (xs ys : List ℕ) → take (length xs) (xs ++ ys) ≡ xs
take_front xs ys = take-append_le (length xs) xs ys (omega arith) ∙ take-length xs

drop_behind : (xs ys : List ℕ) (c : ℕ) → drop (length xs + 1) (xs ++ c ∷ ys) ≡ ys
drop_behind xs ys c =
    ap (λ k. drop k (xs ++ c ∷ ys)) (sym (length-append xs (c ∷ [])))
    ∙ ap (λ l. drop (length (xs ++ c ∷ [])) l) (sym (append_assoc xs (c ∷ []) ys))
    ∙ drop-append (xs ++ c ∷ []) ys

get_or-Lacks : (c : ℕ) (xs : List ℕ) (k : ℕ) → 0 < c → Lacks c xs → get_or xs k 0 ≢ c
get_or-Lacks c [] k pos h = λ e. omega (arith, e)
get_or-Lacks c (x ∷ xs) zero pos h = h.0
get_or-Lacks c (x ∷ xs) (suc k) pos h = get_or-Lacks c xs k pos h.1

pub get_parent_path_lem :
    (dir name : List ℕ) → Lacks slash name → get_parent_path (dir ++ slash ∷ name) ≡ some dir
unfolding get_parent_path parent_of strlcpy
get_parent_path_lem dir name h =
    rw (last_index-append slash dir name h) (
      ap some
        (ap (λ k. take k (dir ++ slash ∷ name)) (omega arith) ∙ take_front dir (slash ∷ name)))

-- At the separator.
at_slash :
    (dir name : List ℕ) (j : ℕ)
    → j ≡ suc (length name)
    → name_loop (dir ++ slash ∷ name) (length dir) j ≡ name
unfolding name_loop strlcpy
at_slash [] name j e =
    let exact : j - 1 ≡ length name = omega (arith, e) in
    ap (λ k. take k name) exact ∙ take-length name
at_slash (d ∷ dir) name j e =
    let hit : get_or (d ∷ (dir ++ slash ∷ name)) (suc (length dir)) 0 ≡ slash =
      get_or-append dir (slash ∷ name) 0 in
    let exact : j - 1 ≡ length name = omega (arith, e) in
    rw hit (
      ap (λ k. take k (drop (length (d ∷ dir) + 1) ((d ∷ dir) ++ slash ∷ name))) exact
      ∙ ap (λ l. take (length name) l) (drop_behind (d ∷ dir) name slash)
      ∙ take-length name)

get_or_behind :
    (dir name : List ℕ) (k : ℕ)
    → get_or (dir ++ slash ∷ name) (length dir + suc k) 0 ≡ get_or name k 0
get_or_behind [] name k =
    let step : 0 + suc k ≡ suc k = omega arith in ap (λ i. get_or (slash ∷ name) i 0) step
get_or_behind (d ∷ dir) name k =
    let step : suc (length dir) + suc k ≡ suc (length dir + suc k) = omega arith in
    ap (λ i. get_or (d ∷ (dir ++ slash ∷ name)) i 0) step ∙ get_or_behind dir name k

name_loop_lem :
    (dir name : List ℕ) (k j : ℕ)
    → Lacks slash name
    → k + j ≡ suc (length name)
    → name_loop (dir ++ slash ∷ name) (length dir + k) j ≡ name
unfolding name_loop
name_loop_lem dir name zero j h e =
    ap (λ i. name_loop (dir ++ slash ∷ name) i j) (omega arith)
    ∙ at_slash dir name j (omega (arith, e))
name_loop_lem dir name (suc k) j h e =
    let place : length dir + suc k ≡ suc (length dir + k) = omega arith in
    let miss : (get_or (dir ++ slash ∷ name) (suc (length dir + k)) 0 == slash) ≡ false =
      ne-== _ slash (
        rw (sym place)
          (rw (get_or_behind dir name k) (get_or-Lacks slash name k (omega arith) h))) in
    ap (λ i. name_loop (dir ++ slash ∷ name) i j) place
    ∙ rw miss (name_loop_lem dir name k (j + 1) h (omega (arith, e)))

-- The last of the names of a path, and the path in front of it: where the name has no slash, the one
-- function gives the name and the other what is in front of the slash, so that the two joined by a
-- slash are the path.
pub get_file_name-get_parent_path :
    (dir name : List ℕ)
    → Lacks slash name
    → (get_file_name (dir ++ slash ∷ name) ≡ name)
      × (get_parent_path (dir ++ slash ∷ name) ≡ some dir)
unfolding get_file_name
get_file_name-get_parent_path dir name h = (
  ap (λ i. name_loop (dir ++ slash ∷ name) i 0) (length-append dir (slash ∷ name))
      ∙ name_loop_lem dir name (suc (length name)) 0 h (omega arith),
  get_parent_path_lem dir name h,
)

stem_of :
    (stem extn : List ℕ)
    → Lacks dot extn
    → up_to_dot (stem ++ dot ∷ extn) (last_index dot (stem ++ dot ∷ extn)) ≡ stem
unfolding up_to_dot strlcpy
stem_of stem extn h =
    rw (last_index-append dot stem extn h)
      (ap (λ k. take k (stem ++ dot ∷ extn)) (omega arith) ∙ take_front stem (dot ∷ extn))

-- A name without slashes of a stem, a dot and an extension, which lacks dots and is shorter than its
-- buffer: of a path that ends with the name the one function gives the stem, and of the name the
-- other gives the extension.
get_file_name_wo_extn_lem :
    (dir stem extn : List ℕ)
    → Lacks slash (stem ++ dot ∷ extn)
    → Lacks dot extn
    → length extn < max_pathname_size
    → (get_file_name_wo_extn (dir ++ slash ∷ (stem ++ dot ∷ extn)) ≡ some stem)
      × (get_file_extn (stem ++ dot ∷ extn) ≡ some extn)
unfolding get_file_name_wo_extn name_wo_extn get_file_extn behind_dot strlcpy
get_file_name_wo_extn_lem dir stem extn h lacks short =
    let name = stem ++ dot ∷ extn in
    (
      rw (last_index-append slash dir name h)
          (rw (drop_behind dir name slash) (ap some (stem_of stem extn lacks))),
      rw (last_index-append dot stem extn lacks)
          (rw (drop_behind stem extn dot) (ap some (take_all 1044 extn (omega (arith, short))))),
    )
