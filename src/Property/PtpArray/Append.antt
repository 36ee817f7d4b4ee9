-- ===== src/Property/PtpArray/Append.antt =====
-- `_prop_append_ele_ptparray` and `_prop_copy_ptparray` of src/entity/mtp_property.c.
use mathlib.Core.List.{append_assoc, append-nil}
use mathlib.Core.Option
use mathlib.Core.Path.{subst}
use cmtp_responder.Base.{
  ℕ, zero, suc, ◌+◌, ◌*◌, ◌/◌, ◌%◌, ◌^◌, ◌≤◌, ◌<◌, ◌≡◌, refl, ◌∙◌, ap, sym, inl, inr, true, Option,
  none, some, List, [], ◌∷◌, ◌++◌, map, arith, leb, Bool-cases, length, set, take, length-append,
  length-set, take-set_at,
}
use cmtp_responder.Property.PtpArray.{
  Allocator, Grants, PtpArray, cast, is_scalar, store_ele, append_ele_ptparray, append_loop,
  append_block, copy_ptparray, capacity, block, elements, IsValid,
}
use cmtp_responder.Property.PtpArray.Grow.{max_room, Grown, grow_ptparray_lem}

-- As many elements as keep every size below `max_room`.
abbrev pub max_elements : ℕ
max_elements = 2 ^ 26

-- `b` is `a` with the elements `xs` behind its own.
pub record Appended (a : PtpArray) (xs : List ℕ) (b : PtpArray) : Type 0 where
  pub valid : IsValid b
  pub bounded : b.arr_size ≤ max_room
  pub type : b.type ≡ a.type
  pub num_ele : b.num_ele ≡ a.num_ele + length xs
  pub elements_eq : elements b ≡ elements a ++ xs

set_block :
    (n v : ℕ) (o : Option (List ℕ))
    → n < capacity o
    → (capacity (Option.map (λ xs. set xs n v) o) ≡ capacity o)
      × (take (suc n) (block (Option.map (λ xs. set xs n v) o)) ≡ take n (block o) ++ v ∷ [])
set_block n v none h = elim h [ ]
set_block n v (some xs) h = (length-set xs n v, take-set_at n xs v h)

store_ele_lem :
    (a : PtpArray) (v : ℕ)
    → IsValid a
    → is_scalar a.type ≡ true
    → a.num_ele < a.arr_size
    → a.arr_size ≤ max_room
    → Appended a (cast a.type v ∷ []) (store_ele a v)
unfolding store_ele elements
store_ele_lem a v valid scalar free bounded =
    let (same_room, longer) =
      set_block a.num_ele (cast a.type v) a.array_entry (omega (arith, valid.room)) in
    let exact : (a.num_ele + 1) % 2 ^ 32 ≡ suc a.num_ele = omega arith in
    rw scalar (record {
      valid = record { room = valid.room ∙ sym same_room; fits = omega arith };
      bounded = bounded;
      type = refl;
      num_ele = omega arith;
      elements_eq = rw exact longer;
    })

Appended-Grown :
    {a b c : PtpArray} {k : ℕ} {xs : List ℕ} → Grown a k b → Appended b xs c → Appended a xs c
Appended-Grown {xs} p q = record {
  valid = q.valid;
  bounded = q.bounded;
  type = q.type ∙ p.type;
  num_ele = q.num_ele ∙ ap (λ n. n + length xs) p.num_ele;
  elements_eq = q.elements_eq ∙ ap (λ l. l ++ xs) p.kept;
}

-- Appending to a valid array of a scalar type, of fewer than 2^26 elements and a room of at most
-- 2^27, puts the element, cut to the array's type, behind the others, makes room where there is
-- none, and keeps the array valid.
pub append_ele_ptparray_lem :
    (m : Allocator) (g : Grants m) (a : PtpArray) (v : ℕ)
    → IsValid a
    → is_scalar a.type ≡ true
    → a.arr_size ≤ max_room
    → a.num_ele < max_elements
    → (b : PtpArray) × (append_ele_ptparray m a v ≡ (b, true)) × Appended a (cast a.type v ∷ []) b
unfolding append_ele_ptparray
append_ele_ptparray_lem m g a v valid scalar bounded few =
    elim (Bool-cases (leb a.arr_size a.num_ele)) [
      | inl full ↦
          let is_full : a.arr_size ≡ a.num_ele = ground (arith, valid.fits) in
          let (b, eq, p) =
            grow_ptparray_lem m g a valid scalar bounded (((a.arr_size * 3) % 2 ^ 32) / 2 + 2)
              (omega arith) (omega arith) (omega arith) in
          let q =
            store_ele_lem b v p.valid (ap is_scalar p.type ∙ scalar)
              (omega (arith, p.large, p.num_ele)) p.bounded in
          let same : cast b.type v ≡ cast a.type v = ap (λ t. cast t v) p.type in
          (
            store_ele b v,
            rw (full, eq),
            Appended-Grown p (subst (λ w. Appended b (w ∷ []) (store_ele b v)) same q),
          )
      | inr free ↦ (store_ele a v, rw free, store_ele_lem a v valid scalar (ground arith) bounded)
    ]

Appended-trans :
    {a b c : PtpArray} {xs ys : List ℕ}
    → Appended a xs b
    → Appended b ys c
    → Appended a (xs ++ ys) c
Appended-trans {a} {xs} {ys} p q = record {
  valid = q.valid;
  bounded = q.bounded;
  type = q.type ∙ p.type;
  num_ele = omega (arith, q.num_ele, p.num_ele, length-append xs ys);
  elements_eq = q.elements_eq ∙ ap (λ l. l ++ ys) p.elements_eq ∙ append_assoc (elements a) xs ys;
}

pub append_loop_lem :
    (m : Allocator) (g : Grants m) (left : ℕ) (xs : List ℕ) (dst : PtpArray)
    → IsValid dst
    → is_scalar dst.type ≡ true
    → dst.arr_size ≤ max_room
    → dst.num_ele + left ≤ max_elements
    → left ≤ length xs
    → Appended dst (map (cast dst.type) (take left xs)) (append_loop m left xs dst)
unfolding append_loop
append_loop_lem m g zero xs dst valid scalar bounded few enough = record {
  valid = valid;
  bounded = bounded;
  type = refl;
  num_ele = omega arith;
  elements_eq = sym (append-nil _);
}
append_loop_lem m g (suc left) [] dst valid scalar bounded few enough = elim enough [ ]
append_loop_lem m g (suc left) (x ∷ xs) dst valid scalar bounded few enough =
    let (b, eq, p) = append_ele_ptparray_lem m g dst x valid scalar bounded (omega arith) in
    let q =
      append_loop_lem m g left xs b p.valid (ap is_scalar p.type ∙ scalar) p.bounded
        (omega (arith, p.num_ele)) (omega arith) in
    rw eq (
      Appended-trans p
        (subst (λ t. Appended b (map (cast t) (take left xs)) (append_loop m left xs b)) p.type q))

append_block_lem :
    (m : Allocator) (g : Grants m) (n : ℕ) (o : Option (List ℕ)) (dst : PtpArray)
    → IsValid dst
    → is_scalar dst.type ≡ true
    → dst.arr_size ≤ max_room
    → dst.num_ele + n ≤ max_elements
    → n ≤ capacity o
    → Appended dst (map (cast dst.type) (take n (block o))) (append_block m n o dst)
unfolding append_block
append_block_lem m g zero none dst valid scalar bounded few enough =
    append_loop_lem m g zero [] dst valid scalar bounded few enough
append_block_lem m g (suc n) none dst valid scalar bounded few enough = elim enough [ ]
append_block_lem m g n (some xs) dst valid scalar bounded few enough =
    append_loop_lem m g n xs dst valid scalar bounded few enough

-- For valid arrays of one scalar type, with at most 2^26 elements together, copying appends the
-- elements of the source to those of the destination.
pub copy_ptparray_lem :
    (m : Allocator) (g : Grants m) (dst src : PtpArray)
    → IsValid dst
    → IsValid src
    → is_scalar src.type ≡ true
    → dst.type ≡ src.type
    → dst.arr_size ≤ max_room
    → dst.num_ele + src.num_ele ≤ max_elements
    → ((copy_ptparray m dst src).1 ≡ true)
      × Appended dst (map (cast src.type) (elements src)) (copy_ptparray m dst src).0
unfolding copy_ptparray elements
copy_ptparray_lem m g dst src vd vs scalar same bounded few =
    let typed : record dst { type = src.type } ≡ dst = λ i. record dst { type = sym same i } in
    rw (scalar, typed)
      (
        refl,
        rw (← same) (
            append_block_lem m g src.num_ele src.array_entry dst vd (ap is_scalar same ∙ scalar)
              bounded few (omega (arith, vs.fits, vs.room))),
      )
