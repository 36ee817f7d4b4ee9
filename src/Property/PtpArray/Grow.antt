-- ===== src/Property/PtpArray/Grow.antt =====
-- `_prop_init_ptparray` and `_prop_grow_ptparray` of src/entity/mtp_property.c.
use cmtp_responder.Base.{
  ℕ, zero, suc, ◌-◌, ◌*◌, ◌/◌, ◌%◌, ◌^◌, ◌≤◌, ◌<◌, ◌≡◌, refl, ◌∙◌, ap, sym, inl, inr, true, false,
  Option, none, some, List, arith, ltb, ◌==◌, Bool-cases, length, take, replicate, length-append,
  length-take, length-replicate, take-append_le, take-take,
}
use cmtp_responder.Property.PtpArray.{
  DataType, uint8, uint16, uint32, ptr, uint128, unknown, Allocator, Grants, PtpArray, elem_size,
  zeroed, init_ptparray, resized, realloc_ptparray, ensure_room, grow_ptparray, is_scalar, capacity,
  block, elements, IsValid,
}

-- Sizes for which the 32-bit size computations are exact.
abbrev pub max_room : ℕ
max_room = 2 ^ 27

pub elem_size_pos : (t : DataType) → is_scalar t ≡ true → (0 < elem_size t) × (elem_size t ≤ 4)
unfolding is_scalar elem_size
elem_size_pos uint8 h = omega arith
elem_size_pos uint16 h = omega arith
elem_size_pos uint32 h = omega arith
elem_size_pos ptr h = omega arith
elem_size_pos uint128 h = cc
elem_size_pos unknown h = cc

length-zeroed : (n : ℕ) → length (zeroed n) ≡ n
unfolding zeroed
length-zeroed n = length-replicate n 0

pub length-resized : (junk n : ℕ) (o : Option (List ℕ)) → length (resized junk n o) ≡ n
unfolding resized
length-resized junk n none = length-replicate n junk
length-resized junk n (some xs) = omega (
  arith,
  length-append (take n xs) (replicate (n - length xs) junk),
  length-take n xs,
  length-replicate (n - length xs) junk,
)

take-resized :
    (junk n k : ℕ) (o : Option (List ℕ))
    → k ≤ n
    → k ≤ capacity o
    → take k (resized junk n o) ≡ take k (block o)
unfolding resized
take-resized junk n zero o h l = refl
take-resized junk n (suc k) none h l = elim l [ ]
take-resized junk n (suc k) (some xs) h l =
    take-append_le (suc k) (take n xs) (replicate (n - length xs) junk)
      (omega (arith, length-take n xs))
    ∙ take-take n (suc k) xs h

-- What growing an array to `new_size` leaves.
pub record Grown (a : PtpArray) (new_size : ℕ) (b : PtpArray) : Type 0 where
  pub valid : IsValid b
  pub type : b.type ≡ a.type
  pub num_ele : b.num_ele ≡ a.num_ele
  pub kept : elements b ≡ elements a
  pub large : new_size ≤ b.arr_size
  pub bounded : b.arr_size ≤ max_room

realloc_bytes :
    (t : DataType) (n : ℕ)
    → is_scalar t ≡ true
    → n ≤ max_room
    → 0 < n
    → ((elem_size t * n) % 2 ^ 32 / elem_size t ≡ n) × (0 < (elem_size t * n) % 2 ^ 32)
unfolding is_scalar elem_size
realloc_bytes uint8 n h small pos = omega arith
realloc_bytes uint16 n h small pos = omega arith
realloc_bytes uint32 n h small pos = omega arith
realloc_bytes ptr n h small pos = omega arith
realloc_bytes uint128 n h small pos = cc
realloc_bytes unknown n h small pos = cc

module _ (m : Allocator) (g : Grants m) (a : PtpArray) (v : IsValid a)
    (scalar : is_scalar a.type ≡ true) (new_size : ℕ) (small : new_size ≤ max_room) where
  realloc_lem :
      a.num_ele ≤ new_size
      → 0 < new_size
      → (b : PtpArray) × (realloc_ptparray m a (elem_size a.type) new_size ≡ (b, true))
        × Grown a new_size b
  unfolding realloc_ptparray elements
  realloc_lem fit pos =
      let (exact, some_bytes) = realloc_bytes a.type new_size scalar small pos in
      let held = λ (o : Option (List ℕ)). length-resized m.junk new_size o in
      (
        record a {
          array_entry = some (resized m.junk new_size a.array_entry);
          arr_size = new_size;
        },
        rw (g.at _ some_bytes, exact),
        record {
          valid = record { room = sym (held a.array_entry); fits = fit };
          type = refl;
          num_ele = refl;
          kept =
              take-resized m.junk new_size a.num_ele a.array_entry fit
                (omega (arith, v.room, v.fits));
          large = omega arith;
          bounded = small;
        },
      )

init_eq :
    (m : Allocator) (a : PtpArray) (t : DataType)
    → Grants m
    → is_scalar t ≡ true
    → init_ptparray m a t
      ≡ record a { type = t; arr_size = 100; num_ele = 0; array_entry = some (zeroed 100) }
unfolding init_ptparray elem_size
init_eq m a uint8 g h = rw (g.at 100 (omega arith))
init_eq m a uint16 g h = rw (g.at 200 (omega arith))
init_eq m a uint32 g h = rw (g.at 400 (omega arith))
init_eq m a ptr g h = rw (g.at 400 (omega arith))
init_eq m a uint128 g h = unfold is_scalar in cc
init_eq m a unknown g h = unfold is_scalar in cc

-- A new array of a scalar type is empty, and has room for a hundred elements.
pub init-Grown :
    (m : Allocator) (a : PtpArray)
    → Grants m
    → IsValid a
    → is_scalar a.type ≡ true
    → a.arr_size ≡ 0
    → Grown a 0 (init_ptparray m a a.type)
unfolding elements
init-Grown m a g v scalar zero_room =
    let none_left : a.num_ele ≡ 0 = omega (arith, v.fits) in
    rw (init_eq m a a.type g scalar) (record {
      valid = record { room = sym (length-zeroed 100); fits = omega arith };
      type = refl;
      num_ele = sym none_left;
      kept = rw none_left;
      large = omega arith;
      bounded = omega arith;
    })

ensure_room_lem :
    (m : Allocator) (g : Grants m) (a : PtpArray)
    → IsValid a
    → is_scalar a.type ≡ true
    → a.arr_size ≤ max_room
    → (new_size : ℕ) → new_size ≤ max_room
    → a.num_ele ≤ new_size
    → 0 < new_size
    → (b : PtpArray) × (ensure_room m a (elem_size a.type) new_size ≡ (b, true))
      × Grown a new_size b
unfolding ensure_room
ensure_room_lem m g a v scalar bounded n small fit pos = elim (Bool-cases (ltb n a.arr_size)) [
  | inl enough ↦ (
    a,
    rw enough,
    record {
      valid = v;
      type = refl;
      num_ele = refl;
      kept = refl;
      large = ground arith;
      bounded = bounded;
    },
  )
  | inr short ↦ rw short (realloc_lem m g a v scalar n small fit pos)
]

Grown-trans : {a b c : PtpArray} {k n : ℕ} → Grown a k b → Grown b n c → Grown a n c
Grown-trans p q = record {
  valid = q.valid;
  type = q.type ∙ p.type;
  num_ele = q.num_ele ∙ p.num_ele;
  kept = q.kept ∙ p.kept;
  large = q.large;
  bounded = q.bounded;
}

-- Growing a valid array of a scalar type to a positive size of at most 2^27, not below its count,
-- never fails, keeps the elements, and makes the room that was asked for.
pub grow_ptparray_lem :
    (m : Allocator) (g : Grants m) (a : PtpArray)
    → IsValid a
    → is_scalar a.type ≡ true
    → a.arr_size ≤ max_room
    → (new_size : ℕ) → new_size ≤ max_room
    → a.num_ele ≤ new_size
    → 0 < new_size
    → (b : PtpArray) × (grow_ptparray m a new_size ≡ (b, true)) × Grown a new_size b
unfolding grow_ptparray
grow_ptparray_lem m g a v scalar bounded n small fit pos =
    let sized : (elem_size a.type == 0) ≡ false = ground (arith, elem_size_pos a.type scalar) in
    rw sized (elim (Bool-cases (a.arr_size == 0)) [
      | inl empty ↦
          let p = init-Grown m a g v scalar (ground arith) in
          let same : elem_size a.type ≡ elem_size (init_ptparray m a a.type).type =
            ap elem_size (sym p.type) in
          let (c, eq, q) =
            ensure_room_lem m g (init_ptparray m a a.type) p.valid (ap is_scalar p.type ∙ scalar)
              p.bounded n small (omega (arith, p.num_ele)) pos in
          (c, rw (empty, same) eq, Grown-trans p q)
      | inr full ↦ rw full (ensure_room_lem m g a v scalar bounded n small fit pos)
    ])
