-- ===== src/Nodes/Chain.antt =====
-- What a list in memory holds, and `_util_add_node` of src/util/mtp_list.c.
use cmtp_responder.Base.{
  ℕ, ◌+◌, ◌%◌, ◌^◌, ◌<◌, ◌≡◌, ◌≢◌, refl, sym, ap, ◌∙◌, Option, none, some, List, [], ◌∷◌, ◌++◌,
  arith, ◌==◌, eq-==, ne-==, eq_of_==, Bool-cases, inl, inr, length, length-append,
}
use mathlib.Core.Path.{subst}
use cmtp_responder.Nodes.{Node, Slist, Memory, write, set_link, linked, add_node, get_list_next}

-- The address is none of these.
abbrev pub Lacks : ℕ → List ℕ → Type 0
Lacks a [] = Unit
Lacks a (b ∷ bs) = (b ≢ a) × Lacks a bs

abbrev pub Distinct : List ℕ → Type 0
Distinct [] = Unit
Distinct (a ∷ xs) = Lacks a xs × Distinct xs

-- From the pointer, the links lead over these addresses to NULL.
abbrev pub Chain : Memory → Option ℕ → List ℕ → Type 0
Chain m p [] = p ≡ none
Chain m p (a ∷ xs) = (p ≡ some a) × Chain m (m a).link xs

unfoldable pub last_of : ℕ → List ℕ → ℕ
last_of a [] = a
last_of a (b ∷ bs) = last_of b bs

abbrev pub end_of : List ℕ → Option ℕ
end_of [] = none
end_of (a ∷ xs) = some (last_of a xs)

-- The list in memory has its nodes at these addresses.
pub record At (m : Memory) (l : Slist) (xs : List ℕ) : Type 0 where
  pub chain : Chain m l.start xs
  pub distinct : Distinct xs
  pub end_eq : l.end ≡ end_of xs
  pub nnodes_eq : l.nnodes ≡ length xs

pub write_same : (m : Memory) (p : ℕ) (n : Node) → write m p n p ≡ n
unfolding write
write_same m p n = rw (eq-== p p refl) refl

pub write_other : (m : Memory) (p : ℕ) (n : Node) (a : ℕ) → a ≢ p → write m p n a ≡ m a
unfolding write
write_other m p n a other = rw (ne-== a p other) refl

pub write-Chain :
    (m : Memory) (q : ℕ) (n : Node) (p : Option ℕ) (xs : List ℕ)
    → Lacks q xs
    → Chain m p xs
    → Chain (write m q n) p xs
write-Chain m q n p [] lacks c = c
write-Chain m q n p (a ∷ xs) lacks c = (
  c.0,
  subst (λ (x : Node). Chain (write m q n) x.link xs) (sym (write_other m q n a lacks.0))
      (write-Chain m q n (m a).link xs lacks.1 c.1),
)

pub last_of-Lacks : (q a : ℕ) (xs : List ℕ) → Lacks q (a ∷ xs) → last_of a xs ≢ q
unfolding last_of
last_of-Lacks q a [] lacks = lacks.0
last_of-Lacks q a (b ∷ bs) lacks = last_of-Lacks q b bs lacks.1

-- A link that is set behind the last of the addresses.
extended :
    (m : Memory) (node : ℕ) (p : Option ℕ) (a : ℕ) (xs : List ℕ)
    → Chain m p (a ∷ xs)
    → Distinct (a ∷ xs)
    → Lacks node (a ∷ xs)
    → (m node).link ≡ none
    → Chain (set_link m (last_of a xs) (some node)) p ((a ∷ xs) ++ node ∷ [])
unfolding set_link last_of
extended m node p a [] c d lacks ends =
    let m' = write m a (record (m a) { link = some node }) in
    (
      c.0,
      (
        ap Node.link (write_same m a (record (m a) { link = some node })),
        ap Node.link
              (write_other m a (record (m a) { link = some node }) node (λ e. lacks.0 (sym e)))
            ∙ ends,
      ),
    )
extended m node p a (b ∷ bs) c d lacks ends =
    let last = last_of b bs in
    let new : Node = record (m last) { link = some node } in
    (
      c.0,
      subst (λ (x : Node). Chain (write m last new) x.link ((b ∷ bs) ++ node ∷ []))
          (sym (write_other m last new a (λ e. last_of-Lacks a b bs d.0 (sym e))))
          (extended m node (m a).link b bs c.1 d.1 lacks.1 ends),
    )

Lacks-behind : (xs : List ℕ) (a q : ℕ) → Lacks a xs → q ≢ a → Lacks a (xs ++ q ∷ [])
Lacks-behind [] a q lacks other = (other, tt)
Lacks-behind (b ∷ xs) a q lacks other = (lacks.0, Lacks-behind xs a q lacks.1 other)

Distinct-behind : (xs : List ℕ) (q : ℕ) → Distinct xs → Lacks q xs → Distinct (xs ++ q ∷ [])
Distinct-behind [] q d lacks = (tt, tt)
Distinct-behind (a ∷ xs) q d lacks =
    (Lacks-behind xs a q d.0 (λ e. lacks.0 (sym e)), Distinct-behind xs q d.1 lacks.1)

last_behind : (a : ℕ) (xs : List ℕ) (q : ℕ) → last_of a (xs ++ q ∷ []) ≡ q
unfolding last_of
last_behind a [] q = refl
last_behind a (b ∷ xs) q = last_behind b xs q

pub set_link-value :
    (m : Memory) (p : ℕ) (q : Option ℕ) (a : ℕ) → (set_link m p q a).value ≡ (m a).value
unfolding set_link write
set_link-value m p q a = elim (Bool-cases (a == p)) [
  | inl same ↦ rw same (ap (λ x. (m x).value) (sym (eq_of_== a p same)))
  | inr other ↦ rw other refl
]

-- For a list in memory with its nodes at distinct addresses, fewer than 2^32 - 1, and a new address:
-- `add_node` succeeds, the list then has the new node behind the others, which stay in order, the new
-- node holds the datum, and every other node holds what it held.
pub add_node-At :
    (m : Memory) (l : Slist) (xs : List ℕ) (node datum : ℕ)
    → At m l xs
    → Lacks node xs
    → length xs + 1 < 2 ^ 32
    → (after : Memory) × (grown : Slist) × (add_node node m l datum ≡ some (after, grown))
      × At after grown (xs ++ node ∷ [])
      × ((after node).value ≡ datum)
      × ((a : ℕ) → a ≢ node → (after a).value ≡ (m a).value)
unfolding add_node linked last_of
add_node-At m l [] node datum at lacks few =
    let new : Node = record { value = datum; link = none } in
    let fresh = write_same m node new in
    (
      write m node new,
      record { start = some node; end = some node; nnodes = (l.nnodes + 1) % 2 ^ 32 },
      rw at.chain refl,
      record {
        chain = (refl, ap Node.link fresh);
        distinct = (tt, tt);
        end_eq = refl;
        nnodes_eq = omega (arith, at.nnodes_eq);
      },
      ap Node.value fresh,
      λ a other. ap Node.value (write_other m node new a other),
    )
add_node-At m l (b ∷ xs) node datum at lacks few =
    let new : Node = record { value = datum; link = none } in
    let m1 = write m node new in
    let last = last_of b xs in
    let fresh = write_same m node new in
    (
      set_link m1 last (some node),
      record l { end = some node; nnodes = (l.nnodes + 1) % 2 ^ 32 },
      rw at.chain.0 (rw at.end_eq refl),
      record {
        chain =
            extended m1 node l.start b xs (write-Chain m node new l.start (b ∷ xs) lacks at.chain)
              at.distinct lacks (ap Node.link fresh);
        distinct = Distinct-behind (b ∷ xs) node at.distinct lacks;
        end_eq = ap some (sym (last_behind b xs node));
        nnodes_eq = omega (arith, at.nnodes_eq, few, length-append xs (node ∷ []));
      },
      set_link-value m1 last (some node) node ∙ ap Node.value fresh,
      λ a other.
          set_link-value m1 last (some node) a ∙ ap Node.value (write_other m node new a other),
    )

-- An iterator in front of a node gives its value and stands behind it.
pub get_list_next-Chain :
    (m : Memory) (p : Option ℕ) (a : ℕ) (xs : List ℕ)
    → Chain m p (a ∷ xs)
    → (get_list_next m (some p) ≡ some ((m a).value, some (m a).link)) × Chain m (m a).link xs
unfolding get_list_next
get_list_next-Chain m p a xs c = (rw c.0 refl, c.1)
