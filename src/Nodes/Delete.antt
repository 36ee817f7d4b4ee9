-- ===== src/Nodes/Delete.antt =====
-- `_util_delete_node` of src/util/mtp_list.c.
use mathlib.Core.Path.{subst}
use cmtp_responder.Base.{
  ℕ, zero, suc, ◌<◌, ◌≡◌, ◌≢◌, refl, sym, ap, ◌∙◌, inl, inr, ◌⊎◌, Option, none, some, List, [], ◌∷◌,
  ◌++◌, arith, ◌==◌, if◌then◌else◌, eq-==, ne-==, eq_of_==, ne_of_==, Bool-cases, length,
  length-append, append-nil,
}
use cmtp_responder.Nodes.{
  Node, Slist, Memory, write, set_link, is_node, del_first_node, pass, seek, Deleted, unlink,
  cut_behind, delete_from, delete_node_at,
}
use cmtp_responder.Nodes.Chain.{
  Lacks, Distinct, Chain, last_of, end_of, At, write_same, write_other, write-Chain, last_of-Lacks,
  set_link-value,
}

-- No node at these addresses holds the datum.
abbrev pub Free : Memory → ℕ → List ℕ → Type 0
Free m datum [] = Unit
Free m datum (a ∷ xs) = ((m a).value ≢ datum) × Free m datum xs

-- The first node with the datum stands between these addresses.
pub record Cut (m : Memory) (datum : ℕ) (xs front : List ℕ) (q : ℕ) (back : List ℕ) : Type 0 where
  pub whole : xs ≡ front ++ q ∷ back
  pub free : Free m datum front
  pub hit : (m q).value ≡ datum

-- Where the search ends, from the node in front of these addresses.
record Sought (m : Memory) (datum a : ℕ) (xs : List ℕ) (out : Option ℕ) : Type 0 where
  front : List ℕ
  q : ℕ
  back : List ℕ
  cut : Cut m datum xs front q back
  out_eq : out ≡ some (last_of a front)

abbrev Result : Memory → (datum a : ℕ) → List ℕ → Option ℕ → Type 0
Result m datum a xs out = Sought m datum a xs out ⊎ (Free m datum xs × (out ≡ some (last_of a xs)))

further :
    (m : Memory) (datum a b : ℕ) (xs : List ℕ) (out : Option ℕ)
    → (m b).value ≢ datum
    → Result m datum b xs out
    → Result m datum a (b ∷ xs) out
unfolding last_of
further m datum a b xs out other (inl s) = inl (record {
  front = b ∷ s.front;
  q = s.q;
  back = s.back;
  cut = record { whole = ap (λ l. b ∷ l) s.cut.whole; free = (other, s.cut.free); hit = s.cut.hit };
  out_eq = s.out_eq;
})
further m datum a b xs out other (inr (free, e)) = inr ((other, free), e)

seek-Result :
    (m : Memory) (datum left a : ℕ) (xs : List ℕ)
    → Chain m (m a).link xs
    → length xs < left
    → Result m datum a xs (seek m datum left a)
unfolding seek pass last_of
seek-Result m datum zero a xs c h = elim h [ ]
seek-Result m datum (suc left) a [] c h = rw c (inr (tt, refl))
seek-Result m datum (suc left) a (b ∷ xs) c h = rw c.0 (elim (Bool-cases ((m b).value == datum)) [
  | inl same ↦ rw same (
      inl (record {
        front = [];
        q = b;
        back = xs;
        cut = record { whole = refl; free = tt; hit = eq_of_== (m b).value datum same };
        out_eq = refl;
      }))
  | inr other ↦ rw other (
      further m datum a b xs (seek m datum left b) (ne_of_== (m b).value datum other)
        (seek-Result m datum left b xs c.1 (omega arith)))
])

Lacks-front : (a : ℕ) (xs : List ℕ) (ys : List ℕ) → Lacks a (xs ++ ys) → Lacks a xs
Lacks-front a [] ys l = tt
Lacks-front a (b ∷ xs) ys l = (l.0, Lacks-front a xs ys l.1)

unlinked :
    (m : Memory) (p : Option ℕ) (a : ℕ) (front : List ℕ) (q : ℕ) (back : List ℕ)
    → Chain m p (a ∷ (front ++ q ∷ back))
    → Distinct (a ∷ (front ++ q ∷ back))
    → Chain (set_link m (last_of a front) (m q).link) p (a ∷ (front ++ back))
unfolding set_link last_of
unlinked m p a [] q back c d =
    let new : Node = record (m a) { link = (m q).link } in
    (
      c.0,
      subst (λ (x : Node). Chain (write m a new) x.link back) (sym (write_same m a new))
          (write-Chain m a new (m q).link back d.0.1 c.1.1),
    )
unlinked m p a (b ∷ front) q back c d =
    let last = last_of b front in
    let new : Node = record (m last) { link = (m q).link } in
    (
      c.0,
      subst (λ (x : Node). Chain (write m last new) x.link (b ∷ (front ++ back)))
          (sym (
            write_other m last new a
              (λ e. last_of-Lacks a b front (Lacks-front a (b ∷ front) (q ∷ back) d.0) (sym e))))
          (unlinked m (m a).link b front q back c.1 d.1),
    )

Lacks-without :
    (a : ℕ) (xs : List ℕ) (q : ℕ) (ys : List ℕ) → Lacks a (xs ++ q ∷ ys) → Lacks a (xs ++ ys)
Lacks-without a [] q ys l = l.1
Lacks-without a (b ∷ xs) q ys l = (l.0, Lacks-without a xs q ys l.1)

Distinct-without :
    (xs : List ℕ) (q : ℕ) (ys : List ℕ) → Distinct (xs ++ q ∷ ys) → Distinct (xs ++ ys)
Distinct-without [] q ys d = d.1
Distinct-without (b ∷ xs) q ys d = (Lacks-without b xs q ys d.0, Distinct-without xs q ys d.1)

Distinct-behind_it : (xs : List ℕ) (q : ℕ) (ys : List ℕ) → Distinct (xs ++ q ∷ ys) → Lacks q ys
Distinct-behind_it [] q ys d = d.0
Distinct-behind_it (b ∷ xs) q ys d = Distinct-behind_it xs q ys d.1

last_mid :
    (a : ℕ) (front : List ℕ) (q : ℕ) (back : List ℕ)
    → last_of a (front ++ q ∷ back) ≡ last_of q back
unfolding last_of
last_mid a [] q back = refl
last_mid a (b ∷ front) q back = last_mid b front q back

-- The end of the list without the node.
end_without :
    (end : Option ℕ) (a : ℕ) (front : List ℕ) (q : ℕ) (back : List ℕ)
    → end ≡ some (last_of a (front ++ q ∷ back))
    → Lacks q back
    → (if is_node end q then some (last_of a front) else end) ≡ some (last_of a (front ++ back))
unfolding is_node last_of
end_without end a front q [] e l =
    let at_end : end ≡ some q = e ∙ ap some (last_mid a front q []) in
    rw at_end (rw (eq-== q q refl) (ap (λ k. some (last_of a k)) (sym (append-nil front))))
end_without end a front q (b ∷ back) e l =
    let at_end : end ≡ some (last_of b back) = e ∙ ap some (last_mid a front q (b ∷ back)) in
    rw at_end (
      rw (ne-== (last_of b back) q (last_of-Lacks q b back l))
        (ap some (sym (last_mid a front b back))))

end_without_first :
    (end : Option ℕ) (a : ℕ) (xs : List ℕ)
    → end ≡ some (last_of a xs)
    → Lacks a xs
    → (if is_node end a then none else end) ≡ end_of xs
unfolding is_node last_of
end_without_first end a [] e l = rw e (rw (eq-== a a refl) refl)
end_without_first end a (b ∷ xs) e l =
    rw e (rw (ne-== (last_of b xs) a (last_of-Lacks a b xs l)) refl)

-- A node was taken out, or there was none to take.
pub record Took (m : Memory) (datum : ℕ) (xs : List ℕ) (d : Deleted) : Type 0 where
  pub front : List ℕ
  pub q : ℕ
  pub back : List ℕ
  pub cut : Cut m datum xs front q back
  pub taken_eq : d.taken ≡ some q
  pub rest_at : At d.memory d.rest (front ++ back)

pub record Missed (m : Memory) (datum : ℕ) (xs : List ℕ) (d : Deleted) : Type 0 where
  pub free : Free m datum xs
  pub taken_eq : d.taken ≡ none
  pub rest_at : At d.memory d.rest xs

take_first :
    (m : Memory) (l : Slist) (datum a : ℕ) (xs : List ℕ)
    → At m l (a ∷ xs)
    → (m a).value ≡ datum
    → Took m datum (a ∷ xs) (record { memory = m; rest = del_first_node m l a; taken = some a })
unfolding del_first_node
take_first m l datum a xs at hit = record {
  front = [];
  q = a;
  back = xs;
  cut = record { whole = refl; free = tt; hit = hit };
  taken_eq = refl;
  rest_at = record {
    chain = at.chain.1;
    distinct = at.distinct.1;
    end_eq = end_without_first l.end a xs at.end_eq at.distinct.0;
    nnodes_eq = omega (arith, at.nnodes_eq);
  };
}

-- What stands behind the last of the addresses in front.
link_behind :
    (m : Memory) (a : ℕ) (front : List ℕ) (p : Option ℕ) (q : ℕ) (back : List ℕ)
    → Chain m p (a ∷ (front ++ q ∷ back))
    → (m (last_of a front)).link ≡ some q
unfolding last_of
link_behind m a [] p q back c = c.1.0
link_behind m a (b ∷ front) p q back c = link_behind m b front (m a).link q back c.1

link_end :
    (m : Memory) (a : ℕ) (xs : List ℕ) (p : Option ℕ)
    → Chain m p (a ∷ xs)
    → (m (last_of a xs)).link ≡ none
unfolding last_of
link_end m a [] p c = c.1
link_end m a (b ∷ xs) p c = link_end m b xs (m a).link c.1

take_behind :
    (m : Memory) (l : Slist) (datum a : ℕ) (front : List ℕ) (q : ℕ) (back : List ℕ)
    → At m l (a ∷ (front ++ q ∷ back))
    → (m a).value ≢ datum
    → Free m datum front
    → (m q).value ≡ datum
    → Took m datum (a ∷ (front ++ q ∷ back)) (unlink m l (last_of a front) (some q))
unfolding unlink
take_behind m l datum a front q back at other free hit = record {
  front = a ∷ front;
  q = q;
  back = back;
  cut = record { whole = refl; free = (other, free); hit = hit };
  taken_eq = refl;
  rest_at = record {
    chain = unlinked m l.start a front q back at.chain at.distinct;
    distinct = Distinct-without (a ∷ front) q back at.distinct;
    end_eq =
        end_without l.end a front q back at.end_eq
          (Distinct-behind_it (a ∷ front) q back at.distinct);
    nnodes_eq =
        omega (arith, at.nnodes_eq, length-append front (q ∷ back), length-append front back);
  };
}

abbrev Ends : Memory → ℕ → List ℕ → Option Deleted → Type 0
Ends m datum xs out =
    (d : Deleted) × (out ≡ some d)
    × (Took m datum xs d ⊎ Missed m datum xs d)
    × ((a : ℕ) → (d.memory a).value ≡ (m a).value)

same_value :
    (m : Memory) (l : Slist) (n q a : ℕ) → ((unlink m l n (some q)).memory a).value ≡ (m a).value
unfolding unlink
same_value m l n q a = set_link-value m n (m q).link a

behind_first :
    (m : Memory) (l : Slist) (datum a : ℕ) (xs : List ℕ) (out : Option ℕ)
    → At m l (a ∷ xs)
    → (m a).value ≢ datum
    → Result m datum a xs out
    → Ends m datum (a ∷ xs) (cut_behind m l out)
unfolding cut_behind
behind_first m l datum a xs out at other (inl s) =
    let here = subst (λ k. At m l (a ∷ k)) s.cut.whole at in
    let n = last_of a s.front in
    (
      unlink m l n (some s.q),
      rw s.out_eq (rw (link_behind m a s.front l.start s.q s.back here.chain) refl),
      inl (
          subst (λ k. Took m datum (a ∷ k) (unlink m l n (some s.q))) (sym s.cut.whole)
            (take_behind m l datum a s.front s.q s.back here other s.cut.free s.cut.hit)),
      same_value m l n s.q,
    )
behind_first m l datum a xs out at other (inr (free, e)) = (
  record { memory = m; rest = l; taken = none },
  rw e (rw (link_end m a xs l.start at.chain) (unfold unlink in refl)),
  inr (record { free = (other, free); taken_eq = refl; rest_at = at }),
  λ b. refl,
)

from_first :
    (m : Memory) (l : Slist) (datum a : ℕ) (xs : List ℕ)
    → At m l (a ∷ xs)
    → Ends m datum (a ∷ xs) (delete_from m l datum (some a))
unfolding delete_from
from_first m l datum a xs at = elim (Bool-cases ((m a).value == datum)) [
  | inl same ↦ rw same (
    record { memory = m; rest = del_first_node m l a; taken = some a },
    refl,
    inl (take_first m l datum a xs at (eq_of_== (m a).value datum same)),
    λ b. refl,
  )
  | inr other ↦ rw other (
      behind_first m l datum a xs (seek m datum l.nnodes a) at (ne_of_== (m a).value datum other)
        (seek-Result m datum l.nnodes a xs at.chain.1 (omega (arith, at.nnodes_eq))))
]

-- A list in memory with its nodes at distinct addresses, and a datum that is not NULL: the search ends
-- within as many rounds as there are nodes. Where a node holds the datum, the first such node is taken
-- out, and the list has the others in their order; else nothing is taken and the list is as it was. No
-- node's value changes.
pub delete_node_at-Took :
    (m : Memory) (l : Slist) (datum : ℕ) (xs : List ℕ)
    → At m l xs
    → datum ≢ 0
    → (d : Deleted) × (delete_node_at m l datum ≡ some d)
      × (Took m datum xs d ⊎ Missed m datum xs d)
      × ((a : ℕ) → (d.memory a).value ≡ (m a).value)
unfolding delete_node_at delete_from cut_behind
delete_node_at-Took m l datum [] at some_datum = (
  record { memory = m; rest = l; taken = none },
  rw (ne-== datum 0 some_datum) (rw at.chain refl),
  inr (record { free = tt; taken_eq = refl; rest_at = at }),
  λ a. refl,
)
delete_node_at-Took m l datum (a ∷ xs) at some_datum = rw (ne-== datum 0 some_datum) (
    subst (λ p. Ends m datum (a ∷ xs) (delete_from m l datum p)) (sym at.chain.0)
      (from_first m l datum a xs at))
