-- ===== src/Nodes.antt =====
-- src/util/mtp_list.c: the singly linked list, with its nodes in memory.
-- An address is a number, a pointer an address or NULL (`none`); a value is the address that a node
-- holds, 0 for NULL. Memory gives a node for every address.
pub mod Chain
pub mod Delete
use cmtp_responder.Base.{
  ℕ, zero, suc, ◌+◌, ◌-◌, ◌%◌, ◌^◌, Bool, false, Option, none, some, ◌==◌, if◌then◌else◌,
}

-- `slist_node_t`
pub record Node : Type 0 where
  pub value : ℕ
  pub link : Option ℕ

-- `slist_t`
pub record Slist : Type 0 where
  pub start : Option ℕ
  pub end : Option ℕ
  pub nnodes : ℕ

abbrev pub Memory : Type 0
Memory = ℕ → Node

unfoldable pub write : Memory → ℕ → Node → Memory
write m p n a = if a == p then n else m a

unfoldable pub init_list : Slist
init_list = record { start = none; end = none; nnodes = 0 }

-- `p->link = q`
unfoldable pub set_link : Memory → ℕ → Option ℕ → Memory
unfolding write
set_link m p q = write m p (record (m p) { link = q })

-- The node behind the last; `none` is a NULL pointer that is followed.
unfoldable pub linked : Memory → Slist → (node : ℕ) → Option ℕ → Option ℕ → Option (Memory × Slist)
unfolding set_link
linked m l node none end =
    some (m, record { start = some node; end = some node; nnodes = (l.nnodes + 1) % 2 ^ 32 })
linked m l node (some first) none = none
linked m l node (some first) (some last) =
    some
      (set_link m last (some node), record l { end = some node; nnodes = (l.nnodes + 1) % 2 ^ 32 })

-- `node` is the new node; memory is granted.
unfoldable pub add_node : (node : ℕ) → Memory → Slist → (datum : ℕ) → Option (Memory × Slist)
unfolding linked write
add_node node m l datum =
    linked (write m node (record { value = datum; link = none })) l node l.start l.end

-- `pointer == node`
unfoldable pub is_node : Option ℕ → ℕ → Bool
is_node none node = false
is_node (some p) node = p == node

-- The list without its first node `temp`.
unfoldable pub del_first_node : Memory → Slist → (temp : ℕ) → Slist
unfolding is_node
del_first_node m l temp = record {
  start = (m temp).link;
  end = if is_node l.end temp then none else l.end;
  nnodes = l.nnodes - 1;
}

unfoldable pub pass : Memory → (datum nptr : ℕ) → (ℕ → Option ℕ) → Option ℕ → Option ℕ
pass m datum nptr on none = some nptr
pass m datum nptr on (some next) =
    let rest = on next in if (m next).value == datum then some nptr else rest

-- `while (nptr->link)`, with the rounds left: the node in front of the one with the datum, or the last.
unfoldable pub seek : Memory → (datum left nptr : ℕ) → Option ℕ
unfolding pass
seek m datum zero nptr = none
seek m datum (suc left) nptr = pass m datum nptr (seek m datum left) (m nptr).link

-- What is left of the memory and the list, and the node that was taken out.
pub record Deleted : Type 0 where
  pub memory : Memory
  pub rest : Slist
  pub taken : Option ℕ

unfoldable pub unlink : Memory → Slist → (nptr : ℕ) → Option ℕ → Deleted
unfolding is_node set_link
unlink m l nptr none = record { memory = m; rest = l; taken = none }
unlink m l nptr (some temp) = record {
  memory = set_link m nptr (m temp).link;
  rest = record l { nnodes = l.nnodes - 1; end = if is_node l.end temp then some nptr else l.end };
  taken = some temp;
}

unfoldable pub cut_behind : Memory → Slist → Option ℕ → Option Deleted
unfolding unlink
cut_behind m l none = none
cut_behind m l (some nptr) = some (unlink m l nptr (m nptr).link)

unfoldable pub delete_from : Memory → Slist → ℕ → Option ℕ → Option Deleted
unfolding cut_behind
delete_from m l datum none = some (record { memory = m; rest = l; taken = none })
delete_from m l datum (some nptr) =
    if (m nptr).value == datum
    then some (record { memory = m; rest = del_first_node m l nptr; taken = some nptr })
    else cut_behind m l (seek m datum l.nnodes nptr)

-- `none` is a loop that has not ended after as many rounds as there are nodes.
unfoldable pub delete_node_at : Memory → Slist → (datum : ℕ) → Option Deleted
unfolding delete_from
delete_node_at m l datum =
    if datum == 0
    then some (record { memory = m; rest = l; taken = none })
    else delete_from m l datum l.start

-- The iterator holds the pointer to a node; an empty list has none. Memory is granted.
unfoldable pub init_list_iterator : Slist → Option (Option ℕ)
init_list_iterator l = elim l.start [ none ↦ none | some node ↦ some (some node) ]

-- The value, which is NULL for a NULL iterator, and the iterator afterwards; `none` is a NULL pointer
-- to a node that is followed.
unfoldable pub get_list_next : Memory → Option (Option ℕ) → Option (ℕ × Option (Option ℕ))
get_list_next m none = some (0, none)
get_list_next m (some none) = none
get_list_next m (some (some node_ptr)) = some ((m node_ptr).value, some (m node_ptr).link)
