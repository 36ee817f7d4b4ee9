-- ===== src/Examples/Lists.antt =====
-- Runs of src/util/mtp_list.c.
use cmtp_responder.Base.{ℕ, ◌≡◌, ◌≢◌, refl, ◌⊎◌, none, some, [], ◌∷◌, ◌++◌, arith}
use cmtp_responder.Nodes.{Slist, Memory, write, add_node, Deleted, delete_node_at}
use cmtp_responder.Nodes.Chain.{last_of, At, add_node-At}
use cmtp_responder.Nodes.Delete.{Took, Missed, delete_node_at-Took}

-- Two nodes, at 8 and 16, that hold 5 and 6; any other address has an empty one.
abbrev two_nodes : Memory
two_nodes =
    write
      (write (λ (a : ℕ). record { value = 0; link = none }) 8
        (record { value = 5; link = some 16 }))
      16 (record { value = 6; link = none })

abbrev two_long : Slist
two_long = record { start = some 8; end = some 16; nnodes = 2 }

two_long-At : At two_nodes two_long (8 ∷ 16 ∷ [])
unfolding write last_of
two_long-At = record {
  chain = (refl, (refl, refl));
  distinct = ((λ e. omega (arith, e), tt), (tt, tt));
  end_eq = refl;
  nnodes_eq = refl;
}

add_node_example :
    (after : Memory) × (grown : Slist) × (add_node 24 two_nodes two_long 7 ≡ some (after, grown))
    × At after grown ((8 ∷ 16 ∷ []) ++ 24 ∷ [])
    × ((after 24).value ≡ 7)
    × ((a : ℕ) → a ≢ 24 → (after a).value ≡ (two_nodes a).value)
add_node_example =
    add_node-At two_nodes two_long (8 ∷ 16 ∷ []) 24 7 two_long-At
      (λ e. omega (arith, e), (λ e. omega (arith, e), tt)) (omega arith)

delete_node_at_example :
    (d : Deleted) × (delete_node_at two_nodes two_long 6 ≡ some d)
    × (Took two_nodes 6 (8 ∷ 16 ∷ []) d ⊎ Missed two_nodes 6 (8 ∷ 16 ∷ []) d)
    × ((a : ℕ) → (d.memory a).value ≡ (two_nodes a).value)
delete_node_at_example =
    delete_node_at-Took two_nodes two_long 6 (8 ∷ 16 ∷ []) two_long-At (λ e. omega (arith, e))
