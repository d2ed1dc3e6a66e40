-- ===== src/Net/ConsistentHashMap/Tests.antt =====
-- A ring of three numbers: net_io/base/load_balance/consistent_hash_map.h.
use ltio.Common.{ℕ, ◌*◌, ◌≡◌, refl, true, false, none, List, [], ◌∷◌, some, ◌⊎◌, arith}
use ltio.Net.ConsistentHashMap.{find_node, insert_node, erase_node, entry_at, erase_at}
use ltio.Net.ConsistentHashMap.Ring.{Ascends, Serves, find_node-Serves}
use ltio.Net.ConsistentHashMap.Changes.{
  Inserts, Erases, insert_node-find_node, erase_node-find_node,
}

-- A stand-in for the hash.
abbrev times_ten : ℕ → ℕ
times_ten n = n * 10

abbrev ring : List (ℕ × ℕ)
ring = (10, 1) ∷ (30, 3) ∷ (70, 7) ∷ []

ring-Ascends : Ascends ring
ring-Ascends = ((omega arith, (omega arith, tt)), ((omega arith, tt), (tt, tt)))

find_node-Serves_example : (e : ℕ × ℕ) × (find_node 80 ring ≡ some e) × Serves 80 ring e
find_node-Serves_example = find_node-Serves 80 ring ring-Ascends (omega arith)

insert_node-find_node_example :
    ((e : ℕ × ℕ) × (entry_at 50 ring ≡ some e)
      × (insert_node times_ten 5 ring ≡ ((some e, false), ring)))
    ⊎ ((m : List (ℕ × ℕ)) × (insert_node times_ten 5 ring ≡ ((some (50, 5), true), m))
        × Inserts 50 5 ring m)
insert_node-find_node_example = insert_node-find_node times_ten 5 ring ring-Ascends

-- A node that another stands in the way of.
insert_taken : insert_node (λ (n : ℕ). 30) 5 ring ≡ ((some (30, 3), false), ring)
unfolding insert_node entry_at
insert_taken = refl

-- Erasing a node takes out another with the same hash.
erase_other : erase_node (λ (n : ℕ). 30) 5 ring ≡ (1, (10, 1) ∷ (70, 7) ∷ [])
unfolding erase_node entry_at erase_at
erase_other = refl

erase_node-find_node_example :
    (((e : ℕ × ℕ) × (entry_at 30 ring ≡ some e) × ((erase_node times_ten 3 ring).0 ≡ 1))
      ⊎ ((entry_at 30 ring ≡ none) × (erase_node times_ten 3 ring ≡ (0, ring))))
    × Erases 30 ring (erase_node times_ten 3 ring).1
erase_node-find_node_example = erase_node-find_node times_ten 3 ring ring-Ascends
