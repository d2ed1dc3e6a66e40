-- ===== src/Net/ConsistentHashMap.antt =====
-- net_io/base/load_balance/consistent_hash_map.h: nodes on a ring of hashes. std::map is a list in the
-- order of the hashes, an iterator is the entry that it points to, and end() is `none`. The hash of a
-- node is a parameter.
pub mod Ring
pub mod Changes
mod Tests
use ltio.Common.{
  ℕ, zero, suc, ◌+◌, Bool, true, false, List, [], ◌∷◌, Option, none, some, ltb, leb, ◌==◌,
  if◌then◌else◌, length,
}

module _ {T : Type 0} where
  -- std::map::insert; an entry that is there stays.
  unfoldable pub insert_at : ℕ → T → List (ℕ × T) → List (ℕ × T)
  insert_at hash node [] = (hash, node) ∷ []
  insert_at hash node ((j, u) ∷ m) =
      let rest = insert_at hash node m in
      if j == hash
      then (j, u) ∷ m
      else if ltb hash j
      then (hash, node) ∷ (j, u) ∷ m
      else (j, u) ∷ rest

  unfoldable pub entry_at : ℕ → List (ℕ × T) → Option (ℕ × T)
  entry_at hash [] = none
  entry_at hash ((j, u) ∷ m) = let rest = entry_at hash m in if j == hash then some (j, u) else rest

  -- std::map::erase of a key, and of the entry that an iterator points to.
  unfoldable pub erase_at : ℕ → List (ℕ × T) → List (ℕ × T)
  erase_at hash [] = []
  erase_at hash ((j, u) ∷ m) = let rest = erase_at hash m in if j == hash then m else (j, u) ∷ rest

  -- std::map::lower_bound.
  unfoldable pub lower_bound : ℕ → List (ℕ × T) → Option (ℕ × T)
  lower_bound hash [] = none
  lower_bound hash ((j, u) ∷ m) =
      let rest = lower_bound hash m in if leb hash j then some (j, u) else rest

  unfoldable pub begin : List (ℕ × T) → Option (ℕ × T)
  begin [] = none
  begin (e ∷ m) = some e

  unfoldable pub find_node : ℕ → List (ℕ × T) → Option (ℕ × T)
  unfolding lower_bound begin
  find_node hash nodes = elim (lower_bound hash nodes) [ some e ↦ some e | none ↦ begin nodes ]

  module _ (hasher : T → ℕ) where
    -- insert: the entry under the hash of the node, and whether it is new.
    unfoldable pub insert_node : T → List (ℕ × T) → (Option (ℕ × T) × Bool) × List (ℕ × T)
    unfolding insert_at entry_at
    insert_node node nodes = elim (entry_at (hasher node) nodes) [
      | some e ↦ ((some e, false), nodes)
      | none ↦ ((some (hasher node, node), true), insert_at (hasher node) node nodes)
    ]

    -- erase of a node: how many entries it took out.
    unfoldable pub erase_node : T → List (ℕ × T) → ℕ × List (ℕ × T)
    unfolding erase_at entry_at
    erase_node node nodes = elim (entry_at (hasher node) nodes) [
      | some _ ↦ (1, erase_at (hasher node) nodes)
      | none ↦ (0, nodes)
    ]
