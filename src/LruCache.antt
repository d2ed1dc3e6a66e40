-- ===== src/LruCache.antt =====
-- components/lru_cache/lru_cache.h: a list of items, the last used first, and a map from keys to
-- iterators into it. An iterator is the number of its node, and each new node takes the next number.
-- `none` is a use of an iterator that points to nothing, as `--end()` of an empty list makes one, or of
-- an empty node handle. The equality of keys is a parameter.
pub mod Index
pub mod Agreement
pub mod Use
mod Tests
use ltio.Common.{
  ℕ, zero, suc, ◌+◌, Bool, true, false, List, [], ◌∷◌, Option, none, some, leb, ◌==◌, if◌then◌else◌,
  length,
}
use mathlib.Core.Option as Option

pub record Node (K V : Type 0) : Type 0 where
  pub number : ℕ
  pub key : K
  pub value : V

pub record LruCache (K V : Type 0) : Type 0 where
  pub campacity : ℕ
  pub items : List (Node K V)
  pub index : List (K × ℕ)
  pub fresh : ℕ

-- The constructor.
unfoldable pub new_cache : (K V : Type 0) → ℕ → LruCache K V
new_cache K V campacity = record { campacity = campacity; items = []; index = []; fresh = 0 }

module _ {K V : Type 0} where
  -- The node of an iterator, and the list without it.
  unfoldable pub take_node : ℕ → List (Node K V) → Option (Node K V × List (Node K V))
  take_node i [] = none
  take_node i (n ∷ ns) =
      let rest = take_node i ns in
      if n.number == i
      then some (n, ns)
      else Option.map (λ (p : Node K V × List (Node K V)). (p.0, n ∷ p.1)) rest

  -- The last node, and the list without it.
  unfoldable pub take_last : List (Node K V) → Option (Node K V × List (Node K V))
  take_last [] = none
  take_last (n ∷ ns) = elim (take_last ns) [
    | none ↦ some (n, [])
    | some (l, rest) ↦ some (l, n ∷ rest)
  ]

  -- emplace_front, and the entry of the map for it.
  unfoldable pub push_front : K → V → LruCache K V → LruCache K V
  push_front k v c = record c {
    items = record { number = c.fresh; key = k; value = v } ∷ c.items;
    index = (k, c.fresh) ∷ c.index;
    fresh = c.fresh + 1;
  }

  unfoldable pub size : LruCache K V → ℕ
  size c = length c.index

module _ {K : Type 0} (eq : K → K → Bool) where
  unfoldable pub find_key : K → List (K × ℕ) → Option ℕ
  find_key k [] = none
  find_key k ((j, i) ∷ m) = let rest = find_key k m in if eq j k then some i else rest

  unfoldable pub erase_key : K → List (K × ℕ) → List (K × ℕ)
  erase_key k [] = []
  erase_key k ((j, i) ∷ m) = let rest = erase_key k m in if eq j k then m else (j, i) ∷ rest

module _ {K V : Type 0} (eq : K → K → Bool) where
  -- The last item makes room. With `node_extract`, the __cpp_lib_node_extract of the build, its node
  -- and its entry are used again; else both are dropped.
  unfoldable pub replace_last : Bool → K → V → LruCache K V → Option (LruCache K V)
  unfolding take_last find_key erase_key push_front
  replace_last node_extract k v c = elim (take_last c.items) [
    | none ↦ none
    | some (last, rest) ↦ elim node_extract [
      | false ↦
          some (push_front k v (record c { items = rest; index = erase_key eq last.key c.index }))
      | true ↦ elim (find_key eq last.key c.index) [
        | none ↦ none
        | some i ↦ some (record c {
          items = record last { key = k; value = v } ∷ rest;
          index = (k, i) ∷ erase_key eq last.key c.index;
        })
      ]
    ]
  ]

  -- Add.
  unfoldable pub add : Bool → K → V → LruCache K V → Option (LruCache K V)
  unfolding find_key take_node replace_last push_front size
  add node_extract k v c = elim (find_key eq k c.index) [
    | none ↦
        if leb c.campacity (size c)
        then replace_last node_extract k v c
        else some (push_front k v c)
    | some i ↦
        Option.map
          (λ (p : Node K V × List (Node K V)). record c { items = record p.0 { value = v } ∷ p.1 })
          (take_node i c.items)
  ]

  -- Get: the value, if the key is there, and the cache after it.
  unfoldable pub get : K → LruCache K V → Option (Option V × LruCache K V)
  unfolding find_key take_node
  get k c = elim (find_key eq k c.index) [
    | none ↦ some (none, c)
    | some i ↦
        Option.map
          (λ (p : Node K V × List (Node K V)). (some p.0.value, record c { items = p.0 ∷ p.1 }))
          (take_node i c.items)
  ]

  -- Exists.
  unfoldable pub exists_key : K → LruCache K V → Bool
  unfolding find_key
  exists_key k c = elim (find_key eq k c.index) [ none ↦ false | some _ ↦ true ]
