-- ===== src/Net/ConsistentHashMap/Ring.antt =====
-- ConsistentHashMap::find, consistent_hash_map.h: the node of a hash.
use ltio.Common.{
  ℕ, ◌≤◌, ◌<◌, ◌≡◌, refl, false, List, [], ◌∷◌, none, some, leb, ◌==◌, length, arith, All,
  Bool-cases, ◌⊎◌, inl, inr, ==_iff, leb→le, leb_false→lt,
}
use ltio.Net.ConsistentHashMap.{entry_at, lower_bound, begin, find_node}

module _ {T : Type 0} where
  abbrev pub AllAfter : ℕ → List (ℕ × T) → Type 0
  AllAfter n = All (λ (e : ℕ × T). n < e.0)

  -- Hashes strictly ascend.
  abbrev pub Ascends : List (ℕ × T) → Type 0
  Ascends [] = Unit
  Ascends (e ∷ m) = AllAfter e.0 m × Ascends m

  -- Which node serves a hash: the one at the least hash that is not below it, or else the one at
  -- the least hash of all.
  pub record Serves (hash : ℕ) (nodes : List (ℕ × T)) (e : ℕ × T) : Type 0 where
    pub least :
        ((hash ≤ e.0) × All (λ (d : ℕ × T). hash ≤ d.0 → e.0 ≤ d.0) nodes)
        ⊎ (All (λ (d : ℕ × T). d.0 < hash) nodes × All (λ (d : ℕ × T). e.0 ≤ d.0) nodes)
    pub there : entry_at e.0 nodes ≡ some e

  after_least :
      (hash n : ℕ) (m : List (ℕ × T)) → AllAfter n m → All (λ (d : ℕ × T). hash ≤ d.0 → n ≤ d.0) m
  after_least hash n [] a = tt
  after_least hash n (d ∷ m) a = (λ h. omega (arith, a.0), after_least hash n m a.1)

  Bounded : ℕ → List (ℕ × T) → Type 0
  Bounded hash m =
      ((lower_bound hash m ≡ none) × All (λ (d : ℕ × T). d.0 < hash) m)
      ⊎ ((e : ℕ × T) × (lower_bound hash m ≡ some e)
          × (hash ≤ e.0)
          × All (λ (d : ℕ × T). hash ≤ d.0 → e.0 ≤ d.0) m
          × (entry_at e.0 m ≡ some e))

  lower_bound-Bounded : (hash : ℕ) (m : List (ℕ × T)) → Ascends m → Bounded hash m
  unfolding Bounded lower_bound entry_at
  lower_bound-Bounded hash [] a = inl (refl, tt)
  lower_bound-Bounded hash ((j, u) ∷ m) a = elim (Bool-cases (leb hash j)) [
    | inl y ↦ inr (
      (j, u),
      rw y,
      leb→le hash j y,
      (λ h. omega arith, after_least hash j m a.0),
      rw ((==_iff j j).1 refl),
    )
    | inr n ↦
        let lt = leb_false→lt hash j n in
        elim (lower_bound-Bounded hash m a.1) [
          | inl (e, all) ↦ inl (rw n e, (lt, all))
          | inr (e, f, le, least, there) ↦
              let ne : (j == e.0) ≡ false = ground (arith, lt, le) in
              inr (e, rw n f, le, (λ h. absurd (omega (arith, lt, h)), least), rw ne there)
        ]
  ]

  least_first : (n : ℕ) (m : List (ℕ × T)) → AllAfter n m → All (λ (d : ℕ × T). n ≤ d.0) m
  least_first n [] a = tt
  least_first n (d ∷ m) a = (omega (arith, a.0), least_first n m a.1)

  -- On a ring that is in order and not empty, find returns the node that serves the hash: the one at
  -- the least hash that is not below it, or the first of all where no node's hash is so high.
  pub find_node-Serves :
      (hash : ℕ) (m : List (ℕ × T))
      → Ascends m
      → 0 < length m
      → (e : ℕ × T) × (find_node hash m ≡ some e) × Serves hash m e
  unfolding find_node Bounded begin entry_at
  find_node-Serves hash [] a p = absurd (omega (arith, p))
  find_node-Serves hash (d ∷ m) a p = elim (lower_bound-Bounded hash (d ∷ m) a) [
    | inr (e, f, le, least, there) ↦
        (e, rw (f, find_node), record { least = inl (le, least); there = there })
    | inl (n, all) ↦ (
      d,
      rw (n, find_node),
      record {
        least = inr (all, (omega arith, least_first d.0 m a.0));
        there = rw ((==_iff d.0 d.0).1 refl);
      },
    )
  ]
