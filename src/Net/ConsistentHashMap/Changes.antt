-- ===== src/Net/ConsistentHashMap/Changes.antt =====
-- ConsistentHashMap::insert and erase, consistent_hash_map.h: the hashes that change their node.
use ltio.Common.{
  ℕ, ◌<◌, ◌≡◌, ◌≢◌, refl, sym, ap, ◌∙◌, true, false, List, [], ◌∷◌, none, some, ltb, leb, ◌==◌,
  arith, Bool-cases, Option-cases, ◌⊎◌, inl, inr, some_inj, ltb→lt, ==_iff, ◌≤◌, if◌then◌else◌,
}
use ltio.Net.ConsistentHashMap.{
  insert_at, entry_at, erase_at, lower_bound, begin, find_node, insert_node, erase_node,
}
use ltio.Net.ConsistentHashMap.Ring.{AllAfter, Ascends}

module _ {T : Type 0} where
  -- An insertion gives no hash to another node than before, but for the new node.
  lower_bound-insert_at :
      (hash h : ℕ) (t : T) (m : List (ℕ × T))
      → (lower_bound hash (insert_at h t m) ≡ lower_bound hash m)
        ⊎ (lower_bound hash (insert_at h t m) ≡ some (h, t))
  unfolding lower_bound insert_at
  lower_bound-insert_at hash h t [] = ground arith
  lower_bound-insert_at hash h t ((j, u) ∷ m) = ground (arith, lower_bound-insert_at hash h t m)

  begin-insert_at :
      (h : ℕ) (t : T) (m : List (ℕ × T))
      → (begin (insert_at h t m) ≡ begin m) ⊎ (begin (insert_at h t m) ≡ some (h, t))
  unfolding begin insert_at
  begin-insert_at h t [] = inr refl
  begin-insert_at h t ((j, u) ∷ m) = ground arith

  pub find_node-insert_at :
      (hash h : ℕ) (t : T) (m : List (ℕ × T))
      → (find_node hash (insert_at h t m) ≡ find_node hash m)
        ⊎ (find_node hash (insert_at h t m) ≡ some (h, t))
  unfolding find_node
  find_node-insert_at hash h t m = elim (lower_bound-insert_at hash h t m) [
    | inr new ↦ inr (rw (new, find_node))
    | inl same ↦ elim (Option-cases (lower_bound hash m)) [
      | inr (e, f) ↦ inl (rw (same, find_node, f))
      | inl n ↦ elim (begin-insert_at h t m) [
        | inl first ↦ inl (rw (same, find_node, n, first))
        | inr new ↦ inr (rw (same, find_node, n, new))
      ]
    ]
  ]

  AllAfter-insert_at :
      (n h : ℕ) (t : T) (m : List (ℕ × T)) → n < h → AllAfter n m → AllAfter n (insert_at h t m)
  unfolding insert_at
  AllAfter-insert_at n h t [] lt a = (lt, tt)
  AllAfter-insert_at n h t (d ∷ m) lt a = elim (Bool-cases (d.0 == h)) [
    | inl y ↦ rw y a
    | inr x ↦ elim (Bool-cases (ltb h d.0)) [
      | inl y ↦ rw (x, y) (lt, a)
      | inr z ↦ rw (x, z) (a.0, AllAfter-insert_at n h t m lt a.1)
    ]
  ]

  after_more : (n k : ℕ) (m : List (ℕ × T)) → n < k → AllAfter k m → AllAfter n m
  after_more n k [] h a = tt
  after_more n k (d ∷ m) h a = (omega (arith, h, a.0), after_more n k m h a.1)

  insert_at-Ascends : (h : ℕ) (t : T) (m : List (ℕ × T)) → Ascends m → Ascends (insert_at h t m)
  unfolding insert_at
  insert_at-Ascends h t [] a = (tt, tt)
  insert_at-Ascends h t (d ∷ m) a = elim (Bool-cases (d.0 == h)) [
    | inl y ↦ rw y a
    | inr x ↦ elim (Bool-cases (ltb h d.0)) [
      | inl y ↦ rw (x, y) ((ltb→lt h d.0 y, after_more h d.0 m (ltb→lt h d.0 y) a.0), a)
      | inr z ↦
          let lt : d.0 < h = ground (arith, x, z) in
          rw (x, z) (AllAfter-insert_at d.0 h t m lt a.0, insert_at-Ascends h t m a.1)
    ]
  ]

  entry_at-insert_at :
      (h : ℕ) (t : T) (m : List (ℕ × T))
      → entry_at h m ≡ none
      → entry_at h (insert_at h t m) ≡ some (h, t)
  unfolding entry_at insert_at
  entry_at-insert_at h t [] n = rw ((==_iff h h).1 refl) refl
  entry_at-insert_at h t ((j, u) ∷ m) n = elim (Bool-cases (j == h)) [
    | inl y ↦ (let f = rw (entry_at, y) at n in cc)
    | inr x ↦
        let later : entry_at h m ≡ none = rw (entry_at, x) at n in
        elim (Bool-cases (ltb h j)) [
          | inl y ↦ rw (x, y, (==_iff h h).1 refl) refl
          | inr z ↦ rw (x, z, x) (entry_at-insert_at h t m later)
        ]
  ]

  entry_at-insert_at_ne :
      (k h : ℕ) (t : T) (m : List (ℕ × T))
      → k ≢ h
      → entry_at h m ≡ none
      → entry_at k (insert_at h t m) ≡ entry_at k m
  unfolding entry_at insert_at
  entry_at-insert_at_ne k h t [] ne n = let f : (h == k) ≡ false = ground (arith, ne) in rw f refl
  entry_at-insert_at_ne k h t ((j, u) ∷ m) ne n = elim (Bool-cases (j == h)) [
    | inl y ↦ (let f = rw (entry_at, y) at n in cc)
    | inr x ↦
        let later : entry_at h m ≡ none = rw (entry_at, x) at n in
        let f : (h == k) ≡ false = ground (arith, ne) in
        elim (Bool-cases (ltb h j)) [
          | inl y ↦ rw (x, y, f) refl
          | inr z ↦
              rw (x, z)
                (ap (λ o. if j == k then some (j, u) else o)
                  (entry_at-insert_at_ne k h t m ne later))
        ]
  ]

  -- The ring after the insertion of a node whose hash is not taken.
  pub record Inserts (h : ℕ) (node : T) (m m' : List (ℕ × T)) : Type 0 where
    pub ordered : Ascends m'
    pub is_new : entry_at h m ≡ none
    pub there : entry_at h m' ≡ some (h, node)
    pub others : (k : ℕ) → k ≢ h → entry_at k m' ≡ entry_at k m
    pub serves :
        (hash : ℕ) → (find_node hash m' ≡ find_node hash m) ⊎ (find_node hash m' ≡ some (h, node))

  -- insert of a node into a ring in order. Where its hash is taken, it returns the entry there and
  -- false, and nothing changes. Else it returns the node's entry and true, the node is at its hash, all
  -- other hashes keep their entries, the ring is in order, and every hash is served by the same node
  -- as before or by the new one.
  pub insert_node-find_node :
      (hasher : T → ℕ) (node : T) (m : List (ℕ × T))
      → Ascends m
      → ((e : ℕ × T) × (entry_at (hasher node) m ≡ some e)
          × (insert_node hasher node m ≡ ((some e, false), m)))
        ⊎ ((m' : List (ℕ × T)) × (insert_node hasher node m
              ≡ ((some (hasher node, node), true), m'))
            × Inserts (hasher node) node m m')
  unfolding insert_node
  insert_node-find_node hasher node m a = elim (Option-cases (entry_at (hasher node) m)) [
    | inr (e, f) ↦ inl (e, f, rw (insert_node, f) refl)
    | inl n ↦ inr (
      insert_at (hasher node) node m,
      rw (insert_node, n) refl,
      record {
        ordered = insert_at-Ascends (hasher node) node m a;
        is_new = n;
        there = entry_at-insert_at (hasher node) node m n;
        others = λ k ne. entry_at-insert_at_ne k (hasher node) node m ne n;
        serves = λ hash. find_node-insert_at hash (hasher node) node m;
      },
    )
  ]

  other_hash : (j : ℕ) (u : T) (h : ℕ) (e : ℕ × T) → (j, u) ≡ e → e.0 ≢ h → (j == h) ≡ false
  other_hash j u h e p n = let q : j ≡ e.0 = ap (λ (d : ℕ × T). d.0) p in ground (arith, q, n)

  lower_bound-erase_at :
      (hash h : ℕ) (m : List (ℕ × T)) (e : ℕ × T)
      → lower_bound hash m ≡ some e
      → e.0 ≢ h
      → lower_bound hash (erase_at h m) ≡ some e
  unfolding lower_bound erase_at
  lower_bound-erase_at hash h [] e f n = cc
  lower_bound-erase_at hash h ((j, u) ∷ m) e f n = elim (Bool-cases (leb hash j)) [
    | inl y ↦
        let here : (j, u) ≡ e = some_inj (rw y at f) in
        rw (other_hash j u h e here n, y) (ap some here)
    | inr x ↦
        let later = rw x at f in
        elim (Bool-cases (j == h)) [
          | inl z ↦ rw z later
          | inr z ↦ rw (z, x) (lower_bound-erase_at hash h m e later n)
        ]
  ]

  lower_bound-erase_at-none :
      (hash h : ℕ) (m : List (ℕ × T))
      → lower_bound hash m ≡ none
      → lower_bound hash (erase_at h m) ≡ none
  unfolding lower_bound erase_at
  lower_bound-erase_at-none hash h [] f = f
  lower_bound-erase_at-none hash h ((j, u) ∷ m) f =
      ground (arith, lower_bound-erase_at-none hash h m)

  begin-erase_at :
      (h : ℕ) (m : List (ℕ × T)) (e : ℕ × T)
      → begin m ≡ some e
      → e.0 ≢ h
      → begin (erase_at h m) ≡ some e
  unfolding begin erase_at
  begin-erase_at h [] e f n = cc
  begin-erase_at h ((j, u) ∷ m) e f n = rw (other_hash j u h e (some_inj f) n) f

  find_node-erase_at :
      (hash h : ℕ) (m : List (ℕ × T)) (e : ℕ × T)
      → find_node hash m ≡ some e
      → e.0 ≢ h
      → find_node hash (erase_at h m) ≡ some e
  unfolding find_node
  find_node-erase_at hash h m e f n = elim (Option-cases (lower_bound hash m)) [
    | inr (d, g) ↦
        let same : d ≡ e = some_inj (rw (g, find_node) at f) in
        rw
          (
            lower_bound-erase_at hash h m d g (λ q. n (ap (λ (x : ℕ × T). x.0) (sym same) ∙ q)),
            find_node,
          )
          (ap some same)
    | inl g ↦
        rw (lower_bound-erase_at-none hash h m g, find_node)
          (begin-erase_at h m e (rw (g, find_node) at f) n)
  ]

  AllAfter-erase_at : (n h : ℕ) (m : List (ℕ × T)) → AllAfter n m → AllAfter n (erase_at h m)
  unfolding erase_at
  AllAfter-erase_at n h [] a = tt
  AllAfter-erase_at n h ((j, u) ∷ m) a = elim (Bool-cases (j == h)) [
    | inl y ↦ rw y a.1
    | inr x ↦ rw x (a.0, AllAfter-erase_at n h m a.1)
  ]

  erase_at-Ascends : (h : ℕ) (m : List (ℕ × T)) → Ascends m → Ascends (erase_at h m)
  unfolding erase_at
  erase_at-Ascends h [] a = tt
  erase_at-Ascends h ((j, u) ∷ m) a = elim (Bool-cases (j == h)) [
    | inl y ↦ rw y a.1
    | inr x ↦ rw x (AllAfter-erase_at j h m a.0, erase_at-Ascends h m a.1)
  ]

  entry_at-AllAfter : (n h : ℕ) (m : List (ℕ × T)) → h ≤ n → AllAfter n m → entry_at h m ≡ none
  unfolding entry_at
  entry_at-AllAfter n h [] le a = refl
  entry_at-AllAfter n h ((j, u) ∷ m) le a =
      let f : (j == h) ≡ false = (let p = a.0 in ground (arith, le, p)) in
      rw f (entry_at-AllAfter n h m le a.1)

  entry_at-erase_at : (h : ℕ) (m : List (ℕ × T)) → Ascends m → entry_at h (erase_at h m) ≡ none
  unfolding entry_at erase_at
  entry_at-erase_at h [] a = refl
  entry_at-erase_at h ((j, u) ∷ m) a = elim (Bool-cases (j == h)) [
    | inl y ↦
        let same = (==_iff j h).0 y in rw y (entry_at-AllAfter j h m (omega (arith, same)) a.0)
    | inr x ↦ rw (x, x) (entry_at-erase_at h m a.1)
  ]

  entry_at-erase_at_ne :
      (k h : ℕ) (m : List (ℕ × T)) → k ≢ h → entry_at k (erase_at h m) ≡ entry_at k m
  unfolding entry_at erase_at
  entry_at-erase_at_ne k h [] ne = refl
  entry_at-erase_at_ne k h ((j, u) ∷ m) ne = elim (Bool-cases (j == h)) [
    | inl y ↦
        let f : (j == k) ≡ false = (let p = (==_iff j h).0 y in ground (arith, p, ne)) in
        rw (y, f) refl
    | inr x ↦ rw x (ap (λ o. if j == k then some (j, u) else o) (entry_at-erase_at_ne k h m ne))
  ]

  -- The ring after a hash was erased.
  pub record Erases (h : ℕ) (m m' : List (ℕ × T)) : Type 0 where
    pub ordered : Ascends m'
    pub gone : entry_at h m' ≡ none
    pub others : (k : ℕ) → k ≢ h → entry_at k m' ≡ entry_at k m
    pub serves :
        (hash : ℕ) (e : ℕ × T) → find_node hash m ≡ some e → e.0 ≢ h → find_node hash m' ≡ some e

  -- erase of a node in a ring in order takes out the entry at the node's hash, be it that of the node
  -- or of another with the same hash. It returns 1 where there was one, and else 0, with the ring as it
  -- was. There is no entry at the hash after it, all other hashes keep their entries, the ring is in
  -- order, and every hash that is served by an entry at another hash is served by it still.
  pub erase_node-find_node :
      (hasher : T → ℕ) (node : T) (m : List (ℕ × T))
      → Ascends m
      → (((e : ℕ × T) × (entry_at (hasher node) m ≡ some e) × ((erase_node hasher node m).0 ≡ 1))
          ⊎ ((entry_at (hasher node) m ≡ none) × (erase_node hasher node m ≡ (0, m))))
        × Erases (hasher node) m (erase_node hasher node m).1
  unfolding erase_node
  erase_node-find_node hasher node m a = elim (Option-cases (entry_at (hasher node) m)) [
    | inr (e, f) ↦
        rw (erase_node, f)
          (
            inl (e, refl, refl),
            record {
              ordered = erase_at-Ascends (hasher node) m a;
              gone = entry_at-erase_at (hasher node) m a;
              others = λ k ne. entry_at-erase_at_ne k (hasher node) m ne;
              serves = λ hash d g ne. find_node-erase_at hash (hasher node) m d g ne;
            },
          )
    | inl n ↦
        rw (erase_node, n)
          (
            inr (refl, refl),
            record { ordered = a; gone = n; others = λ k ne. refl; serves = λ hash d g ne. g },
          )
  ]
