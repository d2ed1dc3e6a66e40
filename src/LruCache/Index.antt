-- ===== src/LruCache/Index.antt =====
-- LRUCache, lru_cache.h: the map and the list agree.
use ltio.Common.{
  ℕ, suc, ◌<◌, ◌≡◌, ◌≢◌, refl, sym, ap, subst, ◌↔◌, Bool, true, false, List, [], ◌∷◌, Option, none,
  some, ◌==◌, if◌then◌else◌, length, All, arith, Bool-cases, inl, inr, some_inj, ==_iff,
}
use ltio.LruCache.{Node, take_node, take_last, find_key, erase_key}

module _ {K : Type 0} (eq : K → K → Bool) where
  unfoldable pub Once : List (K × ℕ) → Type 0
  Once [] = Unit
  Once ((k, i) ∷ m) = (find_key eq k m ≡ none) × Once m

module _ {K : Type 0} (eq : K → K → Bool) (eq_iff : (a b : K) → (eq a b ≡ true) ↔ (a ≡ b)) where
  pub same_key : (a : K) → eq a a ≡ true
  same_key a = (eq_iff a a).1 refl

  pub swap_key : (a b : K) → eq a b ≡ false → eq b a ≡ false
  swap_key a b h = ground (arith, eq_iff a b, eq_iff b a)

  -- An entry taken out of the map.
  pub record Erased (k : K) (m m' : List (K × ℕ)) : Type 0 where
    pub once : Once eq m'
    pub gone : find_key eq k m' ≡ none
    pub others : (j : K) → eq k j ≡ false → find_key eq j m' ≡ find_key eq j m
    pub one_less : length m ≡ suc (length m')
    pub without : (j : K) → find_key eq j m ≡ none → find_key eq j m' ≡ none

  pub erase_key-Erased :
      (k : K) (i : ℕ) (m : List (K × ℕ))
      → Once eq m
      → find_key eq k m ≡ some i
      → Erased k m (erase_key eq k m)
  unfolding find_key erase_key Once
  erase_key-Erased k i [] o e = cc
  erase_key-Erased k i ((j, u) ∷ m) o e = elim (Bool-cases (eq j k)) [
    | inl y ↦
        let same : j ≡ k = (eq_iff j k).0 y in
        rw y (record {
          once = o.1;
          gone = subst (λ x. find_key eq x m ≡ none) same o.0;
          others = λ x n. rw (subst (λ z. eq z x ≡ false) (sym same) n);
          one_less = refl;
          without = λ x h. elim (Bool-cases (eq j x)) [
            | inl z ↦ let f = rw z at h in cc
            | inr z ↦ rw z at h
          ];
        })
    | inr n ↦
        let r = erase_key-Erased k i m o.1 (rw n at e) in
        rw n (record {
          once = (r.without j o.0, r.once);
          gone = rw n r.gone;
          others = λ x z. ap (λ (t : Option ℕ). if eq j x then some u else t) (r.others x z);
          one_less = ap suc r.one_less;
          without = λ x h. elim (Bool-cases (eq j x)) [
            | inl z ↦ let f = rw z at h in cc
            | inr z ↦ rw z (r.without x (rw z at h))
          ];
        })
  ]

module _ {K V : Type 0} (eq : K → K → Bool) (eq_iff : (a b : K) → (eq a b ≡ true) ↔ (a ≡ b)) where
  -- The node of a key, and the list without it: what the map is to find.
  unfoldable pub find_item : K → List (Node K V) → Option ℕ
  find_item k [] = none
  find_item k (n ∷ ns) = let rest = find_item k ns in if eq n.key k then some n.number else rest

  -- Each key once, each number once, below the next one.
  unfoldable pub Tidy : ℕ → List (Node K V) → Type 0
  Tidy fresh [] = Unit
  Tidy fresh (n ∷ ns) =
      (find_item n.key ns ≡ none)
      × All (λ (m : Node K V). n.number ≢ m.number) ns
      × (n.number < fresh)
      × Tidy fresh ns

  -- A node taken out of a list.
  pub record Taken (fresh : ℕ) (ns : List (Node K V)) (n : Node K V) (rest : List (Node K V))
      : Type 0 where
    pub front : Tidy fresh (n ∷ rest)
    pub here : find_item n.key ns ≡ some n.number
    pub others : (j : K) → eq n.key j ≡ false → find_item j rest ≡ find_item j ns
    pub one_less : length ns ≡ suc (length rest)
    pub fewer :
        (i : ℕ)
        → All (λ (m : Node K V). i ≢ m.number) ns
        → All (λ (m : Node K V). i ≢ m.number) (n ∷ rest)
    pub without : (j : K) → find_item j ns ≡ none → (find_item j rest ≡ none) × (eq n.key j ≡ false)

  pub Taken-head :
      (fresh : ℕ) (n : Node K V) (ns : List (Node K V))
      → Tidy fresh (n ∷ ns)
      → Taken fresh (n ∷ ns) n ns
  unfolding find_item Tidy
  Taken-head fresh n ns t = record {
    front = t;
    here = rw (same_key eq eq_iff n.key);
    others = λ j x. rw x;
    one_less = refl;
    fewer = λ i a. a;
    without = λ j h. elim (Bool-cases (eq n.key j)) [
      | inl y ↦ let f = rw y at h in cc
      | inr x ↦ (rw (x) at h, x)
    ];
  }

  -- Behind another node.
  Taken-later :
      (fresh : ℕ) (m n : Node K V) (ns rest : List (Node K V))
      → Tidy fresh (m ∷ ns)
      → Taken fresh ns n rest
      → Taken fresh (m ∷ ns) n (m ∷ rest)
  unfolding find_item Tidy
  Taken-later fresh m n ns rest t k =
      let (gone, apart) = k.without m.key t.0 in
      let front = k.front in
      let numbers = k.fewer m.number t.1 in
      record {
        front = (
          rw (swap_key eq eq_iff n.key m.key apart) front.0,
          ((λ e. numbers.0 (sym e)), front.1),
          front.2,
          (gone, numbers.1, t.2, front.3),
        );
        here = rw (swap_key eq eq_iff n.key m.key apart) k.here;
        others =
            λ j x. ap (λ (o : Option ℕ). if eq m.key j then some m.number else o) (k.others j x);
        one_less = ap suc k.one_less;
        fewer = λ i a. let b = k.fewer i a.1 in (b.0, (a.0, b.1));
        without = λ j h. elim (Bool-cases (eq m.key j)) [
          | inl y ↦ let f = rw y at h in cc
          | inr y ↦ let (g, x) = k.without j (rw y at h) in (rw y g, x)
        ];
      }

  pub take_node-Taken :
      (fresh : ℕ) (k : K) (i : ℕ) (ns : List (Node K V))
      → Tidy fresh ns
      → find_item k ns ≡ some i
      → (n : Node K V) × (rest : List (Node K V)) × (take_node i ns ≡ some (n, rest))
        × (n.key ≡ k)
        × (n.number ≡ i)
        × Taken fresh ns n rest
  unfolding find_item Tidy take_node
  take_node-Taken fresh k i [] t e = cc
  take_node-Taken fresh k i (m ∷ ns) t e = elim (Bool-cases (eq m.key k)) [
    | inl y ↦
        let q : m.number ≡ i = some_inj (rw y at e) in
        (m, ns, rw ((==_iff m.number i).1 q), (eq_iff m.key k).0 y, q, Taken-head fresh m ns t)
    | inr n ↦
        let (l, rest, f, same, q, taken) = take_node-Taken fresh k i ns t.3 (rw n at e) in
        let ne : (m.number == i) ≡ false = ground (arith, (taken.fewer m.number t.1).0, q) in
        (l, m ∷ rest, rw (ne, take_node, f), same, q, Taken-later fresh m l ns rest t taken)
  ]

  pub take_last-Taken :
      (fresh : ℕ) (n : Node K V) (ns : List (Node K V))
      → Tidy fresh (n ∷ ns)
      → (l : Node K V) × (rest : List (Node K V)) × (take_last (n ∷ ns) ≡ some (l, rest))
        × Taken fresh (n ∷ ns) l rest
  unfolding Tidy take_last
  take_last-Taken fresh n [] t = (n, [], refl, Taken-head fresh n [] t)
  take_last-Taken fresh n (m ∷ ns) t =
      let (l, rest, f, taken) = take_last-Taken fresh m ns t.3 in
      (l, n ∷ rest, rw f, Taken-later fresh n l (m ∷ ns) rest t taken)
