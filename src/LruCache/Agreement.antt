-- ===== src/LruCache/Agreement.antt =====
-- LRUCache, lru_cache.h: the map and the list agree while nodes move, come and go.
use ltio.Common.{
  ℕ, suc, ◌+◌, ◌≤◌, ◌<◌, ◌≡◌, ◌≢◌, refl, sym, ap, ◌∙◌, subst, ◌↔◌, Bool, true, List, [], ◌∷◌,
  Option, none, some, if◌then◌else◌, length, All, arith, Bool-cases, inl, inr,
}
use ltio.LruCache.{Node, LruCache, new_cache, push_front, find_key, erase_key}
use ltio.LruCache.Index.{find_item, Tidy, Once, Erased, Taken}

module _ {K V : Type 0} (eq : K → K → Bool) (eq_iff : (a b : K) → (eq a b ≡ true) ↔ (a ≡ b)) where
  -- The map finds exactly the nodes of the list, each key stands once in both, and there are not
  -- more items than the cache takes.
  pub record Agrees (c : LruCache K V) : Type 0 where
    pub tidy : Tidy eq eq_iff c.fresh c.items
    pub once : Once eq c.index
    pub links : (k : K) → find_key eq k c.index ≡ find_item eq eq_iff k c.items
    pub same_size : length c.index ≡ length c.items
    pub bounded : length c.index ≤ c.campacity

  Tidy-more : (f : ℕ) (ns : List (Node K V)) → Tidy eq eq_iff f ns → Tidy eq eq_iff (f + 1) ns
  unfolding Tidy
  Tidy-more f [] t = tt
  Tidy-more f (n ∷ ns) t = (t.0, t.1, omega (arith, t.2), Tidy-more f ns t.3)

  numbers_below :
      (f : ℕ) (ns : List (Node K V)) → Tidy eq eq_iff f ns → All (λ (m : Node K V). f ≢ m.number) ns
  unfolding Tidy
  numbers_below f [] t = tt
  numbers_below f (n ∷ ns) t = ((λ e. omega (arith, t.2, e)), numbers_below f ns t.3)

  pub push_front-Agrees :
      (k : K) (v : V) (c : LruCache K V)
      → Agrees c
      → find_key eq k c.index ≡ none
      → length c.index < c.campacity
      → Agrees (push_front k v c)
  unfolding push_front Tidy Once find_key find_item
  push_front-Agrees k v c a n lt = record {
    tidy = (
      sym (a.links k) ∙ n,
      numbers_below c.fresh c.items a.tidy,
      omega arith,
      Tidy-more c.fresh c.items a.tidy,
    );
    once = (n, a.once);
    links = λ j. ap (λ (o : Option ℕ). if eq k j then some c.fresh else o) (a.links j);
    same_size = ap suc a.same_size;
    bounded = omega (arith, lt);
  }

  Taken-find_item :
      (f : ℕ) (ns rest : List (Node K V)) (n : Node K V) (j : K)
      → Taken eq eq_iff f ns n rest
      → (if eq n.key j then some n.number else find_item eq eq_iff j rest)
        ≡ find_item eq eq_iff j ns
  Taken-find_item f ns rest n j t = elim (Bool-cases (eq n.key j)) [
    | inl y ↦
        rw y (
          subst (λ x. some n.number ≡ find_item eq eq_iff x ns) ((eq_iff n.key j).0 y) (sym t.here))
    | inr x ↦ rw x (t.others j x)
  ]

  -- The cache with a node moved to the front, with any value.
  pub front-Agrees :
      (c : LruCache K V) (n : Node K V) (rest : List (Node K V)) (v : V)
      → Agrees c
      → Taken eq eq_iff c.fresh c.items n rest
      → Agrees (record c { items = record n { value = v } ∷ rest })
  unfolding Tidy find_item
  front-Agrees c n rest v a t = record {
    tidy = t.front;
    once = a.once;
    links = λ j. a.links j ∙ sym (Taken-find_item c.fresh c.items rest n j t);
    same_size = a.same_size ∙ t.one_less;
    bounded = a.bounded;
  }

  -- The cache without its last item.
  pub dropped-Agrees :
      (c : LruCache K V) (n : Node K V) (rest : List (Node K V))
      → Agrees c
      → Taken eq eq_iff c.fresh c.items n rest
      → Erased eq eq_iff n.key c.index (erase_key eq n.key c.index)
      → Agrees (record c { items = rest; index = erase_key eq n.key c.index })
  unfolding Tidy
  dropped-Agrees c n rest a t e = record {
    tidy = t.front.3;
    once = e.once;
    links = λ j. elim (Bool-cases (eq n.key j)) [
      | inl y ↦
          let q = (eq_iff n.key j).0 y in
          subst (λ x. find_key eq x (erase_key eq n.key c.index) ≡ find_item eq eq_iff x rest) q
            (e.gone ∙ sym t.front.0)
      | inr x ↦ e.others j x ∙ a.links j ∙ sym (t.others j x)
    ];
    same_size = omega (arith, e.one_less, t.one_less, a.same_size);
    bounded = omega (arith, e.one_less, a.bounded);
  }

pub new_cache-Agrees :
    {K V : Type 0} (eq : K → K → Bool) (eq_iff : (a b : K) → (eq a b ≡ true) ↔ (a ≡ b))
    (campacity : ℕ)
    → Agrees eq eq_iff (new_cache K V campacity)
unfolding new_cache Tidy Once find_key find_item
new_cache-Agrees eq eq_iff campacity = record {
  tidy = tt;
  once = tt;
  links = λ k. refl;
  same_size = refl;
  bounded = omega arith;
}
