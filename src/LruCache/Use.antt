-- ===== src/LruCache/Use.antt =====
-- LRUCache::Add and Get, lru_cache.h: what is added is found.
use ltio.Common.{
  ℕ, suc, ◌<◌, ◌≡◌, refl, sym, ap, ◌∙◌, ◌↔◌, Bool, true, false, List, [], ◌∷◌, Option, none, some,
  leb, if◌then◌else◌, length, arith, Bool-cases, Option-cases, ◌⊎◌, inl, inr, ==_iff, leb→le, ◌++◌,
  ◌==◌, some_inj, leb_false→lt,
}
use ltio.LruCache.{
  Node, LruCache, take_node, take_last, push_front, size, find_key, erase_key, replace_last, add,
  get, exists_key,
}
use ltio.LruCache.Index.{
  find_item, Tidy, Once, erase_key-Erased, Taken, take_node-Taken, take_last-Taken,
}
use ltio.LruCache.Agreement.{Agrees, push_front-Agrees, front-Agrees, dropped-Agrees}

module _ {K V : Type 0} (eq : K → K → Bool) (eq_iff : (a b : K) → (eq a b ≡ true) ↔ (a ≡ b)) where
  -- An item with the key and the value stands first.
  abbrev pub Leads : K → V → LruCache K V → Type 0
  Leads k v c =
      (n : Node K V) × (rest : List (Node K V)) × (c.items ≡ n ∷ rest) × (n.key ≡ k) × (n.value ≡ v)

  Added : K → V → Option (LruCache K V) → Type 0
  Added k v o = (c : LruCache K V) × (o ≡ some c) × Agrees eq eq_iff c × Leads k v c

  last-Taken :
      (f : ℕ) (ns : List (Node K V))
      → Tidy eq eq_iff f ns
      → 0 < length ns
      → (l : Node K V) × (rest : List (Node K V)) × (take_last ns ≡ some (l, rest))
        × Taken eq eq_iff f ns l rest
  last-Taken f [] t h = absurd (omega (arith, h))
  last-Taken f (n ∷ ns) t h = take_last-Taken eq eq_iff f n ns t

  replace_last-Added :
      (node_extract : Bool) (k : K) (v : V) (c : LruCache K V)
      → Agrees eq eq_iff c
      → find_key eq k c.index ≡ none
      → 0 < length c.items
      → Added k v (replace_last eq node_extract k v c)
  unfolding replace_last Added push_front Tidy Once find_key find_item
  replace_last-Added flag k v c a n p =
      let (l, rest, f, t) = last-Taken c.fresh c.items a.tidy p in
      let g = a.links l.key ∙ t.here in
      let e = erase_key-Erased eq eq_iff l.key l.number c.index a.once g in
      let d : LruCache K V = record c { items = rest; index = erase_key eq l.key c.index } in
      let b = dropped-Agrees eq eq_iff c l rest a t e in
      let absent = e.without k n in
      let lt : length d.index < c.campacity = omega (arith, e.one_less, a.bounded) in
      elim (Bool-cases flag) [
        | inl y ↦
            rw (f, replace_last, y, g)
              (
                record d {
                  items = record l { key = k; value = v } ∷ rest;
                  index = (k, l.number) ∷ d.index;
                },
                refl,
                record {
                  tidy = (sym (b.links k) ∙ absent, t.front.1, t.front.2, b.tidy);
                  once = (absent, b.once);
                  links =
                      λ j. ap (λ (o : Option ℕ). if eq k j then some l.number else o) (b.links j);
                  same_size = ap suc b.same_size;
                  bounded = omega (arith, lt);
                },
                (_, rest, refl, refl, refl),
              )
        | inr x ↦
            rw (f, replace_last, x)
              (
                push_front k v d,
                refl,
                push_front-Agrees eq eq_iff k v d b absent lt,
                (_, rest, refl, refl, refl),
              )
      ]

  -- Add to a cache that takes at least one item, in either build, uses no iterator that points to
  -- nothing. The map and the list agree after it, there are not more items than the cache takes, and
  -- the item that was added stands first.
  pub add-Agrees :
      (node_extract : Bool) (k : K) (v : V) (c : LruCache K V)
      → Agrees eq eq_iff c
      → 0 < c.campacity
      → (c' : LruCache K V) × (add eq node_extract k v c ≡ some c')
        × Agrees eq eq_iff c'
        × Leads k v c'
  unfolding add size Added push_front
  add-Agrees flag k v c a p = elim (Option-cases (find_key eq k c.index)) [
    | inr (i, e) ↦
        let (n, rest, f, same, q, t) =
          take_node-Taken eq eq_iff c.fresh k i c.items a.tidy (sym (a.links k) ∙ e) in
        (
          record c { items = record n { value = v } ∷ rest },
          rw (e, add, f),
          front-Agrees eq eq_iff c n rest v a t,
          (_, rest, refl, same, refl),
        )
    | inl n ↦ elim (Bool-cases (leb c.campacity (length c.index))) [
      | inl full ↦
          let (c', e, a', l) =
            replace_last-Added flag k v c a n
              (omega (arith, leb→le c.campacity (length c.index) full, a.same_size, p)) in
          (c', rw (n, add, full) e, a', l)
      | inr room ↦ (
        push_front k v c,
        rw (n, add, room),
        push_front-Agrees eq eq_iff k v c a n (leb_false→lt c.campacity (length c.index) room),
        (_, c.items, refl, refl, refl),
      )
    ]
  ]

  take_node-split :
      (i : ℕ) (ns rest : List (Node K V)) (n : Node K V)
      → take_node i ns ≡ some (n, rest)
      → (before : List (Node K V)) × (after : List (Node K V)) × (ns ≡ before ++ n ∷ after)
        × (rest ≡ before ++ after)
  unfolding take_node
  take_node-split i [] rest n e = cc
  take_node-split i (m ∷ ns) rest n e = elim (Bool-cases (m.number == i)) [
    | inl here ↦ (
      [],
      ns,
      (let f : (m, ns) ≡ (n, rest) = some_inj (rw (take_node, here) at e) in
          ap (λ (p : Node K V × List (Node K V)). p.0 ∷ ns) f),
      (let f : (m, ns) ≡ (n, rest) = some_inj (rw (take_node, here) at e) in
          sym (ap (λ (p : Node K V × List (Node K V)). p.1) f)),
    )
    | inr later ↦ elim (Option-cases (take_node i ns)) [
      | inl gone ↦ (let f = rw (take_node, later, gone) at e in cc)
      | inr (p, found) ↦
          let f : (p.0, m ∷ p.1) ≡ (n, rest) = some_inj (rw (take_node, later, found) at e) in
          let same : p.0 ≡ n = ap (λ (q : Node K V × List (Node K V)). q.0) f in
          let (before, after, s, t) = take_node-split i ns p.1 p.0 found in
          (
            m ∷ before,
            after,
            ap (λ (l : List (Node K V)). m ∷ l) s
                ∙ ap (λ (x : Node K V). m ∷ (before ++ x ∷ after)) same,
            sym (ap (λ (q : Node K V × List (Node K V)). q.1) f)
                ∙ ap (λ (l : List (Node K V)). m ∷ l) t,
          )
    ]
  ]

  -- What Get of a key in the cache gives: the value of an item with the key, from anywhere in the list, and
  -- the cache with this item moved to the front and nothing else changed.
  pub record Gets (k : K) (c : LruCache K V) (r : Option V) (c' : LruCache K V) : Type 0 where
    pub item : Node K V
    pub before : List (Node K V)
    pub after : List (Node K V)
    pub held : c.items ≡ before ++ item ∷ after
    pub has_key : item.key ≡ k
    pub value_is : r ≡ some item.value
    pub moved : c' ≡ record c { items = item ∷ (before ++ after) }

  -- Get of a key that Exists finds uses no iterator that points to nothing. It returns the value of
  -- the item with the key that the cache held, and moves that item, as it is, to the front of the others
  -- in their order; nothing else changes, and the map and the list agree after it. A key that Exists
  -- does not find gets nothing and changes nothing.
  pub get-Agrees :
      (k : K) (c : LruCache K V)
      → Agrees eq eq_iff c
      → (r : Option V) × (c' : LruCache K V) × (get eq k c ≡ some (r, c'))
        × Agrees eq eq_iff c'
        × (((exists_key eq k c ≡ false) × (r ≡ none) × (c' ≡ c))
            ⊎ ((exists_key eq k c ≡ true) × Gets k c r c'))
  unfolding get exists_key
  get-Agrees k c a = elim (Option-cases (find_key eq k c.index)) [
    | inl n ↦ (none, c, rw (n, get), a, inl (rw (n, exists_key), refl, refl))
    | inr (i, e) ↦
        let (n, rest, f, same, q, t) =
          take_node-Taken eq eq_iff c.fresh k i c.items a.tidy (sym (a.links k) ∙ e) in
        let (before, after, split, left) = take_node-split i c.items rest n f in
        (
          some n.value,
          record c { items = n ∷ rest },
          rw (e, get, f),
          front-Agrees eq eq_iff c n rest n.value a t,
          inr (
            rw (e, exists_key),
            record {
              item = n;
              before = before;
              after = after;
              held = split;
              has_key = same;
              value_is = refl;
              moved = ap (λ (l : List (Node K V)). record c { items = n ∷ l }) left;
            },
          ),
        )
  ]

  leads-get :
      (k : K) (v : V) (c : LruCache K V) (n : Node K V) (rest : List (Node K V))
      → Agrees eq eq_iff c
      → c.items ≡ n ∷ rest
      → n.key ≡ k
      → n.value ≡ v
      → get eq k c ≡ some (some v, record c { items = n ∷ rest })
  unfolding get find_item take_node
  leads-get k v c n rest a e same w =
      let first : find_item eq eq_iff k (n ∷ rest) ≡ some n.number = rw ((eq_iff n.key k).1 same) in
      let f = a.links k ∙ ap (find_item eq eq_iff k) e ∙ first in
      let found : take_node n.number c.items ≡ some (n, rest) =
        rw (e, take_node, (==_iff n.number n.number).1 refl) in
      rw (f, get, found, w)

  -- Get right after Add returns the value that was added.
  pub get-add :
      (node_extract : Bool) (k : K) (v : V) (c : LruCache K V)
      → Agrees eq eq_iff c
      → 0 < c.campacity
      → (c' : LruCache K V) × (c'' : LruCache K V) × (add eq node_extract k v c ≡ some c')
        × (get eq k c' ≡ some (some v, c''))
  get-add flag k v c a p =
      let (c', e, a', (n, rest, f, same, w)) = add-Agrees flag k v c a p in
      (c', record c' { items = n ∷ rest }, e, leads-get k v c' n rest a' f same w)
