-- ===== src/InvertedIndexer/Manager/Roundtrip.antt =====
-- BuildBitMapPostingListForIds and GetIdsFromPostingList, posting_list_manager.cc: a set there and back.
use ltio.Common.{
  ℕ, suc, ◌+◌, ◌*◌, ◌/◌, ◌%◌, ◌≤◌, ◌<◌, ◌≡◌, ◌≢◌, ◌↔◌, refl, sym, ap, ◌∙◌, subst, some_inj, true,
  ◌||◌, List, [], ◌∷◌, none, some, ◌==◌, ==_iff, length, get_or, arith, All, All-get_elem?,
  All-of_get_elem?, get_elem?-some, get_elem?-eq-get_or, or_true, Bool-cases, Option-cases,
  replicate, inl, inr, length-replicate,
}
use ltio.Common.Sorting.{sort_by, insert_by, Ascends, sort_by-Ascends, sort_by-All}
use ltio.InvertedIndexer.Bitmap.{BitMapPostingList, new_bitmap}
use ltio.InvertedIndexer.Bitmap.Bits.{has, has-zeros}
use ltio.InvertedIndexer.Manager.{
  PostingListManager, bit_index, set_ids, index_or_zero, zeroed_with, find_bitmap,
  build_posting_list, get_ids_from_posting_list,
}
use ltio.InvertedIndexer.Manager.Build.{
  any_at, Found, set_ids_lem, Ascends-at, bit_index-get_elem?, bit_index_mono,
}
use ltio.InvertedIndexer.Manager.Ids.{member, get_ids_lem}

member-insert_by :
    (id x : ℕ) (xs : List ℕ) → member id (insert_by (λ id. id) x xs) ≡ (x == id) || member id xs
unfolding member insert_by
member-insert_by id x [] = refl
member-insert_by id x (y ∷ ys) = ground (arith, member-insert_by id x ys)

member-sort_by : (id : ℕ) (xs : List ℕ) → member id (sort_by (λ id. id) xs) ≡ member id xs
unfolding sort_by member
member-sort_by id [] = refl
member-sort_by id (x ∷ xs) =
    member-insert_by id x (sort_by (λ id. id) xs) ∙ ap (λ b. (x == id) || b) (member-sort_by id xs)

length-insert_by : (x : ℕ) (xs : List ℕ) → length (insert_by (λ id. id) x xs) ≡ suc (length xs)
unfolding insert_by
length-insert_by x [] = refl
length-insert_by x (y ∷ ys) = ground (arith, length-insert_by x ys)

length-sort_by : (xs : List ℕ) → length (sort_by (λ id. id) xs) ≡ length xs
unfolding sort_by
length-sort_by [] = refl
length-sort_by (x ∷ xs) = length-insert_by x (sort_by (λ id. id) xs) ∙ ap suc (length-sort_by xs)

-- A bit that is set for some ids is that of one of them.
any_at-member :
    (sorted ids : List ℕ) (j : ℕ)
    → any_at sorted ids j ≡ true
    → (id : ℕ) × (member id ids ≡ true) × (bit_index 0 sorted id ≡ some j)
unfolding member
any_at-member sorted [] j h = cc
any_at-member sorted (x ∷ xs) j h = elim (Option-cases (bit_index 0 sorted x)) [
  | inl lost ↦
      let (id, m, e) = any_at-member sorted xs j (rw lost at h) in
      (id, or_true (x == id) (member id xs) m, e)
  | inr (i, e) ↦ elim (Bool-cases (j == i)) [
    | inl same ↦
        let self : (x == x) ≡ true = ground arith in
        (x, rw self refl, e ∙ ap some (sym ((==_iff j i).0 same)))
    | inr other ↦
        let (id, m, f) = any_at-member sorted xs j (rw (e, other) at h) in
        (id, or_true (x == id) (member id xs) m, f)
  ]
]

member-any_at :
    (sorted ids : List ℕ) (id j : ℕ)
    → member id ids ≡ true
    → bit_index 0 sorted id ≡ some j
    → any_at sorted ids j ≡ true
unfolding member
member-any_at sorted [] id j m e = cc
member-any_at sorted (x ∷ xs) id j m e = elim (Bool-cases (x == id)) [
  | inl same ↦
      let f : bit_index 0 sorted x ≡ some j = ap (bit_index 0 sorted) ((==_iff x id).0 same) ∙ e in
      let self : (j == j) ≡ true = ground arith in rw (f, self)
  | inr other ↦ or_true _ _ (member-any_at sorted xs id j (rw other at m) e)
]

abbrev pub Known : List ℕ → ℕ → Type 0
Known sorted id = (i : ℕ) × (bit_index 0 sorted id ≡ some i)

-- The position of the last of some ids bounds those of all.
Known-Found :
    (sorted ids : List ℕ) (n : ℕ)
    → Ascends (λ id. id) sorted
    → Ascends (λ id. id) ids
    → length ids ≡ suc n
    → All (Known sorted) ids
    → (top : ℕ) × (bit_index 0 sorted (get_or ids n 0) ≡ some top)
      × All (Found sorted (suc top)) ids
Known-Found sorted ids n a b len known =
    let last = get_elem?-eq-get_or ids n 0 (omega (arith, len)) in
    let (top, e) = All-get_elem? (Known sorted) ids n (get_or ids n 0) known last in
    (
      top,
      e,
      All-of_get_elem? (Found sorted (suc top)) ids (λ j x at.
          let (i, f) = All-get_elem? (Known sorted) ids j x known at in
          let (inside, _) = get_elem?-some ids j x at in
          let below : x ≤ get_or ids n 0 =
            Ascends-at ids j n x (get_or ids n 0) b (omega (arith, inside, len)) at last in
          let order : i ≤ top = bit_index_mono sorted x (get_or ids n 0) i top a below f e in
          (i, f, omega (arith, order))),
    )

Found-mono :
    (sorted ids : List ℕ) (m n : ℕ) → m ≤ n → All (Found sorted m) ids → All (Found sorted n) ids
Found-mono sorted [] m n h f = tt
Found-mono sorted (x ∷ xs) m n h f =
    let (i, e, p) = f.0 in ((i, e, omega (arith, p, h)), Found-mono sorted xs m n h f.1)

Found-below :
    (sorted ids : List ℕ) (bound id j : ℕ)
    → All (Found sorted bound) ids
    → member id ids ≡ true
    → bit_index 0 sorted id ≡ some j
    → j < bound
unfolding member
Found-below sorted [] bound id j f m e = cc
Found-below sorted (x ∷ xs) bound id j f m e = elim (Bool-cases (x == id)) [
  | inl same ↦
      let (i, g, p) = f.0 in
      let k : some i ≡ some j = sym g ∙ ap (bit_index 0 sorted) ((==_iff x id).0 same) ∙ e in
      omega (arith, p, some_inj k)
  | inr other ↦ Found-below sorted xs bound id j f.1 (rw other at m) e
]

member-Known :
    (sorted ids : List ℕ) (id : ℕ) → All (Known sorted) ids → member id ids ≡ true → Known sorted id
unfolding member
member-Known sorted [] id k m = cc
member-Known sorted (x ∷ xs) id k m = elim (Bool-cases (x == id)) [
  | inl same ↦ subst (Known sorted) ((==_iff x id).0 same) k.0
  | inr other ↦ member-Known sorted xs id k.1 (rw other at m)
]

-- The last of some ids in order.
abbrev pub last_of : ℕ → List ℕ → ℕ
last_of x xs = get_or (sort_by (λ id. id) (x ∷ xs)) (length xs) 0

-- The bitmap of ids: its bits and its sizes.
pub record Built (sorted ids : List ℕ) (top : ℕ) (pl : BitMapPostingList) : Type 0 where
  pub bits : (j : ℕ) → has pl.ids_bitmap j ≡ any_at sorted ids j
  pub counted : pl.bit_count ≡ top + 1
  pub sized : length pl.ids_bitmap ≡ (top + 1 + 63) / 64
  pub is_top : All (Found sorted (suc top)) ids

index_or_zero-known :
    (sorted : List ℕ) (id i : ℕ) → bit_index 0 sorted id ≡ some i → index_or_zero sorted id ≡ i
index_or_zero-known sorted id i e = ap (λ o. elim o [ none ↦ 0 | some k ↦ k ]) e

zeroed_with-known :
    (sorted : List ℕ) (id i : ℕ) (zeroed : List ℕ)
    → bit_index 0 sorted id ≡ some i
    → zeroed_with sorted id zeroed ≡ zeroed
zeroed_with-known sorted id i zeroed e = ap (λ o. elim o [ none ↦ id ∷ zeroed | some _ ↦ zeroed ]) e

build_step :
    (crc64 : List ℕ → ℕ) (x : ℕ) (xs : List ℕ) (m : PostingListManager) (top : ℕ)
    (q : BitMapPostingList)
    → find_bitmap (crc64 (sort_by (λ id. id) (x ∷ xs))) m.ids_table ≡ none
    → bit_index 0 m.sorted_doc_ids (last_of x xs) ≡ some top
    → set_ids m.sorted_doc_ids m.zeroed_ids
        (sort_by (λ id. id) (x ∷ xs))
        (new_bitmap (top + 1) (suc (length xs)) 0)
      ≡ some q
    → build_posting_list crc64 (x ∷ xs) m
      ≡ some
          (some q, record m { ids_table = (crc64 (sort_by (λ id. id) (x ∷ xs)), q) ∷ m.ids_table })
unfolding build_posting_list
build_step crc64 x xs m top q fresh z s =
    let last = last_of x xs in
    let at = index_or_zero-known m.sorted_doc_ids last top z in
    let kept = zeroed_with-known m.sorted_doc_ids last top m.zeroed_ids z in
    rw (build_posting_list, fresh, at, kept, s) refl

build_posting_list-Built :
    (crc64 : List ℕ → ℕ) (x : ℕ) (xs : List ℕ) (m : PostingListManager) (top : ℕ)
    → bit_index 0 m.sorted_doc_ids (last_of x xs) ≡ some top
    → All (Found m.sorted_doc_ids (suc top)) (sort_by (λ id. id) (x ∷ xs))
    → find_bitmap (crc64 (sort_by (λ id. id) (x ∷ xs))) m.ids_table ≡ none
    → (pl : BitMapPostingList) × (m' : PostingListManager) × (build_posting_list crc64 (x ∷ xs) m
        ≡ some (some pl, m'))
      × Built m.sorted_doc_ids (sort_by (λ id. id) (x ∷ xs)) top pl
unfolding new_bitmap
build_posting_list-Built crc64 x xs m top z found fresh =
    let sorted = m.sorted_doc_ids in
    let ids = sort_by (λ id. id) (x ∷ xs) in
    let words = (top + 1 + 63) / 64 in
    let zeros : length (replicate words 0) ≡ words = length-replicate {A = ℕ} words 0 in
    let enough : suc top ≤ words * 64 = omega arith in
    let (q, s, hits, len, bits, count) =
      set_ids_lem sorted m.zeroed_ids ids (words * 64) (new_bitmap (top + 1) (suc (length xs)) 0)
        (ap (λ k. k * 64) zeros) (Found-mono sorted ids (suc top) (words * 64) enough found) in
    (
      q,
      record m { ids_table = (crc64 ids, q) ∷ m.ids_table },
      build_step crc64 x xs m top q fresh z s,
      record {
        bits = λ j. hits j ∙ ap (λ b. b || any_at sorted ids j) (has-zeros words j);
        counted = bits;
        sized = len ∙ zeros;
        is_top = found;
      },
    )

-- The ids of a bitmap that was built.
Built-get_ids :
    (x : ℕ) (xs : List ℕ) (m : PostingListManager) (top : ℕ) (pl : BitMapPostingList)
    → All (Known m.sorted_doc_ids) (x ∷ xs)
    → Built m.sorted_doc_ids (sort_by (λ id. id) (x ∷ xs)) top pl
    → (top + 1) % 64 ≢ 0
    → (ids : List ℕ) × (get_ids_from_posting_list (some pl) m ≡ some ids)
      × ((id : ℕ) → (member id ids ≡ true) ↔ (member id (x ∷ xs) ≡ true))
Built-get_ids x xs m top pl known b odd =
    let sorted = m.sorted_doc_ids in
    let set = sort_by (λ id. id) (x ∷ xs) in
    let (ids, got, spec) =
      get_ids_lem pl m (omega (arith, odd, b.counted, b.sized)) (λ j inside hit.
        let (id, mem, e) = any_at-member sorted set j (sym (b.bits j) ∙ hit) in
        let p = Found-below sorted set (suc top) id j b.is_top mem e in
        omega (arith, p, b.counted)) in
    (
      ids,
      got,
      λ id. (
        (λ h.
            let (j, at, hit) = (spec id).0 h in
            let (id', mem, e) = any_at-member sorted set j (sym (b.bits j) ∙ hit) in
            let same : id' ≡ id = some_inj (sym (bit_index-get_elem? sorted id' j e) ∙ at) in
            sym (member-sort_by id (x ∷ xs)) ∙ subst (λ t. member t set ≡ true) same mem),
        (λ h.
            let mem : member id set ≡ true = member-sort_by id (x ∷ xs) ∙ h in
            let (j, e) = member-Known sorted (x ∷ xs) id known h in
            (spec id).1 (
              j,
              bit_index-get_elem? sorted id j e,
              b.bits j ∙ member-any_at sorted set id j mem e,
            )),
      ),
    )

-- BuildBitMapPostingListForIds of a set of indexed ids with a new checksum returns, and GetIdsFromPostingList
-- of its bitmap gives exactly the set, where the last id is not at a position that is 63 modulo 64.
pub posting_list_roundtrip :
    (crc64 : List ℕ → ℕ) (x : ℕ) (xs : List ℕ) (m : PostingListManager)
    → Ascends (λ id. id) m.sorted_doc_ids
    → All (Known m.sorted_doc_ids) (x ∷ xs)
    → find_bitmap (crc64 (sort_by (λ id. id) (x ∷ xs))) m.ids_table ≡ none
    → (index_or_zero m.sorted_doc_ids (last_of x xs) + 1) % 64 ≢ 0
    → (pl : BitMapPostingList) × (m' : PostingListManager) × (ids : List ℕ) × (build_posting_list
          crc64
          (x ∷ xs)
          m
        ≡ some (some pl, m'))
      × (get_ids_from_posting_list (some pl) m ≡ some ids)
      × ((id : ℕ) → (member id ids ≡ true) ↔ (member id (x ∷ xs) ≡ true))
posting_list_roundtrip crc64 x xs m a known fresh odd =
    let sorted = m.sorted_doc_ids in
    let set = sort_by (λ id. id) (x ∷ xs) in
    let (top, e, found) =
      Known-Found sorted set (length xs) a (sort_by-Ascends (λ id. id) (x ∷ xs))
        (length-sort_by (x ∷ xs)) (sort_by-All (λ id. id) (Known sorted) (x ∷ xs) known) in
    let z : index_or_zero sorted (last_of x xs) ≡ top = rw (index_or_zero, e) refl in
    let (pl, m', build, b) = build_posting_list-Built crc64 x xs m top e found fresh in
    let (ids, got, spec) = Built-get_ids x xs m top pl known b (omega (arith, odd, z)) in
    (pl, m', ids, build, got, spec)
