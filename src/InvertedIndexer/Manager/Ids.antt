-- ===== src/InvertedIndexer/Manager/Ids.antt =====
-- GetIdsFromPostingList, posting_list_manager.cc: which ids a bitmap stands for.
use ltio.Common.{
  ℕ, zero, suc, ◌+◌, ◌*◌, ◌≤◌, ◌<◌, ◌≡◌, ◌↔◌, refl, sym, ap, ◌∙◌, Bool, true, false, ◌&&◌, ◌||◌,
  List, [], ◌∷◌, none, some, ltb, ◌==◌, if◌then◌else◌, length, get_or, get_elem?, arith, or_false,
  or_true, and_true, ==_iff, ltb→lt, get_elem?-some, get_elem?-eq-get_or, Bool-cases, inl, inr,
}
use ltio.InvertedIndexer.Bitmap.{BitMapPostingList, is_bit_set}
use ltio.InvertedIndexer.Bitmap.Bits.{has, is_bit_set-has}
use ltio.InvertedIndexer.Manager.{
  PostingListManager, insert_id, collect_ids, get_ids_from_posting_list,
}

unfoldable pub member : ℕ → List ℕ → Bool
member id [] = false
member id (x ∷ xs) = (x == id) || member id xs

member-insert_id : (id x : ℕ) (xs : List ℕ) → member id (insert_id x xs) ≡ (x == id) || member id xs
unfolding member insert_id
member-insert_id id x [] = refl
member-insert_id id x (y ∷ ys) = ground (arith, member-insert_id id x ys)

-- Whether some of the positions from i on, `left` of them, has its bit set and is the id's.
unfoldable pub reaches : ℕ → ℕ → List ℕ → List ℕ → ℕ → Bool
unfolding has
reaches zero i words sorted id = false
reaches (suc left) i words sorted id =
    (has words i && (ltb i (length sorted) && (get_or sorted i 0 == id)))
    || reaches left (i + 1) words sorted id

member-kept :
    (now : Bool) (id x : ℕ) (xs : List ℕ)
    → member id (if now then insert_id x xs else xs) ≡ member id xs || (now && (x == id))
member-kept true id x xs = member-insert_id id x xs ∙ or_comm (x == id) (member id xs)
  where
    or_comm : (a b : Bool) → a || b ≡ b || a
    or_comm true true = refl
    or_comm true false = refl
    or_comm false true = refl
    or_comm false false = refl
member-kept false id x xs = sym (or_false (member id xs))

regroup : (a p q e c : Bool) → (a || ((p && q) && e)) || c ≡ a || ((p && (q && e)) || c)
regroup true p q e c = refl
regroup false true true e c = refl
regroup false true false e c = refl
regroup false false q e c = refl

collect_ids_lem :
    (left i : ℕ) (pl : BitMapPostingList) (sorted result : List ℕ)
    → left + i ≤ length pl.ids_bitmap * 64
    → (ids : List ℕ) × (collect_ids left i pl sorted result ≡ some ids)
      × ((id : ℕ) → member id ids ≡ member id result || reaches left i pl.ids_bitmap sorted id)
unfolding collect_ids reaches
collect_ids_lem zero i pl sorted result h = (result, refl, λ id. sym (or_false (member id result)))
collect_ids_lem (suc left) i pl sorted result h =
    let e = is_bit_set-has i pl (omega (arith, h)) in
    let now = has pl.ids_bitmap i && ltb i (length sorted) in
    let x = get_or sorted i 0 in
    let (ids, c, m) =
      collect_ids_lem left (i + 1) pl sorted (if now then insert_id x result else result)
        (omega (arith, h)) in
    (
      ids,
      rw (collect_ids, e) c,
      λ id.
          m id
          ∙ ap (λ t. t || reaches left (i + 1) pl.ids_bitmap sorted id)
              (member-kept now id x result)
          ∙ regroup (member id result) (has pl.ids_bitmap i) (ltb i (length sorted)) (x == id)
              (reaches left (i + 1) pl.ids_bitmap sorted id),
    )

-- An id that is at a position with its bit set.
abbrev pub Holds : List ℕ → List ℕ → ℕ → Type 0
Holds words sorted id = (i : ℕ) × (get_elem? sorted i ≡ some id) × (has words i ≡ true)

reaches-Holds :
    (left i : ℕ) (words sorted : List ℕ) (id : ℕ)
    → reaches left i words sorted id ≡ true
    → Holds words sorted id
unfolding reaches
reaches-Holds zero i words sorted id h = cc
reaches-Holds (suc left) i words sorted id h =
    elim (Bool-cases (has words i && (ltb i (length sorted) && (get_or sorted i 0 == id)))) [
      | inl here ↦
          let (hit, at) = and_true (has words i) _ here in
          let (inside, same) = and_true (ltb i (length sorted)) _ at in
          let e = get_elem?-eq-get_or sorted i 0 (ltb→lt i (length sorted) inside) in
          (i, e ∙ ap some ((==_iff (get_or sorted i 0) id).0 same), hit)
      | inr there ↦ reaches-Holds left (i + 1) words sorted id (rw (reaches, there) at h)
    ]

Holds-reaches :
    (left i j : ℕ) (words sorted : List ℕ) (id : ℕ)
    → i ≤ j
    → j < left + i
    → get_elem? sorted j ≡ some id
    → has words j ≡ true
    → reaches left i words sorted id ≡ true
unfolding reaches
Holds-reaches zero i j words sorted id p q e b = absurd (omega arith)
Holds-reaches (suc left) i j words sorted id p q e b = elim (Bool-cases (i == j)) [
  | inl here ↦
      let same : i ≡ j = (==_iff i j).0 here in
      let (inside, at) = get_elem?-some sorted j id e in
      let t1 : ltb i (length sorted) ≡ true = ground (arith, inside, same) in
      let t2 : (get_or sorted i 0 == id) ≡ true =
        (==_iff (get_or sorted i 0) id).1 (ap (λ k. get_or sorted k 0) same ∙ at) in
      let t3 : has words i ≡ true = ap (has words) same ∙ b in rw (t1, t2, t3)
  | inr later ↦ or_true _ (reaches left (i + 1) words sorted id) (
      Holds-reaches left (i + 1) j words sorted id (ground (arith, p, later)) (omega (arith, q)) e
        b)
]

-- GetIdsFromPostingList of a bitmap with room for one more bit than it counts, and no document's bit set
-- past the count, returns, and gives the ids at the positions whose bits are set.
pub get_ids_lem :
    (pl : BitMapPostingList) (m : PostingListManager)
    → pl.bit_count < length pl.ids_bitmap * 64
    → ((j : ℕ) → j < length m.sorted_doc_ids → has pl.ids_bitmap j ≡ true → j ≤ pl.bit_count)
    → (ids : List ℕ) × (get_ids_from_posting_list (some pl) m ≡ some ids)
      × ((id : ℕ) → (member id ids ≡ true) ↔ Holds pl.ids_bitmap m.sorted_doc_ids id)
unfolding get_ids_from_posting_list member
get_ids_lem pl m room all =
    let (ids, c, e) =
      collect_ids_lem (pl.bit_count + 1) 0 pl m.sorted_doc_ids [] (omega (arith, room)) in
    (
      ids,
      c,
      λ id. (
        (λ h.
            reaches-Holds (pl.bit_count + 1) 0 pl.ids_bitmap m.sorted_doc_ids id (sym (e id) ∙ h)),
        (λ (k : Holds pl.ids_bitmap m.sorted_doc_ids id).
            let (inside, _) = get_elem?-some m.sorted_doc_ids k.0 id k.1 in
            e id
            ∙ Holds-reaches (pl.bit_count + 1) 0 k.0 pl.ids_bitmap m.sorted_doc_ids id (omega arith)
                (omega (arith, all k.0 inside k.2)) k.1 k.2),
      ),
    )

-- It also returns where the list of documents is longer.
pub get_ids_returns :
    (pl : BitMapPostingList) (m : PostingListManager)
    → pl.bit_count < length pl.ids_bitmap * 64
    → (ids : List ℕ) × (get_ids_from_posting_list (some pl) m ≡ some ids)
unfolding get_ids_from_posting_list
get_ids_returns pl m room =
    let (ids, c, _) =
      collect_ids_lem (pl.bit_count + 1) 0 pl m.sorted_doc_ids [] (omega (arith, room)) in
    (ids, c)

collect_ids_fails :
    (left i : ℕ) (pl : BitMapPostingList) (sorted result : List ℕ)
    → i ≤ length pl.ids_bitmap * 64
    → length pl.ids_bitmap * 64 < left + i
    → collect_ids left i pl sorted result ≡ none
unfolding collect_ids is_bit_set
collect_ids_fails zero i pl sorted result h k = absurd (omega arith)
collect_ids_fails (suc left) i pl sorted result h k =
    elim (Bool-cases (ltb i (length pl.ids_bitmap * 64))) [
      | inl inside ↦
          let e = is_bit_set-has i pl (ltb→lt _ _ inside) in
          rw (collect_ids, e)
            (collect_ids_fails left (i + 1) pl sorted _ (ground (arith, inside)) (omega (arith, k)))
      | inr outside ↦ rw (collect_ids, is_bit_set, outside)
    ]

-- GetIdsFromPostingList fails, by a CHECK, for a bitmap whose words hold just as many bits as it counts.
pub get_ids_fails :
    (pl : BitMapPostingList) (m : PostingListManager)
    → pl.bit_count ≡ length pl.ids_bitmap * 64
    → get_ids_from_posting_list (some pl) m ≡ none
unfolding get_ids_from_posting_list
get_ids_fails pl m full =
    collect_ids_fails (pl.bit_count + 1) 0 pl m.sorted_doc_ids [] (omega arith)
      (omega (arith, full))
