-- ===== src/InvertedIndexer/Manager/Build.antt =====
-- BuildBitMapPostingListForIds, posting_list_manager.cc: the bitmap of a set of ids.
use ltio.Common.{
  ℕ, zero, suc, ◌+◌, ◌-◌, ◌*◌, ◌≤◌, ◌<◌, ◌≡◌, refl, sym, ap, ◌∙◌, Bool, true, false, ◌||◌, List, [],
  ◌∷◌, none, some, ◌==◌, length, get_elem?, arith, All, Bool-cases, or_false, Option-cases, subst,
  some_inj, ==_iff, leb, leb→le, inl, inr,
}
use ltio.Common.Sorting.{Ascends, AllAbove}
use ltio.InvertedIndexer.Bitmap.{BitMapPostingList}
use ltio.InvertedIndexer.Bitmap.Bits.{has, set_bit-has}
use ltio.InvertedIndexer.Manager.{bit_index, set_ids}

-- Bit j is set for one of some ids.
abbrev pub any_at : List ℕ → List ℕ → ℕ → Bool
any_at sorted [] j = false
any_at sorted (id ∷ ids) j =
    elim (bit_index 0 sorted id) [ none ↦ false | some i ↦ j == i ] || any_at sorted ids j

-- An id has a position, below a bound.
abbrev pub Found : List ℕ → ℕ → ℕ → Type 0
Found sorted bound id = (i : ℕ) × (bit_index 0 sorted id ≡ some i) × (i < bound)

pub set_ids_lem :
    (sorted zeroed ids : List ℕ) (bound : ℕ) (pl : BitMapPostingList)
    → length pl.ids_bitmap * 64 ≡ bound
    → All (Found sorted bound) ids
    → (q : BitMapPostingList) × (set_ids sorted zeroed ids pl ≡ some q)
      × ((j : ℕ) → has q.ids_bitmap j ≡ has pl.ids_bitmap j || any_at sorted ids j)
      × (length q.ids_bitmap ≡ length pl.ids_bitmap)
      × (q.bit_count ≡ pl.bit_count)
      × (q.id_count ≡ pl.id_count)
unfolding set_ids
set_ids_lem sorted zeroed [] bound pl w f =
    (pl, refl, (λ j. sym (or_false (has pl.ids_bitmap j))), refl, refl, refl)
set_ids_lem sorted zeroed (id ∷ ids) bound pl w f =
    let (i, e, inside) = f.0 in
    let (q, s, hits, len, bits, count) = set_bit-has i pl (omega (arith, inside, w)) in
    let (r, t, hits', len', bits', count') =
      set_ids_lem sorted zeroed ids bound q (omega (arith, len, w)) f.1 in
    (
      r,
      rw (set_ids, e, s) t,
      (λ j. rw e (
          hits' j
          ∙ ap (λ b. b || any_at sorted ids j) (hits j)
          ∙ or_assoc (has pl.ids_bitmap j) (j == i) (any_at sorted ids j))),
      len' ∙ len,
      bits' ∙ bits,
      count' ∙ count,
    )
  where
    or_assoc : (a b c : Bool) → (a || b) || c ≡ a || (b || c)
    or_assoc true b c = refl
    or_assoc false b c = refl

-- A position that bit_index finds is one of the id.
bit_index-at :
    (k : ℕ) (sorted : List ℕ) (id i : ℕ)
    → bit_index k sorted id ≡ some i
    → (k ≤ i) × (get_elem? sorted (i - k) ≡ some id)
unfolding bit_index
bit_index-at k [] id i e = cc
bit_index-at k (x ∷ xs) id i e = elim (Option-cases (bit_index (k + 1) xs id)) [
  | inr (j, later) ↦
      let f : some j ≡ some i = rw (bit_index, later) at e in
      let (h, at) = bit_index-at (k + 1) xs id i (later ∙ f) in
      let s : i - k ≡ suc (i - (k + 1)) = omega (arith, h) in (omega (arith, h), rw s at)
  | inl last ↦ elim (Bool-cases (x == id)) [
    | inl same ↦
        let f : some k ≡ some i = rw (bit_index, last, same) at e in
        let z : i - k ≡ 0 = omega (arith, some_inj f) in
        (omega (arith, some_inj f), rw z (ap some ((==_iff x id).0 same)))
    | inr other ↦ let f = rw (bit_index, last, other) at e in cc
  ]
]

pub bit_index-get_elem? :
    (sorted : List ℕ) (id i : ℕ) → bit_index 0 sorted id ≡ some i → get_elem? sorted i ≡ some id
bit_index-get_elem? sorted id i e =
    let (_, at) = bit_index-at 0 sorted id i e in
    let z : i - 0 ≡ i = omega arith in subst (λ t. get_elem? sorted t ≡ some id) z at

AllAbove-at :
    (n : ℕ) (xs : List ℕ) (j b : ℕ) → AllAbove (λ id. id) n xs → get_elem? xs j ≡ some b → n ≤ b
AllAbove-at n [] j b h e = cc
AllAbove-at n (x ∷ xs) zero b h e = let f : x ≡ b = cc in omega (arith, h.0, f)
AllAbove-at n (x ∷ xs) (suc j) b h e = AllAbove-at n xs j b h.1 e

pub Ascends-at :
    (xs : List ℕ) (i j a b : ℕ)
    → Ascends (λ id. id) xs
    → i ≤ j
    → get_elem? xs i ≡ some a
    → get_elem? xs j ≡ some b
    → a ≤ b
Ascends-at [] i j a b h p e f = cc
Ascends-at (x ∷ xs) zero zero a b h p e f = let g : a ≡ b = cc in omega (arith, g)
Ascends-at (x ∷ xs) zero (suc j) a b h p e f =
    let g : x ≡ a = cc in omega (arith, g, AllAbove-at x xs j b h.0 f)
Ascends-at (x ∷ xs) (suc i) zero a b h p e f = absurd (omega arith)
Ascends-at (x ∷ xs) (suc i) (suc j) a b h p e f = Ascends-at xs i j a b h.1 (omega arith) e f

-- Positions are in the order of the ids.
pub bit_index_mono :
    (sorted : List ℕ) (a b i j : ℕ)
    → Ascends (λ id. id) sorted
    → a ≤ b
    → bit_index 0 sorted a ≡ some i
    → bit_index 0 sorted b ≡ some j
    → i ≤ j
bit_index_mono sorted a b i j h p e f = elim (Bool-cases (a == b)) [
  | inl same ↦
      let g : some i ≡ some j = sym e ∙ ap (bit_index 0 sorted) ((==_iff a b).0 same) ∙ f in
      omega (arith, some_inj g)
  | inr less ↦ elim (Bool-cases (leb i j)) [
    | inl fits ↦ leb→le i j fits
    | inr wrong ↦
        let q =
          Ascends-at sorted j i b a h (ground (arith, wrong)) (bit_index-get_elem? sorted b j f)
            (bit_index-get_elem? sorted a i e) in
        absurd (ground (arith, q, p, less))
  ]
]
