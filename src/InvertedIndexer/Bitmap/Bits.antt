-- ===== src/InvertedIndexer/Bitmap/Bits.antt =====
-- BitMapPostingList, bitmap_posting_list.cc: which bits are set after each operation.
use ltio.Common.{
  ℕ, zero, suc, ◌-◌, ◌*◌, ◌/◌, ◌%◌, ◌^◌, ◌≤◌, ◌<◌, bit_or, ◌≡◌, refl, sym, ap, ◌∙◌, Bool, true,
  false, not, ◌&&◌, ◌||◌, List, [], ◌∷◌, some, ltb, ◌==◌, length-set, if◌then◌else◌, length, get_or,
  set, replicate, arith, or_false, Bool-cases, inl, inr,
}
use ltio.Common.Words.{
  bit, complement, bit-bit_or, bit-bit_and, bit-zero, bit-pow, bit-complement, masked_bit,
}
use ltio.InvertedIndexer.Bitmap.{
  BitMapPostingList, put_bit, set_bit, is_bit_set, union_words, intersect_words, substract_words,
}

-- Bit i of words; false past their end.
unfoldable pub has : List ℕ → ℕ → Bool
unfolding bit
has [] i = false
has (w ∷ ws) i = let rest = has ws (i - 64) in if ltb i 64 then bit (63 - i) w else rest

word_at :
    (ws : List ℕ) (i : ℕ) → i < length ws * 64 → bit (63 - i % 64) (get_or ws (i / 64) 0) ≡ has ws i
unfolding has
word_at [] i h = absurd (omega arith)
word_at (w ∷ ws) i h = elim (Bool-cases (ltb i 64)) [
  | inl first ↦
      let k : i / 64 ≡ 0 = ground (arith, first) in
      let r : i % 64 ≡ i = ground (arith, first) in rw (first, k, r)
  | inr later ↦
      let k : i / 64 ≡ suc ((i - 64) / 64) = ground (arith, later) in
      let r : i % 64 ≡ (i - 64) % 64 = ground (arith, later) in
      rw (later, k, r) (word_at ws (i - 64) (ground (arith, later, h)))
]

pub is_bit_set-has :
    (i : ℕ) (pl : BitMapPostingList)
    → i < length pl.ids_bitmap * 64
    → is_bit_set i pl ≡ some (has pl.ids_bitmap i)
unfolding is_bit_set
is_bit_set-has i pl h =
    let inside : ltb i (length pl.ids_bitmap * 64) ≡ true = ground (arith, h) in
    rw inside (
      ap some
        (masked_bit (63 - i % 64) (get_or pl.ids_bitmap (i / 64) 0) ∙ word_at pl.ids_bitmap i h))

pub has-zeros : (n i : ℕ) → has (replicate n 0) i ≡ false
unfolding has
has-zeros zero i = refl
has-zeros (suc n) i = elim (Bool-cases (ltb i 64)) [
  | inl first ↦ rw first (bit-zero (63 - i))
  | inr later ↦ rw later (has-zeros n (i - 64))
]

bit-ones : (k : ℕ) → k < 64 → bit k 18446744073709551615 ≡ true
unfolding complement
bit-ones k h = bit-complement 64 k 0 h ∙ ap not (bit-zero k)

pub has-ones : (n i : ℕ) → i < n * 64 → has (replicate n 18446744073709551615) i ≡ true
unfolding has
has-ones zero i h = absurd (omega arith)
has-ones (suc n) i h = elim (Bool-cases (ltb i 64)) [
  | inl first ↦ rw first (bit-ones (63 - i) (omega arith))
  | inr later ↦ rw later (has-ones n (i - 64) (ground (arith, later, h)))
]

-- Union with a list that is not longer.
pub has-union :
    (xs ys : List ℕ) (i : ℕ)
    → length ys ≤ length xs
    → has (union_words xs ys) i ≡ has xs i || has ys i
unfolding has union_words
has-union [] [] i h = refl
has-union [] (b ∷ ys) i h = absurd (omega arith)
has-union (a ∷ xs) [] i h = ground arith
has-union (a ∷ xs) (b ∷ ys) i h = elim (Bool-cases (ltb i 64)) [
  | inl first ↦ rw first (bit-bit_or (63 - i) a b)
  | inr later ↦ rw later (has-union xs ys (i - 64) (omega arith))
]

-- Intersection with a list of the same length.
pub has-intersect :
    (xs ys : List ℕ) (i : ℕ)
    → length ys ≡ length xs
    → has (intersect_words xs ys) i ≡ has xs i && has ys i
unfolding has intersect_words
has-intersect [] ys i h = refl
has-intersect (a ∷ xs) [] i h = absurd (omega arith)
has-intersect (a ∷ xs) (b ∷ ys) i h = elim (Bool-cases (ltb i 64)) [
  | inl first ↦ rw first (bit-bit_and (63 - i) a b)
  | inr later ↦ rw later (has-intersect xs ys (i - 64) (omega arith))
]

-- Subtraction of a list that is not longer.
pub has-substract :
    (xs ys : List ℕ) (i : ℕ)
    → length ys ≤ length xs
    → has (substract_words xs ys) i ≡ has xs i && not (has ys i)
unfolding has substract_words
has-substract [] ys i h = refl
has-substract (a ∷ xs) [] i h = ground arith
has-substract (a ∷ xs) (b ∷ ys) i h = elim (Bool-cases (ltb i 64)) [
  | inl first ↦ rw first (
      bit-bit_and (63 - i) a (complement 64 b)
      ∙ ap (λ t. bit (63 - i) a && t) (bit-complement 64 (63 - i) b (omega arith)))
  | inr later ↦ rw later (has-substract xs ys (i - 64) (omega arith))
]

pub length-union : (xs ys : List ℕ) → length (union_words xs ys) ≡ length xs
unfolding union_words
length-union [] ys = refl
length-union (a ∷ xs) [] = refl
length-union (a ∷ xs) (b ∷ ys) = ap suc (length-union xs ys)

pub length-substract : (xs ys : List ℕ) → length (substract_words xs ys) ≡ length xs
unfolding substract_words
length-substract [] ys = refl
length-substract (a ∷ xs) [] = refl
length-substract (a ∷ xs) (b ∷ ys) = ap suc (length-substract xs ys)

pub length-intersect :
    (xs ys : List ℕ) → length ys ≡ length xs → length (intersect_words xs ys) ≡ length xs
unfolding intersect_words
length-intersect [] ys h = refl
length-intersect (a ∷ xs) [] h = absurd (omega arith)
length-intersect (a ∷ xs) (b ∷ ys) h = ap suc (length-intersect xs ys (omega arith))

has-set :
    (ws : List ℕ) (i j : ℕ)
    → i < length ws * 64
    → has (set ws (i / 64) (bit_or (get_or ws (i / 64) 0) (2 ^ (63 - i % 64)))) j
      ≡ has ws j || (j == i)
unfolding has
has-set [] i j h = absurd (omega arith)
has-set (w ∷ ws) i j h = elim (Bool-cases (ltb i 64)) [
  | inl first ↦
      let k : i / 64 ≡ 0 = ground (arith, first) in
      let r : i % 64 ≡ i = ground (arith, first) in
      elim (Bool-cases (ltb j 64)) [
        | inl here ↦
            let same : ((63 - j) == (63 - i)) ≡ (j == i) = ground (arith, first, here) in
            rw (k, r, has, here)
              (bit-bit_or (63 - j) w (2 ^ (63 - i))
                ∙ ap (λ t. bit (63 - j) w || t) (bit-pow (63 - j) (63 - i) ∙ same))
        | inr there ↦
            let other : (j == i) ≡ false = ground (arith, first, there) in
            rw (k, r, has, there, other) (sym (or_false (has ws (j - 64))))
      ]
  | inr later ↦
      let k : i / 64 ≡ suc ((i - 64) / 64) = ground (arith, later) in
      let r : i % 64 ≡ (i - 64) % 64 = ground (arith, later) in
      elim (Bool-cases (ltb j 64)) [
        | inl here ↦
            let other : (j == i) ≡ false = ground (arith, later, here) in
            rw (k, has, here, other) (sym (or_false (bit (63 - j) w)))
        | inr there ↦
            let same : ((j - 64) == (i - 64)) ≡ (j == i) = ground (arith, later, there) in
            rw (k, r, has, there)
              (has-set ws (i - 64) (j - 64) (ground (arith, later, h))
                ∙ ap (λ t. has ws (j - 64) || t) same)
      ]
]

-- SetBit of a position in range returns, sets that bit and no other, and keeps the sizes.
pub set_bit-has :
    (i : ℕ) (pl : BitMapPostingList)
    → i < length pl.ids_bitmap * 64
    → (q : BitMapPostingList) × (set_bit i pl ≡ some q)
      × ((j : ℕ) → has q.ids_bitmap j ≡ has pl.ids_bitmap j || (j == i))
      × (length q.ids_bitmap ≡ length pl.ids_bitmap)
      × (q.bit_count ≡ pl.bit_count)
      × (q.id_count ≡ pl.id_count)
unfolding set_bit put_bit
set_bit-has i pl h =
    let inside : ltb i (length pl.ids_bitmap * 64) ≡ true = ground (arith, h) in
    (
      put_bit bit_or i pl,
      rw inside,
      (λ j. has-set pl.ids_bitmap i j h),
      length-set pl.ids_bitmap (i / 64) _,
      refl,
      refl,
    )
