-- ===== src/InvertedIndexer/Bitmap.antt =====
-- BitMapPostingList, posting_field/bitmap_posting_list.{h,cc}: one bit for each document, in words of 64
-- bits, the first document's the highest of the first word. `none` is a CHECK that fails.
pub mod Bits
use ltio.Common.{
  ℕ, zero, suc, ◌+◌, ◌-◌, ◌*◌, ◌/◌, ◌%◌, ◌^◌, bit_and, bit_or, Bool, not, List, [], ◌∷◌, Option,
  none, some, ltb, leb, ◌==◌, if◌then◌else◌, length, get_or, set, replicate,
}
use ltio.Common.Words.{complement}

pub record BitMapPostingList : Type 0 where
  pub id_count : ℕ
  pub bit_count : ℕ
  pub ids_bitmap : List ℕ

-- The constructor.
unfoldable pub new_bitmap : ℕ → ℕ → ℕ → BitMapPostingList
new_bitmap bit_count id_count value = record {
  id_count = id_count;
  bit_count = bit_count;
  ids_bitmap = replicate ((bit_count + 63) / 64) value;
}

unfoldable pub reset_bits : BitMapPostingList → BitMapPostingList
reset_bits pl = record pl { ids_bitmap = replicate (length pl.ids_bitmap) 0 }

-- `1ul << (63 - bits)`.
abbrev pub mask : ℕ → ℕ
mask idx = 2 ^ (63 - idx % 64)

abbrev pub in_range : ℕ → BitMapPostingList → Bool
in_range idx pl = ltb idx (length pl.ids_bitmap * 64)

unfoldable pub put_bit : (ℕ → ℕ → ℕ) → ℕ → BitMapPostingList → BitMapPostingList
put_bit f idx pl = record pl {
  ids_bitmap = set pl.ids_bitmap (idx / 64) (f (get_or pl.ids_bitmap (idx / 64) 0) (mask idx));
}

unfoldable pub set_bit : ℕ → BitMapPostingList → Option BitMapPostingList
unfolding put_bit
set_bit idx pl = if in_range idx pl then some (put_bit bit_or idx pl) else none

unfoldable pub clear_bit : ℕ → BitMapPostingList → Option BitMapPostingList
unfolding put_bit complement
clear_bit idx pl =
    if in_range idx pl then some (put_bit (λ w m. bit_and w (complement 64 m)) idx pl) else none

unfoldable pub is_bit_set : ℕ → BitMapPostingList → Option Bool
is_bit_set idx pl =
    if in_range idx pl
    then some (not (bit_and (get_or pl.ids_bitmap (idx / 64) 0) (mask idx) == 0))
    else none

-- memset to 0 of the first bytes of words, the lowest byte of a word first.
unfoldable pub zero_bytes : ℕ → List ℕ → List ℕ
zero_bytes n [] = []
zero_bytes n (w ∷ ws) =
    let rest = zero_bytes (n - 8) ws in if leb 8 n then 0 ∷ rest else (w / 256 ^ n * 256 ^ n) ∷ ws

-- The loops over the words that both lists have.
unfoldable pub union_words : List ℕ → List ℕ → List ℕ
union_words [] ys = []
union_words (a ∷ xs) [] = a ∷ xs
union_words (a ∷ xs) (b ∷ ys) = bit_or a b ∷ union_words xs ys

unfoldable pub intersect_words : List ℕ → List ℕ → List ℕ
unfolding zero_bytes
intersect_words [] ys = []
intersect_words (a ∷ xs) [] = zero_bytes (suc (length xs)) (a ∷ xs)
intersect_words (a ∷ xs) (b ∷ ys) = bit_and a b ∷ intersect_words xs ys

unfoldable pub substract_words : List ℕ → List ℕ → List ℕ
unfolding complement
substract_words [] ys = []
substract_words (a ∷ xs) [] = a ∷ xs
substract_words (a ∷ xs) (b ∷ ys) = bit_and a (complement 64 b) ∷ substract_words xs ys

unfoldable pub union : BitMapPostingList → BitMapPostingList → BitMapPostingList
unfolding union_words
union pl other = record pl { ids_bitmap = union_words pl.ids_bitmap other.ids_bitmap }

unfoldable pub intersect : BitMapPostingList → BitMapPostingList → BitMapPostingList
unfolding intersect_words
intersect pl other = record pl { ids_bitmap = intersect_words pl.ids_bitmap other.ids_bitmap }

unfoldable pub substract : BitMapPostingList → BitMapPostingList → BitMapPostingList
unfolding substract_words
substract pl other = record pl { ids_bitmap = substract_words pl.ids_bitmap other.ids_bitmap }
