-- ===== src/BloomFilter.antt =====
-- components/bloomfilter/bloom_filter.{h,cc}: a table of bits. MurmurHash3_x64_128 is a parameter, from
-- the bytes of an item and a seed to two 64-bit words. The sizes, which the constructor computes in
-- floating point, are parameters of the table. `none` is an access outside the table, which the
-- remainder by a size of 0 is taken for.
pub mod Bits
pub mod Members
mod Tests
use ltio.Common.{
  ℕ, zero, suc, ◌+◌, ◌*◌, ◌/◌, ◌%◌, ◌^◌, Bool, true, false, not, ◌&&◌, List, [], ◌∷◌, Option, none,
  some, ltb, ◌==◌, if◌then◌else◌, get_elem?, set, take, bit_and, bit_or,
}
use mathlib.Core.Option as Option

pub record BloomFilter : Type 0 where
  pub table : List ℕ
  pub table_size : ℕ
  pub k : ℕ

-- The constructor, on the `m` and `k` that it computes and the bytes that malloc returns, which it
-- does not clear.
unfoldable pub new_filter : ℕ → ℕ → List ℕ → BloomFilter
new_filter m k bytes = record { table = take (m / 2 ^ 3) bytes; table_size = m / 2 ^ 3; k = k }

-- The byte of a bit, and the mask of the bit in it.
unfoldable pub byte_index : ℕ → BloomFilter → ℕ
byte_index t f = t / 2 ^ 3 % f.table_size

unfoldable pub bit_mask : ℕ → ℕ
bit_mask t = 2 ^ bit_and t 0x7

unfoldable pub set_bit : ℕ → BloomFilter → Option BloomFilter
unfolding byte_index bit_mask
set_bit t f =
    Option.map
      (λ (byte : ℕ). record f { table = set f.table (byte_index t f) (bit_or byte (bit_mask t)) })
      (get_elem? f.table (byte_index t f))

unfoldable pub test_bit : ℕ → BloomFilter → Option Bool
unfolding byte_index bit_mask
test_bit t f =
    Option.map (λ (byte : ℕ). not (bit_and byte (bit_mask t) == 0))
      (get_elem? f.table (byte_index t f))

-- The seed of a round, cut to the uint32_t that the hash takes.
unfoldable pub seed : ℕ → ℕ
seed i = bit_or (i * 2 ^ 31 % 2 ^ 64) (i * 0x55 % 2 ^ 64) % 2 ^ 32

module _ (murmur : List ℕ → ℕ → ℕ × ℕ) (k : ℕ) (item : List ℕ) where
  -- The words that the loop of Set, IsSet and TestAndSet hashes from round `i` on, two a round; the
  -- first number bounds the rounds.
  unfoldable pub words_from : ℕ → ℕ → List ℕ
  unfolding seed
  words_from zero i = []
  words_from (suc n) i =
      let (first, second) = murmur item (seed i) in
      let rest = words_from n (i + 2) in if ltb i k then first ∷ second ∷ rest else []

  unfoldable pub words : List ℕ
  unfolding words_from
  words = words_from k 0

unfoldable pub set_words : List ℕ → BloomFilter → Option BloomFilter
unfolding set_bit
set_words [] f = some f
set_words (t ∷ ts) f = elim (set_bit t f) [ none ↦ none | some g ↦ set_words ts g ]

-- The test stops at the first bit that is not set.
unfoldable pub test_words : List ℕ → BloomFilter → Option Bool
unfolding test_bit
test_words [] f = some true
test_words (t ∷ ts) f = elim (test_bit t f) [
  | none ↦ none
  | some false ↦ some false
  | some true ↦ test_words ts f
]

unfoldable pub test_and_set_bit : ℕ → BloomFilter → Option (Bool × BloomFilter)
unfolding test_bit set_bit
test_and_set_bit t f = elim (test_bit t f) [
  | none ↦ none
  | some hit ↦ Option.map (λ (g : BloomFilter). (hit, g)) (set_bit t f)
]

-- The loop of TestAndSet, with `hit` so far.
unfoldable pub test_and_set_words : List ℕ → Bool → BloomFilter → Option (Bool × BloomFilter)
unfolding test_and_set_bit
test_and_set_words [] hit f = some (hit, f)
test_and_set_words (t ∷ ts) hit f = elim (test_and_set_bit t f) [
  | none ↦ none
  | some (here, g) ↦ test_and_set_words ts (hit && here) g
]

module _ (murmur : List ℕ → ℕ → ℕ × ℕ) (item : List ℕ) where
  -- Set, IsSet and TestAndSet.
  unfoldable pub set_item : BloomFilter → Option BloomFilter
  unfolding set_words words
  set_item f = set_words (words murmur f.k item) f

  unfoldable pub is_set : BloomFilter → Option Bool
  unfolding test_words words
  is_set f = test_words (words murmur f.k item) f

  unfoldable pub test_and_set : BloomFilter → Option (Bool × BloomFilter)
  unfolding test_and_set_words words
  test_and_set f = test_and_set_words (words murmur f.k item) true f
