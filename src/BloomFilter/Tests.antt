-- ===== src/BloomFilter/Tests.antt =====
-- A filter of two bytes: components/bloomfilter/bloom_filter.cc.
use ltio.Common.{ℕ, ◌+◌, ◌≡◌, refl, true, List, [], ◌∷◌, some, length, arith}
use ltio.BloomFilter.{
  BloomFilter, new_filter, byte_index, bit_mask, seed, test_bit, test_words, words_from, words,
  set_item, is_set,
}
use ltio.BloomFilter.Bits.{IsSized}
use ltio.BloomFilter.Members.{set_item-is_set}

-- A stand-in for the hash.
abbrev add_seed : List ℕ → ℕ → ℕ × ℕ
add_seed item s = (s + length item, s + 9)

abbrev two_bytes : BloomFilter
two_bytes = record { table = 0 ∷ 0 ∷ []; table_size = 2; k = 3 }

two_bytes-IsSized : IsSized two_bytes
two_bytes-IsSized = record { some_bytes = omega arith; same_size = refl }

-- A filter over memory that holds ones.
abbrev all_ones : BloomFilter
all_ones = record { table = 255 ∷ 255 ∷ []; table_size = 2; k = 3 }

all_ones-IsSized : IsSized all_ones
all_ones-IsSized = record { some_bytes = omega arith; same_size = refl }

abbrev item : List ℕ
item = 1 ∷ 2 ∷ []

set_item-is_set_example :
    (g : BloomFilter) × (set_item add_seed item two_bytes ≡ some g)
    × (is_set add_seed item g ≡ some true)
    × IsSized g
set_item-is_set_example = set_item-is_set add_seed item two_bytes two_bytes-IsSized

new_filter-ones : new_filter 16 3 (255 ∷ 255 ∷ []) ≡ all_ones
unfolding new_filter
new_filter-ones = refl

found_in_ones : is_set add_seed item all_ones ≡ some true
unfolding is_set test_words test_bit byte_index bit_mask words words_from seed
found_in_ones = refl
