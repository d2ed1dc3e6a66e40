-- ===== src/LruCache/Tests.antt =====
-- A cache of two numbers, full: components/lru_cache/lru_cache.h.
use ltio.Common.{
  ℕ, ◌≡◌, refl, Bool, true, false, [], ◌∷◌, Option, none, some, ◌==◌, ==_iff, ◌⊎◌, arith,
}
use ltio.LruCache.{LruCache, find_key, add, get, exists_key}
use ltio.LruCache.Index.{find_item, Tidy, Once}
use ltio.LruCache.Agreement.{Agrees}
use ltio.LruCache.Use.{Leads, Gets, add-Agrees, get-Agrees}

abbrev same_number : ℕ → ℕ → Bool
same_number a b = a == b

abbrev two_items : LruCache ℕ ℕ
two_items = record {
  campacity = 2;
  items =
      record { number = 1; key = 7; value = 70 } ∷ record { number = 0; key = 5; value = 50 } ∷ [];
  index = (5, 0) ∷ (7, 1) ∷ [];
  fresh = 2;
}

two_items-Agrees : Agrees same_number ==_iff two_items
unfolding Tidy Once find_key find_item
two_items-Agrees = record {
  tidy = (refl, ((λ e. omega (arith, e)), tt), omega arith, (refl, tt, omega arith, tt));
  once = (refl, (refl, tt));
  links = λ k. ground arith;
  same_size = refl;
  bounded = omega arith;
}

add-Agrees_example :
    (c : LruCache ℕ ℕ) × (add same_number true 9 90 two_items ≡ some c)
    × Agrees same_number ==_iff c
    × Leads same_number ==_iff 9 90 c
add-Agrees_example =
    add-Agrees same_number ==_iff true 9 90 two_items two_items-Agrees (omega arith)

get-Agrees_example :
    (r : Option ℕ) × (c : LruCache ℕ ℕ) × (get same_number 5 two_items ≡ some (r, c))
    × Agrees same_number ==_iff c
    × (((exists_key same_number 5 two_items ≡ false) × (r ≡ none) × (c ≡ two_items))
        ⊎ ((exists_key same_number 5 two_items ≡ true) × Gets same_number ==_iff 5 two_items r c))
get-Agrees_example = get-Agrees same_number ==_iff 5 two_items two_items-Agrees
