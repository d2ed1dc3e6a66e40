-- ===== src/CountMinSketch/Tests.antt =====
-- A sketch of two rows: components/count_min_sketch/count_min_sketch.cc.
use ltio.Common.{ℕ, ◌+◌, ◌≤◌, ◌≡◌, refl, List, [], ◌∷◌, some, length, arith}
use ltio.CountMinSketch.{CountMinSketch, increase, estimate}
use ltio.CountMinSketch.Counts.{HasSpace, increase-estimate, increase_wraps}

-- A stand-in for the hash.
abbrev add_seed : List ℕ → ℕ → ℕ × ℕ
add_seed key s = (s + length key, s + 9)

abbrev two_rows : CountMinSketch
two_rows = record {
  width = 2;
  depth = 2;
  distinct_count = 1;
  matrix = (3 ∷ 0 ∷ []) ∷ (0 ∷ 3 ∷ []) ∷ [];
}

two_rows-HasSpace : HasSpace 7 two_rows
two_rows-HasSpace = record {
  some_columns = omega arith;
  some_rows = omega arith;
  as_deep = refl;
  rows = ((refl, (omega arith, (omega arith, tt))), ((refl, (omega arith, (omega arith, tt))), tt));
}

two_rows-HasSpace_none : HasSpace 0 two_rows
two_rows-HasSpace_none = record {
  some_columns = omega arith;
  some_rows = omega arith;
  as_deep = refl;
  rows = ((refl, (omega arith, (omega arith, tt))), ((refl, (omega arith, (omega arith, tt))), tt));
}

abbrev key : List ℕ
key = 1 ∷ 2 ∷ []

increase-estimate_example :
    (s : CountMinSketch) × (e : ℕ) × (increase add_seed key 7 two_rows ≡ some s)
    × (estimate add_seed key two_rows ≡ some e)
    × (estimate add_seed key s ≡ some (e + 7))
    × ((other : List ℕ) (o : ℕ)
        → estimate add_seed other two_rows ≡ some o
        → (o' : ℕ) × (estimate add_seed other s ≡ some o') × (o ≤ o'))
increase-estimate_example = increase-estimate add_seed key 7 two_rows two_rows-HasSpace

increase_wraps_example :
    (s : CountMinSketch) × (increase add_seed key 256 two_rows ≡ some s)
    × (estimate add_seed (9 ∷ []) s ≡ estimate add_seed (9 ∷ []) two_rows)
increase_wraps_example = increase_wraps add_seed key (9 ∷ []) two_rows two_rows-HasSpace_none
