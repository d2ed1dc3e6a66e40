-- ===== src/CountMinSketch.antt =====
-- components/count_min_sketch/count_min_sketch.{h,cc}: counters in rows, one of each row for a key.
-- MurmurHash3_x64_128 is a parameter. The width and the depth, which the constructor computes in
-- floating point, are parameters of the sketch. A counter is a uint8_t, and a count the bit pattern of
-- an int32_t. `none` is an access outside a row.
pub mod Rows
pub mod Counts
mod Tests
use ltio.Common.{
  ℕ, zero, suc, ◌+◌, ◌*◌, ◌%◌, ◌^◌, min, Bool, true, false, ◌||◌, List, [], ◌∷◌, Option, none, some,
  ltb, ◌==◌, if◌then◌else◌, get_elem?, set, replicate, bit_or,
}
use mathlib.Core.Option as Option

pub record CountMinSketch : Type 0 where
  pub width : ℕ
  pub depth : ℕ
  pub distinct_count : ℕ
  pub matrix : List (List ℕ)

-- The constructor.
unfoldable pub new_sketch : ℕ → ℕ → CountMinSketch
new_sketch width depth = record {
  width = width;
  depth = depth;
  distinct_count = 0;
  matrix = replicate depth (replicate width 0);
}

-- The seed of a round, cut to the uint32_t that it is.
unfoldable pub seed : ℕ → ℕ
seed depth = bit_or (depth * 2 ^ 31 % 2 ^ 32) depth

module _ (murmur : List ℕ → ℕ → ℕ × ℕ) (depth : ℕ) (key : List ℕ) where
  -- The words that the loops hash from row `i` on, one for each row; the first number bounds the
  -- rounds.
  unfoldable pub words_from : ℕ → ℕ → List ℕ
  unfolding seed
  words_from zero i = []
  words_from (suc n) i =
      let (first, second) = murmur key (seed i) in
      let rest = words_from n (i + 2) in
      if ltb i depth then first ∷ (if ltb (i + 1) depth then second ∷ rest else []) else []

  unfoldable pub words : List ℕ
  unfolding words_from
  words = words_from depth 0

-- __sync_fetch_and_add of one counter, and whether it was 0.
unfoldable pub add_cell : ℕ → ℕ → List ℕ → Option (Bool × List ℕ)
add_cell col count row =
    Option.map (λ (v : ℕ). (v == 0, set row col ((v + count) % 2 ^ 8))) (get_elem? row col)

-- The loop of Increase, and whether a counter was 0.
unfoldable pub increase_rows : ℕ → ℕ → List ℕ → List (List ℕ) → Option (Bool × List (List ℕ))
unfolding add_cell
increase_rows width count [] rows = some (false, rows)
increase_rows width count (w ∷ ws) [] = none
increase_rows width count (w ∷ ws) (r ∷ rows) = elim (add_cell (w % width) count r) [
  | none ↦ none
  | some (was_zero, r') ↦
      Option.map (λ (p : Bool × List (List ℕ)). (was_zero || p.0, r' ∷ p.1))
        (increase_rows width count ws rows)
]

-- The loop of Estimate, with the result so far.
unfoldable pub estimate_rows : ℕ → List ℕ → List (List ℕ) → ℕ → Option ℕ
estimate_rows width [] rows result = some result
estimate_rows width (w ∷ ws) [] result = none
estimate_rows width (w ∷ ws) (r ∷ rows) result = elim (get_elem? r (w % width)) [
  | none ↦ none
  | some v ↦ estimate_rows width ws rows (min v result)
]

module _ (murmur : List ℕ → ℕ → ℕ × ℕ) where
  unfoldable pub increase : List ℕ → ℕ → CountMinSketch → Option CountMinSketch
  unfolding words increase_rows
  increase key count s =
      Option.map
        (λ (p : Bool × List (List ℕ)). record s {
          matrix = p.1;
          distinct_count = (s.distinct_count + (if p.0 then 1 else 0)) % 2 ^ 64;
        })
        (increase_rows s.width count (words murmur s.depth key) s.matrix)

  unfoldable pub estimate : List ℕ → CountMinSketch → Option ℕ
  unfolding words estimate_rows
  estimate key s = estimate_rows s.width (words murmur s.depth key) s.matrix 0xffff_ffff_ffff_ffff
