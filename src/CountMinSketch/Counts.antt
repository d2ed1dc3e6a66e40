-- ===== src/CountMinSketch/Counts.antt =====
-- CountMinSketch::Increase and Estimate, count_min_sketch.cc: the estimate of a key before and after.
use ltio.Common.{
  ℕ, zero, suc, ◌+◌, ◌-◌, ◌%◌, ◌^◌, ◌≤◌, ◌<◌, ◌≡◌, refl, sym, ap, ◌∙◌, Bool, false, ◌||◌, List, [],
  ◌∷◌, some, ltb, ◌==◌, if◌then◌else◌, get_elem?, set, length, All, arith, Bool-cases, inl, inr,
  some_inj, ltb→lt, ltb_false→le,
}
use ltio.CountMinSketch.{
  CountMinSketch, words_from, words, add_cell, increase_rows, increase, estimate,
}
use ltio.CountMinSketch.Rows.{IsRow, cell, increase_rows-Started, estimate_rows-Above}

-- A sketch with a row for each word of a key, where `count` more overflows no counter.
pub record HasSpace (count : ℕ) (s : CountMinSketch) : Type 0 where
  pub some_columns : 0 < s.width
  pub some_rows : 0 < s.depth
  pub as_deep : length s.matrix ≡ s.depth
  pub rows : All (IsRow s.width count) s.matrix

words_from-length :
    (murmur : List ℕ → ℕ → ℕ × ℕ) (depth : ℕ) (key : List ℕ) (n i : ℕ)
    → depth ≤ i + n
    → length (words_from murmur depth key n i) ≡ depth - i
unfolding words_from
words_from-length murmur depth key zero i h = omega arith
words_from-length murmur depth key (suc n) i h =
    let ih = words_from-length murmur depth key n (i + 2) in
    elim (Bool-cases (ltb i depth)) [
      | inl y ↦ elim (Bool-cases (ltb (i + 1) depth)) [
        | inl z ↦ rw (y, z) (omega (arith, ltb→lt (i + 1) depth z, ih (omega arith)))
        | inr z ↦ rw (y, z) (omega (arith, ltb→lt i depth y, ltb_false→le (i + 1) depth z))
      ]
      | inr d ↦ rw d (omega (arith, ltb_false→le i depth d))
    ]

words-length :
    (murmur : List ℕ → ℕ → ℕ × ℕ) (depth : ℕ) (key : List ℕ)
    → length (words murmur depth key) ≡ depth
unfolding words
words-length murmur depth key =
    omega (arith, words_from-length murmur depth key depth 0 (omega arith))

-- Increase of a key by a count that overflows no counter returns. The estimate of the key grows by
-- exactly the count, and the estimate of no other key gets smaller.
pub increase-estimate :
    (murmur : List ℕ → ℕ → ℕ × ℕ) (key : List ℕ) (count : ℕ) (s : CountMinSketch)
    → HasSpace count s
    → (s' : CountMinSketch) × (e : ℕ) × (increase murmur key count s ≡ some s')
      × (estimate murmur key s ≡ some e)
      × (estimate murmur key s' ≡ some (e + count))
      × ((other : List ℕ) (o : ℕ)
          → estimate murmur other s ≡ some o
          → (o' : ℕ) × (estimate murmur other s' ≡ some o') × (o ≤ o'))
unfolding increase estimate
increase-estimate murmur key count s h =
    let n = words-length murmur s.depth key in
    let (b, rows', e, f, above, g, g') =
      increase_rows-Started s.width count h.some_columns (words murmur s.depth key) s.matrix
        (omega (arith, h.some_rows, h.as_deep)) (n ∙ sym h.as_deep) h.rows in
    (
      record s {
        matrix = rows';
        distinct_count = (s.distinct_count + (if b then 1 else 0)) % 2 ^ 64;
      },
      e,
      rw f,
      g,
      g',
      λ other o p.
          estimate_rows-Above s.width count h.some_columns (words murmur s.depth other) s.matrix
            rows' _ _ o above (omega arith) p,
    )

set-same : (r : List ℕ) (i v : ℕ) → get_elem? r i ≡ some v → set r i v ≡ r
set-same [] i v e = cc
set-same (x ∷ r) zero v e = ap (λ y. y ∷ r) (sym (some_inj e))
set-same (x ∷ r) (suc i) v e = ap (λ t. x ∷ t) (set-same r i v e)

add_cell_wraps :
    (width w : ℕ) (r : List ℕ)
    → 0 < width
    → IsRow width 0 r
    → (b : Bool) × (add_cell (w % width) 256 r ≡ some (b, r))
unfolding add_cell
add_cell_wraps width w r p h =
    let (v, e, lt) = cell width 0 w r p h in
    let same : (v + 256) % 256 ≡ v = omega (arith, lt) in
    ((v == 0), rw (e, same, set-same r (w % width) v e))

increase_rows_wraps :
    (width : ℕ) (ws : List ℕ) (rows : List (List ℕ))
    → 0 < width
    → length ws ≡ length rows
    → All (IsRow width 0) rows
    → (b : Bool) × (increase_rows width 256 ws rows ≡ some (b, rows))
unfolding increase_rows
increase_rows_wraps width [] rows p l h = (false, refl)
increase_rows_wraps width (w ∷ ws) [] p l h = absurd (omega (arith, l))
increase_rows_wraps width (w ∷ ws) (r ∷ rows) p l h =
    let (b, e) = add_cell_wraps width w r p h.0 in
    let (c, f) = increase_rows_wraps width ws rows p (omega (arith, l)) h.1 in
    (b || c, rw (e, increase_rows, f))

-- Increase of a key by 256 is lost: it returns, and every estimate stays what it was.
pub increase_wraps :
    (murmur : List ℕ → ℕ → ℕ × ℕ) (key other : List ℕ) (s : CountMinSketch)
    → HasSpace 0 s
    → (s' : CountMinSketch) × (increase murmur key 256 s ≡ some s')
      × (estimate murmur other s' ≡ estimate murmur other s)
unfolding increase estimate
increase_wraps murmur key other s h =
    let n = words-length murmur s.depth key in
    let (b, f) =
      increase_rows_wraps s.width (words murmur s.depth key) s.matrix h.some_columns
        (n ∙ sym h.as_deep) h.rows in
    (record s { distinct_count = (s.distinct_count + (if b then 1 else 0)) % 2 ^ 64 }, rw f, refl)
