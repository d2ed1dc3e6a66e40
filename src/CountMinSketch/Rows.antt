-- ===== src/CountMinSketch/Rows.antt =====
-- The loops of CountMinSketch::Increase and Estimate, count_min_sketch.cc, row by row.
use ltio.Common.{
  ℕ, zero, suc, ◌+◌, ◌%◌, ◌≤◌, ◌<◌, ◌≡◌, refl, min, Bool, false, ◌||◌, List, [], ◌∷◌, some, ◌==◌,
  get_elem?, set, length, All, arith, Option-cases, inl, inr, some_inj, get_elem?-set_self,
  get_elem?-lt, All-get_elem?,
}
use native.Mathlib.Nat.{mod-lt}
use ltio.CountMinSketch.{add_cell, increase_rows, estimate_rows}

-- A row of counters, none of which `count` more makes overflow.
abbrev pub IsRow : ℕ → ℕ → List ℕ → Type 0
IsRow width count r = (length r ≡ width) × All (λ v. v + count < 256) r

-- Every counter of a row is at least what it was.
abbrev Above : List ℕ → List ℕ → Type 0
Above r r' = (j v : ℕ) → get_elem? r j ≡ some v → (v' : ℕ) × (get_elem? r' j ≡ some v') × (v ≤ v')

set-Above : (r : List ℕ) (i v v' : ℕ) → get_elem? r i ≡ some v → v ≤ v' → Above r (set r i v')
set-Above [] i v v' e h j u p = cc
set-Above (x ∷ r) zero v v' e h zero u p = (v', refl, omega (arith, some_inj e, some_inj p, h))
set-Above (x ∷ r) zero v v' e h (suc j) u p = (u, p, omega arith)
set-Above (x ∷ r) (suc i) v v' e h zero u p = (u, p, omega arith)
set-Above (x ∷ r) (suc i) v v' e h (suc j) u p = set-Above r i v v' e h j u p

-- One counter of a row, before and after.
module _ (width count w : ℕ) (r : List ℕ) (positive : 0 < width) (row : IsRow width count r) where
  pub cell : (v : ℕ) × (get_elem? r (w % width) ≡ some v) × (v + count < 256)
  cell =
      let (v, e) =
        get_elem?-lt r (w % width) (omega (arith, mod-lt w {m = width} positive, row.0)) in
      (v, e, All-get_elem? (λ v. v + count < 256) r (w % width) v row.1 e)

  add_cell-adds :
      (v : ℕ) × (b : Bool) × (r' : List ℕ) × (get_elem? r (w % width) ≡ some v)
      × (v + count < 256)
      × (add_cell (w % width) count r ≡ some (b, r'))
      × (get_elem? r' (w % width) ≡ some (v + count))
      × Above r r'
  unfolding add_cell
  add_cell-adds =
      let (v, e, lt) = cell in
      let inside : w % width < length r = omega (arith, mod-lt w {m = width} positive, row.0) in
      let new : (v + count) % 256 ≡ v + count = omega (arith, lt) in
      (
        v,
        (v == 0),
        set r (w % width) (v + count),
        e,
        lt,
        rw (e, new),
        get_elem?-set_self r (w % width) (v + count) inside,
        set-Above r (w % width) v (v + count) e (omega arith),
      )

-- The rows of a matrix, one by one.
pub AllAbove : List (List ℕ) → List (List ℕ) → Type 0
AllAbove [] [] = Unit
AllAbove [] (r' ∷ rs') = ⊥
AllAbove (r ∷ rs) [] = ⊥
AllAbove (r ∷ rs) (r' ∷ rs') = Above r r' × AllAbove rs rs'

module _ (width count : ℕ) (positive : 0 < width) where
  -- Where Increase leaves the rows.
  Increased : List ℕ → List (List ℕ) → Type 0
  Increased ws rows =
      (b : Bool) × (rows' : List (List ℕ)) × (increase_rows width count ws rows ≡ some (b, rows'))
      × AllAbove rows rows'
      × ((result : ℕ)
          → (e : ℕ) × (estimate_rows width ws rows result ≡ some e)
            × (estimate_rows width ws rows' (result + count) ≡ some (e + count)))

  increase_rows-Increased :
      (ws : List ℕ) (rows : List (List ℕ))
      → length ws ≡ length rows
      → All (IsRow width count) rows
      → Increased ws rows
  unfolding Increased increase_rows estimate_rows AllAbove
  increase_rows-Increased [] [] l h = (false, [], refl, tt, λ result. (result, refl, refl))
  increase_rows-Increased [] (r ∷ rows) l h = absurd (omega (arith, l))
  increase_rows-Increased (w ∷ ws) [] l h = absurd (omega (arith, l))
  increase_rows-Increased (w ∷ ws) (r ∷ rows) l h =
      let (v, b, r', e, lt, a, e', above) = add_cell-adds width count w r positive h.0 in
      let (c, rows', f, aboves, more) = increase_rows-Increased ws rows (omega (arith, l)) h.1 in
      (
        b || c,
        r' ∷ rows',
        rw (a, increase_rows, f),
        (above, aboves),
        λ result.
            let (est, g, g') = more (min v result) in
            let shifted : min (v + count) (result + count) ≡ min v result + count = omega arith in
            (est, rw (e, estimate_rows) g, rw (e', estimate_rows, shifted) g'),
      )

  -- From the start, where the result is the greatest 64-bit number.
  abbrev pub Started : List ℕ → List (List ℕ) → Type 0
  Started ws rows =
      (b : Bool) × (rows' : List (List ℕ)) × (e : ℕ) × (increase_rows width count ws rows
        ≡ some (b, rows'))
      × AllAbove rows rows'
      × (estimate_rows width ws rows 0xffff_ffff_ffff_ffff ≡ some e)
      × (estimate_rows width ws rows' 0xffff_ffff_ffff_ffff ≡ some (e + count))

  pub increase_rows-Started :
      (ws : List ℕ) (rows : List (List ℕ))
      → 0 < length rows
      → length ws ≡ length rows
      → All (IsRow width count) rows
      → Started ws rows
  unfolding Increased increase_rows estimate_rows AllAbove
  increase_rows-Started ws [] p l h = absurd (omega (arith, p))
  increase_rows-Started [] (r ∷ rows) p l h = absurd (omega (arith, l))
  increase_rows-Started (w ∷ ws) (r ∷ rows) p l h =
      let (v, b, r', e, lt, a, e', above) = add_cell-adds width count w r positive h.0 in
      let (c, rows', f, aboves, more) = increase_rows-Increased ws rows (omega (arith, l)) h.1 in
      let (est, g, g') = more v in
      let low : min v 0xffff_ffff_ffff_ffff ≡ v = omega (arith, lt) in
      let low' : min (v + count) 0xffff_ffff_ffff_ffff ≡ v + count = omega (arith, lt) in
      (
        b || c,
        r' ∷ rows',
        est,
        rw (a, increase_rows, f),
        (above, aboves),
        rw (e, estimate_rows, low) g,
        rw (e', estimate_rows, low') g',
      )

  pub estimate_rows-Above :
      (ws : List ℕ) (rows rows' : List (List ℕ)) (result result' e : ℕ)
      → AllAbove rows rows'
      → result ≤ result'
      → estimate_rows width ws rows result ≡ some e
      → (e' : ℕ) × (estimate_rows width ws rows' result' ≡ some e') × (e ≤ e')
  unfolding estimate_rows AllAbove
  estimate_rows-Above [] rows rows' result result' e a h g =
      (result', refl, omega (arith, some_inj g, h))
  estimate_rows-Above (w ∷ ws) [] rows' result result' e a h g = cc
  estimate_rows-Above (w ∷ ws) (r ∷ rows) [] result result' e a h g = absurd a
  estimate_rows-Above (w ∷ ws) (r ∷ rows) (r' ∷ rows') result result' e a h g =
      elim (Option-cases (get_elem? r (w % width))) [
        | inl n ↦ let faulted = rw (n, estimate_rows) at g in cc
        | inr (v, f) ↦
            let (v', f', le) = a.0 (w % width) v f in
            let (e', g', le') =
              estimate_rows-Above ws rows rows' (min v result) (min v' result') e a.1
                (omega (arith, le, h)) (rw (f, estimate_rows) at g) in
            (e', rw (f', estimate_rows) g', le')
      ]
