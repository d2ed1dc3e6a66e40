-- ===== src/Common/Slices.antt =====
-- Runs of a list between two positions, and bytes written over a list, as std::copy and memcpy do.
use Prim.Native.Nat.{ℕ, zero, suc, ◌+◌, ◌-◌, ◌≤◌}
use mathlib.Core.Path.{◌≡◌, refl, sym, ap}
use mathlib.Core.List.{List, [], ◌∷◌, ◌++◌}
use native.Mathlib.Nat.{zero-add, suc-add}
use native.Mathlib.Omega.{arith}
use ltio.Common.Lists.{length, take, drop, length-append, length-take, length-drop}

module _ {ℓ} {A : Type ℓ} where
  -- The elements of positions `from` up to `upto`.
  abbrev pub slice : ℕ → ℕ → List A → List A
  slice from upto xs = drop from (take upto xs)

  -- `ys` in place of the elements from position `n` on.
  unfoldable pub overwrite : ℕ → List A → List A → List A
  overwrite zero ys xs = ys ++ drop (length ys) xs
  overwrite (suc n) ys [] = []
  overwrite (suc n) ys (x ∷ xs) = x ∷ overwrite n ys xs

  pub length-slice :
      (from upto : ℕ) (xs : List A) → upto ≤ length xs → length (slice from upto xs) ≡ upto - from
  length-slice from upto xs k = omega (arith, length-drop from (take upto xs), length-take upto xs)

  pub take-append : (xs ys : List A) → take (length xs) (xs ++ ys) ≡ xs
  take-append [] ys = refl
  take-append (x ∷ xs) ys = ap (λ zs. x ∷ zs) (take-append xs ys)

  pub take_append_left : (n : ℕ) (xs ys : List A) → n ≤ length xs → take n (xs ++ ys) ≡ take n xs
  take_append_left zero xs ys h = refl
  take_append_left (suc n) [] ys h = absurd (omega arith)
  take_append_left (suc n) (x ∷ xs) ys h =
      ap (λ zs. x ∷ zs) (take_append_left n xs ys (omega arith))

  drop_nil : (n : ℕ) → ◌≡◌ {A = List A} (drop n []) []
  drop_nil zero = refl
  drop_nil (suc n) = refl

  pub drop-drop : (m n : ℕ) (xs : List A) → drop m (drop n xs) ≡ drop (n + m) xs
  drop-drop m zero xs = rw zero-add
  drop-drop m (suc n) [] = rw (suc-add n m) (drop_nil m)
  drop-drop m (suc n) (x ∷ xs) = rw (suc-add n m) (drop-drop m n xs)

  take-overwrite :
      (n : ℕ) (ys xs : List A)
      → n + length ys ≤ length xs
      → take (n + length ys) (overwrite n ys xs) ≡ take n xs ++ ys
  unfolding overwrite
  take-overwrite zero ys xs h = rw zero-add (take-append ys (drop (length ys) xs))
  take-overwrite (suc n) ys [] h = absurd (omega arith)
  take-overwrite (suc n) ys (x ∷ xs) h =
      rw (suc-add n (length ys)) (ap (λ zs. x ∷ zs) (take-overwrite n ys xs (omega arith)))

  -- Writing where a run ends makes the run longer.
  pub slice-overwrite :
      (from n : ℕ) (ys xs : List A)
      → from ≤ n
      → n + length ys ≤ length xs
      → slice from (n + length ys) (overwrite n ys xs) ≡ slice from n xs ++ ys
  unfolding overwrite
  slice-overwrite zero n ys xs h k = take-overwrite n ys xs k
  slice-overwrite (suc from) zero ys xs h k = absurd (omega arith)
  slice-overwrite (suc from) (suc n) ys [] h k = absurd (omega arith)
  slice-overwrite (suc from) (suc n) ys (x ∷ xs) h k =
      rw (suc-add n (length ys)) (slice-overwrite from n ys xs (omega arith) (omega arith))

  pub length-overwrite :
      (n : ℕ) (ys xs : List A) → n + length ys ≤ length xs → length (overwrite n ys xs) ≡ length xs
  unfolding overwrite
  length-overwrite zero ys xs h =
      omega (arith, length-append ys (drop (length ys) xs), length-drop (length ys) xs)
  length-overwrite (suc n) ys [] h = absurd (omega arith)
  length-overwrite (suc n) ys (x ∷ xs) h = ap suc (length-overwrite n ys xs (omega arith))

  -- Dropping from a run moves its start.
  pub drop-slice :
      (m from upto : ℕ) (xs : List A) → slice (from + m) upto xs ≡ drop m (slice from upto xs)
  drop-slice m from upto xs = sym (drop-drop m from (take upto xs))

  pub drop_beyond : (n : ℕ) (xs : List A) → length xs ≤ n → drop n xs ≡ []
  drop_beyond zero [] h = refl
  drop_beyond zero (x ∷ xs) h = absurd (omega arith)
  drop_beyond (suc n) [] h = refl
  drop_beyond (suc n) (x ∷ xs) h = drop_beyond n xs (omega arith)

  pub take-take : (n m : ℕ) (xs : List A) → n ≤ m → take n (take m xs) ≡ take n xs
  take-take zero m xs h = refl
  take-take (suc n) zero xs h = absurd (omega arith)
  take-take (suc n) (suc m) [] h = refl
  take-take (suc n) (suc m) (x ∷ xs) h = ap (λ zs. x ∷ zs) (take-take n m xs (omega arith))

  pub drop-append_more : (xs ys : List A) (n : ℕ) → drop (length xs + n) (xs ++ ys) ≡ drop n ys
  drop-append_more [] ys n = rw zero-add
  drop-append_more (x ∷ xs) ys n = rw (suc-add (length xs) n) (drop-append_more xs ys n)

  -- The bytes from the start of a run are those of the run.
  pub slice_start :
      (from upto n : ℕ) (xs : List A)
      → from + n ≤ upto
      → upto ≤ length xs
      → slice from (from + n) xs ≡ take n (slice from upto xs)
  slice_start zero zero n xs h k = let z : n ≡ 0 = omega (arith, h) in rw z
  slice_start zero (suc upto) n xs h k = rw zero-add (sym (take-take n (suc upto) xs (omega arith)))
  slice_start (suc from) zero n xs h k = absurd (omega arith)
  slice_start (suc from) (suc upto) n [] h k = absurd (omega arith)
  slice_start (suc from) (suc upto) n (x ∷ xs) h k =
      rw (suc-add from n) (slice_start from upto n xs (omega arith) (omega arith))

  -- Two ways to cut a list in two.
  pub append_split :
      (xs ys us vs : List A)
      → xs ++ ys ≡ us ++ vs
      → length xs ≤ length us
      → (w : List A) × (us ≡ xs ++ w) × (ys ≡ w ++ vs)
  append_split [] ys us vs e h = (us, refl, e)
  append_split (x ∷ xs) ys [] vs e h = absurd (omega arith)
  append_split (x ∷ xs) ys (u ∷ us) vs e h =
      let head : x ≡ u = cc in
      let tail : xs ++ ys ≡ us ++ vs = cc in
      let (w, f, g) = append_split xs ys us vs tail (omega arith) in (w, cc, g)
