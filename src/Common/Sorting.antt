-- ===== src/Common/Sorting.antt =====
-- std::sort by a key: insertion sort. Which of two elements with one key comes first is not
-- specified by std::sort; here the order of such elements stays.
use Prim.Native.Nat.{ℕ, ◌+◌, ◌≤◌}
use mathlib.Core.Path.{◌≡◌, refl}
use ltio.Common.Lists.{All, sum_by}
use mathlib.Core.List.{List, [], ◌∷◌, Perm}
use mathlib.Core.List.Perm
use mathlib.Core.Logic.{inl, inr}
use native.Mathlib.Omega.{arith}
use ltio.Common.Tests.{ltb, if◌then◌else◌, Bool-cases, ltb→lt, ltb_false→le}

module _ {ℓ} {A : Type ℓ} (key : A → ℕ) where
  unfoldable pub insert_by : A → List A → List A
  insert_by a [] = a ∷ []
  insert_by a (x ∷ xs) =
      let rest = insert_by a xs in if ltb (key x) (key a) then x ∷ rest else a ∷ x ∷ xs

  unfoldable pub sort_by : List A → List A
  unfolding insert_by
  sort_by [] = []
  sort_by (x ∷ xs) = insert_by x (sort_by xs)

  abbrev pub AllAbove : ℕ → List A → Type 0
  AllAbove n [] = Unit {0}
  AllAbove n (x ∷ xs) = (n ≤ key x) × AllAbove n xs

  abbrev pub Ascends : List A → Type 0
  Ascends [] = Unit {0}
  Ascends (x ∷ xs) = AllAbove (key x) xs × Ascends xs

  AllAbove-mono : (m n : ℕ) (xs : List A) → m ≤ n → AllAbove n xs → AllAbove m xs
  AllAbove-mono m n [] h a = tt
  AllAbove-mono m n (x ∷ xs) h a = (omega (arith, a.0), AllAbove-mono m n xs h a.1)

  insert_by-AllAbove :
      (n : ℕ) (a : A) (xs : List A) → n ≤ key a → AllAbove n xs → AllAbove n (insert_by a xs)
  unfolding insert_by
  insert_by-AllAbove n a [] h b = (h, tt)
  insert_by-AllAbove n a (x ∷ xs) h b = ground (arith, insert_by-AllAbove n a xs h b.1)

  pub insert_by-Ascends : (a : A) (xs : List A) → Ascends xs → Ascends (insert_by a xs)
  unfolding insert_by
  insert_by-Ascends a [] h = (tt, tt)
  insert_by-Ascends a (x ∷ xs) h = elim (Bool-cases (ltb (key x) (key a))) [
    | inl lt ↦ rw lt (
      insert_by-AllAbove (key x) a xs (omega (arith, ltb→lt (key x) (key a) lt)) h.0,
      insert_by-Ascends a xs h.1,
    )
    | inr ge ↦
        let le = ltb_false→le (key x) (key a) ge in
        rw ge ((le, AllAbove-mono (key a) (key x) xs le h.0), h)
  ]

  pub sort_by-Ascends : (xs : List A) → Ascends (sort_by xs)
  unfolding sort_by
  sort_by-Ascends [] = tt
  sort_by-Ascends (x ∷ xs) = insert_by-Ascends x (sort_by xs) (sort_by-Ascends xs)

  insert_by-perm : (a : A) (xs : List A) → Perm (insert_by a xs) (a ∷ xs)
  unfolding insert_by
  insert_by-perm a [] = Perm.refl (a ∷ [])
  insert_by-perm a (x ∷ xs) = elim (Bool-cases (ltb (key x) (key a))) [
    | inl lt ↦ rw lt (Perm.trans (Perm.cons x (insert_by-perm a xs)) (Perm.swap a x xs))
    | inr ge ↦ rw ge (Perm.refl (a ∷ x ∷ xs))
  ]

  pub sort_by-perm : (xs : List A) → Perm (sort_by xs) xs
  unfolding sort_by
  sort_by-perm [] = Perm.refl []
  sort_by-perm (x ∷ xs) = Perm.trans (insert_by-perm x (sort_by xs)) (Perm.cons x (sort_by-perm xs))

module _ {ℓ κ} {A : Type ℓ} (key : A → ℕ) (P : A → Type κ) where
  pub insert_by-All : (a : A) (xs : List A) → P a → All P xs → All P (insert_by key a xs)
  unfolding insert_by
  insert_by-All a [] p h = (p, tt)
  insert_by-All a (x ∷ xs) p h = elim (Bool-cases (ltb (key x) (key a))) [
    | inl lt ↦ rw lt (h.0, insert_by-All a xs p h.1)
    | inr ge ↦ rw ge (p, h)
  ]

  pub sort_by-All : (xs : List A) → All P xs → All P (sort_by key xs)
  unfolding sort_by
  sort_by-All [] h = tt
  sort_by-All (x ∷ xs) h = insert_by-All x (sort_by key xs) h.0 (sort_by-All xs h.1)

module _ {ℓ} {A : Type ℓ} (key weight : A → ℕ) where
  pub sum_by-insert_by :
      (a : A) (xs : List A) → sum_by weight (insert_by key a xs) ≡ weight a + sum_by weight xs
  unfolding insert_by
  sum_by-insert_by a [] = refl
  sum_by-insert_by a (x ∷ xs) = elim (Bool-cases (ltb (key x) (key a))) [
    | inl lt ↦ rw lt (omega (arith, sum_by-insert_by a xs))
    | inr ge ↦ rw ge
  ]

  pub sum_by-sort_by : (xs : List A) → sum_by weight (sort_by key xs) ≡ sum_by weight xs
  unfolding sort_by
  sum_by-sort_by [] = refl
  sum_by-sort_by (x ∷ xs) = omega (arith, sum_by-insert_by x (sort_by key xs), sum_by-sort_by xs)
