-- ===== src/BloomFilter/Members.antt =====
-- BloomFilter, bloom_filter.cc: what is set is found.
use ltio.Common.{
  ℕ, zero, suc, ◌+◌, ◌-◌, ◌*◌, ◌/◌, ◌≤◌, ◌≡◌, refl, sym, ap, ◌∙◌, subst, Bool, true, ◌&&◌, List, [],
  ◌∷◌, some, ltb, ltb→lt, ltb_false→le, length, arith, Bool-cases, Option-cases, inl, inr, some_inj,
}
use mathlib.Core.Bool.{true≢false}
use ltio.BloomFilter.{
  BloomFilter, test_bit, words_from, words, set_words, test_words, test_and_set_bit,
  test_and_set_words, set_item, is_set, test_and_set,
}
use ltio.BloomFilter.Bits.{IsSized, test_bit-returns, set_bit-HasBit}

-- Where SetBit for each of some words leaves a table.
record HasBits (ts : List ℕ) (f g : BloomFilter) : Type 0 where
  same_rounds : g.k ≡ f.k
  sized : IsSized g
  here : test_words ts g ≡ some true
  keeps : (u : ℕ) → test_bit u f ≡ some true → test_bit u g ≡ some true

test_words-first :
    (t : ℕ) (ts : List ℕ) (f : BloomFilter)
    → test_words (t ∷ ts) f ≡ some true
    → (test_bit t f ≡ some true) × (test_words ts f ≡ some true)
unfolding test_words
test_words-first t ts f h = elim (Option-cases (test_bit t f)) [
  | inl n ↦ let faulted = rw (n, test_words) at h in cc
  | inr (hit, e) ↦ elim (Bool-cases hit) [
    | inl y ↦ let e' = e ∙ ap some y in (e', rw (e', test_words) at h)
    | inr n ↦ absurd (true≢false (sym (some_inj (rw (e ∙ ap some n, test_words) at h))))
  ]
]

test_words-keeps :
    (ts : List ℕ) (f g : BloomFilter)
    → ((u : ℕ) → test_bit u f ≡ some true → test_bit u g ≡ some true)
    → test_words ts f ≡ some true
    → test_words ts g ≡ some true
unfolding test_words
test_words-keeps [] f g k h = refl
test_words-keeps (t ∷ ts) f g k h =
    let (first, rest) = test_words-first t ts f h in
    rw (k t first, test_words) (test_words-keeps ts f g k rest)

set_words-HasBits :
    (ts : List ℕ) (f : BloomFilter)
    → IsSized f
    → (g : BloomFilter) × (set_words ts f ≡ some g) × HasBits ts f g
unfolding set_words test_words
set_words-HasBits [] f h =
    (f, refl, record { same_rounds = refl; sized = h; here = refl; keeps = λ u p. p })
set_words-HasBits (t ∷ ts) f h =
    let (g, e, s) = set_bit-HasBit t f h in
    let (g', e', s') = set_words-HasBits ts g s.sized in
    (
      g',
      rw (e, set_words) e',
      record {
        same_rounds = s'.same_rounds ∙ s.same_rounds;
        sized = s'.sized;
        here = rw (s'.keeps t s.here, test_words) s'.here;
        keeps = λ u p. s'.keeps u (s.keeps u p);
      },
    )

-- TestAndSet of some words ends at the table of Set.
Agrees : List ℕ → Bool → BloomFilter → Type 0
Agrees ts hit f =
    (r : Bool) × (g : BloomFilter) × (test_and_set_words ts hit f ≡ some (r, g))
    × (set_words ts f ≡ some g)
    × (hit ≡ true → test_words ts f ≡ some true → r ≡ true)

test_and_set_words-Agrees :
    (ts : List ℕ) (hit : Bool) (f : BloomFilter) → IsSized f → Agrees ts hit f
unfolding test_and_set_words test_and_set_bit set_words test_words Agrees
test_and_set_words-Agrees [] hit f h = (hit, f, refl, refl, λ y p. y)
test_and_set_words-Agrees (t ∷ ts) hit f h =
    let (g, e, s) = set_bit-HasBit t f h in
    let (here, b) = test_bit-returns t f h in
    let (r, g', v, w, found) = test_and_set_words-Agrees ts (hit && here) g s.sized in
    (
      r,
      g',
      rw (b, test_and_set_words, test_and_set_bit, e) v,
      rw (e, set_words) w,
      λ y p.
          let (first, rest) = test_words-first t ts f p in
          found (rw (y, some_inj (sym b ∙ first)) refl) (test_words-keeps ts f g s.keeps rest),
    )

words_from-length :
    (murmur : List ℕ → ℕ → ℕ × ℕ) (k : ℕ) (item : List ℕ) (n i : ℕ)
    → k ≤ i + n
    → length (words_from murmur k item n i) ≡ 2 * ((k - i + 1) / 2)
unfolding words_from
words_from-length murmur k item zero i h = omega arith
words_from-length murmur k item (suc n) i h = elim (Bool-cases (ltb i k)) [
  | inl y ↦
      rw y (omega (arith, ltb→lt i k y, words_from-length murmur k item n (i + 2) (omega arith)))
  | inr d ↦ rw d (omega (arith, ltb_false→le i k d))
]

-- The loops run their `k` through: they use two words in each of the (k + 1) / 2 rounds.
pub words-length :
    (murmur : List ℕ → ℕ → ℕ × ℕ) (k : ℕ) (item : List ℕ)
    → length (words murmur k item) ≡ 2 * ((k + 1) / 2)
unfolding words
words-length murmur k item = omega (arith, words_from-length murmur k item k 0 (omega arith))

module _ (murmur : List ℕ → ℕ → ℕ × ℕ) where
  -- Set stays inside the table, and IsSet then finds the item.
  pub set_item-is_set :
      (item : List ℕ) (f : BloomFilter)
      → IsSized f
      → (g : BloomFilter) × (set_item murmur item f ≡ some g)
        × (is_set murmur item g ≡ some true)
        × IsSized g
  unfolding set_item is_set
  set_item-is_set item f h =
      let (g, e, s) = set_words-HasBits (words murmur f.k item) f h in
      (
        g,
        e,
        subst (λ k. test_words (words murmur k item) g ≡ some true) (sym s.same_rounds) s.here,
        s.sized,
      )

  -- TestAndSet stays inside the table and leaves the table that Set leaves, and it reports an item
  -- that IsSet finds as one that was there.
  pub test_and_set-set_item :
      (item : List ℕ) (f : BloomFilter)
      → IsSized f
      → (hit : Bool) × (g : BloomFilter) × (test_and_set murmur item f ≡ some (hit, g))
        × (set_item murmur item f ≡ some g)
        × (is_set murmur item f ≡ some true → hit ≡ true)
  unfolding test_and_set set_item is_set Agrees
  test_and_set-set_item item f h =
      let (hit, g, e, s, found) = test_and_set_words-Agrees (words murmur f.k item) true f h in
      (hit, g, e, s, found refl)

  -- An item that IsSet finds is found after any other item is set.
  pub set_item_keeps :
      (item other : List ℕ) (f : BloomFilter)
      → IsSized f
      → is_set murmur item f ≡ some true
      → (g : BloomFilter) × (set_item murmur other f ≡ some g) × (is_set murmur item g ≡ some true)
  unfolding set_item is_set
  set_item_keeps item other f h found =
      let (g, e, s) = set_words-HasBits (words murmur f.k other) f h in
      (
        g,
        e,
        subst (λ k. test_words (words murmur k item) g ≡ some true) (sym s.same_rounds)
            (test_words-keeps (words murmur f.k item) f g s.keeps found),
      )
