-- ===== src/Common/Bits.antt =====
-- The laws of `&` and `|` that packed identifiers need: a mask of ones is a remainder, and an or of
-- disjoint fields is a sum. The libraries have none at variables.
use Prim.Native.Nat.{
  ℕ, zero, suc, ◌+◌, ◌-◌, ◌*◌, ◌/◌, ◌%◌, ◌^◌, ◌≤◌, ◌<◌, min, max, bit_and, bit_or, digits,
  bit_and-bitwise, bit_or-bitwise,
}
use mathlib.Core.Path.{◌≡◌, refl, sym, ap, ◌∙◌}
use native.Mathlib.Nat.{
  pow-suc, one-le-pow, mod-eq_of_lt, div-add-mod, mod-lt, add-mul-mod_self_left,
}
use native.Mathlib.Omega.{arith}

module _ (z : ℕ → ℕ) (f : ℕ → ℕ → ℕ) where
  no_digits : (n b : ℕ) → digits z f n 0 b ≡ z b
  no_digits zero b = refl
  no_digits (suc n) b = refl

  -- More rounds than a number has digits change nothing.
  enough_rounds : (a b n m : ℕ) → a ≤ n → a ≤ m → digits z f n a b ≡ digits z f m a b
  enough_rounds zero b n m p q = no_digits n b ∙ sym (no_digits m b)
  enough_rounds (suc a) b zero m p q = absurd (omega arith)
  enough_rounds (suc a) b (suc n) zero p q = absurd (omega arith)
  enough_rounds (suc a) b (suc n) (suc m) p q =
      ap (λ t. t * 2 + f (suc a % 2) (b % 2))
        (enough_rounds (suc a / 2) (b / 2) n m (omega arith) (omega arith))

pub bit_and_step : (a b : ℕ) → bit_and a b ≡ bit_and (a / 2) (b / 2) * 2 + min (a % 2) (b % 2)
bit_and_step a b = rw (bit_and-bitwise a b, bit_and-bitwise (a / 2) (b / 2)) (split a)
  where
    split :
        (a : ℕ)
        → digits (λ t. 0) min a a b
          ≡ digits (λ t. 0) min (a / 2) (a / 2) (b / 2) * 2 + min (a % 2) (b % 2)
    split zero = omega arith
    split (suc n) =
        let same =
          enough_rounds (λ t. 0) min (suc n / 2) (b / 2) n (suc n / 2) (omega arith)
            (omega arith) in
        omega (arith, same)

pub bit_or_step : (a b : ℕ) → bit_or a b ≡ bit_or (a / 2) (b / 2) * 2 + max (a % 2) (b % 2)
bit_or_step a b = rw (bit_or-bitwise a b, bit_or-bitwise (a / 2) (b / 2)) (split a)
  where
    split :
        (a : ℕ)
        → digits (λ t. t) max a a b
          ≡ digits (λ t. t) max (a / 2) (a / 2) (b / 2) * 2 + max (a % 2) (b % 2)
    split zero = omega arith
    split (suc n) =
        let same =
          enough_rounds (λ t. t) max (suc n / 2) (b / 2) n (suc n / 2) (omega arith)
            (omega arith) in
        omega (arith, same)

and_digits-zero : (n a : ℕ) → digits (λ t. 0) min n a 0 ≡ 0
and_digits-zero zero a = refl
and_digits-zero (suc n) zero = refl
and_digits-zero (suc n) (suc a) = omega (arith, and_digits-zero n (suc a / 2))

or_digits-zero : (n a : ℕ) → a ≤ n → digits (λ t. t) max n a 0 ≡ a
or_digits-zero n zero h = no_digits (λ t. t) max n 0
or_digits-zero zero (suc a) h = absurd (omega arith)
or_digits-zero (suc n) (suc a) h = omega (arith, or_digits-zero n (suc a / 2) (omega arith))

pub bit_and_none : (a : ℕ) → bit_and a 0 ≡ 0
bit_and_none a = bit_and-bitwise a 0 ∙ and_digits-zero a a

bit_or_none : (a : ℕ) → bit_or a 0 ≡ a
bit_or_none a = bit_or-bitwise a 0 ∙ or_digits-zero a a (omega arith)

pub two_mul_mod : (a p : ℕ) → 0 < p → a % (p * 2) ≡ a / 2 % p * 2 + a % 2
two_mul_mod a p h =
    ap (λ t. t % (p * 2)) whole
    ∙ add-mul-mod_self_left low (p * 2) (a / 2 / p)
    ∙ mod-eq_of_lt (omega (arith, mod-lt (a / 2) {m = p} h))
  where
    low : ℕ
    low = a / 2 % p * 2 + a % 2

    whole : a ≡ low + p * 2 * (a / 2 / p)
    whole = omega (arith, div-add-mod (a / 2) p)

-- One more bit of the mask.
mask_step :
    (p a : ℕ) → 0 < p → bit_and (a / 2) (p - 1) ≡ a / 2 % p → bit_and a (p * 2 - 1) ≡ a % (p * 2)
mask_step p a h ih =
    bit_and_step a (p * 2 - 1)
    ∙ ap (λ t. bit_and (a / 2) t * 2 + min (a % 2) ((p * 2 - 1) % 2)) half
    ∙ omega (arith, ih, two_mul_mod a p h)
  where
    half : (p * 2 - 1) / 2 ≡ p - 1
    half = omega arith

-- `x & (2^k - 1)` keeps the low k bits.
pub bit_and_mask : (k a : ℕ) → bit_and a (2 ^ k - 1) ≡ a % 2 ^ k
bit_and_mask zero a = omega (arith, bit_and_none a)
bit_and_mask (suc k) a =
    rw (pow-suc 2 k) (mask_step (2 ^ k) a (one-le-pow k 2 (omega arith)) (bit_and_mask k (a / 2)))

shift_step :
    (p h y : ℕ) → bit_or (h * p) (y / 2) ≡ h * p + y / 2 → bit_or (h * (p * 2)) y ≡ h * (p * 2) + y
shift_step p h y ih =
    bit_or_step (h * (p * 2)) y
    ∙ ap (λ t. bit_or t (y / 2) * 2 + max (h * (p * 2) % 2) (y % 2)) half
    ∙ omega (arith, ih, even)
  where
    half : h * (p * 2) / 2 ≡ h * p
    half = omega arith

    even : h * (p * 2) % 2 ≡ 0
    even = omega arith

-- `(h << k) | y` with y below 2^k is a sum.
pub bit_or_shift : (k h y : ℕ) → y < 2 ^ k → bit_or (h * 2 ^ k) y ≡ h * 2 ^ k + y
bit_or_shift zero h y p = let e : y ≡ 0 = omega arith in rw (e, bit_or_none (h * 1)) (omega arith)
bit_or_shift (suc k) h y p =
    rw (pow-suc 2 k)
      (shift_step (2 ^ k) h y (bit_or_shift k h (y / 2) (omega (arith, pow-suc 2 k))))

-- An or keeps the bits that a mask picks.
masked_fuel : (n b c m : ℕ) → m ≤ n → bit_and b m ≤ bit_and (bit_or b c) m
masked_fuel n b c zero h = omega (arith, bit_and_none b)
masked_fuel zero b c (suc m) h = absurd (omega arith)
masked_fuel (suc n) b c (suc m) h =
    let half : bit_or b c / 2 ≡ bit_or (b / 2) (c / 2) = omega (arith, bit_or_step b c) in
    let ih = masked_fuel n (b / 2) (c / 2) (suc m / 2) (omega arith) in
    let goal : bit_and (b / 2) (suc m / 2) ≤ bit_and (bit_or b c / 2) (suc m / 2) = rw half ih in
    omega (arith, bit_and_step b (suc m), bit_and_step (bit_or b c) (suc m), bit_or_step b c, goal)

pub bit_and-bit_or_le : (b c m : ℕ) → bit_and b m ≤ bit_and (bit_or b c) m
bit_and-bit_or_le b c m = masked_fuel m b c m (omega arith)

-- An or sets all bits of its second number.
set_fuel : (n b m : ℕ) → m ≤ n → bit_and (bit_or b m) m ≡ m
set_fuel n b zero h = bit_and_none (bit_or b 0)
set_fuel zero b (suc m) h = absurd (omega arith)
set_fuel (suc n) b (suc m) h =
    let half : bit_or b (suc m) / 2 ≡ bit_or (b / 2) (suc m / 2) =
      omega (arith, bit_or_step b (suc m)) in
    let ih = set_fuel n (b / 2) (suc m / 2) (omega arith) in
    let goal : bit_and (bit_or b (suc m) / 2) (suc m / 2) ≡ suc m / 2 = rw half ih in
    omega (arith, bit_and_step (bit_or b (suc m)) (suc m), bit_or_step b (suc m), goal)

pub bit_and-bit_or_self : (b m : ℕ) → bit_and (bit_or b m) m ≡ m
bit_and-bit_or_self b m = set_fuel m b m (omega arith)
