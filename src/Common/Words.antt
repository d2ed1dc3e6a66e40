-- ===== src/Common/Words.antt =====
-- The bits of a word, counted from the lowest: what `|`, `&`, `~` and shifts do to each.
use Prim.Native.Nat.{ℕ, zero, suc, ◌+◌, ◌-◌, ◌*◌, ◌/◌, ◌%◌, ◌^◌, ◌<◌, min, bit_and, bit_or}
use mathlib.Core.Path.{◌≡◌, refl, ap, ◌∙◌}
use mathlib.Core.Bool.{Bool, false, not, ◌&&◌, ◌||◌}
use native.Mathlib.Nat.{pow-suc, one-le-pow, mod-lt}
use native.Mathlib.Omega.{arith}
use ltio.Common.Tests.{◌==◌}
use ltio.Common.Bits.{bit_and_step, bit_or_step, two_mul_mod, bit_and_none}

unfoldable pub bit : ℕ → ℕ → Bool
bit zero w = w % 2 == 1
bit (suc k) w = bit k (w / 2)

-- `~w` for a word of n bits.
unfoldable pub complement : ℕ → ℕ → ℕ
complement n w = 2 ^ n - 1 - w % 2 ^ n

pub bit-bit_or : (k a b : ℕ) → bit k (bit_or a b) ≡ bit k a || bit k b
unfolding bit
bit-bit_or zero a b = ground (arith, bit_or_step a b)
bit-bit_or (suc k) a b =
    let half : bit_or a b / 2 ≡ bit_or (a / 2) (b / 2) = omega (arith, bit_or_step a b) in
    ap (bit k) half ∙ bit-bit_or k (a / 2) (b / 2)

pub bit-bit_and : (k a b : ℕ) → bit k (bit_and a b) ≡ bit k a && bit k b
unfolding bit
bit-bit_and zero a b = ground (arith, bit_and_step a b)
bit-bit_and (suc k) a b =
    let half : bit_and a b / 2 ≡ bit_and (a / 2) (b / 2) = omega (arith, bit_and_step a b) in
    ap (bit k) half ∙ bit-bit_and k (a / 2) (b / 2)

pub bit-zero : (k : ℕ) → bit k 0 ≡ false
unfolding bit
bit-zero zero = refl
bit-zero (suc k) = bit-zero k

pub bit-pow : (k m : ℕ) → bit k (2 ^ m) ≡ (k == m)
unfolding bit
bit-pow zero zero = refl
bit-pow zero (suc m) = ground (arith, pow-suc 2 m)
bit-pow (suc k) zero = bit-zero k ∙ ground arith
bit-pow (suc k) (suc m) =
    let half : 2 ^ suc m / 2 ≡ 2 ^ m = omega (arith, pow-suc 2 m) in
    ap (bit k) half ∙ bit-pow k m ∙ ground arith

complement_half : (p w : ℕ) → 0 < p → (p * 2 - 1 - w % (p * 2)) / 2 ≡ p - 1 - w / 2 % p
complement_half p w h = omega (arith, two_mul_mod w p h, mod-lt (w / 2) {m = p} h)

pub bit-complement : (n k w : ℕ) → k < n → bit k (complement n w) ≡ not (bit k w)
unfolding bit complement
bit-complement zero k w h = absurd (omega arith)
bit-complement (suc n) zero w h = ground (
  arith,
  pow-suc 2 n,
  two_mul_mod w (2 ^ n) (one-le-pow n 2 (omega arith)),
  mod-lt (w / 2) {m = 2 ^ n} (one-le-pow n 2 (omega arith)),
)
bit-complement (suc n) (suc k) w h =
    let half : (2 ^ suc n - 1 - w % 2 ^ suc n) / 2 ≡ 2 ^ n - 1 - w / 2 % 2 ^ n =
      rw (pow-suc 2 n) (complement_half (2 ^ n) w (one-le-pow n 2 (omega arith))) in
    ap (bit k) half ∙ bit-complement n k (w / 2) (omega arith)

-- The test that a masked word is not 0.
pub masked_bit : (k w : ℕ) → not (bit_and w (2 ^ k) == 0) ≡ bit k w
unfolding bit
masked_bit zero w = ground (arith, bit_and_step w 1, bit_and_none (w / 2))
masked_bit (suc k) w =
    let half : 2 ^ suc k / 2 ≡ 2 ^ k = omega (arith, pow-suc 2 k) in
    let step : bit_and w (2 ^ suc k) ≡ bit_and (w / 2) (2 ^ k) * 2 =
      bit_and_step w (2 ^ suc k)
      ∙ ap (λ t. bit_and (w / 2) t * 2 + min (w % 2) (2 ^ suc k % 2)) half
      ∙ omega (arith, pow-suc 2 k) in
    let same : (bit_and w (2 ^ suc k) == 0) ≡ (bit_and (w / 2) (2 ^ k) == 0) =
      ground (arith, step) in
    ap not same ∙ masked_bit k (w / 2)
