-- ===== src/BloomFilter/Bits.antt =====
-- BloomFilter::SetBit and TestBit, bloom_filter.cc: the bits of a table before and after.
use ltio.Common.{
  ℕ, ◌/◌, ◌^◌, ◌≤◌, ◌<◌, ◌≡◌, refl, sym, ap, ◌∙◌, subst, Bool, true, not, List, Option, some, ◌==◌,
  get_elem?, set, bit_and, bit_or, length, arith, Bool-cases, inl, inr, some_inj, length-set,
  get_elem?-set_self, get_elem?-set_ne, get_elem?-lt, ==_iff,
}
use mathlib.Core.Option as Option
use native.Mathlib.Nat.{mod-lt, one-le-pow}
use ltio.Common.Bits.{bit_and-bit_or_le, bit_and-bit_or_self}
use ltio.BloomFilter.{BloomFilter, byte_index, bit_mask, set_bit, test_bit}

-- A table of the size that it says, which is not 0.
pub record IsSized (f : BloomFilter) : Type 0 where
  pub some_bytes : 0 < f.table_size
  pub same_size : length f.table ≡ f.table_size

byte_index-lt : (t : ℕ) (f : BloomFilter) → IsSized f → byte_index t f < length f.table
unfolding byte_index
byte_index-lt t f h = omega (arith, mod-lt (t / 2 ^ 3) {m = f.table_size} h.some_bytes, h.same_size)

bit_mask-positive : (t : ℕ) → 0 < bit_mask t
unfolding bit_mask
bit_mask-positive t = one-le-pow (bit_and t 0x7) 2 (omega arith)

-- Where SetBit leaves a table.
pub record HasBit (t : ℕ) (f g : BloomFilter) : Type 0 where
  pub same_rounds : g.k ≡ f.k
  pub same_size : g.table_size ≡ f.table_size
  pub sized : IsSized g
  pub here : test_bit t g ≡ some true
  pub keeps : (u : ℕ) → test_bit u f ≡ some true → test_bit u g ≡ some true

pub test_bit-returns :
    (t : ℕ) (f : BloomFilter) → IsSized f → (hit : Bool) × (test_bit t f ≡ some hit)
unfolding test_bit
test_bit-returns t f h =
    let (byte, e) = get_elem?-lt f.table (byte_index t f) (byte_index-lt t f h) in
    (not (bit_and byte (bit_mask t) == 0), rw e)

nonzero : (a b : ℕ) → 0 < a → a ≤ b → not (b == 0) ≡ true
nonzero a b p q = ground arith

-- Whether a mask finds a bit of a byte.
abbrev reads : List ℕ → ℕ → ℕ → Option Bool
reads bytes i m = Option.map (λ (byte : ℕ). not (bit_and byte m == 0)) (get_elem? bytes i)

reads-set_self :
    (bytes : List ℕ) (i m byte : ℕ)
    → i < length bytes
    → 0 < m
    → reads (set bytes i (bit_or byte m)) i m ≡ some true
reads-set_self bytes i m byte lt p =
    rw (get_elem?-set_self bytes i (bit_or byte m) lt) (
      ap some (nonzero m (bit_and (bit_or byte m) m) p (omega (arith, bit_and-bit_or_self byte m))))

read_positive : (b : ℕ) → some (not (b == 0)) ≡ some true → 0 < b
read_positive b h = ground (arith, some_inj h)

reads-set_keeps :
    (bytes : List ℕ) (i m byte j n : ℕ)
    → i < length bytes
    → get_elem? bytes i ≡ some byte
    → reads bytes j n ≡ some true
    → reads (set bytes i (bit_or byte m)) j n ≡ some true
reads-set_keeps bytes i m byte j n lt e h = elim (Bool-cases (i == j)) [
  | inl same ↦
      let q : i ≡ j = (==_iff i j).0 same in
      let b : 0 < bit_and byte n =
        read_positive (bit_and byte n)
          (rw e at (subst (λ x. reads bytes x n ≡ some true) (sym q) h)) in
      subst (λ x. reads (set bytes i (bit_or byte m)) x n ≡ some true) q
        (rw (get_elem?-set_self bytes i (bit_or byte m) lt) (
          ap some
            (nonzero (bit_and byte n) (bit_and (bit_or byte m) n) b (bit_and-bit_or_le byte m n))))
  | inr other ↦ rw (get_elem?-set_ne bytes i j (bit_or byte m) (ground (arith, other))) h
]

pub set_bit-HasBit :
    (t : ℕ) (f : BloomFilter)
    → IsSized f
    → (g : BloomFilter) × (set_bit t f ≡ some g) × HasBit t f g
unfolding set_bit test_bit byte_index
set_bit-HasBit t f h =
    let lt = byte_index-lt t f h in
    let (byte, e) = get_elem?-lt f.table (byte_index t f) lt in
    (
      record f { table = set f.table (byte_index t f) (bit_or byte (bit_mask t)) },
      rw e,
      record {
        same_rounds = refl;
        same_size = refl;
        sized = record {
          some_bytes = h.some_bytes;
          same_size = length-set f.table (byte_index t f) (bit_or byte (bit_mask t)) ∙ h.same_size;
        };
        here = reads-set_self f.table (byte_index t f) (bit_mask t) byte lt (bit_mask-positive t);
        keeps = λ u p.
            reads-set_keeps f.table (byte_index t f) (bit_mask t) byte (byte_index u f) (bit_mask u)
              lt e p;
      },
    )
