-- ===== src/BooleanIndexer/Ids/Entries.antt =====
-- EntryUtil, id_generator.cc: packing a conjunction and its sign, and the order of entries.
use ltio.Common.{
  ℕ, ◌+◌, ◌*◌, ◌/◌, ◌%◌, ◌^◌, ◌<◌, ◌≡◌, ap, ◌∙◌, Bool, true, false, arith, bit_or, ◌↔◌,
}
use ltio.Common.Bits.{bit_and_mask, bit_or_shift}
use ltio.BooleanIndexer.Ids.{gen_entry_id, is_exclude, get_conjunction_id, null_entry}

abbrev pub flag : Bool → ℕ
flag true = 0
flag false = 1

gen_entry_id-mod : (c : ℕ) (x : Bool) → gen_entry_id c x ≡ c * 2 ^ 4 % 2 ^ 64 + flag x
unfolding gen_entry_id
gen_entry_id-mod c true = omega arith
gen_entry_id-mod c false =
    ap (λ t. bit_or t 1) sixteenths ∙ bit_or_shift 4 _ 1 (omega arith) ∙ omega arith
  where
    sixteenths : c * 2 ^ 4 % 2 ^ 64 ≡ c * 2 ^ 4 % 2 ^ 64 / 2 ^ 4 * 2 ^ 4
    sixteenths = omega arith

pub gen_entry_id-sum : (c : ℕ) (x : Bool) → c < 2 ^ 60 → gen_entry_id c x ≡ c * 16 + flag x
gen_entry_id-sum c x h = omega (arith, gen_entry_id-mod c x)

-- No entry is NULLENTRY, whatever the conjunction.
pub gen_entry_id-lt-null_entry : (c : ℕ) (x : Bool) → gen_entry_id c x < null_entry
gen_entry_id-lt-null_entry c true = omega (arith, gen_entry_id-mod c true)
gen_entry_id-lt-null_entry c false = omega (arith, gen_entry_id-mod c false)

-- An entry of a conjunction below 2 ^ 60 gives back the conjunction and the sign.
pub entry_id_roundtrip :
    (c : ℕ) (x : Bool)
    → c < 2 ^ 60
    → (get_conjunction_id (gen_entry_id c x) ≡ c) × (is_exclude (gen_entry_id c x) ≡ x)
unfolding get_conjunction_id is_exclude
entry_id_roundtrip c true h = (
  omega (arith, gen_entry_id-sum c true h),
  ground (arith, bit_and_mask 1 (gen_entry_id c true), gen_entry_id-sum c true h),
)
entry_id_roundtrip c false h = (
  omega (arith, gen_entry_id-sum c false h),
  ground (arith, bit_and_mask 1 (gen_entry_id c false), gen_entry_id-sum c false h),
)

-- Entries are ordered by conjunction, and the exclusion of a conjunction comes before its
-- inclusion.
pub gen_entry_id-lt_iff :
    (c d : ℕ) (x y : Bool)
    → c < 2 ^ 60
    → d < 2 ^ 60
    → (gen_entry_id c x < gen_entry_id d y) ↔ (c * 2 + flag x < d * 2 + flag y)
gen_entry_id-lt_iff c d true true hc hd =
    omega (arith, gen_entry_id-sum c true hc, gen_entry_id-sum d true hd)
gen_entry_id-lt_iff c d true false hc hd =
    omega (arith, gen_entry_id-sum c true hc, gen_entry_id-sum d false hd)
gen_entry_id-lt_iff c d false true hc hd =
    omega (arith, gen_entry_id-sum c false hc, gen_entry_id-sum d true hd)
gen_entry_id-lt_iff c d false false hc hd =
    omega (arith, gen_entry_id-sum c false hc, gen_entry_id-sum d false hd)
