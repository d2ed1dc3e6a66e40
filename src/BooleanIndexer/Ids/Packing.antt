-- ===== src/BooleanIndexer/Ids/Packing.antt =====
-- ConjUtil, id_generator.cc: packing a document number, an index and a size, and back.
use ltio.Common.{
  ℕ, suc, ◌+◌, ◌*◌, ◌/◌, ◌%◌, ◌^◌, ◌<◌, ◌≡◌, refl, ap, ◌∙◌, ◌==◌, if◌then◌else◌, arith, bit_and,
  bit_or,
}
use ltio.Common.Int.{ℤ, pos, negsuc, nat_abs, neg_of_nat}
use ltio.Common.Bits.{bit_and_mask, bit_or_shift}
use ltio.BooleanIndexer.Ids.{
  doc_bits, gen_conj_id, get_document_id, get_index_in_doc, get_conjunction_size,
}

-- The documents that 43 bits hold.
abbrev pub FitsDoc : ℤ → Type 0
FitsDoc doc = nat_abs doc < 2 ^ 43

abbrev pub sign_bit : ℤ → ℕ
sign_bit (pos d) = 0
sign_bit (negsuc d) = 1

doc_bits-sum : (doc : ℤ) → FitsDoc doc → doc_bits doc ≡ sign_bit doc * 2 ^ 43 + nat_abs doc
unfolding doc_bits
doc_bits-sum (pos d) h = omega arith
doc_bits-sum (negsuc d) h = bit_or_shift 43 1 (suc d) h

sign_bit-lt : (doc : ℤ) → sign_bit doc < 2
sign_bit-lt (pos d) = omega arith
sign_bit-lt (negsuc d) = omega arith

-- Shifting the two upper fields into place.
upper_fields :
    (idx size : ℕ)
    → idx < 256
    → size < 256
    → bit_or (size * 2 ^ 52 % 2 ^ 64) (idx * 2 ^ 44 % 2 ^ 64) ≡ (size * 256 + idx) * 2 ^ 44
upper_fields idx size hi hs =
    ap (λ t. bit_or t (idx * 2 ^ 44 % 2 ^ 64)) size_stays
    ∙ ap (bit_or (size * 2 ^ 52)) idx_stays
    ∙ bit_or_shift 52 size (idx * 2 ^ 44) (omega arith)
    ∙ omega arith
  where
    size_stays : size * 2 ^ 52 % 2 ^ 64 ≡ size * 2 ^ 52
    size_stays = omega arith

    idx_stays : idx * 2 ^ 44 % 2 ^ 64 ≡ idx * 2 ^ 44
    idx_stays = omega arith

module _ (doc : ℤ) (idx size : ℕ) (hd : FitsDoc doc) (hi : idx < 256) (hs : size < 256) where
  -- The fields do not overlap.
  pub gen_conj_id-sum :
      gen_conj_id doc idx size
      ≡ size * 2 ^ 52 + idx * 2 ^ 44 + (sign_bit doc * 2 ^ 43 + nat_abs doc)
  unfolding gen_conj_id
  gen_conj_id-sum =
      ap (λ t. bit_or t (doc_bits doc)) (upper_fields idx size hi hs)
      ∙ bit_or_shift 44 (size * 256 + idx) (doc_bits doc)
          (omega (arith, doc_bits-sum doc hd, sign_bit-lt doc))
      ∙ omega (arith, doc_bits-sum doc hd)

  pub gen_conj_id-lt : gen_conj_id doc idx size < 2 ^ 60
  gen_conj_id-lt = omega (arith, gen_conj_id-sum, sign_bit-lt doc)

  get_index_in_doc-gen_conj_id : get_index_in_doc (gen_conj_id doc idx size) ≡ idx
  unfolding get_index_in_doc
  get_index_in_doc-gen_conj_id = bit_and_mask 8 _ ∙ omega (arith, gen_conj_id-sum, sign_bit-lt doc)

  pub get_conjunction_size-gen_conj_id : get_conjunction_size (gen_conj_id doc idx size) ≡ size
  unfolding get_conjunction_size
  get_conjunction_size-gen_conj_id =
      bit_and_mask 8 _ ∙ omega (arith, gen_conj_id-sum, sign_bit-lt doc)

  magnitude : bit_and (gen_conj_id doc idx size) 0x7ff_ffff_ffff ≡ nat_abs doc
  magnitude = bit_and_mask 43 _ ∙ omega (arith, gen_conj_id-sum, sign_bit-lt doc)

  sign : bit_and (gen_conj_id doc idx size / 2 ^ 43) 1 ≡ sign_bit doc
  sign = bit_and_mask 1 _ ∙ omega (arith, gen_conj_id-sum, sign_bit-lt doc)

signed_doc :
    (doc : ℤ) → (if sign_bit doc == 0 then pos (nat_abs doc) else neg_of_nat (nat_abs doc)) ≡ doc
signed_doc (pos d) = refl
signed_doc (negsuc d) = refl

-- Every identifier built from a document that fits 43 bits, an index and a size that fit a byte
-- gives back all three, and leaves the four upper bits empty.
pub conj_id_roundtrip :
    (doc : ℤ) (idx size : ℕ)
    → FitsDoc doc
    → idx < 256
    → size < 256
    → (get_document_id (gen_conj_id doc idx size) ≡ doc)
      × (get_index_in_doc (gen_conj_id doc idx size) ≡ idx)
      × (get_conjunction_size (gen_conj_id doc idx size) ≡ size)
      × (gen_conj_id doc idx size < 2 ^ 60)
unfolding get_document_id
conj_id_roundtrip doc idx size hd hi hs = (
  rw (magnitude doc idx size hd hi hs, sign doc idx size hd hi hs) (signed_doc doc),
  get_index_in_doc-gen_conj_id doc idx size hd hi hs,
  get_conjunction_size-gen_conj_id doc idx size hd hi hs,
  gen_conj_id-lt doc idx size hd hi hs,
)

-- Identifiers are ordered by the conjunction's size first, which the scan relies on.
pub gen_conj_id-size_lt :
    (doc doc' : ℤ) (idx idx' size size' : ℕ)
    → FitsDoc doc
    → FitsDoc doc'
    → idx < 256
    → idx' < 256
    → size < size'
    → size' < 256
    → gen_conj_id doc idx size < gen_conj_id doc' idx' size'
gen_conj_id-size_lt doc doc' idx idx' size size' hd hd' hi hi' lt hs = omega (
  arith,
  gen_conj_id-sum doc idx size hd hi (omega arith),
  gen_conj_id-sum doc' idx' size' hd' hi' hs,
  sign_bit-lt doc,
  sign_bit-lt doc',
)
