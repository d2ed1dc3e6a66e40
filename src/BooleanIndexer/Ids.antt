-- ===== src/BooleanIndexer/Ids.antt =====
-- components/boolean_indexer/id_generator.{h,cc}: the 64-bit packing of conjunction and entry
-- identifiers. A uint64_t is a native number below 2 ^ 64, and a left shift keeps its low 64 bits.
pub mod Packing
pub mod Entries
use ltio.Common.{
  ℕ, suc, ◌+◌, ◌*◌, ◌/◌, ◌%◌, ◌^◌, Bool, true, false, not, ltb, ◌==◌, if◌then◌else◌, bit_and,
  bit_or,
}
use ltio.Common.Int.{ℤ, pos, negsuc, neg_of_nat}

abbrev pub word64 : ℕ
word64 = 0x1_0000_0000_0000_0000

abbrev pub shl : ℕ → ℕ → ℕ
shl a k = a * 2 ^ k % word64

abbrev pub shr : ℕ → ℕ → ℕ
shr a k = a / 2 ^ k

-- NULLENTRY
abbrev pub null_entry : ℕ
null_entry = 0xffff_ffff_ffff_ffff

-- The sign bit and the magnitude of a document number.
unfoldable pub doc_bits : ℤ → ℕ
doc_bits (pos d) = d
doc_bits (negsuc d) = bit_or (2 ^ 43) (suc d)

-- `idx` and `size` are uint8_t: callers truncate.
unfoldable pub gen_conj_id : ℤ → ℕ → ℕ → ℕ
gen_conj_id doc idx size = bit_or (bit_or (shl size 52) (shl idx 44)) (doc_bits doc)

unfoldable pub get_document_id : ℕ → ℤ
get_document_id conj_id =
    let doc = bit_and conj_id 0x7ff_ffff_ffff in
    if bit_and (shr conj_id 43) 1 == 0 then pos doc else neg_of_nat doc

unfoldable pub get_index_in_doc : ℕ → ℕ
get_index_in_doc conj_id = bit_and (shr conj_id 44) 0xff

unfoldable pub get_conjunction_size : ℕ → ℕ
get_conjunction_size conj_id = bit_and (shr conj_id 52) 0xff

unfoldable pub gen_entry_id : ℕ → Bool → ℕ
gen_entry_id conj_id exclude =
    let entry_id = shl conj_id 4 in if exclude then entry_id else bit_or entry_id 1

unfoldable pub is_include : ℕ → Bool
is_include id = ltb 0 (bit_and id 1)

unfoldable pub is_exclude : ℕ → Bool
unfolding is_include
is_exclude id = not (is_include id)

unfoldable pub get_conjunction_id : ℕ → ℕ
get_conjunction_id id = shr id 4

unfoldable pub get_doc_id : ℕ → ℤ
get_doc_id id = get_document_id (get_conjunction_id id)

unfoldable pub get_conj_size : ℕ → ℕ
get_conj_size id = get_conjunction_size (get_conjunction_id id)
