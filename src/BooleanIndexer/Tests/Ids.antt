-- ===== src/BooleanIndexer/Tests/Ids.antt =====
-- Identifiers of small documents: components/boolean_indexer/id_generator.cc.
use ltio.Common.{◌*◌, ◌^◌, ◌+◌, ◌<◌, ◌≡◌, refl, true, arith}
use ltio.Common.Int.{pos, negsuc}
use ltio.BooleanIndexer.Ids.{
  doc_bits, gen_conj_id, gen_entry_id, get_conjunction_id, get_document_id, get_index_in_doc,
  get_conjunction_size, is_exclude,
}
use ltio.BooleanIndexer.Ids.Packing.{conj_id_roundtrip}
use ltio.BooleanIndexer.Ids.Entries.{entry_id_roundtrip}

gen_conj_id_test : gen_conj_id (pos 5) 1 2 ≡ 2 * 2 ^ 52 + 2 ^ 44 + 5
unfolding gen_conj_id doc_bits
gen_conj_id_test = refl

conj_id_roundtrip_example :
    (get_document_id (gen_conj_id (negsuc 6) 1 2) ≡ negsuc 6)
    × (get_index_in_doc (gen_conj_id (negsuc 6) 1 2) ≡ 1)
    × (get_conjunction_size (gen_conj_id (negsuc 6) 1 2) ≡ 2)
    × (gen_conj_id (negsuc 6) 1 2 < 2 ^ 60)
conj_id_roundtrip_example =
    conj_id_roundtrip (negsuc 6) 1 2 (omega arith) (omega arith) (omega arith)

entry_id_roundtrip_example :
    (get_conjunction_id (gen_entry_id 7 true) ≡ 7) × (is_exclude (gen_entry_id 7 true) ≡ true)
entry_id_roundtrip_example = entry_id_roundtrip 7 true (omega arith)
