-- ===== src/InvertedIndexer/Tests.antt =====
-- Runs of the inverted indexer on three documents and one field: components/inverted_indexer.
use ltio.Common.{ℕ, ◌+◌, ◌≡◌, ◌↔◌, refl, true, false, List, [], ◌∷◌, none, some, get_elem?, arith}
use ltio.Common.Text.{Str, codes, str_eq, str_lt}
use ltio.Common.OrdMap.{find, put}
use ltio.Common.Sorting.{sort_by, insert_by}
use ltio.InvertedIndexer.Bitmap.{BitMapPostingList, zero_bytes, intersect_words}
use ltio.InvertedIndexer.Manager.{
  PostingListManager, bit_index, find_bitmap, build_posting_list, get_ids_from_posting_list,
}
use ltio.InvertedIndexer.Manager.Ids.{member}
use ltio.InvertedIndexer.Manager.Roundtrip.{posting_list_roundtrip}
use ltio.InvertedIndexer.Query.{
  new_field, Indexer, new_indexer, add_document, build_indexer, unify_query,
}
use ltio.InvertedIndexer.Query.Answer.{AllFit, all_want, words_for, unify_query_lem}
use ltio.InvertedIndexer.Query.Faults.{unify_query_full, unify_query_null}

abbrev sum : List ℕ → ℕ
sum [] = 0
sum (x ∷ xs) = x + sum xs

abbrev age : Str
age = codes "age"

-- 7 wants age 1, 5 any age, and 9 any but 1.
abbrev documents : Indexer
documents =
    add_document
      (record {
        document_id = 9;
        conditions = (age, record { exclude = true; values = codes "1" ∷ [] }) ∷ [];
      })
      (add_document (record { document_id = 5; conditions = [] })
        (add_document
          (record {
            document_id = 7;
            conditions = (age, record { exclude = false; values = codes "1" ∷ [] }) ∷ [];
          })
          (new_indexer (age ∷ []))))

abbrev built : Indexer
built = elim (build_indexer sum documents) [ none ↦ documents | some ix ↦ ix ]

query_one : unify_query ((age, codes "1" ∷ []) ∷ []) built ≡ some (5 ∷ 7 ∷ [])
unfolding unify_query build_indexer add_document find put str_eq str_lt sort_by
query_one = refl

-- A list that is longer loses the first bytes of the rest, one for each word.
intersect_tail : intersect_words (7 ∷ 65535 ∷ 65535 ∷ []) (3 ∷ []) ≡ 3 ∷ 0 ∷ 65535 ∷ []
unfolding intersect_words zero_bytes
intersect_tail = refl

abbrev three : PostingListManager
three = record { sorted_doc_ids = 5 ∷ 7 ∷ 9 ∷ []; ids_table = []; zeroed_ids = [] }

posting_list_roundtrip_example :
    (pl : BitMapPostingList) × (m' : PostingListManager) × (ids : List ℕ) × (build_posting_list sum
        (7 ∷ 5 ∷ [])
        three
      ≡ some (some pl, m'))
    × (get_ids_from_posting_list (some pl) three ≡ some ids)
    × ((id : ℕ) → (member id ids ≡ true) ↔ (member id (7 ∷ 5 ∷ []) ≡ true))
unfolding bit_index find_bitmap sort_by insert_by
posting_list_roundtrip_example =
    posting_list_roundtrip sum 7 (5 ∷ []) three
      ((omega arith, (omega arith, tt)), ((omega arith, tt), (tt, tt))) ((1, refl), ((0, refl), tt))
      refl (omega arith)

-- The index that `documents` builds.
abbrev hand_built : Indexer
hand_built = record {
  fields = age ∷ [];
  build_finished = true;
  all_document_ids = 5 ∷ 7 ∷ 9 ∷ [];
  all_documents = documents.all_documents;
  field_entitys = documents.field_entitys;
  manager = three;
  indexer_table =
      (
        age,
        record {
          wildcards_pl =
              some (record { id_count = 2; bit_count = 3; ids_bitmap = 11529215046068469760 ∷ [] });
          include_pl =
              (
                codes "1",
                record { id_count = 1; bit_count = 2; ids_bitmap = 4611686018427387904 ∷ [] },
              )
              ∷ [];
          exclude_pl =
              (
                codes "1",
                record { id_count = 1; bit_count = 3; ids_bitmap = 2305843009213693952 ∷ [] },
              )
              ∷ [];
        },
      )
      ∷ [];
}

hand_built-AllFit : AllFit (words_for three) hand_built.indexer_table
hand_built-AllFit = (
  record {
    wildcard = _;
    is_there = refl;
    wildcard_room = record { room = omega arith; short = omega arith };
    includes_room = (record { room = omega arith; short = omega arith }, tt);
    excludes_room = (record { room = omega arith; short = omega arith }, tt);
  },
  tt,
)

unify_query_lem_example :
    (ids : List ℕ) × (unify_query ((age, codes "1" ∷ []) ∷ []) hand_built ≡ some ids)
    × ((id : ℕ)
        → (member id ids ≡ true) ↔ (
            (i : ℕ) × (get_elem? hand_built.manager.sorted_doc_ids i ≡ some id)
            × (all_want hand_built.indexer_table ((age, codes "1" ∷ []) ∷ []) i ≡ true)))
unify_query_lem_example =
    unify_query_lem ((age, codes "1" ∷ []) ∷ []) hand_built (omega arith) hand_built-AllFit

unify_query_full_example : unify_query ((age, codes "1" ∷ []) ∷ []) (new_indexer (age ∷ [])) ≡ none
unify_query_full_example =
    unify_query_full ((age, codes "1" ∷ []) ∷ []) (new_indexer (age ∷ [])) refl

unify_query_null_example :
    unify_query [] (record (new_indexer (age ∷ [])) { indexer_table = (age, new_field) ∷ [] })
    ≡ none
unify_query_null_example =
    unify_query_null [] (record (new_indexer (age ∷ [])) { indexer_table = (age, new_field) ∷ [] })
      refl

-- An id that is not indexed is the document at position 0, if it is the last of its set, and later on.
unknown_last :
    build_posting_list sum (5 ∷ 8 ∷ []) three
    ≡ some (
      some (record { id_count = 2; bit_count = 1; ids_bitmap = 9223372036854775808 ∷ [] }),
      record {
        sorted_doc_ids = 5 ∷ 7 ∷ 9 ∷ [];
        ids_table =
            (13, record { id_count = 2; bit_count = 1; ids_bitmap = 9223372036854775808 ∷ [] })
            ∷ [];
        zeroed_ids = 8 ∷ [];
      },
    )
unfolding build_posting_list sort_by
unknown_last = refl
