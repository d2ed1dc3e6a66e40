-- ===== src/InvertedIndexer/Query/Faults.antt =====
-- UnifyQuery, indexer.cc: indexes that no query can be put to.
use ltio.Common.{
  ℕ, ◌+◌, ◌/◌, ◌%◌, ◌≡◌, ap, ◌∙◌, Bool, true, false, ◌||◌, List, [], ◌∷◌, Option, none, some,
  length, arith, Option-cases, inl, inr, length-replicate,
}
use ltio.Common.Text.{Str}
use ltio.Common.OrdMap.{find}
use ltio.InvertedIndexer.Bitmap.{BitMapPostingList, new_bitmap, reset_bits}
use ltio.InvertedIndexer.Manager.{
  PostingListManager, create_merge_posting_list, get_ids_from_posting_list,
}
use ltio.InvertedIndexer.Manager.Ids.{get_ids_fails}
use ltio.InvertedIndexer.Merger.{
  BitMapMerger, start_merger, printed, union_all, union_wildcards, calculate_merger_group,
}
use ltio.InvertedIndexer.Query.{
  Field, Indexer, collect_values, unify_field, unify_fields, unify_query,
}

printed_none :
    {A : Type 0} (m : PostingListManager) (pl : Option BitMapPostingList)
    → ◌≡◌ {A = Option A} (printed m pl none) none
unfolding printed
printed_none m pl = elim (Option-cases (get_ids_from_posting_list pl m)) [
  | inl fails ↦ rw (printed, fails)
  | inr (ids, e) ↦ rw (printed, e)
]

-- UnifyQuery of any query fails, by a CHECK, in an index whose number of documents is a multiple of 64.
pub unify_query_full :
    (query : List (Str × List Str)) (ix : Indexer)
    → length ix.manager.sorted_doc_ids % 64 ≡ 0
    → unify_query query ix ≡ none
unfolding unify_query printed start_merger create_merge_posting_list new_bitmap
unify_query_full query ix whole =
    let words = (length ix.manager.sorted_doc_ids + 63) / 64 in
    let full =
      get_ids_fails (start_merger ix.manager).result_pl ix.manager
        (omega (arith, whole, length-replicate {A = ℕ} words 18446744073709551615)) in
    rw (unify_query, printed, full)

calculate_null :
    (m : PostingListManager) (includes excludes : List BitMapPostingList) (merger : BitMapMerger)
    → calculate_merger_group m
        (record { includes = includes; excludes = excludes; wildcards = none ∷ [] })
        merger
      ≡ none
unfolding calculate_merger_group union_wildcards
calculate_null m includes excludes merger =
    printed_none m (some (union_all includes (reset_bits merger.group_result_pl)))

unify_field_null :
    (m : PostingListManager) (f : Field) (q : Option (List Str)) (merger : BitMapMerger)
    → f.wildcards_pl ≡ none
    → unify_field m f q merger ≡ none
unfolding unify_field
unify_field_null m f none merger null = rw null (calculate_null m [] [] merger)
unify_field_null m f (some vs) merger null = elim (Option-cases (collect_values m f vs)) [
  | inl fails ↦ rw (unify_field, fails)
  | inr (r, e) ↦
      rw (unify_field, e, null)
        (ap (printed m none) (calculate_null m r.0 r.1 merger) ∙ printed_none m none)
]

-- Whether the wildcard of some field is null.
abbrev pub is_null : Option BitMapPostingList → Bool
is_null none = true
is_null (some pl) = false

abbrev pub any_null : List (Str × Field) → Bool
any_null [] = false
any_null ((name, f) ∷ table) = is_null f.wildcards_pl || any_null table

unify_fields_null :
    (m : PostingListManager) (table : List (Str × Field)) (query : List (Str × List Str))
    (merger : BitMapMerger)
    → any_null table ≡ true
    → unify_fields m table query merger ≡ none
unfolding unify_fields
unify_fields_null m [] query merger h = cc
unify_fields_null m ((name, f) ∷ table) query merger h = elim (Option-cases f.wildcards_pl) [
  | inl null ↦ let e = unify_field_null m f (find name query) merger null in rw (unify_fields, e)
  | inr (pl, there) ↦ elim (Option-cases (unify_field m f (find name query) merger)) [
    | inl fails ↦ rw (unify_fields, fails)
    | inr (merger', e) ↦
        let later : any_null table ≡ true = rw there at h in
        rw (unify_fields, e)
          (ap (printed m (some merger'.result_pl)) (unify_fields_null m table query merger' later)
            ∙ printed_none m (some merger'.result_pl))
  ]
]

-- UnifyQuery of any query fails in an index with a field whose wildcard is null: if it gets to that
-- field it reads through the null pointer, also where the query does not name the field.
pub unify_query_null :
    (query : List (Str × List Str)) (ix : Indexer)
    → any_null ix.indexer_table ≡ true
    → unify_query query ix ≡ none
unfolding unify_query
unify_query_null query ix h =
    rw
      (unify_query, unify_fields_null ix.manager ix.indexer_table query (start_merger ix.manager) h)
      (printed_none ix.manager (some (start_merger ix.manager).result_pl))
