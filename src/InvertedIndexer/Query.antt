-- ===== src/InvertedIndexer/Query.antt =====
-- GeneralStrField and Indexer, posting_field/{field,general_str_field}.{h,cc} and indexer.{h,cc}: documents
-- added, bitmaps built, and queries. A map is a list in the order of its keys. The registered fields
-- are those of RegisterGeneralStrField. `none` is a CHECK that fails or a null pointer that is read.
pub mod Answer
pub mod Faults
use ltio.Common.{ℕ, Bool, true, false, List, [], ◌∷◌, ◌++◌, Option, none, some, if◌then◌else◌}
use mathlib.Core.Option as Option
use ltio.Common.Text.{Str}
use ltio.Common.OrdMap.{find, put}
use ltio.Common.Sorting.{sort_by}
use ltio.InvertedIndexer.Bitmap.{BitMapPostingList}
use ltio.InvertedIndexer.Manager.{
  PostingListManager, new_manager, set_sorted_indexed_ids, insert_id, build_posting_list,
}
use ltio.InvertedIndexer.Merger.{
  BitMapMerger, start_merger, end_merger, printed, calculate_merger_group,
}

pub record Field : Type 0 where
  pub wildcards_pl : Option BitMapPostingList
  pub include_pl : List (Str × BitMapPostingList)
  pub exclude_pl : List (Str × BitMapPostingList)

abbrev pub new_field : Field
new_field = record { wildcards_pl = none; include_pl = []; exclude_pl = [] }

-- ResolveValueWithPostingList.
unfoldable pub resolve_value : Str → Bool → BitMapPostingList → Field → Field
unfolding put
resolve_value v include pl f =
    if include
    then record f { include_pl = put v pl f.include_pl }
    else record f { exclude_pl = put v pl f.exclude_pl }

-- GetIncludeBitmap and GetExcludeBitmap.
unfoldable pub get_bitmap : Str → List (Str × BitMapPostingList) → List BitMapPostingList
unfolding find
get_bitmap v table = elim (find v table) [ none ↦ [] | some pl ↦ pl ∷ [] ]

pub record FieldEntity : Type 0 where
  pub wildcard_ids : List ℕ
  pub include_ids : List (Str × List ℕ)
  pub exclude_ids : List (Str × List ℕ)

abbrev pub new_entity : FieldEntity
new_entity = record { wildcard_ids = []; include_ids = []; exclude_ids = [] }

unfoldable pub add_wildcards_id : ℕ → FieldEntity → FieldEntity
unfolding insert_id
add_wildcards_id id e = record e { wildcard_ids = insert_id id e.wildcard_ids }

-- ids[put].insert(id).
unfoldable pub insert_at : Str → ℕ → List (Str × List ℕ) → List (Str × List ℕ)
unfolding find put insert_id
insert_at v id table =
    put v (insert_id id (elim (find v table) [ none ↦ [] | some ids ↦ ids ])) table

unfoldable pub add_id_for_assign : Str → Bool → ℕ → FieldEntity → FieldEntity
unfolding insert_at
add_id_for_assign v exclude id e =
    if exclude
    then record e { exclude_ids = insert_at v id e.exclude_ids }
    else record e { include_ids = insert_at v id e.include_ids }

pub record Expression : Type 0 where
  pub exclude : Bool
  pub values : List Str

pub record Document : Type 0 where
  pub document_id : ℕ
  pub conditions : List (Str × Expression)

pub record Indexer : Type 0 where
  pub fields : List Str
  pub build_finished : Bool
  pub all_document_ids : List ℕ
  pub all_documents : List Document
  pub field_entitys : List (Str × FieldEntity)
  pub manager : PostingListManager
  pub indexer_table : List (Str × Field)

abbrev pub new_indexer : List Str → Indexer
new_indexer fields = record {
  fields = fields;
  build_finished = false;
  all_document_ids = [];
  all_documents = [];
  field_entitys = [];
  manager = new_manager;
  indexer_table = [];
}

-- The body of the loop of AddDocument, for one field's expression.
unfoldable pub add_values : List Str → Bool → ℕ → FieldEntity → FieldEntity
unfolding add_id_for_assign
add_values [] exclude id e = e
add_values (v ∷ vs) exclude id e = add_values vs exclude id (add_id_for_assign v exclude id e)

unfoldable pub index_expression : Option Expression → ℕ → FieldEntity → FieldEntity
unfolding add_wildcards_id add_values
index_expression none id e = add_wildcards_id id e
index_expression (some expression) id e = elim expression.values [
  | [] ↦ add_wildcards_id id e
  | _ ∷ _ ↦
      let e' = add_values expression.values expression.exclude id e in
      if expression.exclude then add_wildcards_id id e' else e'
]

abbrev pub entity_of : Str → List (Str × FieldEntity) → FieldEntity
entity_of name table = elim (find name table) [ none ↦ new_entity | some e ↦ e ]

unfoldable pub index_fields :
    List Str → Document → List (Str × FieldEntity) → List (Str × FieldEntity)
unfolding index_expression find put
index_fields [] document table = table
index_fields (name ∷ names) document table = index_fields names document (
    put name
      (index_expression (find name document.conditions) document.document_id (entity_of name table))
      table)

unfoldable pub add_document : Document → Indexer → Indexer
unfolding index_fields insert_id
add_document document ix = if ix.build_finished then ix else record ix {
  all_documents = ix.all_documents ++ document ∷ [];
  all_document_ids = insert_id document.document_id ix.all_document_ids;
  field_entitys = index_fields ix.fields document ix.field_entitys;
}

module _ (crc64 : List ℕ → ℕ) where
  -- The loops of BuildIndexer over the values of a field. CHECK refuses a null bitmap.
  unfoldable pub build_values :
      Bool → List (Str × List ℕ) → PostingListManager → Field → Option (PostingListManager × Field)
  unfolding build_posting_list resolve_value
  build_values include [] m f = some (m, f)
  build_values include ((v, []) ∷ table) m f = build_values include table m f
  build_values include ((v, id ∷ ids) ∷ table) m f = elim (build_posting_list crc64 (id ∷ ids) m) [
    | none ↦ none
    | some r ↦ elim r.0 [
      | none ↦ none
      | some pl ↦ build_values include table r.1 (resolve_value v include pl f)
    ]
  ]

  unfoldable pub build_field :
      FieldEntity → PostingListManager → Field → Option (PostingListManager × Field)
  unfolding build_posting_list build_values
  build_field e m f = elim (build_posting_list crc64 e.wildcard_ids m) [
    | none ↦ none
    | some r ↦ elim (build_values true e.include_ids r.1 (record f { wildcards_pl = r.0 })) [
      | none ↦ none
      | some s ↦ build_values false e.exclude_ids s.0 s.1
    ]
  ]

  -- GetPostingListField makes a field that is not there.
  unfoldable pub build_fields : List Str → Indexer → Option Indexer
  unfolding build_field find put
  build_fields [] ix = some ix
  build_fields (name ∷ names) ix =
      let f : Field = elim (find name ix.indexer_table) [ none ↦ new_field | some f ↦ f ] in
      elim (build_field (entity_of name ix.field_entitys) ix.manager f) [
        | none ↦ none
        | some r ↦
            build_fields names
              (record ix { manager = r.0; indexer_table = put name r.1 ix.indexer_table })
      ]

  unfoldable pub build_indexer : Indexer → Option Indexer
  unfolding build_fields set_sorted_indexed_ids
  build_indexer ix =
      if ix.build_finished
      then some ix
      else (let sorted : Indexer = record ix {
        manager = set_sorted_indexed_ids (sort_by (λ id. id) ix.all_document_ids) ix.manager;
      } in
          Option.map (λ (ix' : Indexer). record ix' { build_finished = true })
            (build_fields ix.fields sorted))

-- The bitmaps of the values of a query, each printed first.
unfoldable pub print_all :
    {A : Type 0} → PostingListManager → List BitMapPostingList → Option A → Option A
unfolding printed
print_all m [] next = next
print_all m (pl ∷ pls) next = printed m (some pl) (print_all m pls next)

unfoldable pub collect_values :
    PostingListManager → Field → List Str → Option (List BitMapPostingList × List BitMapPostingList)
unfolding get_bitmap print_all
collect_values m f [] = some ([], [])
collect_values m f (v ∷ vs) =
    let includes = get_bitmap v f.include_pl in
    let excludes = get_bitmap v f.exclude_pl in
    print_all m includes (
      print_all m excludes
        (Option.map (λ r. (includes ++ r.0, excludes ++ r.1)) (collect_values m f vs)))

-- The body of the loop of UnifyQuery, with the query's values for the field, if it has any.
unfoldable pub unify_field :
    PostingListManager → Field → Option (List Str) → BitMapMerger → Option BitMapMerger
unfolding calculate_merger_group collect_values printed
unify_field m f none merger =
    calculate_merger_group m
      (record { includes = []; excludes = []; wildcards = f.wildcards_pl ∷ [] }) merger
unify_field m f (some vs) merger = elim (collect_values m f vs) [
  | none ↦ none
  | some r ↦ printed m f.wildcards_pl (
      calculate_merger_group m
        (record { includes = r.0; excludes = r.1; wildcards = f.wildcards_pl ∷ [] }) merger)
]

unfoldable pub unify_fields :
    PostingListManager
    → List (Str × Field)
    → List (Str × List Str)
    → BitMapMerger
    → Option BitMapMerger
unfolding unify_field printed find
unify_fields m [] query merger = some merger
unify_fields m ((name, f) ∷ table) query merger = elim (unify_field m f (find name query) merger) [
  | none ↦ none
  | some merger' ↦ printed m (some merger'.result_pl) (unify_fields m table query merger')
]

unfoldable pub unify_query : List (Str × List Str) → Indexer → Option (List ℕ)
unfolding start_merger end_merger unify_fields printed
unify_query query ix =
    let merger = start_merger ix.manager in
    printed ix.manager (some merger.result_pl)
      (elim (unify_fields ix.manager ix.indexer_table query merger) [
        | none ↦ none
        | some merger' ↦ end_merger ix.manager merger'
      ])
