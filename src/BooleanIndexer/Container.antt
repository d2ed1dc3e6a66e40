-- ===== src/BooleanIndexer/Container.antt =====
-- components/boolean_indexer/posting_list.h and common_container.{h,cc}: the posting lists of one
-- container, an unordered map from a field and a value to entries. Here the map is a list in the
-- order of first use, which nothing below depends on. `max_len_` and `sum_len_` are an int: fewer
-- than 2 ^ 31 entries are taken to be there. Printing is left out.
pub mod Postings
pub mod Compile
use ltio.Common.{
  ℕ, zero, suc, ◌+◌, ◌/◌, Bool, true, false, ◌&&◌, List, [], ◌∷◌, ◌++◌, Option, none, some, ltb,
  ◌==◌, if◌then◌else◌, length,
}
use ltio.Common.Text.{Str, str_eq}
use ltio.Common.Sorting.{sort_by}
use ltio.BooleanIndexer.Parser.{Token, ExprParser}

-- Attr.
pub record Attr : Type 0 where
  pub field : Str
  pub value : ℕ

unfoldable pub attr_eq : Attr → Attr → Bool
attr_eq a b = str_eq a.field b.field && (a.value == b.value)

abbrev pub PostingList : Type 0
PostingList = List (Attr × List ℕ)

-- A shared_ptr that may be null is an Option.
pub record FieldMeta : Type 0 where
  pub name : Str
  pub parser : Option ExprParser

pub record CommonContainer : Type 0 where
  pub max_len : ℕ
  pub sum_len : ℕ
  pub values : PostingList

abbrev pub empty_container : CommonContainer
empty_container = record { max_len = 0; sum_len = 0; values = [] }

-- `values_.find(attr)`.
unfoldable pub find_entries : Attr → PostingList → Option (List ℕ)
find_entries a [] = none
find_entries a ((b, es) ∷ m) = if attr_eq b a then some es else find_entries a m

-- `values_[attr].push_back(eid)`.
unfoldable pub push_entry : Attr → ℕ → PostingList → PostingList
push_entry a eid [] = (a, eid ∷ []) ∷ []
push_entry a eid ((b, es) ∷ m) =
    let rest = push_entry a eid m in if attr_eq b a then (b, es ++ eid ∷ []) ∷ m else (b, es) ∷ rest

unfoldable pub push_entries : Str → ℕ → List ℕ → PostingList → PostingList
unfolding push_entry
push_entries name eid [] m = m
push_entries name eid (v ∷ vs) m =
    push_entries name eid vs (push_entry (record { field = name; value = v }) eid m)

-- IndexingToken.
unfoldable pub indexing_token : FieldMeta → ℕ → Token → CommonContainer → Bool × CommonContainer
unfolding push_entries
indexing_token meta eid token c =
    if token.fail
    then (false, c)
    else (true, record c { values = push_entries meta.name eid token.values c.values })

unfoldable pub retrieve_values : Str → List ℕ → PostingList → List (List ℕ)
unfolding find_entries
retrieve_values name [] m = []
retrieve_values name (v ∷ vs) m =
    let rest = retrieve_values name vs m in
    elim (find_entries (record { field = name; value = v }) m) [ none ↦ rest | some es ↦ es ∷ rest ]

-- RetrieveEntries.
unfoldable pub retrieve_entries : FieldMeta → Token → CommonContainer → List (List ℕ)
unfolding retrieve_values
retrieve_entries meta token c = retrieve_values meta.name token.values c.values

-- One round of the loop of CompileEntries.
unfoldable pub compile_list : Attr × List ℕ → CommonContainer → CommonContainer
compile_list (a, es) c = record {
  max_len = if ltb c.max_len (length es) then length es else c.max_len;
  sum_len = c.sum_len + length es;
  values = c.values ++ (a, sort_by (λ e. e) es) ∷ [];
}

unfoldable pub compile_lists : PostingList → CommonContainer → CommonContainer
unfolding compile_list
compile_lists [] c = c
compile_lists (p ∷ m) c = compile_lists m (compile_list p c)

-- CompileEntries: the lists are sorted in place.
unfoldable pub compile_entries : CommonContainer → Bool × CommonContainer
unfolding compile_lists
compile_entries c = (true, compile_lists c.values (record c { values = [] }))

-- Size, and AvgEntriesLength, which divides by zero in an empty container.
unfoldable pub container_size : CommonContainer → ℕ
container_size c = length c.values

unfoldable pub avg_entries_length : CommonContainer → Option ℕ
unfolding container_size
avg_entries_length c = if container_size c == 0 then none else some (c.sum_len / container_size c)
