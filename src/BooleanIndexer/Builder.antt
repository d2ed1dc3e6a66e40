-- ===== src/BooleanIndexer/Builder.antt =====
-- components/boolean_indexer/be_indexer.{h,cc} and builder/be_indexer_builder.{h,cc}: the index and
-- its construction. A container that is reached by a pointer is written back under its key. `none`
-- is a read through a null pointer or an end iterator.
pub mod Indexing
pub mod Complete
use ltio.Common.{
  ℕ, Bool, true, false, List, [], ◌∷◌, ◌++◌, Option, none, some, if◌then◌else◌, map, ◌==◌,
}
use mathlib.Core.Option as Option
use ltio.Common.Text.{Str, codes}
use ltio.Common.OrdMap.{find, insert, assign}
use ltio.Common.Sorting.{sort_by}
use ltio.BooleanIndexer.Ids.{gen_entry_id}
use ltio.BooleanIndexer.Field.{FieldCursor, empty_field_cursor, add_entries}
use ltio.BooleanIndexer.Document.{AttrValues, BooleanExpr, Conjunction, Document}
use ltio.BooleanIndexer.Parser.{Token, ExprParser, hasher_parser, parse_indexing}
use ltio.BooleanIndexer.Container.{
  FieldMeta, CommonContainer, empty_container, indexing_token, compile_entries,
}

pub record BooleanIndexer : Type 0 where
  pub wildcard_list : List ℕ
  pub field_meta : List (Str × FieldMeta)
  pub containers : List (Str × CommonContainer)

abbrev pub default_field_key : Str
default_field_key = codes "___default___"

-- The constructor.
abbrev pub empty_indexer : BooleanIndexer
empty_indexer = record {
  wildcard_list = [];
  field_meta = [];
  containers = (default_field_key, empty_container) ∷ [];
}

unfoldable pub add_wildcard_entry : ℕ → BooleanIndexer → BooleanIndexer
add_wildcard_entry conj_id ix = record ix {
  wildcard_list = ix.wildcard_list ++ gen_entry_id conj_id false ∷ [];
}

unfoldable pub get_meta : Str → BooleanIndexer → Option FieldMeta
get_meta field ix = find field ix.field_meta

unfoldable pub set_meta : Str → FieldMeta → BooleanIndexer → Bool × BooleanIndexer
set_meta field meta ix = elim (find field ix.field_meta) [
  | none ↦ (true, record ix { field_meta = insert field meta ix.field_meta })
  | some _ ↦ (false, ix)
]

-- GetContainer, as the key of the container.
unfoldable pub container_key : Str → BooleanIndexer → Str
container_key field ix = elim (find field ix.containers) [
  | some _ ↦ field
  | none ↦ default_field_key
]

unfoldable pub get_container : Str → BooleanIndexer → Option CommonContainer
unfolding container_key
get_container field ix = find (container_key field ix) ix.containers

-- CompileEntries of each container, up to the first that fails.
unfoldable pub compile_containers :
    List (Str × CommonContainer)
    → List (Str × CommonContainer)
    → Bool × List (Str × CommonContainer)
compile_containers [] done = (true, done)
compile_containers ((k, c) ∷ cs) done =
    let (ok, c') = compile_entries c in
    let rest = compile_containers cs (done ++ (k, c') ∷ []) in
    if ok then rest else (false, done ++ (k, c') ∷ cs)

unfoldable pub complete_index : BooleanIndexer → Bool × BooleanIndexer
unfolding compile_containers
complete_index ix =
    let (ok, cs) = compile_containers ix.containers [] in
    (ok, record ix { wildcard_list = sort_by (λ e. e) ix.wildcard_list; containers = cs })

-- A null pointer is `none`.
unfoldable pub gen_wildcard_cursor : BooleanIndexer → Option FieldCursor
gen_wildcard_cursor ix = elim ix.wildcard_list [
  | [] ↦ none
  | e ∷ es ↦ some (add_entries (some (e ∷ es)) empty_field_cursor)
]

pub record BeIndexerBuilder : Type 0 where
  pub indexer : BooleanIndexer
  pub default_parser : ExprParser

abbrev pub empty_builder : BeIndexerBuilder
empty_builder = record { indexer = empty_indexer; default_parser = hasher_parser }

unfoldable pub get_field_meta : Str → BeIndexerBuilder → FieldMeta × BeIndexerBuilder
unfolding get_meta set_meta
get_field_meta field b = elim (get_meta field b.indexer) [
  | some meta ↦ (meta, b)
  | none ↦
      let meta : FieldMeta = record { name = field; parser = some b.default_parser } in
      (meta, record b { indexer = (set_meta field meta b.indexer).1 })
]

-- How a loop of AddDocument goes on: to the next round, or out of the function.
pub data Flow : Type 0 where
  next : BeIndexerBuilder → Flow
  returned : BeIndexerBuilder → Flow

abbrev pub builder_of : Flow → BeIndexerBuilder
builder_of (next b) = b
builder_of (returned b) = b

-- The parsed token goes to the container of the field.
unfoldable pub index_token : Str → FieldMeta → ℕ → Token → BeIndexerBuilder → Option Flow
unfolding get_container
index_token field meta eid token b = elim (get_container field b.indexer) [
  | none ↦ none
  | some c ↦
      if token.fail
      then some (returned b)
      else some (
          next (record b {
            indexer = record b.indexer {
              containers =
                  assign (container_key field b.indexer) (indexing_token meta eid token c).1
                    b.indexer.containers;
            };
          }))
]

module _ (hasher : Str → ℕ) where
  -- The body of the inner loop.
  unfoldable pub index_expr : ℕ → Str × BooleanExpr → BeIndexerBuilder → Option Flow
  unfolding get_field_meta index_token
  index_expr conj_id (field, expr) b =
      let eid = gen_entry_id conj_id expr.exclude in
      let (meta, b') = get_field_meta field b in
      elim meta.parser [
        | none ↦ none
        | some p ↦ index_token field meta eid (parse_indexing hasher p expr.values) b'
      ]

  unfoldable pub index_exprs : ℕ → List (Str × BooleanExpr) → BeIndexerBuilder → Option Flow
  unfolding index_expr
  index_exprs conj_id [] b = some (next b)
  index_exprs conj_id (e ∷ es) b = elim (index_expr conj_id e b) [
    | none ↦ none
    | some (returned b') ↦ some (returned b')
    | some (next b') ↦ index_exprs conj_id es b'
  ]

  -- The body of the outer loop.
  unfoldable pub index_conjunction : Conjunction → BeIndexerBuilder → Option Flow
  unfolding add_wildcard_entry index_exprs
  index_conjunction conj b =
      let b' =
        if conj.size == 0
        then record b { indexer = add_wildcard_entry conj.con_id b.indexer }
        else b in
      index_exprs conj.con_id conj.assigns b'

  unfoldable pub index_conjunctions : List Conjunction → BeIndexerBuilder → Option Flow
  unfolding index_conjunction
  index_conjunctions [] b = some (next b)
  index_conjunctions (c ∷ cs) b = elim (index_conjunction c b) [
    | none ↦ none
    | some (returned b') ↦ some (returned b')
    | some (next b') ↦ index_conjunctions cs b'
  ]

  unfoldable pub add_document : Document → BeIndexerBuilder → Option BeIndexerBuilder
  unfolding index_conjunctions
  add_document doc b = Option.map builder_of (index_conjunctions doc.conjunctions b)

-- BuildIndexer; a null pointer is `none`.
unfoldable pub build_indexer : BeIndexerBuilder → Option BooleanIndexer
unfolding complete_index
build_indexer b = let (ok, ix) = complete_index b.indexer in if ok then some ix else none
