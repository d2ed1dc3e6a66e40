-- ===== src/BooleanIndexer/Scanner.antt =====
-- components/boolean_indexer/index_scanner.{h,cc}: the scan of the field cursors of a query. `none` is
-- a read through a null pointer, a read outside a vector, or fuel that has run out. The options,
-- which the code does not look at, and the text of a result are left out.
pub mod Rounds
pub mod Steps
pub mod Total
pub mod Sound
pub mod Faults
pub mod Start
pub mod Retrieve
use ltio.Common.{
  ℕ, zero, suc, ◌+◌, ◌-◌, ◌%◌, Bool, true, false, List, [], ◌∷◌, ◌++◌, Option, none, some, ltb,
  ◌==◌, if◌then◌else◌, length, get_elem?,
}
use mathlib.Core.Option as Option
use ltio.Common.Text.{Str}
use ltio.Common.Int.{ℤ}
use ltio.Common.Sorting.{sort_by}
use ltio.BooleanIndexer.Ids.{
  word64, get_conjunction_id, get_conjunction_size, gen_entry_id, is_include, get_doc_id,
}
use ltio.BooleanIndexer.Field.{
  FieldCursor, empty_field_cursor, add_entries, initialize, get_cur_conj_id, field_reach_end,
  field_skip, field_skip_to,
}
use ltio.BooleanIndexer.Document.{AttrValues}
use ltio.BooleanIndexer.Parser.{Token, ExprParser, parse_query_assign}
use ltio.BooleanIndexer.Container.{FieldMeta, retrieve_entries}
use ltio.BooleanIndexer.Builder.{BooleanIndexer, get_meta, get_container, gen_wildcard_cursor}

-- `field_cursor->AddEntries(attr, entries)` for each list.
unfoldable pub add_lists : List (List ℕ) → FieldCursor → FieldCursor
add_lists [] fc = fc
add_lists (es ∷ ls) fc = add_lists ls (add_entries (some es) fc)

-- A field cursor that is not empty is initialized and appended.
unfoldable pub push_cursor : FieldCursor → List FieldCursor → Option (List FieldCursor)
push_cursor fc fcs = elim fc.cursors [
  | [] ↦ some fcs
  | _ ∷ _ ↦ Option.map (λ (f : FieldCursor). fcs ++ f ∷ []) (initialize fc)
]

-- The end of init_cursors: the cursor of the wildcard list.
unfoldable pub push_wildcard : BooleanIndexer → List FieldCursor → Option (List FieldCursor)
push_wildcard ix fcs = elim (gen_wildcard_cursor ix) [
  | none ↦ some fcs
  | some fc ↦ Option.map (λ (f : FieldCursor). fcs ++ f ∷ []) (initialize fc)
]

module _ (hasher : Str → ℕ) (ix : BooleanIndexer) where
  -- The body of the loop of init_cursors. The parser is read through `meta` before `meta` is
  -- compared with null.
  unfoldable pub init_cursor : AttrValues → List FieldCursor → Option (List FieldCursor)
  unfolding push_cursor add_lists
  init_cursor assign fcs = elim (get_meta assign.name ix) [
    | none ↦ none
    | some meta ↦ elim meta.parser [
      | none ↦ some fcs
      | some parser ↦ elim (get_container assign.name ix) [
        | none ↦ none
        | some c ↦
            let token = parse_query_assign hasher parser assign.values in
            if token.fail
            then some fcs
            else push_cursor (add_lists (retrieve_entries meta token c) empty_field_cursor) fcs
      ]
    ]
  ]

  unfoldable pub init_cursors : List AttrValues → List FieldCursor → Option (List FieldCursor)
  unfolding init_cursor push_wildcard
  init_cursors [] fcs = push_wildcard ix fcs
  init_cursors (q ∷ qs) fcs = elim (init_cursor q fcs) [
    | none ↦ none
    | some fcs' ↦ init_cursors qs fcs'
  ]

-- `while (!field_cursors.empty() && field_cursors.back()->ReachEnd()) field_cursors.pop_back()`.
unfoldable pub pop_ended : List FieldCursor → List FieldCursor
pop_ended [] = []
pop_ended (c ∷ cs) = elim (pop_ended cs) [
  | [] ↦ if field_reach_end c then [] else c ∷ []
  | d ∷ ds ↦ c ∷ d ∷ ds
]

-- Skip for the cursors from position k on, as long as they stand at the conjunction.
unfoldable pub skip_conjunction : ℕ → ℕ → List FieldCursor → Option (List FieldCursor)
skip_conjunction conj_id id [] = some []
skip_conjunction conj_id id (c ∷ cs) =
    let rest = skip_conjunction conj_id id cs in
    if conj_id == get_cur_conj_id c
    then elim (field_skip id c) [
      | none ↦ none
      | some c' ↦ Option.map (λ (r : List FieldCursor). c' ∷ r) rest
    ]
    else some (c ∷ cs)

-- The same from the front, past the first k cursors.
unfoldable pub skip_from : ℕ → ℕ → ℕ → List FieldCursor → Option (List FieldCursor)
unfolding skip_conjunction
skip_from zero conj_id id cs = skip_conjunction conj_id id cs
skip_from (suc k) conj_id id [] = some []
skip_from (suc k) conj_id id (c ∷ cs) =
    Option.map (λ (r : List FieldCursor). c ∷ r) (skip_from k conj_id id cs)

-- SkipTo for the first k cursors.
unfoldable pub skip_first : ℕ → ℕ → List FieldCursor → Option (List FieldCursor)
skip_first zero id cs = some cs
skip_first (suc k) id [] = none
skip_first (suc k) id (c ∷ cs) = elim (field_skip_to id c) [
  | none ↦ none
  | some c' ↦ Option.map (λ (r : List FieldCursor). c' ∷ r) (skip_first k id cs)
]

-- The number of cursors that have to agree; conjunctions of size 0 need the wildcard alone.
unfoldable pub needed : ℕ → ℕ
needed conj_id = let k = get_conjunction_size conj_id in if k == 0 then 1 else k

-- The last loop of a round, with the result so far.
unfoldable pub finish_round : ℕ → ℕ → List FieldCursor → List ℤ → Option (List FieldCursor × List ℤ)
unfolding skip_first
finish_round k next_eid cs result =
    Option.map (λ (r : List FieldCursor). (r, result)) (skip_first k next_eid cs)

-- What a round does after the test of k, by whether `end_conj_id == conj_id` and whether the entry
-- `eid` of the first cursor includes; `end_eid` is the entry of the k-th cursor.
unfoldable pub advance_by :
    Bool → Bool → ℕ → ℕ → ℕ → List FieldCursor → List ℤ → Option (List FieldCursor × List ℤ)
unfolding skip_from finish_round
advance_by false include k eid end_eid cs result =
    finish_round k (gen_entry_id (get_conjunction_id end_eid) true) cs result
advance_by true true k eid end_eid cs result =
    finish_round k ((end_eid + 1) % word64) cs (result ++ get_doc_id eid ∷ [])
advance_by true false k eid end_eid cs result =
    let next_eid = (end_eid + 1) % word64 in
    elim (skip_from k (get_conjunction_id eid) next_eid cs) [
      | none ↦ none
      | some cs' ↦ finish_round k next_eid cs' result
    ]

-- As in the code, `end_conj_id` comes from `eid`, and not from `end_eid`.
unfoldable pub advance : ℕ → ℕ → ℕ → List FieldCursor → List ℤ → Option (List FieldCursor × List ℤ)
unfolding advance_by
advance k eid end_eid cs result =
    let conj_id = get_conjunction_id eid in
    let end_conj_id = get_conjunction_id eid in
    advance_by (end_conj_id == conj_id) (is_include eid) k eid end_eid cs result

-- What is left after sorting and popping.
unfoldable pub live_cursors : List FieldCursor → List FieldCursor
unfolding pop_ended
live_cursors cs = pop_ended (sort_by (λ (c : FieldCursor). c.current_id) cs)

-- The rounds of Retrieve.
unfoldable pub scan : ℕ → List FieldCursor → List ℤ → Option (List ℤ)
scan zero cs result = none
scan (suc fuel) cs result = elim (live_cursors cs) [
  | [] ↦ some result
  | c ∷ live ↦
      let k = needed (get_conjunction_id c.current_id) in
      if ltb (suc (length live)) k then some result else elim (get_elem? (c ∷ live) (k - 1)) [
        | none ↦ none
        | some d ↦ elim (advance k c.current_id d.current_id (c ∷ live) result) [
          | none ↦ none
          | some (cs', result') ↦ scan fuel cs' result'
        ]
      ]
]

-- Retrieve.
unfoldable pub retrieve : (Str → ℕ) → ℕ → BooleanIndexer → List AttrValues → Option (List ℤ)
retrieve hasher fuel ix queries = elim (init_cursors hasher ix queries []) [
  | none ↦ none
  | some cs ↦ scan fuel cs []
]
