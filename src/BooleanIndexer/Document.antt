-- ===== src/BooleanIndexer/Document.antt =====
-- components/boolean_indexer/document.{h,cc}: expressions, conjunctions and documents. A document
-- owns its conjunctions, so each pointer in it is a value here. Printing is left out.
pub mod Sizes
use ltio.Common.{
  ℕ, suc, ◌+◌, ◌%◌, Bool, true, false, List, [], ◌∷◌, ◌++◌, Option, none, some, length,
  if◌then◌else◌,
}
use ltio.Common.Int.{ℤ, pos}
use ltio.Common.Text.{Str}
use ltio.Common.OrdMap.{find, insert, set_insert, set_of}
use ltio.BooleanIndexer.Ids.{gen_conj_id}

-- AttrValues; the values are a std::set.
pub record AttrValues : Type 0 where
  pub name : Str
  pub values : List Str

unfoldable pub attr_values : Str → List Str → AttrValues
attr_values name values = record { name = name; values = set_of values [] }

unfoldable pub append_value : Str → AttrValues → AttrValues
append_value v a = record a { values = set_insert v a.values }

unfoldable pub append_values : List Str → AttrValues → AttrValues
append_values vs a = record a { values = set_of vs a.values }

unfoldable pub set_value : List Str → AttrValues → AttrValues
unfolding append_values
set_value vs a = append_values vs (record a { values = [] })

pub record BooleanExpr : Type 0 where
  pub attr : AttrValues
  pub open attr use *
  pub exclude : Bool

unfoldable pub boolean_expr : Str → List Str → Bool → BooleanExpr
unfolding attr_values
boolean_expr name values exclude = record { attr = attr_values name values; exclude = exclude }

pub record Conjunction : Type 0 where
  pub size : ℕ
  pub con_id : ℕ
  pub assigns : List (Str × BooleanExpr)

abbrev pub empty_conjunction : Conjunction
empty_conjunction = record { size = 0; con_id = 0; assigns = [] }

unfoldable pub set_conjunction_id : ℕ → Conjunction → Conjunction
set_conjunction_id id c = record c { con_id = id }

-- AddExpression. `assert(result.second)` ends the program, `none`, on a name that is there, unless
-- the build defines NDEBUG.
unfoldable pub add_expression : Bool → BooleanExpr → Conjunction → Option Conjunction
add_expression ndebug expr c =
    let added = some (record c {
      assigns = insert expr.name expr c.assigns;
      size = c.size + (if expr.exclude then 0 else 1);
    }) in
    elim (find expr.name c.assigns) [ none ↦ added | some _ ↦ if ndebug then added else none ]

unfoldable pub add_expressions : Bool → List BooleanExpr → Conjunction → Option Conjunction
unfolding add_expression
add_expressions ndebug [] c = some c
add_expressions ndebug (e ∷ es) c = elim (add_expression ndebug e c) [
  | none ↦ none
  | some c' ↦ add_expressions ndebug es c'
]

-- Conjunction::Include and Conjunction::Exclude.
unfoldable pub include_values : Bool → Str → List Str → Conjunction → Option Conjunction
unfolding boolean_expr add_expression
include_values ndebug field values c = add_expression ndebug (boolean_expr field values false) c

unfoldable pub exclude_values : Bool → Str → List Str → Conjunction → Option Conjunction
unfolding boolean_expr add_expression
exclude_values ndebug field values c = add_expression ndebug (boolean_expr field values true) c

pub record Document : Type 0 where
  pub doc_id : ℤ
  pub conjunctions : List Conjunction

abbrev pub empty_document : ℤ → Document
empty_document doc_id = record { doc_id = doc_id; conjunctions = [] }

-- AddConjunction; the index and the size are cut to a byte by the call of GenConjID.
unfoldable pub add_conjunction : Conjunction → Document → Document
unfolding set_conjunction_id
add_conjunction con doc =
    let conj_id = gen_conj_id doc.doc_id (length doc.conjunctions % 256) (con.size % 256) in
    record doc { conjunctions = doc.conjunctions ++ set_conjunction_id conj_id con ∷ [] }

unfoldable pub add_conjunctions : List Conjunction → Document → Document
unfolding add_conjunction
add_conjunctions [] doc = doc
add_conjunctions (c ∷ cs) doc = add_conjunctions cs (add_conjunction c doc)

-- The moved-from document of the move assignment.
unfoldable pub moved_from : Document → Document
moved_from doc = record { doc_id = pos 0; conjunctions = [] }
