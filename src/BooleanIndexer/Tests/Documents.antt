-- ===== src/BooleanIndexer/Tests/Documents.antt =====
-- Small conjunctions and documents: components/boolean_indexer/document.cc.
use ltio.Common.{suc, ◌≡◌, ◌≢◌, refl, true, false, [], ◌∷◌, some, arith, get_elem?}
use ltio.Common.Text.{str_eq, str_lt}
use ltio.Common.Int.{pos}
use ltio.Common.OrdMap.{find, insert, insert_new}
use ltio.BooleanIndexer.Document.{
  Conjunction, empty_conjunction, empty_document, add_expression, add_expressions, add_conjunctions,
}
use ltio.BooleanIndexer.Document.Sizes.{
  includes, add_expression_duplicate, Numbered, add_conjunctions-Numbered,
}
use ltio.BooleanIndexer.Tests.Data.{age, city, expression, one_expression, only_excludes}

abbrev both_fields : Conjunction
both_fields = record {
  size = 1;
  con_id = 0;
  assigns = (age, expression age false) ∷ (city, expression city true) ∷ [];
}

add_both :
    add_expressions false (expression city true ∷ expression age false ∷ []) empty_conjunction
    ≡ some both_fields
unfolding add_expressions add_expression find insert insert_new str_eq str_lt
add_both = refl

abbrev twice : Conjunction
twice = record one_expression { size = 2 }

find-age : find age one_expression.assigns ≡ some (expression age false)
unfolding find str_eq
find-age = refl

add_twice : add_expression true (expression age false) one_expression ≡ some twice
unfolding add_expression find insert str_eq
add_twice = refl

add_expression_duplicate_example :
    (twice.assigns ≡ one_expression.assigns)
    × (twice.size ≡ suc one_expression.size)
    × (twice.size ≢ includes twice.assigns)
add_expression_duplicate_example =
    add_expression_duplicate (expression age false) (expression age false) one_expression twice refl
      find-age refl add_twice

add_conjunctions-Numbered_example :
    (c : Conjunction) × (get_elem?
        (add_conjunctions
          (one_expression ∷ only_excludes ∷ [])
          (empty_document (pos 5))).conjunctions
        1
      ≡ some c)
    × Numbered (pos 5) 1 only_excludes c
add_conjunctions-Numbered_example =
    add_conjunctions-Numbered (one_expression ∷ only_excludes ∷ []) (pos 5) 1 only_excludes
      (omega arith) refl
