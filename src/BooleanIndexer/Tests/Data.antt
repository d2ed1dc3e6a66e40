-- ===== src/BooleanIndexer/Tests/Data.antt =====
-- The data of the tests of components/boolean_indexer.
use ltio.Common.{ℕ, ◌+◌, Bool, true, false, [], ◌∷◌, some}
use ltio.Common.Text.{Str, codes}
use ltio.Common.Int.{pos}
use ltio.BooleanIndexer.Document.{AttrValues, BooleanExpr, Conjunction, Document}
use ltio.BooleanIndexer.Parser.{hasher_parser}
use ltio.BooleanIndexer.Container.{FieldMeta, CommonContainer}
use ltio.BooleanIndexer.Builder.{BooleanIndexer, default_field_key}

-- A stand-in for std::hash: the number of bytes.
abbrev pub size_hash : Str → ℕ
size_hash [] = 0
size_hash (c ∷ s) = size_hash s + 1

abbrev pub age : Str
age = codes "age"

abbrev pub city : Str
city = codes "city"

-- Two including entries of conjunctions of size 2, of documents 5 and 6, and one of size 1.
abbrev pub entry_five : ℕ
entry_five = 0x0200_0000_0000_0051

abbrev pub entry_six : ℕ
entry_six = 0x0200_0000_0000_0061

abbrev pub entry_one : ℕ
entry_one = 0x0100_0000_0000_0071

abbrev pub expression : Str → Bool → BooleanExpr
expression name exclude = record {
  attr = record { name = name; values = codes "20" ∷ [] };
  exclude = exclude;
}

abbrev pub one_expression : Conjunction
one_expression = record { size = 1; con_id = 0; assigns = (age, expression age false) ∷ [] }

abbrev pub only_excludes : Conjunction
only_excludes = record { size = 0; con_id = 0; assigns = (city, expression city true) ∷ [] }

abbrev pub two_conjunctions : Document
two_conjunctions = record { doc_id = pos 5; conjunctions = one_expression ∷ only_excludes ∷ [] }

abbrev pub age_meta : FieldMeta
age_meta = record { name = age; parser = some hasher_parser }

abbrev pub age_container : CommonContainer
age_container = record {
  max_len = 0;
  sum_len = 0;
  values = (record { field = age; value = 2 }, entry_one ∷ []) ∷ [];
}

abbrev pub age_index : BooleanIndexer
age_index = record {
  wildcard_list = [];
  field_meta = (age, age_meta) ∷ [];
  containers = (default_field_key, age_container) ∷ [];
}

abbrev pub age_query : AttrValues
age_query = record { name = age; values = codes "20" ∷ [] }

abbrev pub city_query : AttrValues
city_query = record { name = city; values = codes "rome" ∷ [] }
