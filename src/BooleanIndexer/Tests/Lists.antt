-- ===== src/BooleanIndexer/Tests/Lists.antt =====
-- Posting lists of one container: components/boolean_indexer/common_container.cc.
use ltio.Common.{◌≡◌, true, false, not, ◌||◌, [], ◌∷◌, ◌++◌, if◌then◌else◌}
use ltio.Common.Text.{str_eq}
use ltio.BooleanIndexer.Parser.{Token}
use ltio.BooleanIndexer.Container.{Attr, indexing_token}
use ltio.BooleanIndexer.Container.Postings.{postings, repeats, indexing_token-postings}
use ltio.BooleanIndexer.Tests.Data.{age, age_meta, age_container}

abbrev two_values : Token
two_values = record { fail = false; values = 2 ∷ 3 ∷ 2 ∷ [] }

abbrev age_two : Attr
age_two = record { field = age; value = 2 }

indexing_token-postings_example :
    ((indexing_token age_meta 33 two_values age_container).0 ≡ true)
    × (postings age_two (indexing_token age_meta 33 two_values age_container).1.values ≡ (
        if false || not (str_eq age age)
        then postings age_two age_container.values
        else postings age_two age_container.values ++ repeats 33 2 (2 ∷ 3 ∷ 2 ∷ [])))
indexing_token-postings_example =
    indexing_token-postings age_meta 33 two_values age_container age_two
