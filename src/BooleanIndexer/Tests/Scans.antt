-- ===== src/BooleanIndexer/Tests/Scans.antt =====
-- A small index, its construction and its scan: components/boolean_indexer/index_scanner.cc and
-- components/boolean_indexer/builder.
use ltio.Common.{
  ℕ, zero, suc, ◌≤◌, ◌<◌, ◌≡◌, refl, List, [], ◌∷◌, ◌++◌, some, none, arith, All, subst, some_inj,
}
use ltio.Common.Text.{str_eq}
use ltio.Common.Int.{ℤ}
use ltio.Common.OrdMap.{find}
use ltio.BooleanIndexer.Ids.{null_entry}
use ltio.BooleanIndexer.Cursor.{EntriesCursor, get_cur_entry_id}
use ltio.BooleanIndexer.Cursor.Seek.{at}
use ltio.BooleanIndexer.Field.{FieldCursor}
use ltio.BooleanIndexer.Field.Least.{Every, IsReady}
use ltio.BooleanIndexer.Cursor.Skip.{IsPlaced}
use ltio.BooleanIndexer.Field.Start.{IsIndexed}
use ltio.BooleanIndexer.Container.Compile.{sorted-IsIndexed}
use ltio.BooleanIndexer.Builder.{
  BooleanIndexer, BeIndexerBuilder, get_meta, add_document, build_indexer, empty_builder,
}
use ltio.BooleanIndexer.Builder.Indexing.{
  IsBuilding, add_document-IsBuilding, empty_builder-IsBuilding,
}
use ltio.BooleanIndexer.Builder.Complete.{
  IsComplete, Known, Reached, build_indexer-IsComplete, complete_retrieves,
}
use ltio.BooleanIndexer.Scanner.{init_cursors, scan, retrieve}
use ltio.BooleanIndexer.Scanner.Rounds.{AllReady, total_left}
use ltio.BooleanIndexer.Scanner.Sound.{Reported, scan_returns}
use ltio.BooleanIndexer.Scanner.Faults.{retrieve_unknown_field}
use ltio.Common.Sorting.{sort_by, insert_by}
use ltio.BooleanIndexer.Tests.Data.{
  size_hash, entry_five, entry_six, entry_one, two_conjunctions, age_meta, age_container, age_index,
  age_query, city_query,
}

one-IsIndexed : (e : ℕ) → e ≤ null_entry → IsIndexed (e ∷ [])
unfolding sort_by insert_by
one-IsIndexed e h = sorted-IsIndexed (e ∷ []) (h, tt)

add_document-IsBuilding_example :
    (b : BeIndexerBuilder) × (add_document size_hash two_conjunctions empty_builder ≡ some b)
    × IsBuilding b
add_document-IsBuilding_example =
    add_document-IsBuilding size_hash two_conjunctions empty_builder empty_builder-IsBuilding

build_indexer-IsComplete_example :
    (ix : BooleanIndexer) × (build_indexer
        (add_document-IsBuilding size_hash two_conjunctions empty_builder
          empty_builder-IsBuilding).0
      ≡ some ix)
    × IsComplete ix
build_indexer-IsComplete_example =
    build_indexer-IsComplete
      (add_document-IsBuilding size_hash two_conjunctions empty_builder empty_builder-IsBuilding).0
      (add_document-IsBuilding size_hash two_conjunctions empty_builder empty_builder-IsBuilding).2

age_index-IsComplete : IsComplete age_index
unfolding find str_eq sort_by
age_index-IsComplete = record {
  default_container = (age_container, refl);
  parsers = ((_, refl), tt);
  lists = ((one-IsIndexed entry_one (omega arith), tt), tt);
  wildcards = sorted-IsIndexed [] tt;
}

age-Known : Known size_hash age_index age_query
unfolding get_meta find str_eq
age-Known = (age_meta, refl)

complete_retrieves_example :
    (cs : List FieldCursor) × (init_cursors size_hash age_index (age_query ∷ []) [] ≡ some cs)
    × ((fuel : ℕ)
        → total_left cs < fuel
        → (docs : List ℤ) × (retrieve size_hash fuel age_index (age_query ∷ []) ≡ some docs)
          × All (Reported (Reached size_hash age_index (age_query ∷ []))) docs)
complete_retrieves_example =
    complete_retrieves size_hash age_index (age_query ∷ []) age_index-IsComplete (age-Known, tt)

unknown_city : get_meta city_query.name age_index ≡ none
unfolding get_meta find str_eq
unknown_city = refl

retrieve_unknown_field_example : retrieve size_hash 9 age_index (age_query ∷ city_query ∷ []) ≡ none
retrieve_unknown_field_example =
    retrieve_unknown_field size_hash 9 age_index (age_query ∷ []) [] city_query unknown_city

abbrev cursor_at : ℕ → FieldCursor
cursor_at e = record {
  current_id = e;
  current = some 0;
  cursors = record { index = 0; id_list = e ∷ [] } ∷ [];
}

Every-one : (P : EntriesCursor → Type 0) (c : EntriesCursor) → P c → Every P (c ∷ [])
Every-one P c p zero d e = subst P (some_inj e) p
Every-one P c p (suc j) d e = cc

cursor_at-IsReady : (e : ℕ) → e ≤ null_entry → IsReady (cursor_at e)
unfolding get_cur_entry_id
cursor_at-IsReady e h =
    let c : EntriesCursor = record { index = 0; id_list = e ∷ [] } in
    let one = one-IsIndexed e h in
    record {
      placed =
          Every-one IsPlaced c
            (record { sorted = one.sorted; inside = omega arith; words = one.words });
      least = Every-one (λ d. e ≤ get_cur_entry_id d) c (omega arith);
      stands = (0, c, refl, refl, refl);
    }

all_of_one : (e low : ℕ) → low ≤ e → (i : ℕ) → i < 1 → low ≤ at (e ∷ []) i
all_of_one e low h zero l = h
all_of_one e low h (suc i) l = absurd (omega arith)

abbrev five_and_six : List FieldCursor
five_and_six = cursor_at entry_five ∷ cursor_at entry_six ∷ []

five_and_six-AllReady : AllReady five_and_six
five_and_six-AllReady =
    (cursor_at-IsReady entry_five (omega arith), (cursor_at-IsReady entry_six (omega arith), tt))

scan_returns_example :
    (new : List ℤ) × (scan 9 five_and_six [] ≡ some ([] ++ new))
    × All (Reported (λ e. entry_five ≤ e)) new
scan_returns_example =
    scan_returns (λ e. entry_five ≤ e) 9 five_and_six [] five_and_six-AllReady
      (
        (all_of_one entry_five entry_five (omega arith), tt),
        ((all_of_one entry_six entry_five (omega arith), tt), tt),
      )
      (omega arith)
