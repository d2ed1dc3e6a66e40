-- ===== src/BooleanIndexer/Tests/Cursors.antt =====
-- Cursors on small lists: components/boolean_indexer/scanner_cursor.cc.
use ltio.Common.{
  ℕ, zero, suc, ◌≤◌, ◌<◌, ◌≡◌, refl, List, [], ◌∷◌, some, none, arith, map, subst, some_inj,
}
use ltio.BooleanIndexer.Cursor.{EntriesCursor, get_cur_entry_id, linear_skip_to, skip_to}
use ltio.BooleanIndexer.Cursor.Seek.{at}
use ltio.BooleanIndexer.Cursor.Skip.{IsPlaced, below, skip_to-linear_skip_to, skip_to_first}
use ltio.BooleanIndexer.Field.{FieldCursor, field_skip_to}
use ltio.BooleanIndexer.Field.Least.{Every, IsReady}
use ltio.BooleanIndexer.Field.Merge.{LeastAhead, field_skip_to_least}
use ltio.BooleanIndexer.Field.Start.{IsIndexed}
use ltio.BooleanIndexer.Container.Compile.{sorted-IsIndexed}
use ltio.Common.Sorting.{sort_by, insert_by}

abbrev three : List ℕ
three = 3 ∷ 7 ∷ 9 ∷ []

three-IsIndexed : IsIndexed three
unfolding sort_by insert_by
three-IsIndexed = sorted-IsIndexed three (omega arith, (omega arith, (omega arith, tt)))

abbrev at_three : EntriesCursor
at_three = record { index = 0; id_list = three }

at_three-IsPlaced : IsPlaced at_three
at_three-IsPlaced = record {
  sorted = three-IsIndexed.sorted;
  inside = omega arith;
  words = three-IsIndexed.words;
}

skip_to-linear_skip_to_example : skip_to 5 at_three ≡ some (linear_skip_to 5 at_three)
skip_to-linear_skip_to_example = skip_to-linear_skip_to 5 at_three at_three-IsPlaced

skip_to_first_example :
    (c : EntriesCursor) × (skip_to 5 at_three ≡ some c)
    × (c.id_list ≡ three)
    × (0 ≤ c.index)
    × ((i : ℕ) → 0 ≤ i → i < c.index → at three i < 5)
    × (5 ≤ get_cur_entry_id c)
    × IsPlaced c
skip_to_first_example = skip_to_first 5 at_three at_three-IsPlaced (omega arith)

abbrev on_three : FieldCursor
on_three = record { current_id = 0; current = none; cursors = at_three ∷ at_three ∷ [] }

on_three-IsPlaced : Every IsPlaced on_three.cursors
on_three-IsPlaced zero c e = subst IsPlaced (some_inj e) at_three-IsPlaced
on_three-IsPlaced (suc zero) c e = subst IsPlaced (some_inj e) at_three-IsPlaced
on_three-IsPlaced (suc (suc j)) c e = cc

abbrev ready_three : FieldCursor
ready_three = record { current_id = 3; current = some 0; cursors = at_three ∷ at_three ∷ [] }

ready_three-IsReady : IsReady ready_three
unfolding get_cur_entry_id
ready_three-IsReady = record {
  placed = on_three-IsPlaced;
  least = least;
  stands = (0, at_three, refl, refl, refl);
}
  where
    least : Every (λ c. 3 ≤ get_cur_entry_id c) ready_three.cursors
    least zero c e =
        subst (λ (d : EntriesCursor). 3 ≤ get_cur_entry_id d) (some_inj e) (omega arith)
    least (suc zero) c e =
        subst (λ (d : EntriesCursor). 3 ≤ get_cur_entry_id d) (some_inj e) (omega arith)
    least (suc (suc j)) c e = cc

field_skip_to_least_example :
    (fc : FieldCursor) × (field_skip_to 5 ready_three ≡ some fc)
    × (fc.cursors ≡ map (linear_skip_to 5) ready_three.cursors)
    × IsReady fc
    × LeastAhead ready_three fc (below 5)
field_skip_to_least_example = field_skip_to_least 5 ready_three ready_three-IsReady
