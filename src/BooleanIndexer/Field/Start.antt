-- ===== src/BooleanIndexer/Field/Start.antt =====
-- FieldCursor::Initialize, scanner_cursor.cc, on lists of a complete index.
use ltio.Common.{
  ℕ, ◌≤◌, ◌<◌, ◌≡◌, refl, ap, ◌∙◌, List, [], ◌∷◌, Option, some, length, arith, inl, inr,
}
use native.Mathlib.Nat.{zero-add}
use ltio.BooleanIndexer.Ids.{null_entry}
use ltio.BooleanIndexer.Cursor.{EntriesCursor, entries_cursor, get_cur_entry_id}
use ltio.BooleanIndexer.Cursor.Seek.{at, IsSorted}
use ltio.BooleanIndexer.Cursor.Skip.{IsPlaced}
use ltio.BooleanIndexer.Field.{FieldCursor, pick_least, initialize}
use ltio.BooleanIndexer.Field.Least.{Every, pick_least-Least, IsReady}

-- A posting list as the index keeps it once it is complete.
pub record IsIndexed (ids : List ℕ) : Type 0 where
  pub sorted : IsSorted ids
  pub words : (i : ℕ) → at ids i ≤ null_entry

pub entries_cursor-IsPlaced : (ids : List ℕ) → IsIndexed ids → IsPlaced (entries_cursor ids)
unfolding entries_cursor
entries_cursor-IsPlaced ids h = record { sorted = h.sorted; inside = omega arith; words = h.words }

-- What pick_least makes of the first cursor.
module _ (c : EntriesCursor) (cs : List EntriesCursor) (placed : Every IsPlaced (c ∷ cs)) where
  started : Option ℕ × ℕ
  started = pick_least (c ∷ cs) 0 (some 0) (get_cur_entry_id c)

  started-IsReady :
      IsReady (record { current_id = started.1; current = started.0; cursors = c ∷ cs })
  unfolding started
  started-IsReady =
      let l = pick_least-Least (c ∷ cs) 0 (some 0) (get_cur_entry_id c) in
      record {
        placed = placed;
        least = l.le_all;
        stands = elim l.found [
          | inl (e, m) ↦ (0, c, e, refl, m)
          | inr (j, d, e, g, m) ↦ (j, d, e ∙ ap some (zero-add j), g, m)
        ];
      }

initialize_cursors :
    (cs : List EntriesCursor) (fc : FieldCursor)
    → fc.cursors ≡ cs
    → Every IsPlaced cs
    → 0 < length cs
    → (fc' : FieldCursor) × (initialize fc ≡ some fc') × IsReady fc' × (fc'.cursors ≡ cs)
unfolding initialize started
initialize_cursors [] fc e p h = absurd (omega arith)
initialize_cursors (c ∷ cs) fc e p h = (
  record { current_id = (started c cs p).1; current = (started c cs p).0; cursors = c ∷ cs },
  rw (e, initialize, e),
  started-IsReady c cs p,
  refl,
)

-- Initialize of a cursor with sorted lists, at least one, returns a ready cursor on the same lists.
pub initialize-IsReady :
    (fc : FieldCursor)
    → Every IsPlaced fc.cursors
    → 0 < length fc.cursors
    → (fc' : FieldCursor) × (initialize fc ≡ some fc') × IsReady fc' × (fc'.cursors ≡ fc.cursors)
initialize-IsReady fc p h = initialize_cursors fc.cursors fc refl p h
