-- ===== src/BooleanIndexer/Field.antt =====
-- components/boolean_indexer/scanner_cursor.{h,cc}, FieldCursor: the cursors of one field's values,
-- read as one merged list. `current_` is the position of a cursor in the vector, and null at first.
-- The pointer stays good since no cursor is added after Initialize.
pub mod Least
pub mod Merge
pub mod Start
use ltio.Common.{
  ℕ, zero, suc, ◌+◌, ltb, if◌then◌else◌, List, [], ◌∷◌, ◌++◌, Bool, true, false, leb, Option, none,
  some, length, get_elem?, ◌==◌,
}
use mathlib.Core.Option as Option
use ltio.BooleanIndexer.Ids.{null_entry, get_conjunction_id}
use ltio.BooleanIndexer.Cursor.{EntriesCursor, entries_cursor, get_cur_entry_id, skip, skip_to}

pub record FieldCursor : Type 0 where
  pub current_id : ℕ
  pub current : Option ℕ
  pub cursors : List EntriesCursor

-- The constructor.
abbrev pub empty_field_cursor : FieldCursor
empty_field_cursor = record { current_id = 0; current = none; cursors = [] }

-- AddEntries: a null list is passed over.
unfoldable pub add_entries : Option (List ℕ) → FieldCursor → FieldCursor
add_entries none fc = fc
add_entries (some ids) fc = record fc { cursors = fc.cursors ++ entries_cursor ids ∷ [] }

-- One pass of `if (id < current_id_)` over the cursors from position `i` on: the position and the
-- entry of the least so far.
unfoldable pub pick_least : List EntriesCursor → ℕ → Option ℕ → ℕ → Option ℕ × ℕ
pick_least [] i at least = (at, least)
pick_least (c ∷ cs) i at least =
    let id = get_cur_entry_id c in
    pick_least cs (i + 1) (if ltb id least then some i else at) (if ltb id least then id else least)

-- Initialize. `&cursors_[0]` of an empty vector is a fault, `none`.
unfoldable pub initialize : FieldCursor → Option FieldCursor
initialize fc = elim fc.cursors [
  | [] ↦ none
  | c ∷ cs ↦
      let (at, least) = pick_least (c ∷ cs) 0 (some 0) (get_cur_entry_id c) in
      some (record fc { current = at; current_id = least })
]

unfoldable pub get_cur_conj_id : FieldCursor → ℕ
get_cur_conj_id fc = get_conjunction_id fc.current_id

-- FieldCursor::ReachEnd.
unfoldable pub field_reach_end : FieldCursor → Bool
field_reach_end fc = fc.current_id == null_entry

-- The loop of Skip and SkipTo over the cursors from position `i` on: each is moved, and `at` becomes
-- the position of one whose entry improves on `min_id`. The result is the cursors and `current_`.
unfoldable pub move_loop :
    (EntriesCursor → Option EntriesCursor)
    → List EntriesCursor
    → ℕ
    → Option ℕ
    → ℕ
    → Option (List EntriesCursor × Option ℕ)
move_loop move [] i at min_id = some ([], at)
move_loop move (c ∷ cs) i at min_id = elim (move c) [
  | none ↦ none
  | some c' ↦
      let eid = get_cur_entry_id c' in
      Option.map (λ (r : List EntriesCursor × Option ℕ). (c' ∷ r.0, r.1))
        (move_loop move cs (i + 1) (if ltb eid min_id then some i else at)
          (if ltb eid min_id then eid else min_id))
]

-- `current_->GetCurEntryID()` at the end of Skip and SkipTo; a null `current_` is a fault.
unfoldable pub refresh : Option ℕ → List EntriesCursor → Option FieldCursor
refresh none cs = none
refresh (some i) cs =
    Option.map
      (λ (c : EntriesCursor). record {
        current_id = get_cur_entry_id c;
        current = some i;
        cursors = cs;
      })
      (get_elem? cs i)

-- The body that Skip and SkipTo share.
unfoldable pub move_field :
    (EntriesCursor → Option EntriesCursor) → FieldCursor → Option FieldCursor
move_field move fc = elim (move_loop move fc.cursors 0 fc.current null_entry) [
  | none ↦ none
  | some (cs, at) ↦ refresh at cs
]

-- FieldCursor::Skip and FieldCursor::SkipTo.
unfoldable pub field_skip : ℕ → FieldCursor → Option FieldCursor
unfolding move_field
field_skip id fc = move_field (skip id) fc

unfoldable pub field_skip_to : ℕ → FieldCursor → Option FieldCursor
unfolding move_field
field_skip_to id fc = move_field (skip_to id) fc
