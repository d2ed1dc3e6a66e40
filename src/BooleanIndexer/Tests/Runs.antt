-- ===== src/BooleanIndexer/Tests/Runs.antt =====
-- Whole runs of Retrieve, components/boolean_indexer/index_scanner.cc, on a small index.
use ltio.Common.{ℕ, ◌≡◌, refl, [], ◌∷◌, some}
use ltio.Common.Text.{str_eq}
use ltio.Common.Int.{pos}
use ltio.Common.OrdMap.{find}
use ltio.Common.Sorting.{sort_by, insert_by}
use ltio.BooleanIndexer.Ids.{
  get_conjunction_id, get_conjunction_size, get_doc_id, get_document_id, is_include, gen_entry_id,
}
use ltio.BooleanIndexer.Cursor.{
  entries_cursor, get_cur_entry_id, linear_loop, skip_loop, seek, skip_to,
}
use ltio.BooleanIndexer.Field.{
  FieldCursor, add_entries, pick_least, initialize, field_reach_end, move_loop, refresh, move_field,
  field_skip_to,
}
use ltio.BooleanIndexer.Parser.{push_value, parse_hashes, parse_query_assign}
use ltio.BooleanIndexer.Container.{attr_eq, find_entries, retrieve_values, retrieve_entries}
use ltio.BooleanIndexer.Builder.{get_meta, container_key, get_container, gen_wildcard_cursor}
use ltio.BooleanIndexer.Scanner.{
  add_lists, push_cursor, push_wildcard, init_cursor, init_cursors, pop_ended, skip_first, needed,
  finish_round, advance_by, advance, live_cursors, scan, retrieve,
}
use ltio.BooleanIndexer.Tests.Data.{size_hash, age_index, age_query, entry_five, entry_six}

-- The index has one entry under the value of the query, that of document 7.
retrieve_age : retrieve size_hash 9 age_index (age_query ∷ []) ≡ some (pos 7 ∷ [])
unfolding retrieve init_cursors init_cursor get_meta get_container container_key find str_eq
    parse_query_assign parse_hashes push_value retrieve_entries retrieve_values find_entries attr_eq
    add_lists add_entries entries_cursor push_cursor initialize pick_least get_cur_entry_id
    push_wildcard gen_wildcard_cursor scan live_cursors pop_ended field_reach_end sort_by insert_by
    needed get_conjunction_id get_conjunction_size advance advance_by is_include get_doc_id
    get_document_id finish_round skip_first field_skip_to move_field move_loop skip_to seek
    skip_loop linear_loop refresh gen_entry_id
retrieve_age = refl

abbrev cursor_at : ℕ → FieldCursor
cursor_at e = record {
  current_id = e;
  current = some 0;
  cursors = record { index = 0; id_list = e ∷ [] } ∷ [];
}

-- Two fields that stand at conjunctions of size 2 of two documents: neither conjunction has both
-- fields, and the scan reports the first document.
scan_unmatched : scan 9 (cursor_at entry_five ∷ cursor_at entry_six ∷ []) [] ≡ some (pos 5 ∷ [])
unfolding get_cur_entry_id scan live_cursors pop_ended field_reach_end sort_by insert_by needed
    get_conjunction_id get_conjunction_size advance advance_by is_include get_doc_id get_document_id
    finish_round skip_first field_skip_to move_field move_loop skip_to seek skip_loop linear_loop
    refresh gen_entry_id
scan_unmatched = refl
