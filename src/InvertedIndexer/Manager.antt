-- ===== src/InvertedIndexer/Manager.antt =====
-- PostingListManager, posting_field/posting_list_manager.{h,cc}: the documents' ids in order, and the
-- bitmaps that were built. An id, an int64_t, is held 2^63 higher, so that ids are in the order of numbers. A
-- pointer to a bitmap, which does not change once it is built, is the bitmap, and a null pointer is
-- `none`. crc64 is a parameter. Beside the positions of the sorted ids, doc_id_to_bit_idx_ has position
-- 0 for the ids that its operator[] did not find, `zeroed_ids`. The outer `none` is a CHECK that fails.
pub mod Ids
pub mod Build
pub mod Roundtrip
use ltio.Common.{
  ℕ, zero, suc, ◌+◌, ◌-◌, Bool, true, false, ◌&&◌, List, [], ◌∷◌, Option, none, some, ltb, ◌==◌,
  if◌then◌else◌, length, get_or,
}
use mathlib.Core.Option as Option
use ltio.Common.Sorting.{sort_by}
use ltio.InvertedIndexer.Bitmap.{BitMapPostingList, new_bitmap, set_bit, is_bit_set}

pub record PostingListManager : Type 0 where
  pub sorted_doc_ids : List ℕ
  pub ids_table : List (ℕ × BitMapPostingList)
  pub zeroed_ids : List ℕ

abbrev pub new_manager : PostingListManager
new_manager = record { sorted_doc_ids = []; ids_table = []; zeroed_ids = [] }

-- CreateMergePostingList, with all bits set.
unfoldable pub create_merge_posting_list : PostingListManager → BitMapPostingList
unfolding new_bitmap
create_merge_posting_list m = new_bitmap (length m.sorted_doc_ids) 0 18446744073709551615

unfoldable pub set_sorted_indexed_ids : List ℕ → PostingListManager → PostingListManager
set_sorted_indexed_ids ids m = record m { sorted_doc_ids = sort_by (λ id. id) ids }

-- doc_id_to_bit_idx_: the position that the loop of SetSortedIndexedIds leaves for an id, its last.
unfoldable pub bit_index : ℕ → List ℕ → ℕ → Option ℕ
bit_index i [] id = none
bit_index i (x ∷ xs) id = elim (bit_index (i + 1) xs id) [
  | some later ↦ some later
  | none ↦ if x == id then some i else none
]

-- std::set::insert.
unfoldable pub insert_id : ℕ → List ℕ → List ℕ
insert_id id [] = id ∷ []
insert_id id (x ∷ xs) =
    let rest = insert_id id xs in
    if ltb id x then id ∷ x ∷ xs else if id == x then x ∷ xs else x ∷ rest

-- The loop of GetIdsFromPostingList, with the positions that are left.
unfoldable pub collect_ids : ℕ → ℕ → BitMapPostingList → List ℕ → List ℕ → Option (List ℕ)
unfolding is_bit_set insert_id
collect_ids zero i pl sorted result = some result
collect_ids (suc left) i pl sorted result = elim (is_bit_set i pl) [
  | none ↦ none
  | some hit ↦
      collect_ids left (i + 1) pl sorted
        (if hit && ltb i (length sorted) then insert_id (get_or sorted i 0) result else result)
]

unfoldable pub get_ids_from_posting_list :
    Option BitMapPostingList → PostingListManager → Option (List ℕ)
unfolding collect_ids
get_ids_from_posting_list none m = some []
get_ids_from_posting_list (some pl) m = collect_ids (pl.bit_count + 1) 0 pl m.sorted_doc_ids []

unfoldable pub find_bitmap : ℕ → List (ℕ × BitMapPostingList) → Option BitMapPostingList
find_bitmap code [] = none
find_bitmap code (p ∷ ps) = let rest = find_bitmap code ps in if p.0 == code then some p.1 else rest

-- find in doc_id_to_bit_idx_.
abbrev pub found_index : List ℕ → List ℕ → ℕ → Option ℕ
found_index sorted zeroed id = elim (bit_index 0 sorted id) [
  | some i ↦ some i
  | none ↦ elim (bit_index 0 zeroed id) [ none ↦ none | some _ ↦ some 0 ]
]

-- The loop that sets the bits of ids.
unfoldable pub set_ids : List ℕ → List ℕ → List ℕ → BitMapPostingList → Option BitMapPostingList
unfolding bit_index set_bit
set_ids sorted zeroed [] pl = some pl
set_ids sorted zeroed (id ∷ ids) pl = elim (found_index sorted zeroed id) [
  | none ↦ none
  | some i ↦ elim (set_bit i pl) [ none ↦ none | some pl' ↦ set_ids sorted zeroed ids pl' ]
]

-- doc_id_to_bit_idx_ after operator[] of an id.
abbrev pub zeroed_with : List ℕ → ℕ → List ℕ → List ℕ
zeroed_with sorted id zeroed = elim (bit_index 0 sorted id) [ none ↦ id ∷ zeroed | some _ ↦ zeroed ]

-- doc_id_to_bit_idx_[id], 0 for an id that is not there.
abbrev pub index_or_zero : List ℕ → ℕ → ℕ
index_or_zero sorted id = elim (bit_index 0 sorted id) [ none ↦ 0 | some i ↦ i ]

-- BuildBitMapPostingListForIds of the elements of a set, in order.
module _ (crc64 : List ℕ → ℕ) where
  unfoldable pub build_posting_list :
      List ℕ → PostingListManager → Option (Option BitMapPostingList × PostingListManager)
  unfolding find_bitmap set_ids new_bitmap
  build_posting_list [] m = some (none, m)
  build_posting_list (x ∷ xs) m =
      let ids = sort_by (λ id. id) (x ∷ xs) in
      let last = get_or ids (length xs) 0 in
      let zeroed = zeroed_with m.sorted_doc_ids last m.zeroed_ids in
      elim (find_bitmap (crc64 ids) m.ids_table) [
        | some pl ↦ if pl.id_count == length ids then some (some pl, m) else none
        | none ↦
            Option.map
              (λ pl. (
                some pl,
                record m { ids_table = (crc64 ids, pl) ∷ m.ids_table; zeroed_ids = zeroed },
              ))
              (set_ids m.sorted_doc_ids zeroed ids
                (new_bitmap (index_or_zero m.sorted_doc_ids last + 1) (suc (length xs)) 0))
      ]
