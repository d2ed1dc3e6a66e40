-- ===== src/BooleanIndexer/Cursor.antt =====
-- components/boolean_indexer/scanner_cursor.{h,cc}, EntriesCursor: a position in one sorted list of
-- entry identifiers. `index_` and the local `right_idx` are an int in the code: lists are taken to
-- have fewer than 2 ^ 30 entries, where no sum of two positions overflows. The attribute, which
-- only the dump prints, is left out.
pub mod Seek
pub mod Skip
use ltio.Common.{
  ℕ, zero, suc, ◌+◌, ◌-◌, ◌/◌, Bool, true, false, not, ◌&&◌, ◌||◌, ltb, leb, if◌then◌else◌, List,
  Option, none, some, length, get_elem?, get_or,
}
use mathlib.Core.Option as Option
use ltio.BooleanIndexer.Ids.{null_entry}

pub record EntriesCursor : Type 0 where
  pub index : ℕ
  pub id_list : List ℕ

-- The constructor.
unfoldable pub entries_cursor : List ℕ → EntriesCursor
entries_cursor ids = record { index = 0; id_list = ids }

unfoldable pub reach_end : EntriesCursor → Bool
reach_end c = leb (length c.id_list) c.index

unfoldable pub get_cur_entry_id : EntriesCursor → ℕ
get_cur_entry_id c =
    if ltb c.index (length c.id_list) then get_or c.id_list c.index null_entry else null_entry

-- `while (index_ < size_ && passed(id_list_[index_])) index_++`, by the rounds that are left.
unfoldable pub linear_loop : (ℕ → Bool) → ℕ → List ℕ → ℕ → ℕ
linear_loop passed zero ids index = index
linear_loop passed (suc n) ids index =
    let rest = linear_loop passed n ids (index + 1) in
    if ltb index (length ids) && passed (get_or ids index null_entry) then rest else index

-- The linear scans: LinearSkipTo passes what is below `id`, LinearSkip what is not above it.
unfoldable pub linear_seek : (ℕ → Bool) → EntriesCursor → EntriesCursor
linear_seek passed c = record c {
  index = linear_loop passed (length c.id_list - c.index) c.id_list c.index;
}

unfoldable pub linear_skip_to : ℕ → EntriesCursor → EntriesCursor
unfolding linear_seek
linear_skip_to id c = linear_seek (λ e. ltb e id) c

unfoldable pub linear_skip : ℕ → EntriesCursor → EntriesCursor
unfolding linear_seek
linear_skip id c = linear_seek (λ e. leb e id) c

abbrev pub linear_skip_distance : ℕ
linear_skip_distance = 64

-- The test that breaks out of the loop.
abbrev pub settled : (ℕ → Bool) → List ℕ → ℕ → Bool
settled passed ids index = leb (length ids) index || not (passed (get_or ids index null_entry))

-- The loop of Skip and SkipTo, which differ in the test alone. `none` is a read outside the list, or
-- fuel that has run out.
unfoldable pub skip_loop : (ℕ → Bool) → ℕ → List ℕ → ℕ → ℕ → Option ℕ
skip_loop passed zero ids index right = none
skip_loop passed (suc fuel) ids index right = elim (ltb index right) [
  | false ↦ some index
  | true ↦ elim (ltb (right - index) linear_skip_distance) [
    | true ↦ some (linear_loop passed (length ids - index) ids index)
    | false ↦
        let mid = (index + right) / 2 in
        elim (get_elem? ids mid) [
          | none ↦ none
          | some e ↦ elim (passed e) [
            | true ↦ elim (settled passed ids (mid + 1)) [
              | true ↦ some (mid + 1)
              | false ↦ skip_loop passed fuel ids (mid + 1) right
            ]
            | false ↦ elim (settled passed ids index) [
              | true ↦ some index
              | false ↦ skip_loop passed fuel ids index mid
            ]
          ]
        ]
  ]
]

unfoldable pub seek : (ℕ → Bool) → EntriesCursor → Option EntriesCursor
seek passed c =
    Option.map (λ (i : ℕ). record c { index = i })
      (skip_loop passed (suc (length c.id_list)) c.id_list c.index (length c.id_list))

-- Skip: past every entry that is not above `id`.
unfoldable pub skip : ℕ → EntriesCursor → Option EntriesCursor
unfolding seek
skip id c = seek (λ e. leb e id) c

-- SkipTo: to the first entry that is not below `id`.
unfoldable pub skip_to : ℕ → EntriesCursor → Option EntriesCursor
unfolding seek
skip_to id c = seek (λ e. ltb e id) c
