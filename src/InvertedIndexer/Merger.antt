-- ===== src/InvertedIndexer/Merger.antt =====
-- BitMapMerger, bitmap_merger.{h,cc}: the bitmap of the documents that are left, and that of one field.
-- The sets of a group are lists. What is printed of a bitmap is found by GetIdsFromPostingList,
-- whose CHECK the definitions keep; `none` is this, or a null pointer that is read through.
pub mod Groups
use ltio.Common.{ℕ, List, [], ◌∷◌, Option, none, some}
use mathlib.Core.Option as Option
use ltio.InvertedIndexer.Bitmap.{BitMapPostingList, reset_bits, union, intersect, substract}
use ltio.InvertedIndexer.Manager.{
  PostingListManager, create_merge_posting_list, get_ids_from_posting_list,
}

pub record MergerGroup : Type 0 where
  pub includes : List BitMapPostingList
  pub excludes : List BitMapPostingList
  pub wildcards : List (Option BitMapPostingList)

pub record BitMapMerger : Type 0 where
  pub result_pl : BitMapPostingList
  pub group_result_pl : BitMapPostingList

unfoldable pub start_merger : PostingListManager → BitMapMerger
unfolding create_merge_posting_list
start_merger m = record {
  result_pl = create_merge_posting_list m;
  group_result_pl = create_merge_posting_list m;
}

unfoldable pub end_merger : PostingListManager → BitMapMerger → Option (List ℕ)
unfolding get_ids_from_posting_list
end_merger m merger = get_ids_from_posting_list (some merger.result_pl) m

unfoldable pub union_all : List BitMapPostingList → BitMapPostingList → BitMapPostingList
unfolding union
union_all [] pl = pl
union_all (other ∷ others) pl = union_all others (union pl other)

unfoldable pub union_wildcards :
    List (Option BitMapPostingList) → BitMapPostingList → Option BitMapPostingList
unfolding union
union_wildcards [] pl = some pl
union_wildcards (none ∷ others) pl = none
union_wildcards (some other ∷ others) pl = union_wildcards others (union pl other)

unfoldable pub substract_all : List BitMapPostingList → BitMapPostingList → BitMapPostingList
unfolding substract
substract_all [] pl = pl
substract_all (other ∷ others) pl = substract_all others (substract pl other)

-- Printing the ids of a bitmap, before what comes next.
unfoldable pub printed :
    {A : Type 0} → PostingListManager → Option BitMapPostingList → Option A → Option A
unfolding get_ids_from_posting_list
printed m pl next = elim (get_ids_from_posting_list pl m) [ none ↦ none | some ids ↦ next ]

unfoldable pub calculate_merger_group :
    PostingListManager → MergerGroup → BitMapMerger → Option BitMapMerger
unfolding reset_bits union_all union_wildcards substract_all intersect printed
calculate_merger_group m group merger =
    let included = union_all group.includes (reset_bits merger.group_result_pl) in
    printed m (some included) (elim (union_wildcards group.wildcards included) [
      | none ↦ none
      | some widened ↦
          let left = substract_all group.excludes widened in
          printed m (some widened) (
            printed m (some left) (
              some
                (record { result_pl = intersect merger.result_pl left; group_result_pl = left })))
    ])
