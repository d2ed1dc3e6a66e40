-- ===== src/InvertedIndexer/Query/Answer.antt =====
-- UnifyQuery, indexer.cc: which documents a query finds in an index that is built.
use ltio.Common.{
  ℕ, ◌+◌, ◌*◌, ◌/◌, ◌%◌, ◌<◌, ◌≡◌, ◌≢◌, ◌↔◌, refl, sym, ap, ◌∙◌, subst, some_inj, Bool, true, false,
  ◌&&◌, List, [], ◌∷◌, ◌++◌, Option, none, some, length, get_elem?, replicate, arith, All,
  All-append, Option-cases, Bool-cases, inl, inr, length-replicate, and_true, get_elem?-some,
}
use mathlib.Core.Option as Option
use ltio.Common.Text.{Str, str_eq}
use ltio.Common.OrdMap.{find}
use ltio.InvertedIndexer.Bitmap.{BitMapPostingList, new_bitmap}
use ltio.InvertedIndexer.Bitmap.Bits.{has, has-ones}
use ltio.InvertedIndexer.Manager.{PostingListManager, create_merge_posting_list}
use ltio.InvertedIndexer.Manager.Ids.{member, get_ids_lem}
use ltio.InvertedIndexer.Merger.{BitMapMerger, start_merger, end_merger}
use ltio.InvertedIndexer.Merger.Groups.{
  HasRoom, Shows, wanted, printed_lem, calculate_merger_group-Shows,
}
use ltio.InvertedIndexer.Query.{
  Field, Indexer, get_bitmap, print_all, collect_values, unify_field, unify_fields, unify_query,
}

-- A field whose bitmaps have room, and whose wildcard is not null.
pub record Fits (n : ℕ) (f : Field) : Type 0 where
  pub wildcard : BitMapPostingList
  pub is_there : f.wildcards_pl ≡ some wildcard
  pub wildcard_room : HasRoom n wildcard
  pub includes_room : All (λ p. HasRoom n p.1) f.include_pl
  pub excludes_room : All (λ p. HasRoom n p.1) f.exclude_pl

-- The bitmaps that a field has for values.
abbrev pub bitmaps : List Str → List (Str × BitMapPostingList) → List BitMapPostingList
bitmaps [] table = []
bitmaps (v ∷ vs) table = get_bitmap v table ++ bitmaps vs table

-- What a query asks of the document at position i in a field.
abbrev pub field_wants : Option BitMapPostingList → Field → Option (List Str) → ℕ → Bool
field_wants none f q i = false
field_wants (some w) f none i = wanted [] w [] i
field_wants (some w) f (some vs) i = wanted (bitmaps vs f.include_pl) w (bitmaps vs f.exclude_pl) i

abbrev pub all_want : List (Str × Field) → List (Str × List Str) → ℕ → Bool
all_want [] query i = true
all_want ((name, f) ∷ table) query i =
    field_wants f.wildcards_pl f (find name query) i && all_want table query i

find-HasRoom :
    (n : ℕ) (v : Str) (table : List (Str × BitMapPostingList)) (pl : BitMapPostingList)
    → All (λ p. HasRoom n p.1) table
    → find v table ≡ some pl
    → HasRoom n pl
unfolding find
find-HasRoom n v [] pl r e = cc
find-HasRoom n v ((k, held) ∷ table) pl r e = elim (Bool-cases (str_eq k v)) [
  | inl same ↦ subst (HasRoom n) (some_inj (rw (find, same) at e)) r.0
  | inr other ↦ find-HasRoom n v table pl r.1 (rw (find, other) at e)
]

get_bitmap-HasRoom :
    (n : ℕ) (v : Str) (table : List (Str × BitMapPostingList))
    → All (λ p. HasRoom n p.1) table
    → All (HasRoom n) (get_bitmap v table)
unfolding get_bitmap
get_bitmap-HasRoom n v table r = elim (Option-cases (find v table)) [
  | inl absent ↦ rw (get_bitmap, absent) tt
  | inr (pl, e) ↦ rw (get_bitmap, e) (find-HasRoom n v table pl r e, tt)
]

bitmaps-HasRoom :
    (n : ℕ) (vs : List Str) (table : List (Str × BitMapPostingList))
    → All (λ p. HasRoom n p.1) table
    → All (HasRoom n) (bitmaps vs table)
bitmaps-HasRoom n [] table r = tt
bitmaps-HasRoom n (v ∷ vs) table r =
    All-append (HasRoom n) (get_bitmap v table) (bitmaps vs table) (get_bitmap-HasRoom n v table r)
      (bitmaps-HasRoom n vs table r)

print_all_lem :
    {A : Type 0} (n : ℕ) (m : PostingListManager) (pls : List BitMapPostingList) (next : Option A)
    → All (HasRoom n) pls
    → print_all m pls next ≡ next
unfolding print_all
print_all_lem n m [] next r = refl
print_all_lem n m (pl ∷ pls) next r =
    printed_lem m pl (print_all m pls next) (r.0).room ∙ print_all_lem n m pls next r.1

collect_values_lem :
    (n : ℕ) (m : PostingListManager) (f : Field) (vs : List Str)
    → All (λ p. HasRoom n p.1) f.include_pl
    → All (λ p. HasRoom n p.1) f.exclude_pl
    → collect_values m f vs ≡ some (bitmaps vs f.include_pl, bitmaps vs f.exclude_pl)
unfolding collect_values
collect_values_lem n m f [] ri re = refl
collect_values_lem n m f (v ∷ vs) ri re =
    print_all_lem n m (get_bitmap v f.include_pl) _ (get_bitmap-HasRoom n v f.include_pl ri)
    ∙ print_all_lem n m (get_bitmap v f.exclude_pl) _ (get_bitmap-HasRoom n v f.exclude_pl re)
    ∙ ap (Option.map (λ r. (get_bitmap v f.include_pl ++ r.0, get_bitmap v f.exclude_pl ++ r.1)))
        (collect_values_lem n m f vs ri re)

-- Both bitmaps of the merger, of n words for `count` documents.
abbrev Left : ℕ → ℕ → (ℕ → Bool) → BitMapMerger → Type 0
Left n count f merger =
    Shows n count f merger.result_pl × ((g : ℕ → Bool) × Shows n count g merger.group_result_pl)

unify_field-Left :
    (n count : ℕ) (left : ℕ → Bool) (m : PostingListManager) (f : Field) (q : Option (List Str))
    (merger : BitMapMerger)
    → count < n * 64
    → Fits n f
    → Left n count left merger
    → (merger' : BitMapMerger) × (unify_field m f q merger ≡ some merger')
      × Left n count (λ i. left i && field_wants f.wildcards_pl f q i) merger'
unfolding unify_field
unify_field-Left n count left m f none merger room fits l =
    let (merger', e, shown, group) =
      calculate_merger_group-Shows n left l.1.0 m [] [] fits.wildcard merger count room tt tt
        fits.wildcard_room l.0 l.1.1 in
    rw fits.is_there (merger', e, (shown, (_, group)))
unify_field-Left n count left m f (some vs) merger room fits l =
    let includes = bitmaps vs f.include_pl in
    let excludes = bitmaps vs f.exclude_pl in
    let (merger', e, shown, group) =
      calculate_merger_group-Shows n left l.1.0 m includes excludes fits.wildcard merger count room
        (bitmaps-HasRoom n vs f.include_pl fits.includes_room)
        (bitmaps-HasRoom n vs f.exclude_pl fits.excludes_room) fits.wildcard_room l.0 l.1.1 in
    rw
      (
        unify_field,
        collect_values_lem n m f vs fits.includes_room fits.excludes_room,
        fits.is_there,
      )
      (merger', printed_lem m fits.wildcard _ fits.wildcard_room.room ∙ e, (shown, (_, group)))

and_assoc : (a b c : Bool) → (a && b) && c ≡ a && (b && c)
and_assoc true b c = refl
and_assoc false b c = refl

-- All fields that fit.
abbrev pub AllFit : ℕ → List (Str × Field) → Type 0
AllFit n [] = Unit
AllFit n ((name, f) ∷ table) = Fits n f × AllFit n table

unify_fields-Left :
    (n count : ℕ) (left : ℕ → Bool) (m : PostingListManager) (table : List (Str × Field))
    (query : List (Str × List Str)) (merger : BitMapMerger)
    → count < n * 64
    → AllFit n table
    → Left n count left merger
    → (merger' : BitMapMerger) × (unify_fields m table query merger ≡ some merger')
      × Shows n count (λ i. left i && all_want table query i) merger'.result_pl
unfolding unify_fields
unify_fields-Left n count left m [] query merger room fits l = (
  merger,
  refl,
  record {
    shown = λ i. (l.0).shown i ∙ and_true_right (left i);
    sized = (l.0).sized;
    counted = (l.0).counted;
  },
)
  where
    and_true_right : (a : Bool) → a ≡ a && true
    and_true_right true = refl
    and_true_right false = refl
unify_fields-Left n count left m ((name, f) ∷ table) query merger room fits l =
    let q = find name query in
    let (merger1, e1, l1) = unify_field-Left n count left m f q merger room fits.0 l in
    let (merger2, e2, s2) =
      unify_fields-Left n count (λ i. left i && field_wants f.wildcards_pl f q i) m table query
        merger1 room fits.1 l1 in
    (
      merger2,
      rw (unify_fields, e1)
          (printed_lem m merger1.result_pl _ (omega (arith, room, (l1.0).sized, (l1.0).counted))
            ∙ e2),
      record {
        shown = λ i.
            s2.shown i
            ∙ and_assoc (left i) (field_wants f.wildcards_pl f q i) (all_want table query i);
        sized = s2.sized;
        counted = s2.counted;
      },
    )

-- The words that the bitmaps of all documents have.
abbrev pub words_for : PostingListManager → ℕ
words_for m = (length m.sorted_doc_ids + 63) / 64

start_merger-Left :
    (m : PostingListManager)
    → Left
        (words_for m)
        (length m.sorted_doc_ids)
        (has (replicate (words_for m) 18446744073709551615))
        (start_merger m)
unfolding start_merger create_merge_posting_list new_bitmap
start_merger-Left m =
    let all : Shows (words_for m) (length m.sorted_doc_ids)
        (has (replicate (words_for m) 18446744073709551615)) (create_merge_posting_list m) =
      record {
        shown = λ i. refl;
        sized = length-replicate (words_for m) 18446744073709551615;
        counted = refl;
      } in
    (all, (_, all))

-- UnifyQuery returns in an index whose number of documents is no multiple of 64 and whose fields all have
-- bitmaps with room and a wildcard that is not null. The result has exactly the ids at those
-- positions that every field wants: by an include of a value of the query or by the wildcard, and by
-- no exclude; for a field that the query does not name, by the wildcard.
pub unify_query_lem :
    (query : List (Str × List Str)) (ix : Indexer)
    → length ix.manager.sorted_doc_ids % 64 ≢ 0
    → AllFit (words_for ix.manager) ix.indexer_table
    → (ids : List ℕ) × (unify_query query ix ≡ some ids)
      × ((id : ℕ)
          → (member id ids ≡ true) ↔ (
              (i : ℕ) × (get_elem? ix.manager.sorted_doc_ids i ≡ some id)
              × (all_want ix.indexer_table query i ≡ true)))
unfolding unify_query end_merger
unify_query_lem query ix odd fits =
    let m = ix.manager in
    let n = words_for m in
    let count = length m.sorted_doc_ids in
    let full = has (replicate n 18446744073709551615) in
    let room : count < n * 64 = omega (arith, odd) in
    let l = start_merger-Left m in
    let (merger, e, s) =
      unify_fields-Left n count full m ix.indexer_table query (start_merger m) room fits l in
    let (ids, c, k) =
      get_ids_lem merger.result_pl m (omega (arith, room, s.sized, s.counted))
        (λ j inside hit. omega (arith, s.counted, inside)) in
    (
      ids,
      printed_lem m (start_merger m).result_pl _ (omega (arith, room, (l.0).sized, (l.0).counted))
          ∙ rw e c,
      λ id. (
        (λ h.
            let (i, at, hit) = (k id).0 h in
            (i, at, (and_true (full i) _ (sym (s.shown i) ∙ hit)).1)),
        (λ h.
            let (inside, _) = get_elem?-some m.sorted_doc_ids h.0 id h.1 in
            let set : full h.0 ≡ true = has-ones n h.0 (omega (arith, inside, room)) in
            let hit : full h.0 && all_want ix.indexer_table query h.0 ≡ true = rw set h.2 in
            (k id).1 (h.0, h.1, s.shown h.0 ∙ hit)),
      ),
    )
