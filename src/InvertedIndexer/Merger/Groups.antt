-- ===== src/InvertedIndexer/Merger/Groups.antt =====
-- CalculateMergerGroup, bitmap_merger.cc: which documents are left after a field.
use ltio.Common.{
  ℕ, ◌*◌, ◌≤◌, ◌<◌, ◌≡◌, refl, sym, ap, ◌∙◌, Bool, true, false, not, ◌&&◌, ◌||◌, List, [], ◌∷◌,
  Option, some, length, arith, All, length-replicate, or_false,
}
use ltio.InvertedIndexer.Bitmap.{BitMapPostingList, reset_bits, union, intersect, substract}
use ltio.InvertedIndexer.Bitmap.Bits.{
  has, has-zeros, has-union, has-intersect, has-substract, length-union, length-substract,
  length-intersect,
}
use ltio.InvertedIndexer.Manager.{PostingListManager}
use ltio.InvertedIndexer.Manager.Ids.{get_ids_returns}
use ltio.InvertedIndexer.Merger.{
  BitMapMerger, union_all, union_wildcards, substract_all, printed, calculate_merger_group,
}

-- A bitmap has room for one more bit than it counts, and at most n words.
pub record HasRoom (n : ℕ) (pl : BitMapPostingList) : Type 0 where
  pub room : pl.bit_count < length pl.ids_bitmap * 64
  pub short : length pl.ids_bitmap ≤ n

-- One of some bitmaps has bit i.
abbrev pub any_has : List BitMapPostingList → ℕ → Bool
any_has [] i = false
any_has (pl ∷ pls) i = has pl.ids_bitmap i || any_has pls i

or_assoc : (a b c : Bool) → (a || b) || c ≡ a || (b || c)
or_assoc true b c = refl
or_assoc false b c = refl

-- A bitmap of exactly n words, with the bits that `f` tells.
pub record Shows (n count : ℕ) (f : ℕ → Bool) (pl : BitMapPostingList) : Type 0 where
  pub shown : (i : ℕ) → has pl.ids_bitmap i ≡ f i
  pub sized : length pl.ids_bitmap ≡ n
  pub counted : pl.bit_count ≡ count

union-Shows :
    (n count : ℕ) (f : ℕ → Bool) (pl other : BitMapPostingList)
    → HasRoom n other
    → Shows n count f pl
    → Shows n count (λ i. f i || has other.ids_bitmap i) (union pl other)
unfolding union
union-Shows n count f pl other r s = record {
  shown = λ i.
      has-union pl.ids_bitmap other.ids_bitmap i (omega (arith, r.short, s.sized))
      ∙ ap (λ b. b || has other.ids_bitmap i) (s.shown i);
  sized = length-union pl.ids_bitmap other.ids_bitmap ∙ s.sized;
  counted = s.counted;
}

union_all-Shows :
    (n count : ℕ) (f : ℕ → Bool) (others : List BitMapPostingList) (pl : BitMapPostingList)
    → All (HasRoom n) others
    → Shows n count f pl
    → Shows n count (λ i. f i || any_has others i) (union_all others pl)
unfolding union_all
union_all-Shows n count f [] pl r s = record {
  shown = λ i. s.shown i ∙ sym (or_false (f i));
  sized = s.sized;
  counted = s.counted;
}
union_all-Shows n count f (other ∷ others) pl r s =
    let s' =
      union_all-Shows n count (λ i. f i || has other.ids_bitmap i) others (union pl other) r.1
        (union-Shows n count f pl other r.0 s) in
    record {
      shown = λ i. s'.shown i ∙ or_assoc (f i) (has other.ids_bitmap i) (any_has others i);
      sized = s'.sized;
      counted = s'.counted;
    }

substract_all-Shows :
    (n count : ℕ) (f : ℕ → Bool) (others : List BitMapPostingList) (pl : BitMapPostingList)
    → All (HasRoom n) others
    → Shows n count f pl
    → Shows n count (λ i. f i && not (any_has others i)) (substract_all others pl)
unfolding substract_all substract
substract_all-Shows n count f [] pl r s = record {
  shown = λ i. s.shown i ∙ and_true_right (f i);
  sized = s.sized;
  counted = s.counted;
}
  where
    and_true_right : (a : Bool) → a ≡ a && true
    and_true_right true = refl
    and_true_right false = refl
substract_all-Shows n count f (other ∷ others) pl r s =
    let one : Shows n count (λ i. f i && not (has other.ids_bitmap i)) (substract pl other) =
      record {
        shown = λ i.
            has-substract pl.ids_bitmap other.ids_bitmap i (omega (arith, (r.0).short, s.sized))
            ∙ ap (λ b. b && not (has other.ids_bitmap i)) (s.shown i);
        sized = length-substract pl.ids_bitmap other.ids_bitmap ∙ s.sized;
        counted = s.counted;
      } in
    let s' =
      substract_all-Shows n count (λ i. f i && not (has other.ids_bitmap i)) others
        (substract pl other) r.1 one in
    record {
      shown = λ i. s'.shown i ∙ neither (f i) (has other.ids_bitmap i) (any_has others i);
      sized = s'.sized;
      counted = s'.counted;
    }
  where
    neither : (a b c : Bool) → (a && not b) && not c ≡ a && not (b || c)
    neither true true c = refl
    neither true false c = refl
    neither false b c = refl

pub printed_lem :
    {A : Type 0} (m : PostingListManager) (pl : BitMapPostingList) (next : Option A)
    → pl.bit_count < length pl.ids_bitmap * 64
    → printed m (some pl) next ≡ next
unfolding printed
printed_lem m pl next h = let (ids, e) = get_ids_returns pl m h in rw (printed, e)

-- What a group asks of a document: it is in an include or in the wildcard, and in no exclude.
abbrev pub wanted : List BitMapPostingList → BitMapPostingList → List BitMapPostingList → ℕ → Bool
wanted includes wildcard excludes i =
    (any_has includes i || has wildcard.ids_bitmap i) && not (any_has excludes i)

-- CalculateMergerGroup of bitmaps with room returns, and leaves of the documents those that the group
-- asks for.
pub calculate_merger_group-Shows :
    (n : ℕ) (f g : ℕ → Bool) (m : PostingListManager) (includes excludes : List BitMapPostingList)
    (wildcard : BitMapPostingList) (merger : BitMapMerger) (count : ℕ)
    → count < n * 64
    → All (HasRoom n) includes
    → All (HasRoom n) excludes
    → HasRoom n wildcard
    → Shows n count f merger.result_pl
    → Shows n count g merger.group_result_pl
    → (merger' : BitMapMerger) × (calculate_merger_group m
          (record { includes = includes; excludes = excludes; wildcards = some wildcard ∷ [] })
          merger
        ≡ some merger')
      × Shows n count (λ i. f i && wanted includes wildcard excludes i) merger'.result_pl
      × Shows n count (wanted includes wildcard excludes) merger'.group_result_pl
unfolding calculate_merger_group union_wildcards reset_bits intersect
calculate_merger_group-Shows n f g m includes excludes wildcard merger count room ri re rw_ sf sg =
    let fresh : Shows n count (λ i. false) (reset_bits merger.group_result_pl) = record {
      shown = λ i. has-zeros (length merger.group_result_pl.ids_bitmap) i;
      sized = length-replicate (length merger.group_result_pl.ids_bitmap) 0 ∙ sg.sized;
      counted = sg.counted;
    } in
    let s1 =
      union_all-Shows n count (λ i. false) includes (reset_bits merger.group_result_pl) ri fresh in
    let included = union_all includes (reset_bits merger.group_result_pl) in
    let s2 = union-Shows n count (any_has includes) included wildcard rw_ s1 in
    let widened = union included wildcard in
    let s3 =
      substract_all-Shows n count (λ i. any_has includes i || has wildcard.ids_bitmap i) excludes
        widened re s2 in
    let left = substract_all excludes widened in
    let same : length left.ids_bitmap ≡ length merger.result_pl.ids_bitmap =
      s3.sized ∙ sym sf.sized in
    (
      record { result_pl = intersect merger.result_pl left; group_result_pl = left },
      printed_lem m included _ (omega (arith, room, s1.sized, s1.counted))
          ∙ printed_lem m widened _ (omega (arith, room, s2.sized, s2.counted))
          ∙ printed_lem m left _ (omega (arith, room, s3.sized, s3.counted)),
      record {
        shown = λ i.
            has-intersect merger.result_pl.ids_bitmap left.ids_bitmap i same
            ∙ ap (λ b. b && has left.ids_bitmap i) (sf.shown i)
            ∙ ap (λ b. f i && b) (s3.shown i);
        sized = length-intersect merger.result_pl.ids_bitmap left.ids_bitmap same ∙ sf.sized;
        counted = sf.counted;
      },
      s3,
    )
