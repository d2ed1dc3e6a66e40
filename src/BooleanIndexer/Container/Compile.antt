-- ===== src/BooleanIndexer/Container/Compile.antt =====
-- CommonContainer::CompileEntries, common_container.cc, and the lists that RetrieveEntries takes.
use ltio.Common.{
  ℕ, zero, suc, ◌+◌, ◌≤◌, ◌≡◌, refl, sym, ap, ◌∙◌, subst, true, List, [], ◌∷◌, ◌++◌, some, length,
  arith, Bool-cases, inl, inr, All, max, get_elem?, Option-cases, some_inj,
}
use mathlib.Core.List.{append-nil, append_assoc}
use mathlib.Core.Option as Option
use ltio.Common.Text.{Str}
use ltio.Common.Sorting.{sort_by, Ascends, AllAbove, sort_by-Ascends, sort_by-All}
use ltio.BooleanIndexer.Ids.{null_entry}
use ltio.BooleanIndexer.Cursor.Seek.{at, IsSorted}
use ltio.BooleanIndexer.Field.Start.{IsIndexed}
use ltio.BooleanIndexer.Container.{
  Attr, attr_eq, PostingList, CommonContainer, find_entries, compile_list, compile_lists,
  compile_entries, retrieve_values,
}

abbrev pub sorted : List ℕ → List ℕ
sorted = sort_by (λ e. e)

abbrev pub IsWord : ℕ → Type 0
IsWord e = e ≤ null_entry

at-above : (n : ℕ) (ids : List ℕ) (i : ℕ) → n ≤ null_entry → AllAbove (λ e. e) n ids → n ≤ at ids i
at-above n [] i h a = h
at-above n (x ∷ ids) zero h a = a.0
at-above n (x ∷ ids) (suc i) h a = at-above n ids i h a.1

at-IsWord : (ids : List ℕ) (i : ℕ) → All IsWord ids → IsWord (at ids i)
at-IsWord [] i h = omega arith
at-IsWord (x ∷ ids) zero h = h.0
at-IsWord (x ∷ ids) (suc i) h = at-IsWord ids i h.1

Ascends-IsSorted : (ids : List ℕ) → All IsWord ids → Ascends (λ e. e) ids → IsSorted ids
Ascends-IsSorted [] w a i j p q = absurd (omega arith)
Ascends-IsSorted (x ∷ ids) w a zero zero p q = omega arith
Ascends-IsSorted (x ∷ ids) w a zero (suc j) p q = at-above x ids j w.0 a.0
Ascends-IsSorted (x ∷ ids) w a (suc i) zero p q = absurd (omega arith)
Ascends-IsSorted (x ∷ ids) w a (suc i) (suc j) p q =
    Ascends-IsSorted ids w.1 a.1 i j (omega arith) (omega arith)

pub sorted-IsIndexed : (ids : List ℕ) → All IsWord ids → IsIndexed (sorted ids)
sorted-IsIndexed ids w =
    let w' = sort_by-All (λ e. e) IsWord ids w in
    record {
      sorted = Ascends-IsSorted (sorted ids) w' (sort_by-Ascends (λ e. e) ids);
      words = λ i. at-IsWord (sorted ids) i w';
    }

abbrev pub sort_lists : PostingList → PostingList
sort_lists [] = []
sort_lists ((a, es) ∷ m) = (a, sorted es) ∷ sort_lists m

abbrev pub total_length : PostingList → ℕ
total_length [] = 0
total_length ((a, es) ∷ m) = length es + total_length m

abbrev pub longest : PostingList → ℕ
longest [] = 0
longest ((a, es) ∷ m) = max (length es) (longest m)

compile_lists-values :
    (m : PostingList) (c : CommonContainer) → (compile_lists m c).values ≡ c.values ++ sort_lists m
unfolding compile_lists
compile_lists-values [] c = sym (append-nil c.values)
compile_lists-values ((a, es) ∷ m) c =
    compile_lists-values m (compile_list (a, es) c)
    ∙ append_assoc c.values ((a, sorted es) ∷ []) (sort_lists m)

compile_lists-sum_len :
    (m : PostingList) (c : CommonContainer)
    → (compile_lists m c).sum_len ≡ c.sum_len + total_length m
unfolding compile_lists
compile_lists-sum_len [] c = omega arith
compile_lists-sum_len ((a, es) ∷ m) c =
    omega (arith, compile_lists-sum_len m (compile_list (a, es) c))

compile_lists-max_len :
    (m : PostingList) (c : CommonContainer)
    → (compile_lists m c).max_len ≡ max c.max_len (longest m)
unfolding compile_lists
compile_lists-max_len [] c = omega arith
compile_lists-max_len ((a, es) ∷ m) c =
    ground (arith, compile_lists-max_len m (compile_list (a, es) c))

find_entries-sort_lists :
    (a : Attr) (m : PostingList)
    → find_entries a (sort_lists m) ≡ Option.map sorted (find_entries a m)
unfolding find_entries
find_entries-sort_lists a [] = refl
find_entries-sort_lists a ((b, es) ∷ m) = ground (arith, find_entries-sort_lists a m)

-- CompileEntries succeeds. Under every key it leaves the sorted posting list, and it counts the
-- entries and the length of the longest list on top of what was counted before.
pub compile_entries_lem :
    (c : CommonContainer)
    → ((compile_entries c).0 ≡ true)
      × ((a : Attr)
          → find_entries a (compile_entries c).1.values
            ≡ Option.map sorted (find_entries a c.values))
      × ((compile_entries c).1.sum_len ≡ c.sum_len + total_length c.values)
      × ((compile_entries c).1.max_len ≡ max c.max_len (longest c.values))
unfolding compile_entries
compile_entries_lem c =
    let c' : CommonContainer = record c { values = [] } in
    (
      refl,
      λ a.
          ap (find_entries a) (compile_lists-values c.values c')
          ∙ find_entries-sort_lists a c.values,
      compile_lists-sum_len c.values c',
      compile_lists-max_len c.values c',
    )

-- All lists of a container.
abbrev pub AllLists : (List ℕ → Type 0) → PostingList → Type 0
AllLists P = All (λ (p : Attr × List ℕ). P p.1)

sort_lists-IsIndexed :
    (m : PostingList) → AllLists (All IsWord) m → AllLists IsIndexed (sort_lists m)
sort_lists-IsIndexed [] h = tt
sort_lists-IsIndexed ((a, es) ∷ m) h = (sorted-IsIndexed es h.0, sort_lists-IsIndexed m h.1)

pub compile_entries-IsIndexed :
    (c : CommonContainer)
    → AllLists (All IsWord) c.values
    → AllLists IsIndexed (compile_entries c).1.values
unfolding compile_entries
compile_entries-IsIndexed c h =
    subst (AllLists IsIndexed) (sym (compile_lists-values c.values (record c { values = [] })))
      (sort_lists-IsIndexed c.values h)

-- Every list that a query retrieves is a list of the container.
pub find_entries-AllLists :
    (P : List ℕ → Type 0) (a : Attr) (m : PostingList) (es : List ℕ)
    → AllLists P m
    → find_entries a m ≡ some es
    → P es
unfolding find_entries
find_entries-AllLists P a [] es h e = cc
find_entries-AllLists P a ((b, xs) ∷ m) es h e = elim (Bool-cases (attr_eq b a)) [
  | inl y ↦ subst P (some_inj (rw y at e)) h.0
  | inr n ↦ find_entries-AllLists P a m es h.1 (rw n at e)
]

-- A list that is found under a value of the query.
abbrev pub Found : Str → List ℕ → PostingList → List ℕ → Type 0
Found name vs m es =
    (k : ℕ) × (v : ℕ) × (get_elem? vs k ≡ some v)
    × (find_entries (record { field = name; value = v }) m ≡ some es)

Found-later :
    (name : Str) (v : ℕ) (vs : List ℕ) (m : PostingList) (ls : List (List ℕ))
    → All (Found name vs m) ls
    → All (Found name (v ∷ vs) m) ls
Found-later name v vs m [] h = tt
Found-later name v vs m (l ∷ ls) h =
    let (k, w, e, f) = h.0 in ((suc k, w, e, f), Found-later name v vs m ls h.1)

pub retrieve_values-Found :
    (name : Str) (vs : List ℕ) (m : PostingList) → All (Found name vs m) (retrieve_values name vs m)
unfolding retrieve_values
retrieve_values-Found name [] m = tt
retrieve_values-Found name (v ∷ vs) m =
    let rest =
      Found-later name v vs m (retrieve_values name vs m) (retrieve_values-Found name vs m) in
    elim (Option-cases (find_entries (record { field = name; value = v }) m)) [
      | inl n ↦ rw (n, retrieve_values) rest
      | inr (es, e) ↦ rw (e, retrieve_values) ((0, v, refl, e), rest)
    ]
