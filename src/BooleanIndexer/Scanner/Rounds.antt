-- ===== src/BooleanIndexer/Scanner/Rounds.antt =====
-- One round of the loop of Retrieve, index_scanner.cc: sorting, popping and moves.
use ltio.Common.{
  ℕ, zero, suc, ◌≤◌, ◌<◌, ◌≡◌, refl, ap, ◌∙◌, List, [], ◌∷◌, some, length, arith, All, sum_by,
  Bool-cases, ◌==◌, inl, inr,
}
use ltio.Common.Sorting.{sort_by, AllAbove, Ascends, sort_by-Ascends, sort_by-All, sum_by-sort_by}
use ltio.BooleanIndexer.Ids.{null_entry}
use ltio.BooleanIndexer.Field.{FieldCursor, field_reach_end, get_cur_conj_id}
use ltio.BooleanIndexer.Field.Least.{IsReady}
use ltio.BooleanIndexer.Scanner.{pop_ended, live_cursors, skip_conjunction, skip_from, skip_first}
use ltio.BooleanIndexer.Scanner.Steps.{
  field_left, Stepped, field_skip-Stepped, field_skip_to-Stepped, current_id-le-null_entry,
  HoldsEntries, Stepped-HoldsEntries,
}

abbrev pub total_left : List FieldCursor → ℕ
total_left = sum_by field_left

abbrev pub AllReady : List FieldCursor → Type 0
AllReady = All IsReady

abbrev pub key : FieldCursor → ℕ
key c = c.current_id

-- Dropping keeps a front of the list.
pop_ended-All {κ} :
    (P : FieldCursor → Type κ) (cs : List FieldCursor) → All P cs → All P (pop_ended cs)
unfolding pop_ended
pop_ended-All P [] h = tt
pop_ended-All P (c ∷ cs) h = ground (arith, pop_ended-All P cs h.1)

pop_ended-total_left : (cs : List FieldCursor) → total_left (pop_ended cs) ≤ total_left cs
unfolding pop_ended
pop_ended-total_left [] = omega arith
pop_ended-total_left (c ∷ cs) = ground (arith, pop_ended-total_left cs)

pop_ended-AllAbove :
    (n : ℕ) (cs : List FieldCursor) → AllAbove key n cs → AllAbove key n (pop_ended cs)
unfolding pop_ended
pop_ended-AllAbove n [] h = tt
pop_ended-AllAbove n (c ∷ cs) h = ground (arith, pop_ended-AllAbove n cs h.1)

pop_ended-Ascends : (cs : List FieldCursor) → Ascends key cs → Ascends key (pop_ended cs)
unfolding pop_ended
pop_ended-Ascends [] h = tt
pop_ended-Ascends (c ∷ cs) h =
    ground (arith, pop_ended-Ascends cs h.1, pop_ended-AllAbove c.current_id cs h.0)

abbrev pub IsLive : FieldCursor → Type 0
IsLive c = c.current_id < null_entry

-- In order, no cursor in front of one that is not at its end is at its end.
pop_ended-IsLive :
    (cs : List FieldCursor) → AllReady cs → Ascends key cs → All IsLive (pop_ended cs)
unfolding pop_ended field_reach_end
pop_ended-IsLive [] r h = tt
pop_ended-IsLive (c ∷ cs) r h = ground (
  arith,
  pop_ended-IsLive cs r.1 h.1,
  pop_ended-AllAbove c.current_id cs h.0,
  current_id-le-null_entry c r.0,
)

-- The cursors of a round.
pub record Round (cs live : List FieldCursor) : Type 0 where
  pub ready : AllReady live
  pub ascends : Ascends key live
  pub alive : All IsLive live
  pub fewer : total_left live ≤ total_left cs

pub live_cursors-Round : (cs : List FieldCursor) → AllReady cs → Round cs (live_cursors cs)
unfolding live_cursors
live_cursors-Round cs r =
    let sorted = sort_by key cs in
    let ready = sort_by-All key IsReady cs r in
    record {
      ready = pop_ended-All IsReady sorted ready;
      ascends = pop_ended-Ascends sorted (sort_by-Ascends key cs);
      alive = pop_ended-IsLive sorted ready (sort_by-Ascends key cs);
      fewer = omega (arith, pop_ended-total_left sorted, sum_by-sort_by key field_left cs);
    }

pub live_cursors-All {κ} :
    (P : FieldCursor → Type κ) (cs : List FieldCursor) → All P cs → All P (live_cursors cs)
unfolding live_cursors
live_cursors-All P cs h = pop_ended-All P (sort_by key cs) (sort_by-All key P cs h)

-- Some of the cursors have moved.
pub data Moved : List FieldCursor → List FieldCursor → Type 0 where
  none_left : Moved [] []
  stay :
      {c : FieldCursor} {cs cs' : List FieldCursor}
      → IsReady c
      → Moved cs cs'
      → Moved (c ∷ cs) (c ∷ cs')
  step :
      {c c' : FieldCursor} {cs cs' : List FieldCursor}
      → Stepped c c'
      → Moved cs cs'
      → Moved (c ∷ cs) (c' ∷ cs')

pub Moved-AllReady : {cs cs' : List FieldCursor} → Moved cs cs' → AllReady cs'
Moved-AllReady none_left = tt
Moved-AllReady (stay r m) = (r, Moved-AllReady m)
Moved-AllReady (step s m) = (s.ready, Moved-AllReady m)

pub Moved-total_left : {cs cs' : List FieldCursor} → Moved cs cs' → total_left cs' ≤ total_left cs
Moved-total_left none_left = omega arith
Moved-total_left (stay r m) = omega (arith, Moved-total_left m)
Moved-total_left (step s m) = omega (arith, s.fewer, Moved-total_left m)

pub Moved-length : {cs cs' : List FieldCursor} → Moved cs cs' → length cs' ≡ length cs
Moved-length none_left = refl
Moved-length (stay r m) = ap suc (Moved-length m)
Moved-length (step s m) = ap suc (Moved-length m)

pub Moved-HoldsEntries :
    (P : ℕ → Type 0) {cs cs' : List FieldCursor}
    → Moved cs cs'
    → All (HoldsEntries P) cs
    → All (HoldsEntries P) cs'
Moved-HoldsEntries P none_left h = tt
Moved-HoldsEntries P (stay r m) h = (h.0, Moved-HoldsEntries P m h.1)
Moved-HoldsEntries P (step {c = c} {c' = c'} s m) h =
    (Stepped-HoldsEntries P c c' s h.0, Moved-HoldsEntries P m h.1)

pub Moved-refl : (cs : List FieldCursor) → AllReady cs → Moved cs cs
Moved-refl [] r = none_left
Moved-refl (c ∷ cs) r = stay r.0 (Moved-refl cs r.1)

Stepped-trans : (a b c : FieldCursor) → Stepped a b → Stepped b c → Stepped a c
Stepped-trans a b c s t = record {
  ready = t.ready;
  fewer = omega (arith, s.fewer, t.fewer);
  same_lists = t.same_lists ∙ s.same_lists;
}

pub Moved-trans : {xs ys zs : List FieldCursor} → Moved xs ys → Moved ys zs → Moved xs zs
Moved-trans none_left n = n
Moved-trans (stay r m) (stay r' n) = stay r' (Moved-trans m n)
Moved-trans (stay r m) (step s n) = step s (Moved-trans m n)
Moved-trans (step s m) (stay r n) = step s (Moved-trans m n)
Moved-trans (step {c = a} {c' = b} s m) (step {c' = c} t n) =
    step (Stepped-trans a b c s t) (Moved-trans m n)

skip_conjunction-Moved :
    (conj_id id : ℕ) (cs : List FieldCursor)
    → AllReady cs
    → (cs' : List FieldCursor) × (skip_conjunction conj_id id cs ≡ some cs') × Moved cs cs'
unfolding skip_conjunction
skip_conjunction-Moved conj_id id [] r = ([], refl, none_left)
skip_conjunction-Moved conj_id id (c ∷ cs) r = elim (Bool-cases (conj_id == get_cur_conj_id c)) [
  | inr other ↦ (c ∷ cs, rw other, Moved-refl (c ∷ cs) r)
  | inl same ↦
      let (c', e, s) = field_skip-Stepped id c r.0 in
      let (cs', f, m) = skip_conjunction-Moved conj_id id cs r.1 in
      (c' ∷ cs', rw (same, e, f), step s m)
]

pub skip_from-Moved :
    (k conj_id id : ℕ) (cs : List FieldCursor)
    → AllReady cs
    → (cs' : List FieldCursor) × (skip_from k conj_id id cs ≡ some cs') × Moved cs cs'
unfolding skip_from
skip_from-Moved zero conj_id id cs r = skip_conjunction-Moved conj_id id cs r
skip_from-Moved (suc k) conj_id id [] r = ([], refl, none_left)
skip_from-Moved (suc k) conj_id id (c ∷ cs) r =
    let (cs', e, m) = skip_from-Moved k conj_id id cs r.1 in (c ∷ cs', rw e, stay r.0 m)

pub skip_first-Moved :
    (k id : ℕ) (cs : List FieldCursor)
    → AllReady cs
    → k ≤ length cs
    → (cs' : List FieldCursor) × (skip_first k id cs ≡ some cs') × Moved cs cs'
unfolding skip_first
skip_first-Moved zero id cs r h = (cs, refl, Moved-refl cs r)
skip_first-Moved (suc k) id [] r h = absurd (omega arith)
skip_first-Moved (suc k) id (c ∷ cs) r h =
    let (c', e, s, _) = field_skip_to-Stepped id c r.0 in
    let (cs', f, m) = skip_first-Moved k id cs r.1 (omega arith) in
    (c' ∷ cs', rw (e, skip_first, f), step s m)

-- With at least one cursor to move, the first goes over its entry.
pub skip_first-lt :
    (k id : ℕ) (c : FieldCursor) (cs : List FieldCursor)
    → AllReady (c ∷ cs)
    → k ≤ length cs
    → c.current_id < id
    → id ≤ null_entry
    → (cs' : List FieldCursor) × (skip_first (suc k) id (c ∷ cs) ≡ some cs')
      × Moved (c ∷ cs) cs'
      × (total_left cs' < total_left (c ∷ cs))
unfolding skip_first
skip_first-lt k id c cs r h lt le =
    let (c', e, s, g) = field_skip_to-Stepped id c r.0 in
    let (cs', f, m) = skip_first-Moved k id cs r.1 h in
    (c' ∷ cs', rw (e, skip_first, f), step s m, omega (arith, g lt le, Moved-total_left m))
