-- ===== src/TimerTaskQueue/Valid.antt =====
-- What holds of a timer queue at all times, base/message_loop/timer_task_queue.{h,cc}: no entry is out of
-- range, and no event is forgotten.
use ltio.Common.{
  ℕ, zero, suc, ◌<◌, ◌≡◌, ◌≢◌, ◌⊎◌, refl, sym, ap, subst, some_inj, Bool, true, false, ◌||◌, List,
  [], ◌∷◌, ◌++◌, Option, none, some, ltb, ◌==◌, length, get_elem?, set, arith, All, Bool-cases, inl,
  inr, or_true, ==_iff, length-set,
}
use ltio.Common.Sorting.{insert_by, Ascends, insert_by-Ascends, insert_by-All}
use ltio.TimerTaskQueue.{TimerEntry, TimerEvent, TimerTaskQueue, push}

abbrev pub scheduled_in : ℕ → List TimerEntry → Bool
scheduled_in i [] = false
scheduled_in i (t ∷ ts) = (t.index == i) || scheduled_in i ts

-- An event that is repeated has a positive interval.
abbrev pub RepeatsIn : Bool → ℕ → Type 0
RepeatsIn once interval = once || ltb 0 interval ≡ true

abbrev pub Repeats : TimerEvent → Type 0
Repeats e = RepeatsIn e.once e.interval

-- Each event but the one at `but` has an entry in the heap, and P holds of all events.
pub record ValidBut (P : Bool → ℕ → Type 0) (but : Option ℕ) (heap : List TimerEntry)
    (events : List (Option TimerEvent)) (reusable : List ℕ) : Type 0 where
  pub ordered : Ascends (λ (t : TimerEntry). t.time) heap
  pub in_heap : All (λ (t : TimerEntry). t.index < length events) heap
  pub in_reusable : All (λ i. i < length events) reusable
  pub scheduled :
      (i : ℕ) (e : TimerEvent)
      → get_elem? events i ≡ some (some e)
      → but ≢ some i
      → scheduled_in i heap ≡ true
  pub repeats : (i : ℕ) (e : TimerEvent) → get_elem? events i ≡ some (some e) → P e.once e.interval

abbrev pub Valid : TimerTaskQueue → Type 0
Valid q = ValidBut RepeatsIn none q.timer_heap q.timer_events q.reusable_timerid

abbrev pub ValidFor : (Bool → ℕ → Type 0) → TimerTaskQueue → Type 0
ValidFor P q = ValidBut P none q.timer_heap q.timer_events q.reusable_timerid

push-scheduled_self :
    (time id : ℕ) (heap : List TimerEntry) → scheduled_in id (push time id heap) ≡ true
unfolding push insert_by
push-scheduled_self time id [] = rw (((==_iff id id).1 refl)) refl
push-scheduled_self time id (t ∷ ts) = elim (Bool-cases (ltb t.time time)) [
  | inl lt ↦ rw lt (or_true (t.index == id) _ (push-scheduled_self time id ts))
  | inr ge ↦ rw (ge, (==_iff id id).1 refl) refl
]

push-scheduled :
    (i time id : ℕ) (heap : List TimerEntry)
    → scheduled_in i heap ≡ true
    → scheduled_in i (push time id heap) ≡ true
unfolding push insert_by
push-scheduled i time id [] h = cc
push-scheduled i time id (t ∷ ts) h = elim (Bool-cases (ltb t.time time)) [
  | inl lt ↦ rw lt (elim (Bool-cases (t.index == i)) [
    | inl same ↦ rw same refl
    | inr other ↦ rw other (push-scheduled i time id ts (rw other at h))
  ])
  | inr ge ↦ rw ge (or_true (id == i) _ h)
]

get_elem?-clear :
    (events : List (Option TimerEvent)) (id i : ℕ) (e : TimerEvent)
    → get_elem? (set events id none) i ≡ some (some e)
    → (id ≢ i) × (get_elem? events i ≡ some (some e))
get_elem?-clear [] id i e h = cc
get_elem?-clear (x ∷ xs) zero zero e h = cc
get_elem?-clear (x ∷ xs) zero (suc i) e h = (omega arith, h)
get_elem?-clear (x ∷ xs) (suc id) zero e h = (omega arith, h)
get_elem?-clear (x ∷ xs) (suc id) (suc i) e h =
    let (ne, f) = get_elem?-clear xs id i e h in (omega (arith, ne), f)

get_elem?-put :
    (events : List (Option TimerEvent)) (id i : ℕ) (e e' : TimerEvent)
    → get_elem? (set events id (some e)) i ≡ some (some e')
    → ((id ≡ i) × (e ≡ e')) ⊎ ((id ≢ i) × (get_elem? events i ≡ some (some e')))
get_elem?-put [] id i e e' h = cc
get_elem?-put (x ∷ xs) zero zero e e' h = inl (refl, some_inj (some_inj h))
get_elem?-put (x ∷ xs) zero (suc i) e e' h = inr (omega arith, h)
get_elem?-put (x ∷ xs) (suc id) zero e e' h = inr (omega arith, h)
get_elem?-put (x ∷ xs) (suc id) (suc i) e e' h = elim (get_elem?-put xs id i e e' h) [
  | inl (same, f) ↦ inl (omega (arith, same), f)
  | inr (ne, f) ↦ inr (omega (arith, ne), f)
]

All-below :
    {A : Type 0} (index : A → ℕ) (m n : ℕ) (xs : List A)
    → m ≡ n
    → All (λ x. index x < m) xs
    → All (λ x. index x < n) xs
All-below index m n xs e h = subst (λ k. All (λ x. index x < k) xs) e h

-- An event is taken out.
pub clear-ValidBut :
    {P : Bool → ℕ → Type 0} (id : ℕ) (heap : List TimerEntry) (events : List (Option TimerEvent))
    (reusable : List ℕ)
    → id < length events
    → ValidBut P (some id) heap events reusable
    → ValidBut P none heap (set events id none) (id ∷ reusable)
clear-ValidBut id heap events reusable h v =
    let same = sym (length-set events id none) in
    record {
      ordered = v.ordered;
      in_heap = All-below (λ (t : TimerEntry). t.index) _ _ heap same v.in_heap;
      in_reusable = All-below (λ (i : ℕ). i) _ _ (id ∷ reusable) same (h, v.in_reusable);
      scheduled = λ i e live ne.
          let (other, f) = get_elem?-clear events id i e live in
          v.scheduled i e f (λ p. other (some_inj p));
      repeats = λ i e live. v.repeats i e (get_elem?-clear events id i e live).1;
    }

-- An event is put in, with an entry in the heap.
pub put-ValidBut :
    {P : Bool → ℕ → Type 0} (id time : ℕ) (e : TimerEvent) (heap : List TimerEntry)
    (events : List (Option TimerEvent)) (reusable : List ℕ)
    → id < length events
    → P e.once e.interval
    → ValidBut P (some id) heap events reusable
    → ValidBut P none (push time id heap) (set events id (some e)) reusable
unfolding push
put-ValidBut {P = P} id time e heap events reusable h r v =
    let same = sym (length-set events id (some e)) in
    let entry : TimerEntry = record { time = time; index = id } in
    record {
      ordered = insert_by-Ascends (λ (t : TimerEntry). t.time) entry heap v.ordered;
      in_heap =
          All-below (λ (t : TimerEntry). t.index) _ _ (push time id heap) same
            (insert_by-All (λ (t : TimerEntry). t.time) (λ t. t.index < length events) entry heap h
              v.in_heap);
      in_reusable = All-below (λ (i : ℕ). i) _ _ reusable same v.in_reusable;
      scheduled = λ i e' live ne. elim (get_elem?-put events id i e e' live) [
        | inl (same, f) ↦
            subst (λ j. scheduled_in j (push time id heap) ≡ true) same
              (push-scheduled_self time id heap)
        | inr (other, f) ↦
            push-scheduled i time id heap (v.scheduled i e' f (λ p. other (some_inj p)))
      ];
      repeats = λ i e' live. elim (get_elem?-put events id i e e' live) [
        | inl (same, f) ↦ subst (λ (d : TimerEvent). P d.once d.interval) f r
        | inr (other, f) ↦ v.repeats i e' f
      ];
    }

pub weaken :
    {P : Bool → ℕ → Type 0} (id : ℕ) (heap : List TimerEntry) (events : List (Option TimerEvent))
    (reusable : List ℕ)
    → ValidBut P none heap events reusable
    → ValidBut P (some id) heap events reusable
weaken id heap events reusable v = record {
  ordered = v.ordered;
  in_heap = v.in_heap;
  in_reusable = v.in_reusable;
  scheduled = λ i e live ne. v.scheduled i e live (λ p. cc);
  repeats = v.repeats;
}

get_elem?-grown :
    (events : List (Option TimerEvent)) (i : ℕ) (e : TimerEvent)
    → get_elem? (events ++ none ∷ []) i ≡ some (some e)
    → get_elem? events i ≡ some (some e)
get_elem?-grown [] zero e h = cc
get_elem?-grown [] (suc i) e h = cc
get_elem?-grown (x ∷ xs) zero e h = h
get_elem?-grown (x ∷ xs) (suc i) e h = get_elem?-grown xs i e h

pub length-grown :
    (events : List (Option TimerEvent)) → length (events ++ none ∷ []) ≡ suc (length events)
length-grown [] = refl
length-grown (x ∷ xs) = ap suc (length-grown xs)

pub set-grown :
    (events : List (Option TimerEvent)) (v : Option TimerEvent)
    → set (events ++ none ∷ []) (length events) v ≡ events ++ v ∷ []
set-grown [] v = refl
set-grown (x ∷ xs) v = ap (λ ys. x ∷ ys) (set-grown xs v)

All-grown :
    {A : Type 0} (index : A → ℕ) (n : ℕ) (xs : List A)
    → All (λ x. index x < n) xs
    → All (λ x. index x < suc n) xs
All-grown index n [] h = tt
All-grown index n (x ∷ xs) h = (omega (arith, h.0), All-grown index n xs h.1)

pub grown-ValidBut :
    {P : Bool → ℕ → Type 0} (heap : List TimerEntry) (events : List (Option TimerEvent))
    (reusable : List ℕ)
    → ValidBut P none heap events reusable
    → ValidBut P none heap (events ++ none ∷ []) reusable
grown-ValidBut heap events reusable v =
    let longer = sym (length-grown events) in
    record {
      ordered = v.ordered;
      in_heap =
          All-below (λ (t : TimerEntry). t.index) _ _ heap longer
            (All-grown (λ (t : TimerEntry). t.index) (length events) heap v.in_heap);
      in_reusable =
          All-below (λ (i : ℕ). i) _ _ reusable longer
            (All-grown (λ (i : ℕ). i) (length events) reusable v.in_reusable);
      scheduled = λ i e live ne. v.scheduled i e (get_elem?-grown events i e live) ne;
      repeats = λ i e live. v.repeats i e (get_elem?-grown events i e live);
    }

pub map-ValidBut :
    {P Q : Bool → ℕ → Type 0} (but : Option ℕ) (heap : List TimerEntry)
    (events : List (Option TimerEvent)) (reusable : List ℕ)
    → ((once : Bool) (interval : ℕ) → P once interval → Q once interval)
    → ValidBut P but heap events reusable
    → ValidBut Q but heap events reusable
map-ValidBut but heap events reusable f v = record {
  ordered = v.ordered;
  in_heap = v.in_heap;
  in_reusable = v.in_reusable;
  scheduled = v.scheduled;
  repeats = λ i e live. f e.once e.interval (v.repeats i e live);
}
