-- ===== src/TimerTaskQueue/Rounds.antt =====
-- A round of HandleExpiredTimer, base/message_loop/timer_task_queue.cc, keeps the queue valid.
use ltio.Common.{
  ℕ, suc, ◌+◌, ◌*◌, ◌≤◌, ◌<◌, ◌≡◌, refl, ap, ◌∙◌, subst, some_inj, Bool, true, false, List, [], ◌∷◌,
  ◌++◌, Option, none, some, ltb, leb, if◌then◌else◌, length, get_elem?, set, arith, All, Bool-cases,
  inl, inr, sum_by, lt→ltb, ==_iff, ◌==◌,
}
use ltio.Common.Sorting.{AllAbove}
use ltio.TimerTaskQueue.{
  as_millisecond, TimerEntry, TimerEvent, Call, TimerTaskQueue, push, invoke, invoke_and_reschedule,
  handle_loop,
}
use ltio.TimerTaskQueue.Valid.{RepeatsIn, ValidBut, ValidFor, clear-ValidBut, put-ValidBut}
use ltio.TimerTaskQueue.Calls.{due, Later, push-due, make_calls-Valid}

pub if_true : {A : Type 0} (b : Bool) (x y : A) → b ≡ true → (if b then x else y) ≡ x
if_true b x y e = rw e refl

pub if_false : {A : Type 0} (b : Bool) (x y : A) → b ≡ false → (if b then x else y) ≡ y
if_false b x y e = rw e refl

pub AllAbove-Later :
    (ms n : ℕ) (heap : List TimerEntry)
    → ms < as_millisecond n
    → AllAbove (λ (t : TimerEntry). t.time) n heap
    → All (λ (t : TimerEntry). ms < as_millisecond t.time) heap
AllAbove-Later ms n [] h a = tt
AllAbove-Later ms n (t ∷ ts) h a = (omega (arith, a.0), AllAbove-Later ms n ts h a.1)

-- The first entry is taken off the heap.
pub pop-ValidBut :
    {P : Bool → ℕ → Type 0} (top : TimerEntry) (rest : List TimerEntry)
    (events : List (Option TimerEvent)) (reusable : List ℕ)
    → ValidBut P none (top ∷ rest) events reusable
    → ValidBut P (some top.index) rest events reusable
pop-ValidBut top rest events reusable v = record {
  ordered = v.ordered.1;
  in_heap = v.in_heap.1;
  in_reusable = v.in_reusable;
  scheduled = λ i e live ne. elim (Bool-cases (top.index == i)) [
    | inl same ↦ absurd (ne (ap some ((==_iff top.index i).0 same)))
    | inr other ↦ (let h = v.scheduled i e live (λ p. cc) in rw other at h)
  ];
  repeats = v.repeats;
}

-- It is of no event.
pub drop-Valid :
    {P : Bool → ℕ → Type 0} (top : TimerEntry) (rest : List TimerEntry)
    (events : List (Option TimerEvent)) (reusable : List ℕ)
    → ValidBut P none (top ∷ rest) events reusable
    → get_elem? events top.index ≡ some none
    → ValidBut P none rest events reusable
drop-Valid top rest events reusable v gone =
    let w = pop-ValidBut top rest events reusable v in
    record {
      ordered = w.ordered;
      in_heap = w.in_heap;
      in_reusable = w.in_reusable;
      scheduled = λ i e live ne. w.scheduled i e live (λ p.
          (let here : get_elem? events i ≡ some none =
              subst (λ j. get_elem? events j ≡ some none) (some_inj p) gone in
            cc));
      repeats = w.repeats;
    }

-- What a repeated event needs of the clock while HandleExpiredTimer runs, from a reading on that showed
-- the millisecond ms: its next time is after ms, that is, the clock is not set back by its interval, and
-- the interval does not pass between the reading of the next time and that of the assertion after it.
abbrev pub InTime : (ℕ → ℕ) → (ℕ → ℕ) → ℕ → ℕ → Bool → ℕ → Type 0
InTime clock clock_after from ms once interval =
    (k : ℕ)
    → from ≤ k
    → once ≡ false
    → (ms < as_millisecond (clock k + interval * 1000))
      × (clock_after k < clock k + interval * 1000)

abbrev pub Timely : (ℕ → ℕ) → (ℕ → ℕ) → ℕ → ℕ → Bool → ℕ → Type 0
Timely clock clock_after from ms once interval =
    RepeatsIn once interval × InTime clock clock_after from ms once interval

module _ (clock clock_after : ℕ → ℕ) (calls_of : ℕ → ℕ → List Call) where
  invoke-Valid :
      (P : Bool → ℕ → Type 0) (ms task : ℕ) (q : TimerTaskQueue)
      → ValidFor P q
      → All (Later P ms) (calls_of task q.reads)
      → (q' : TimerTaskQueue) × (invoke clock clock_after calls_of task q ≡ some q')
        × ValidFor P q'
        × (sum_by (due ms) q'.timer_heap ≡ sum_by (due ms) q.timer_heap)
        × (q'.reads ≡ q.reads)
  unfolding invoke
  invoke-Valid P ms task q v h =
      make_calls-Valid P ms (calls_of task q.reads) (record q { invoked = q.invoked ++ task ∷ [] })
        v h

  -- An event that is due runs.
  pub invoke_and_reschedule-Valid :
      (from ms id : ℕ) (e : TimerEvent) (q : TimerTaskQueue)
      → ((task k : ℕ)
          → from ≤ k
          → All (Later (Timely clock clock_after from ms) ms) (calls_of task k))
      → from ≤ q.reads
      → id < length q.timer_events
      → Timely clock clock_after from ms e.once e.interval
      → ValidBut
          (Timely clock clock_after from ms)
          (some id)
          q.timer_heap
          q.timer_events
          q.reusable_timerid
      → (q' : TimerTaskQueue) × (invoke_and_reschedule clock clock_after calls_of id e q ≡ some q')
        × ValidFor (Timely clock clock_after from ms) q'
        × (sum_by (due ms) q'.timer_heap ≡ sum_by (due ms) q.timer_heap)
        × (from ≤ q'.reads)
  unfolding invoke_and_reschedule
  invoke_and_reschedule-Valid from ms id e q later after inside r v =
      let P : Bool → ℕ → Type 0 = Timely clock clock_after from ms in
      elim (Bool-cases e.once) [
        | inl once ↦
            let (q', eq, v', d, k) =
              invoke-Valid P ms e.task
                (record q {
                  timer_events = set q.timer_events id none;
                  reusable_timerid = id ∷ q.reusable_timerid;
                })
                (clear-ValidBut id q.timer_heap q.timer_events q.reusable_timerid inside v)
                (later e.task q.reads after) in
            (q', rw (invoke_and_reschedule, once) eq, v', d, rw k after)
        | inr again ↦
            let time = clock q.reads + e.interval * 1000 in
            let (next, quick) = r.1 q.reads after again in
            let passes : ltb (clock_after q.reads) time ≡ true = lt→ltb _ _ quick in
            let after' : from ≤ suc q.reads = omega (arith, after) in
            let (q', eq, v', d, k) =
              invoke-Valid P ms e.task
                (record q {
                  timer_events = set q.timer_events id (some (record e { time = time }));
                  timer_heap = push time id q.timer_heap;
                  reads = suc q.reads;
                })
                (put-ValidBut id time (record e { time = time }) q.timer_heap q.timer_events
                  q.reusable_timerid inside r v)
                (later e.task (suc q.reads) after') in
            (
              q',
              if_false e.once _ _ again
                  ∙ (if_true (ltb (clock_after q.reads) time) _ _ passes ∙ eq),
              v',
              d ∙ push-due ms time id q.timer_heap next,
              rw k after',
            )
      ]

  -- A round of the loop, for an entry without an event and for one with an event.
  pub handle_loop-dropped :
      (fuel now : ℕ) (q : TimerTaskQueue) (top : TimerEntry) (rest : List TimerEntry)
      → q.timer_heap ≡ top ∷ rest
      → leb (as_millisecond top.time) (as_millisecond now) ≡ true
      → get_elem? q.timer_events top.index ≡ some none
      → handle_loop clock clock_after calls_of (suc fuel) now q
        ≡ handle_loop clock clock_after calls_of fuel now (record q { timer_heap = rest })
  unfolding handle_loop
  handle_loop-dropped fuel now q top rest full now_due gone =
      simp (handle_loop, full, now_due, gone)

  pub handle_loop-ran :
      (fuel now : ℕ) (q q1 : TimerTaskQueue) (top : TimerEntry) (rest : List TimerEntry)
      (e : TimerEvent)
      → q.timer_heap ≡ top ∷ rest
      → leb (as_millisecond top.time) (as_millisecond now) ≡ true
      → get_elem? q.timer_events top.index ≡ some (some e)
      → invoke_and_reschedule clock clock_after calls_of top.index e
          (record q { timer_heap = rest })
        ≡ some q1
      → handle_loop clock clock_after calls_of (suc fuel) now q
        ≡ handle_loop clock clock_after calls_of fuel now q1
  unfolding handle_loop
  handle_loop-ran fuel now q q1 top rest e full now_due live ran =
      simp (handle_loop, full, now_due, live, ran)
