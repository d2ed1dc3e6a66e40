-- ===== src/TimerTaskQueue/Calls.antt =====
-- AddTimerEvent and CancelTimerEvent, base/message_loop/timer_task_queue.cc, and the calls of a task.
use ltio.Common.{
  ℕ, Bool, ◌<◌, ◌≡◌, refl, ap, ◌∙◌, subst, List, [], ◌∷◌, ◌++◌, none, some, leb, if◌then◌else◌,
  length, get_elem?, set, arith, All, Bool-cases, List-cases, inl, inr, sum_by, leb_false→lt,
  lt→leb_false, lt→ltb, get_elem?-set_self,
}
use ltio.Common.Sorting.{sum_by-insert_by}
use ltio.TimerTaskQueue.{
  as_millisecond, TimerEntry, TimerEvent, Call, add_call, cancel_call, TimerTaskQueue, push,
  add_timer_event, cancel_timer_event, make_calls,
}
use ltio.TimerTaskQueue.Valid.{
  ValidBut, ValidFor, clear-ValidBut, put-ValidBut, weaken, grown-ValidBut, set-grown, length-grown,
}

-- What an addition leaves.
pub record Added (P : Bool → ℕ → Type 0) (e : TimerEvent) (q : TimerTaskQueue) (id : ℕ)
    (q' : TimerTaskQueue) : Type 0 where
  pub valid : ValidFor P q'
  pub heap : q'.timer_heap ≡ push e.time id q.timer_heap
  pub held : get_elem? q'.timer_events id ≡ some (some e)
  pub reads : q'.reads ≡ q.reads
  pub invoked : q'.invoked ≡ q.invoked

-- AddTimerEvent on a valid queue returns, for an event that repeats only after a positive interval. It
-- leaves a valid queue, in which the event is at its id, with a new entry in the heap and no others
-- gone, and reads no clock and runs no task.
pub add_timer_event-Added :
    {P : Bool → ℕ → Type 0} (e : TimerEvent) (q : TimerTaskQueue)
    → ValidFor P q
    → P e.once e.interval
    → (id : ℕ) × (q' : TimerTaskQueue) × (add_timer_event e q ≡ some (id, q')) × Added P e q id q'
unfolding add_timer_event
add_timer_event-Added {P = P} e q v r = elim (List-cases q.reusable_timerid) [
  | inl empty ↦
      let n = length q.timer_events in
      let grown = q.timer_events ++ none ∷ [] in
      let inside : n < length grown = omega (arith, length-grown q.timer_events) in
      let v' = put-ValidBut n e.time e q.timer_heap grown q.reusable_timerid inside r (
        weaken n q.timer_heap grown q.reusable_timerid
          (grown-ValidBut q.timer_heap q.timer_events q.reusable_timerid v)) in
      let there = set-grown q.timer_events (some e) in
      (
        n,
        record q {
          timer_events = q.timer_events ++ some e ∷ [];
          timer_heap = push e.time n q.timer_heap;
        },
        simp (add_timer_event, empty),
        record {
          valid =
              subst (λ es. ValidBut P none (push e.time n q.timer_heap) es q.reusable_timerid) there
                v';
          heap = refl;
          held =
              subst (λ es. get_elem? es n ≡ some (some e)) there
                (get_elem?-set_self grown n (some e) inside);
          reads = refl;
          invoked = refl;
        },
      )
  | inr (id, ids, some_id) ↦
      let low : All (λ i. i < length q.timer_events) (id ∷ ids) =
        subst (λ is. All (λ i. i < length q.timer_events) is) some_id v.in_reusable in
      let v' : ValidBut P none q.timer_heap q.timer_events ids = record {
        ordered = v.ordered;
        in_heap = v.in_heap;
        in_reusable = low.1;
        scheduled = v.scheduled;
        repeats = v.repeats;
      } in
      (
        id,
        record q {
          timer_events = set q.timer_events id (some e);
          reusable_timerid = ids;
          timer_heap = push e.time id q.timer_heap;
        },
        rw (add_timer_event, some_id, lt→ltb _ _ low.0) refl,
        record {
          valid =
              put-ValidBut id e.time e q.timer_heap q.timer_events ids low.0 r
                (weaken id q.timer_heap q.timer_events ids v');
          heap = refl;
          held = get_elem?-set_self q.timer_events id (some e) low.0;
          reads = refl;
          invoked = refl;
        },
      )
]

cancel_timer_event-Valid :
    {P : Bool → ℕ → Type 0} (id : ℕ) (q : TimerTaskQueue)
    → ValidFor P q
    → ValidFor P (cancel_timer_event id q).1
      × ((cancel_timer_event id q).1.timer_heap ≡ q.timer_heap)
      × ((cancel_timer_event id q).1.reads ≡ q.reads)
unfolding cancel_timer_event
cancel_timer_event-Valid id q v = elim (Bool-cases (leb (length q.timer_events) id)) [
  | inl out ↦ rw (cancel_timer_event, out) (v, refl, refl)
  | inr inside ↦
      rw (cancel_timer_event, inside)
        (
          clear-ValidBut id q.timer_heap q.timer_events q.reusable_timerid (leb_false→lt _ _ inside)
              (weaken id q.timer_heap q.timer_events q.reusable_timerid v),
          refl,
          refl,
        )
]

abbrev pub due : ℕ → TimerEntry → ℕ
due ms t = if leb (as_millisecond t.time) ms then 1 else 0

-- The calls of a task add events that are not due yet.
abbrev pub Later : (Bool → ℕ → Type 0) → ℕ → Call → Type 0
Later P ms (add_call e) = P e.once e.interval × (ms < as_millisecond e.time)
Later P ms (cancel_call id) = Unit

pub push-due :
    (ms time id : ℕ) (heap : List TimerEntry)
    → ms < as_millisecond time
    → sum_by (due ms) (push time id heap) ≡ sum_by (due ms) heap
unfolding push
push-due ms time id heap h =
    sum_by-insert_by (λ (t : TimerEntry). t.time) (due ms) (record { time = time; index = id }) heap
    ∙ rw (lt→leb_false (as_millisecond time) ms h) (omega arith)

-- The calls of a task return, and leave as many entries that are due.
pub make_calls-Valid :
    (P : Bool → ℕ → Type 0) (ms : ℕ) (calls : List Call) (q : TimerTaskQueue)
    → ValidFor P q
    → All (Later P ms) calls
    → (q' : TimerTaskQueue) × (make_calls calls q ≡ some q')
      × ValidFor P q'
      × (sum_by (due ms) q'.timer_heap ≡ sum_by (due ms) q.timer_heap)
      × (q'.reads ≡ q.reads)
unfolding make_calls
make_calls-Valid P ms [] q v h = (q, refl, v, refl, refl)
make_calls-Valid P ms (add_call e ∷ calls) q v h =
    let (id, q1, eq, a) = add_timer_event-Added e q v (h.0).0 in
    let (q2, eq2, v2, d, k) = make_calls-Valid P ms calls q1 a.valid h.1 in
    (
      q2,
      rw (make_calls, eq) eq2,
      v2,
      d ∙ ap (sum_by (due ms)) a.heap ∙ push-due ms e.time id q.timer_heap (h.0).1,
      k ∙ a.reads,
    )
make_calls-Valid P ms (cancel_call id ∷ calls) q v h =
    let (v1, same, reads) = cancel_timer_event-Valid id q v in
    let (q2, eq2, v2, d, k) = make_calls-Valid P ms calls (cancel_timer_event id q).1 v1 h.1 in
    (q2, eq2, v2, d ∙ ap (sum_by (due ms)) same, k ∙ reads)
