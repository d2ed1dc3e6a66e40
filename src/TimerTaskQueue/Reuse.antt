-- ===== src/TimerTaskQueue/Reuse.antt =====
-- CancelTimerEvent leaves the entry of an event in the heap of base/message_loop/timer_task_queue.cc, and
-- AddTimerEvent gives its id away: what becomes of the next event.
use ltio.Common.{
  ℕ, zero, suc, ◌≤◌, ◌<◌, ◌≡◌, refl, ap, ◌∙◌, Bool, true, List, [], ◌∷◌, ◌++◌, Option, none, some,
  length, get_elem?, set, arith, All, List-cases, inl, inr, le→leb, lt→leb_false, lt→ltb,
  le→ltb_false, get_elem?-set_self, length-set,
}
use ltio.Common.Sorting.{insert_by, insert_by-All}
use ltio.TimerTaskQueue.{
  as_millisecond, TimerEntry, TimerEvent, Call, TimerTaskQueue, push, add_timer_event,
  cancel_timer_event, make_calls, invoke, invoke_and_reschedule, handle_loop,
}
use ltio.TimerTaskQueue.Valid.{Repeats, Valid}
use ltio.TimerTaskQueue.Calls.{add_timer_event-Added}
use ltio.TimerTaskQueue.Rounds.{if_true, handle_loop-ran}

push_first :
    (time id : ℕ) (heap : List TimerEntry)
    → All (λ (t : TimerEntry). time ≤ t.time) heap
    → push time id heap ≡ record { time = time; index = id } ∷ heap
unfolding push insert_by
push_first time id [] h = refl
push_first time id (t ∷ ts) h = rw (le→ltb_false t.time time h.0) refl

push_second :
    (time id : ℕ) (t : TimerEntry) (heap : List TimerEntry)
    → t.time < time
    → push time id (t ∷ heap) ≡ t ∷ push time id heap
unfolding push insert_by
push_second time id t heap h = rw (lt→ltb t.time time h) refl

-- cancel_timer_event of an event in the queue.
cancel_there :
    (id : ℕ) (q : TimerTaskQueue)
    → id < length q.timer_events
    → cancel_timer_event id q ≡ (
      true,
      record q {
        timer_events = set q.timer_events id none;
        reusable_timerid = id ∷ q.reusable_timerid;
      },
    )
unfolding cancel_timer_event
cancel_there id q h = simp (cancel_timer_event, lt→leb_false (length q.timer_events) id h)

add_reused :
    (e : TimerEvent) (id : ℕ) (ids : List ℕ) (q : TimerTaskQueue)
    → q.reusable_timerid ≡ id ∷ ids
    → id < length q.timer_events
    → add_timer_event e q
      ≡ some (
        id,
        record q {
          timer_events = set q.timer_events id (some e);
          reusable_timerid = ids;
          timer_heap = push e.time id q.timer_heap;
        },
      )
unfolding add_timer_event
add_reused e id ids q top h = simp (add_timer_event, top, lt→ltb id (length q.timer_events) h)

All-map :
    (time ms : ℕ) (heap : List TimerEntry)
    → as_millisecond time ≤ ms
    → All (λ (t : TimerEntry). ms < as_millisecond t.time) heap
    → All (λ (t : TimerEntry). time ≤ t.time) heap
All-map time ms [] h a = tt
All-map time ms (t ∷ ts) h a = (omega (arith, h, a.0), All-map time ms ts h a.1)

get_elem?-inside :
    (events : List (Option TimerEvent)) (i : ℕ) (event : Option TimerEvent)
    → get_elem? events i ≡ some event
    → i < length events
get_elem?-inside [] i event h = cc
get_elem?-inside (x ∷ xs) zero event h = omega arith
get_elem?-inside (x ∷ xs) (suc i) event h = omega (arith, get_elem?-inside xs i event h)

push-All :
    (ms time id : ℕ) (heap : List TimerEntry)
    → ms < as_millisecond time
    → All (λ (t : TimerEntry). ms < as_millisecond t.time) heap
    → All (λ (t : TimerEntry). ms < as_millisecond t.time) (push time id heap)
unfolding push
push-All ms time id heap h a =
    insert_by-All (λ (t : TimerEntry). t.time) (λ t. ms < as_millisecond t.time)
      (record { time = time; index = id }) heap h a

module _ (clock clock_after : ℕ → ℕ) (calls_of : ℕ → ℕ → List Call) where
  handle_loop-idle :
      (fuel now : ℕ) (q : TimerTaskQueue)
      → All (λ (t : TimerEntry). as_millisecond now < as_millisecond t.time) q.timer_heap
      → handle_loop clock clock_after calls_of (suc fuel) now q ≡ some q
  unfolding handle_loop
  handle_loop-idle fuel now q later = elim (List-cases q.timer_heap) [
    | inl empty ↦ simp (handle_loop, empty)
    | inr (t, ts, full) ↦
        let l : All (λ (t : TimerEntry). as_millisecond now < as_millisecond t.time) (t ∷ ts) =
          rw full at later in
        simp (handle_loop, full, lt→leb_false (as_millisecond t.time) (as_millisecond now) l.0)
  ]

  invoke_once :
      (id : ℕ) (e : TimerEvent) (q : TimerTaskQueue)
      → e.once ≡ true
      → calls_of e.task q.reads ≡ []
      → invoke_and_reschedule clock clock_after calls_of id e q
        ≡ some (record q {
          timer_events = set q.timer_events id none;
          reusable_timerid = id ∷ q.reusable_timerid;
          invoked = q.invoked ++ e.task ∷ [];
        })
  unfolding invoke_and_reschedule invoke make_calls
  invoke_once id e q once quiet = if_true e.once _ _ once ∙ rw (invoke, quiet) refl

  -- An event a is added and cancelled, and an event b for a later time is added. Then b has the id of
  -- a, and as soon as a would have been due, HandleExpiredTimer runs b, though b is not due yet. This
  -- is for an event that runs once, without calls of its own, and a queue where nothing else is due.
  pub handle_loop_early :
      (a b : TimerEvent) (q : TimerTaskQueue) (fuel now : ℕ)
      → Valid q
      → Repeats a
      → b.once ≡ true
      → calls_of b.task q.reads ≡ []
      → All (λ (t : TimerEntry). as_millisecond now < as_millisecond t.time) q.timer_heap
      → as_millisecond a.time ≤ as_millisecond now
      → as_millisecond now < as_millisecond b.time
      → (id : ℕ) × (q1 : TimerTaskQueue) × (q2 : TimerTaskQueue) × (q3 : TimerTaskQueue)
        × (add_timer_event a q ≡ some (id, q1))
        × (add_timer_event b (cancel_timer_event id q1).1 ≡ some (id, q2))
        × (handle_loop clock clock_after calls_of (suc (suc fuel)) now q2 ≡ some q3)
        × (q3.invoked ≡ q.invoked ++ b.task ∷ [])
  handle_loop_early a b q fuel now v r once quiet later due_a late_b =
      let (id, q1, added, s) = add_timer_event-Added a q v r in
      let inside = get_elem?-inside q1.timer_events id (some a) s.held in
      let cleared = set q1.timer_events id none in
      let inside' : id < length cleared = rw (length-set q1.timer_events id none) inside in
      let q1' : TimerTaskQueue = record q1 {
        timer_events = cleared;
        reusable_timerid = id ∷ q1.reusable_timerid;
      } in
      let q2 : TimerTaskQueue = record q1' {
        timer_events = set cleared id (some b);
        reusable_timerid = q1.reusable_timerid;
        timer_heap = push b.time id q1.timer_heap;
      } in
      let top : TimerEntry = record { time = a.time; index = id } in
      let rest = push b.time id q.timer_heap in
      let heap : q2.timer_heap ≡ top ∷ rest =
        ap (push b.time id) (
          s.heap
          ∙ push_first a.time id q.timer_heap
              (All-map a.time (as_millisecond now) q.timer_heap due_a later))
        ∙ push_second b.time id top q.timer_heap (omega (arith, due_a, late_b)) in
      let popped : TimerTaskQueue = record q2 { timer_heap = rest } in
      let q3 : TimerTaskQueue = record popped {
        timer_events = set q2.timer_events id none;
        reusable_timerid = id ∷ q2.reusable_timerid;
        invoked = q2.invoked ++ b.task ∷ [];
      } in
      (
        id,
        q1,
        q2,
        q3,
        added,
        ap (λ (c : Bool × TimerTaskQueue). add_timer_event b c.1) (cancel_there id q1 inside)
            ∙ add_reused b id q1.reusable_timerid q1' refl inside',
        handle_loop-ran clock clock_after calls_of (suc fuel) now q2 q3 top rest b heap
              (le→leb (as_millisecond a.time) (as_millisecond now) due_a)
              (get_elem?-set_self cleared id (some b) inside')
              (invoke_once id b popped once (rw s.reads quiet))
            ∙ handle_loop-idle fuel now q3
                (push-All (as_millisecond now) b.time id q.timer_heap late_b later),
        ap (λ (tasks : List ℕ). tasks ++ b.task ∷ []) s.invoked,
      )
