-- ===== src/TimerTaskQueue.antt =====
-- TimerTaskQueue and TimerEvent, base/message_loop/timer_task_queue.{h,cc} and timer_event.{h,cc}. A time
-- is its microseconds. The heap is a list in the order of time, its top the first. The clock is a
-- parameter, what it shows when it is read for the k-th time, and so are the calls that a task makes
-- on the queue when it runs. `clock_after` is what the clock shows in the assertion that follows the k-th
-- reading. `none` is an assertion that fails, or too little fuel.

pub mod Valid
pub mod Calls
pub mod Rounds
pub mod Expiry
pub mod Reuse
pub mod Tests
use ltio.Common.{
  ℕ, zero, suc, ◌+◌, ◌-◌, ◌*◌, ◌/◌, Bool, true, false, List, [], ◌∷◌, ◌++◌, Option, none, some, ltb,
  leb, if◌then◌else◌, length, get_elem?, set,
}
use ltio.Common.Sorting.{insert_by}

pub record TimerEntry : Type 0 where
  pub time : ℕ
  pub index : ℕ

-- timer_task_ is known by a number.
pub record TimerEvent : Type 0 where
  pub once : Bool
  pub time : ℕ
  pub interval : ℕ
  pub task : ℕ

-- TimerEvent(ms, once), at a time that the clock shows, and TimerEvent(t, once), whose interval is how far
-- t is away from that time.
abbrev pub timer_event_later : ℕ → ℕ → Bool → ℕ → TimerEvent
timer_event_later now ms once task = record {
  once = once;
  time = now + ms * 1000;
  interval = ms;
  task = task;
}

abbrev pub timer_event_at : ℕ → ℕ → Bool → ℕ → TimerEvent
timer_event_at now t once task = record {
  once = once;
  time = t;
  interval = if ltb (t / 1000) (now / 1000) then now / 1000 - t / 1000 else t / 1000 - now / 1000;
  task = task;
}

-- A call that a task makes on the queue.
pub data Call : Type 0 where
  add_call : TimerEvent → Call
  cancel_call : ℕ → Call

-- With the tasks that were run and the number of times that the clock was read.
pub record TimerTaskQueue : Type 0 where
  pub timer_heap : List TimerEntry
  pub timer_events : List (Option TimerEvent)
  pub reusable_timerid : List ℕ
  pub inexact_time : ℕ
  pub invoked : List ℕ
  pub reads : ℕ

abbrev pub new_queue : TimerTaskQueue
new_queue = record {
  timer_heap = [];
  timer_events = [];
  reusable_timerid = [];
  inexact_time = 0;
  invoked = [];
  reads = 0;
}

abbrev pub as_millisecond : ℕ → ℕ
as_millisecond us = us / 1000

unfoldable pub push : ℕ → ℕ → List TimerEntry → List TimerEntry
unfolding insert_by
push time id heap = insert_by (λ (t : TimerEntry). t.time) (record { time = time; index = id }) heap

unfoldable pub add_timer_event : TimerEvent → TimerTaskQueue → Option (ℕ × TimerTaskQueue)
unfolding push
add_timer_event e q = elim q.reusable_timerid [
  | [] ↦ some (
    length q.timer_events,
    record q {
      timer_events = q.timer_events ++ some e ∷ [];
      timer_heap = push e.time (length q.timer_events) q.timer_heap;
    },
  )
  | id ∷ ids ↦
      if ltb id (length q.timer_events)
      then some (
        id,
        record q {
          timer_events = set q.timer_events id (some e);
          reusable_timerid = ids;
          timer_heap = push e.time id q.timer_heap;
        },
      )
      else none
]

unfoldable pub cancel_timer_event : ℕ → TimerTaskQueue → Bool × TimerTaskQueue
cancel_timer_event id q = if leb (length q.timer_events) id then (false, q) else (
  true,
  record q {
    timer_events = set q.timer_events id none;
    reusable_timerid = id ∷ q.reusable_timerid;
  },
)

unfoldable pub make_calls : List Call → TimerTaskQueue → Option TimerTaskQueue
unfolding add_timer_event cancel_timer_event
make_calls [] q = some q
make_calls (add_call e ∷ calls) q = elim (add_timer_event e q) [
  | none ↦ none
  | some r ↦ make_calls calls r.1
]
make_calls (cancel_call id ∷ calls) q = make_calls calls (cancel_timer_event id q).1

module _ (clock clock_after : ℕ → ℕ) (calls_of : ℕ → ℕ → List Call) where
  -- TimerEvent::Invoke.
  unfoldable pub invoke : ℕ → TimerTaskQueue → Option TimerTaskQueue
  unfolding make_calls
  invoke task q = make_calls (calls_of task q.reads) (record q { invoked = q.invoked ++ task ∷ [] })

  -- InvokeAndReScheduleIfNeed, of the event in timer_events_[timer_id].
  unfoldable pub invoke_and_reschedule : ℕ → TimerEvent → TimerTaskQueue → Option TimerTaskQueue
  unfolding invoke push
  invoke_and_reschedule id e q =
      if e.once
      then invoke e.task (record q {
        timer_events = set q.timer_events id none;
        reusable_timerid = id ∷ q.reusable_timerid;
      })
      else (let new_time = clock q.reads + e.interval * 1000 in
          if ltb (clock_after q.reads) new_time
          then invoke e.task (record q {
            timer_events = set q.timer_events id (some (record e { time = new_time }));
            timer_heap = push new_time id q.timer_heap;
            reads = suc q.reads;
          })
          else none)

  -- The loop of HandleExpiredTimer.
  unfoldable pub handle_loop : ℕ → ℕ → TimerTaskQueue → Option TimerTaskQueue
  unfolding invoke_and_reschedule
  handle_loop zero now q = none
  handle_loop (suc fuel) now q = elim q.timer_heap [
    | [] ↦ some q
    | top ∷ rest ↦ elim (leb (as_millisecond top.time) (as_millisecond now)) [
      | false ↦ some q
      | true ↦ elim (get_elem? q.timer_events top.index) [
        | none ↦ none
        | some event ↦ elim event [
          | none ↦ handle_loop fuel now (record q { timer_heap = rest })
          | some e ↦ elim (invoke_and_reschedule top.index e (record q { timer_heap = rest })) [
            | none ↦ none
            | some q' ↦ handle_loop fuel now q'
          ]
        ]
      ]
    ]
  ]

  unfoldable pub calculate_next_timer_duration : TimerTaskQueue → ℕ × TimerTaskQueue
  calculate_next_timer_duration q = elim q.timer_heap [
    | [] ↦ (1000, q)
    | next ∷ _ ↦ (
      as_millisecond next.time - as_millisecond (clock q.reads),
      record q { inexact_time = as_millisecond (clock q.reads); reads = suc q.reads },
    )
  ]

  unfoldable pub handle_expired_timer : ℕ → TimerTaskQueue → Option (ℕ × TimerTaskQueue)
  unfolding handle_loop calculate_next_timer_duration
  handle_expired_timer fuel q =
      let now = clock q.reads in
      elim (handle_loop fuel now
        (record q { inexact_time = as_millisecond now; reads = suc q.reads })) [
          | none ↦ none
          | some q' ↦ some (calculate_next_timer_duration q')
        ]
