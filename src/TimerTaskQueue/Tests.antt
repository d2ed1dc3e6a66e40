-- ===== src/TimerTaskQueue/Tests.antt =====
-- Runs of small timer queues: base/message_loop/timer_task_queue.cc.
use ltio.Common.{
  ℕ, zero, suc, ◌+◌, ◌*◌, ◌≤◌, subst, All, ◌≡◌, ◌≢◌, refl, true, false, List, [], ◌∷◌, Option, none,
  some, get_elem?, arith,
}
use ltio.TimerTaskQueue.{
  TimerEvent, Call, add_call, timer_event_later, TimerTaskQueue, new_queue, add_timer_event,
  cancel_timer_event, handle_loop, handle_expired_timer,
}
use ltio.TimerTaskQueue.Valid.{scheduled_in, Repeats, Valid}
use ltio.TimerTaskQueue.Expiry.{Waits, handle_expired_timer-Waits}
use ltio.TimerTaskQueue.Rounds.{InTime, Timely}
use ltio.TimerTaskQueue.Calls.{Later}
use ltio.TimerTaskQueue.Reuse.{handle_loop_early}

-- Each reading shows 7 milliseconds more, but for an assertion's, which comes at once.
abbrev ticking : ℕ → ℕ
ticking k = 5000 + k * 7000

abbrev ticking_after : ℕ → ℕ
ticking_after k = 5010 + k * 7000

-- A task adds an event for 3 milliseconds later.
abbrev adding : ℕ → ℕ → List Call
adding task k = add_call (timer_event_later (ticking k) 3 true 8) ∷ []

abbrev no_calls : ℕ → ℕ → List Call
no_calls task k = []

abbrev repeated : TimerEvent
repeated = record { once = false; time = 4000; interval = 2; task = 9 }

abbrev one : TimerTaskQueue
one = record {
  timer_heap = (record { time = 4000; index = 0 }) ∷ [];
  timer_events = some repeated ∷ [];
  reusable_timerid = [];
  inexact_time = 0;
  invoked = [];
  reads = 0;
}

one-scheduled :
    (i : ℕ) (e : TimerEvent)
    → get_elem? one.timer_events i ≡ some (some e)
    → ◌≢◌ {A = Option ℕ} none (some i)
    → scheduled_in i one.timer_heap ≡ true
one-scheduled zero e live ne = refl
one-scheduled (suc i) e live ne = cc

one-Repeats : (i : ℕ) (e : TimerEvent) → get_elem? one.timer_events i ≡ some (some e) → Repeats e
one-Repeats zero e live = let same : repeated ≡ e = cc in rw⁻¹ same refl
one-Repeats (suc i) e live = cc

one-Valid : Valid one
one-Valid = record {
  ordered = (tt, tt);
  in_heap = (omega arith, tt);
  in_reusable = tt;
  scheduled = one-scheduled;
  repeats = one-Repeats;
}

new_queue-Valid : Valid new_queue
new_queue-Valid = record {
  ordered = tt;
  in_heap = tt;
  in_reusable = tt;
  scheduled = λ i e live ne. cc;
  repeats = λ i e live. cc;
}

-- The event runs, and again 2 milliseconds after the next reading.
handle_one :
    handle_expired_timer ticking ticking_after no_calls 2 one
    ≡ some (
      0,
      record {
        timer_heap = (record { time = 14000; index = 0 }) ∷ [];
        timer_events = some (record { once = false; time = 14000; interval = 2; task = 9 }) ∷ [];
        reusable_timerid = [];
        inexact_time = 19;
        invoked = 9 ∷ [];
        reads = 3;
      },
    )
unfolding handle_expired_timer
handle_one = refl

one-InTime :
    (i : ℕ) (e : TimerEvent)
    → get_elem? one.timer_events i ≡ some (some e)
    → InTime ticking ticking_after 1 5 e.once e.interval
one-InTime zero e live =
    let same : repeated ≡ e = cc in
    subst (λ (d : TimerEvent). InTime ticking ticking_after 1 5 d.once d.interval) same
      (λ k low again. (omega arith, omega arith))
one-InTime (suc i) e live = cc

adding-Later :
    (task k : ℕ) → 1 ≤ k → All (Later (Timely ticking ticking_after 1 5) 5) (adding task k)
adding-Later task k low = (((refl, (λ j h again. cc)), omega (arith, low)), tt)

-- An event that is cancelled twice has its id given away twice.
cancelled_twice :
    (e : TimerEvent)
    → add_timer_event e
        (record new_queue { timer_events = none ∷ []; reusable_timerid = 0 ∷ 0 ∷ [] })
      ≡ some (
        0,
        record new_queue {
          timer_heap = (record { time = e.time; index = 0 }) ∷ [];
          timer_events = some e ∷ [];
          reusable_timerid = 0 ∷ [];
        },
      )
unfolding add_timer_event
cancelled_twice e = refl

handle_expired_timer-Waits_example :
    (duration : ℕ) × (q' : TimerTaskQueue) × (handle_expired_timer ticking ticking_after adding 2
        one
      ≡ some (duration, q'))
    × Waits 5 duration q'
handle_expired_timer-Waits_example =
    handle_expired_timer-Waits ticking ticking_after adding 2 one one-InTime adding-Later
      (omega arith) one-Valid

handle_loop_early_example :
    (id : ℕ) × (q1 : TimerTaskQueue) × (q2 : TimerTaskQueue) × (q3 : TimerTaskQueue)
    × (add_timer_event (record { once = true; time = 1000; interval = 1; task = 3 }) new_queue
        ≡ some (id, q1))
    × (add_timer_event
          (record { once = true; time = 9000; interval = 9; task = 4 })
          (cancel_timer_event id q1).1
        ≡ some (id, q2))
    × (handle_loop ticking ticking_after no_calls 2 1000 q2 ≡ some q3)
    × (q3.invoked ≡ 4 ∷ [])
handle_loop_early_example =
    handle_loop_early ticking ticking_after no_calls
      (record { once = true; time = 1000; interval = 1; task = 3 })
      (record { once = true; time = 9000; interval = 9; task = 4 }) new_queue 0 1000 new_queue-Valid
      refl refl refl tt (omega arith) (omega arith)
