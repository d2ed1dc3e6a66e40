-- ===== src/TimerTaskQueue/Expiry.antt =====
-- HandleExpiredTimer, base/message_loop/timer_task_queue.cc: its loop comes to an end and leaves no
-- event that is due.
use ltio.Common.{
  ℕ, zero, suc, ◌-◌, ◌≤◌, ◌<◌, ◌≡◌, sym, ap, ◌∙◌, subst, List, [], ◌∷◌, none, some, leb, length,
  get_elem?, arith, All, Bool-cases, List-cases, Option-cases, inl, inr, sum_by, leb_false→lt,
  get_elem?-lt,
}
use ltio.Common.Sorting.{Ascends, AllAbove}
use ltio.TimerTaskQueue.{
  as_millisecond, TimerEntry, TimerEvent, Call, TimerTaskQueue, handle_loop,
  calculate_next_timer_duration, handle_expired_timer,
}
use ltio.TimerTaskQueue.Valid.{ValidBut, Valid, ValidFor, map-ValidBut}
use ltio.TimerTaskQueue.Calls.{due, Later}
use ltio.TimerTaskQueue.Rounds.{
  AllAbove-Later, pop-ValidBut, drop-Valid, InTime, Timely, invoke_and_reschedule-Valid,
  handle_loop-dropped, handle_loop-ran,
}

module _ (clock clock_after : ℕ → ℕ) (calls_of : ℕ → ℕ → List Call) where
  -- Enough fuel is one more than the number of entries that are due.
  handle_loop-Done :
      (fuel from now : ℕ) (q : TimerTaskQueue)
      → ((task k : ℕ)
          → from ≤ k
          → All
              (Later (Timely clock clock_after from (as_millisecond now)) (as_millisecond now))
              (calls_of task k))
      → from ≤ q.reads
      → sum_by (due (as_millisecond now)) q.timer_heap < fuel
      → ValidFor (Timely clock clock_after from (as_millisecond now)) q
      → (q' : TimerTaskQueue) × (handle_loop clock clock_after calls_of fuel now q ≡ some q')
        × ValidFor (Timely clock clock_after from (as_millisecond now)) q'
        × All (λ (t : TimerEntry). as_millisecond now < as_millisecond t.time) q'.timer_heap
  unfolding handle_loop
  handle_loop-Done zero from now q later after enough v = absurd (omega (arith, enough))
  handle_loop-Done (suc fuel) from now q later after enough v = elim (List-cases q.timer_heap) [
    | inl empty ↦ (q, simp (handle_loop, empty), v, rw empty tt)
    | inr (top, rest, full) ↦
        let w : ValidBut (Timely clock clock_after from (as_millisecond now)) none (top ∷ rest)
            q.timer_events q.reusable_timerid =
          subst
            (λ heap.
              ValidBut (Timely clock clock_after from (as_millisecond now)) none heap q.timer_events
                q.reusable_timerid)
            full v in
        let enough' : sum_by (due (as_millisecond now)) (top ∷ rest) < suc fuel =
          rw full at enough in
        elim (Bool-cases (leb (as_millisecond top.time) (as_millisecond now))) [
          | inr late ↦ (
            q,
            simp (handle_loop, full, late),
            v,
            rw full (
              leb_false→lt _ _ late,
              AllAbove-Later (as_millisecond now) top.time rest (leb_false→lt _ _ late)
                  (w.ordered).0,
            ),
          )
          | inl now_due ↦
              let fewer : suc (sum_by (due (as_millisecond now)) rest) < suc fuel =
                omega (arith, (rw now_due at enough')) in
              let (event, at) = get_elem?-lt q.timer_events top.index (w.in_heap).0 in
              elim (Option-cases event) [
                | inl gone ↦
                    let at' : get_elem? q.timer_events top.index ≡ some none = rw⁻¹ gone at in
                    let (q', eq, v', l) =
                      handle_loop-Done fuel from now (record q { timer_heap = rest }) later after
                        (omega (arith, fewer))
                        (drop-Valid top rest q.timer_events q.reusable_timerid w at') in
                    (
                      q',
                      handle_loop-dropped clock clock_after calls_of fuel now q top rest full
                            now_due at'
                          ∙ eq,
                      v',
                      l,
                    )
                | inr (e, live) ↦
                    let at' : get_elem? q.timer_events top.index ≡ some (some e) = rw⁻¹ live at in
                    let (q1, eq1, v1, d, after1) =
                      invoke_and_reschedule-Valid clock clock_after calls_of from
                        (as_millisecond now) top.index e (record q { timer_heap = rest }) later
                        after (w.in_heap).0 (v.repeats top.index e at')
                        (pop-ValidBut top rest q.timer_events q.reusable_timerid w) in
                    let (q', eq, v', l) =
                      handle_loop-Done fuel from now q1 later after1 (omega (arith, fewer, d)) v1 in
                    (
                      q',
                      handle_loop-ran clock clock_after calls_of fuel now q q1 top rest e full
                            now_due at' eq1
                          ∙ eq,
                      v',
                      l,
                    )
              ]
        ]
  ]

sum_by-due : (ms : ℕ) (heap : List TimerEntry) → sum_by (due ms) heap ≤ length heap
sum_by-due ms [] = omega arith
sum_by-due ms (t ∷ ts) = elim (Bool-cases (leb (as_millisecond t.time) ms)) [
  | inl now_due ↦ rw now_due (omega (arith, sum_by-due ms ts))
  | inr late ↦ rw late (omega (arith, sum_by-due ms ts))
]

AllAbove-waits :
    (n from : ℕ) (heap : List TimerEntry)
    → AllAbove (λ (t : TimerEntry). t.time) n heap
    → All (λ (t : TimerEntry). as_millisecond n - from ≤ as_millisecond t.time - from) heap
AllAbove-waits n from [] a = tt
AllAbove-waits n from (t ∷ ts) a = (omega (arith, a.0), AllAbove-waits n from ts a.1)

-- A queue without an event that is due, and a time to wait that is not past the next one.
pub record Waits (ms duration : ℕ) (q : TimerTaskQueue) : Type 0 where
  pub valid : Valid q
  pub none_due : All (λ (t : TimerEntry). ms < as_millisecond t.time) q.timer_heap
  pub in_time :
      All (λ (t : TimerEntry). duration ≤ as_millisecond t.time - q.inexact_time) q.timer_heap

module _ (clock clock_after : ℕ → ℕ) (calls_of : ℕ → ℕ → List Call) where
  calculate-Waits :
      (ms : ℕ) (q : TimerTaskQueue)
      → Valid q
      → All (λ (t : TimerEntry). ms < as_millisecond t.time) q.timer_heap
      → (duration : ℕ) × (q' : TimerTaskQueue) × (calculate_next_timer_duration clock clock_after
            calls_of q
          ≡ (duration, q'))
        × Waits ms duration q'
  unfolding calculate_next_timer_duration
  calculate-Waits ms q v later = elim (List-cases q.timer_heap) [
    | inl empty ↦ (
      1000,
      q,
      simp (calculate_next_timer_duration, empty),
      record { valid = v; none_due = later; in_time = rw empty tt },
    )
    | inr (next, rest, full) ↦
        let from = as_millisecond (clock q.reads) in
        let duration = as_millisecond next.time - from in
        let ordered : Ascends (λ (t : TimerEntry). t.time) (next ∷ rest) =
          subst (λ heap. Ascends (λ (t : TimerEntry). t.time) heap) full v.ordered in
        (
          duration,
          record q { inexact_time = from; reads = suc q.reads },
          simp (calculate_next_timer_duration, full),
          record {
            valid = v;
            none_due = later;
            in_time =
                subst
                  (λ heap. All (λ (t : TimerEntry). duration ≤ as_millisecond t.time - from) heap)
                  (sym full) (omega arith, AllAbove-waits next.time from rest ordered.0);
          },
        )
  ]

  -- HandleExpiredTimer returns, with one more round than the heap has entries, from a valid queue, where
  -- its repeated events are in time, as InTime says of the readings after the first, and the
  -- tasks that run add only events that are not due at once and are in time. It leaves a valid queue
  -- without an event that was due at the first reading, and the duration that it gives is not past the
  -- time of any event that is left, from the last reading. Nothing else is supposed of the clock: it may
  -- go on by any time while tasks run, and events that are no repeated ones need nothing of it.
  pub handle_expired_timer-Waits :
      (fuel : ℕ) (q : TimerTaskQueue)
      → ((i : ℕ) (e : TimerEvent)
          → get_elem? q.timer_events i ≡ some (some e)
          → InTime clock clock_after
              (suc q.reads)
              (as_millisecond (clock q.reads))
              e.once
              e.interval)
      → ((task k : ℕ)
          → suc q.reads ≤ k
          → All
              (Later
                (Timely clock clock_after (suc q.reads) (as_millisecond (clock q.reads)))
                (as_millisecond (clock q.reads)))
              (calls_of task k))
      → length q.timer_heap < fuel
      → Valid q
      → (duration : ℕ) × (q' : TimerTaskQueue) × (handle_expired_timer clock clock_after calls_of
            fuel q
          ≡ some (duration, q'))
        × Waits (as_millisecond (clock q.reads)) duration q'
  unfolding handle_expired_timer
  handle_expired_timer-Waits fuel q timely later enough v =
      let now = clock q.reads in
      let ms = as_millisecond now in
      let v0 : ValidFor (Timely clock clock_after (suc q.reads) ms) q = record {
        ordered = v.ordered;
        in_heap = v.in_heap;
        in_reusable = v.in_reusable;
        scheduled = v.scheduled;
        repeats = λ i e live. (v.repeats i e live, timely i e live);
      } in
      let (q1, eq1, v1, l) =
        handle_loop-Done clock clock_after calls_of fuel (suc q.reads) now
          (record q { inexact_time = ms; reads = suc q.reads }) later (omega arith)
          (omega (arith, enough, sum_by-due ms q.timer_heap)) v0 in
      let v2 : Valid q1 =
        map-ValidBut none q1.timer_heap q1.timer_events q1.reusable_timerid (λ once i h. h.0) v1 in
      let (duration, q2, eq2, w) = calculate-Waits ms q1 v2 l in
      (duration, q2, rw (handle_expired_timer, eq1) (ap some eq2), w)
