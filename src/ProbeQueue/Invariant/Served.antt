-- ===== src/ProbeQueue/Invariant/Served.antt =====
-- Dispatch, the ends of tasks, and the cancellations of internal/probe/queue/scheduler.go keep the
-- invariant of the pool.
use clash_sub_parser.Prelude.{
  ℕ, suc, ◌+◌, ◌-◌, ◌<◌, ◌≡◌, refl, inl, inr, String, ◌||◌, List, [], ◌∷◌, Option, none, some,
  arith, if_cases, length, any, leb, ◌==◌, length-append, Option-cases, String_discrete, ℕ_discrete,
}
use native.Mathlib.Nat.{add-zero}
use clash_sub_parser.Prelude.Maps.{Map, find, get, remove, length-remove_of_find}
use clash_sub_parser.ProbeQueue.State.{Scheduler, Task, queue_of, same}
use clash_sub_parser.ProbeQueue.Pick.{
  Pick, take_pick, next_eligible, start_task, dispatch, pick_manual, pick_fair, Dispatched, waits,
  started,
}
use clash_sub_parser.ProbeQueue.Preempt.{drop_run}
use clash_sub_parser.ProbeQueue.Finish.{
  finish_task_execution, begin_task, cancel_run, close, pending, settle_all, callback_done,
}
use clash_sub_parser.ProbeQueue.Arranged.{total}
use clash_sub_parser.ProbeQueue.Invariant.Working.{
  start_task-IsWorking, finish_task_execution-IsWorking,
}
use clash_sub_parser.ProbeQueue.Invariant.Frame.{
  same-IsWorking, IsFrame-IsWorking, take_pick-IsFrame, drop_run-IsFrame,
}
use clash_sub_parser.ProbeQueue.Invariant.Queueing.{
  IsQueueing, IsPick, take_pick-IsQueueing, cancel_run-IsQueueing, length-queue_of-le,
  pick_manual_lem, pick_fair_lem,
}
use clash_sub_parser.ProbeQueue.Invariant.Sound.{IsSound}

abbrev Turned : ℕ → Scheduler × Dispatched → Type 0
Turned n r = IsSound n r.0

abbrev cancel_run_base : ℕ → String → Scheduler → Scheduler
cancel_run_base now run s = record s {
  cancelled_runs = run ∷ s.cancelled_runs;
  queues = remove String_discrete run s.queues;
  queued = s.queued - length (queue_of run s);
  active_nodes = settle_all now s.node_ttl (queue_of run s) s.active_nodes;
  task_count = s.task_count - length (queue_of run s);
}

drop_run_counts :
    (run : String) (s : Scheduler)
    → ((drop_run run s).queued ≡ s.queued) × ((drop_run run s).task_count ≡ s.task_count)
unfolding drop_run
drop_run_counts run s = ground arith

take_pick_counts :
    (p : Pick) (emptied kept : ℕ) (s : Scheduler)
    → IsPick s p
    → IsQueueing s
    → (suc (take_pick p emptied kept s).queued ≡ s.queued)
      × ((take_pick p emptied kept s).task_count ≡ s.task_count)
unfolding take_pick
take_pick_counts p emptied kept s h v = ground (arith, h.front, length-queue_of-le p.run s v)

-- A task that leaves the queue for a worker.
started-IsSound :
    {n : ℕ} {s : Scheduler} (p : Pick) (emptied kept : ℕ)
    → IsPick s p
    → s.active_count < s.concurrency
    → IsSound n s
    → IsSound n (start_task p.task (take_pick p emptied kept s))
started-IsSound {s = s} p emptied kept h room v =
    let f = take_pick-IsFrame p emptied kept s in
    let q = take_pick-IsQueueing p emptied kept s h v.queueing in
    let (fewer, same_count) = take_pick_counts p emptied kept s h v.queueing in
    record {
      queueing = unfold start_task in record { arranged = q.arranged; counted = q.counted };
      working = start_task-IsWorking p.task _ (IsFrame-IsWorking f v.working);
      bounded = unfold start_task in rw f.same_cfg (omega (arith, v.bounded, fewer));
      limited = unfold start_task in rw (f.same_cfg, f.same_active) (omega arith);
      peak_limited =
          unfold start_task in
          rw (f.same_cfg, f.same_active, f.same_peaks) (omega (arith, v.peak_limited));
      peak_bounded = unfold start_task in rw (f.same_cfg, f.same_peak_queued) v.peak_bounded;
      tasks = unfold start_task in rw f.same_active (omega (arith, v.tasks, fewer, same_count));
      outstanding =
          unfold start_task in rw f.same_callbacks (omega (arith, v.outstanding, same_count));
    }

pub dispatch-IsSound : {n : ℕ} (s : Scheduler) → IsSound n s → IsSound n (dispatch s).0
unfolding dispatch next_eligible
dispatch-IsSound {n} s v =
    if_cases (Turned n) s.closed _ _ (λ h. v)
      (λ h.
        if_cases (Turned n) (leb s.concurrency s.active_count || s.queued == 0) _ _ (λ k. v)
          (λ k. served (ground (arith, k))))
  where
    served :
        s.active_count < s.concurrency
        → Turned n (elim (next_eligible s) [
          | none ↦ (s, waits)
          | some (p, s') ↦ (start_task p.task s', started (s'.next_exec_id + 1) p.task)
        ])
    served room = elim (Option-cases (pick_manual s.queues 0 s.run_order)) [
      | inr (p, e) ↦ rw (e, next_eligible) (started-IsSound p _ _ (pick_manual_lem s p e).0 room v)
      | inl e ↦ elim (Option-cases (pick_fair s (length s.run_order) 0)) [
        | inl f ↦ rw (e, f, next_eligible) v
        | inr (p, f) ↦
            rw (e, f, next_eligible) (started-IsSound p _ _ (pick_fair_lem s _ 0 p f).0 room v)
      ]
    ]

-- A task ends: its callback is handed out.
pub finish_task_execution-IsSound :
    {n : ℕ} (now : ℕ) (t : Task) (exec_id : ℕ) (seq : Option ℕ) (s : Scheduler)
    → find ℕ_discrete exec_id s.probing_tasks ≡ some t
    → IsSound n s
    → IsSound (n + 1) (finish_task_execution now t exec_id seq s)
finish_task_execution-IsSound now t exec_id seq s h v =
    let size = length-remove_of_find ℕ_discrete exec_id t s.probing_tasks h in
    record {
      queueing =
          unfold finish_task_execution in
          record { arranged = v.queueing.arranged; counted = v.queueing.counted };
      working = finish_task_execution-IsWorking now t exec_id seq s h v.working;
      bounded = unfold finish_task_execution in v.bounded;
      limited = unfold finish_task_execution in omega (arith, v.limited);
      peak_limited = unfold finish_task_execution in v.peak_limited;
      peak_bounded = unfold finish_task_execution in v.peak_bounded;
      tasks = unfold finish_task_execution in omega (arith, v.tasks, v.working.running, size);
      outstanding =
          unfold finish_task_execution in
          omega (arith, v.outstanding, v.tasks, v.working.running, size);
    }

-- The callbacks that a start hands out: one, if the task ends at once.
abbrev pub at_once : Option ℕ → ℕ
at_once none = 1
at_once (some seq) = 0

abbrev Begun : ℕ → Scheduler × Option ℕ → Type 0
Begun n r = IsSound (n + at_once r.1) r.0

pub begin_task-IsSound :
    {n : ℕ} (now : ℕ) (t : Task) (exec_id : ℕ) (s : Scheduler)
    → find ℕ_discrete exec_id s.probing_tasks ≡ some t
    → IsSound n s
    → Begun n (begin_task now t exec_id s)
unfolding begin_task
begin_task-IsSound {n} now t exec_id s h v =
    if_cases (Begun n) (s.closed || any (same t.run_id) s.cancelled_runs) _ _
      (λ k. finish_task_execution-IsSound now t exec_id none s h v)
      (λ k. rw add-zero (record {
        queueing = record { arranged = v.queueing.arranged; counted = v.queueing.counted };
        working = same-IsWorking v.working refl refl refl refl refl;
        bounded = v.bounded;
        limited = v.limited;
        peak_limited = v.peak_limited;
        peak_bounded = v.peak_bounded;
        tasks = v.tasks;
        outstanding = v.outstanding;
      }))

-- A run is cancelled: the callbacks of its queued tasks are handed out.
pub cancel_run-IsSound :
    {n : ℕ} (now : ℕ) (run : String) (s : Scheduler)
    → IsSound n s
    → let r = cancel_run now run s in IsSound (n + length r.1) r.0
unfolding cancel_run
cancel_run-IsSound now run s v =
    let f = drop_run-IsFrame run (cancel_run_base now run s) in
    let (a, b) = drop_run_counts run (cancel_run_base now run s) in
    let le = length-queue_of-le run s v.queueing in
    record {
      queueing = cancel_run-IsQueueing now run s v.queueing;
      working = IsFrame-IsWorking f (same-IsWorking v.working refl refl refl refl refl);
      bounded = rw f.same_cfg (omega (arith, a, v.bounded));
      limited = rw (f.same_cfg, f.same_active) v.limited;
      peak_limited = rw (f.same_cfg, f.same_peaks) v.peak_limited;
      peak_bounded = rw (f.same_cfg, f.same_peak_queued) v.peak_bounded;
      tasks = rw f.same_active (omega (arith, a, b, v.tasks, le));
      outstanding = rw f.same_callbacks (omega (arith, b, v.outstanding, v.tasks, le));
    }

pub length-pending : (queues : Map String (List Task)) → length (pending queues) ≡ total queues
unfolding pending
length-pending [] = refl
length-pending ((run, q) ∷ queues) =
    omega (arith, length-append q (pending queues), length-pending queues)

abbrev Closed : ℕ → Scheduler × List Task → Type 0
Closed n r = IsSound (n + length r.1) r.0

-- The pool is closed: the callbacks of all queued tasks are handed out.
pub close-IsSound : {n : ℕ} (now : ℕ) (s : Scheduler) → IsSound n s → Closed n (close now s)
unfolding close
close-IsSound {n} now s v =
    if_cases (Closed n) s.closed _ _ (λ h. rw add-zero v)
      (λ h. record {
        queueing = record {
          arranged = record { unique = tt; ordered = λ run. unfold get in refl };
          counted = refl;
        };
        working = same-IsWorking v.working refl refl refl refl refl;
        bounded = omega arith;
        limited = v.limited;
        peak_limited = v.peak_limited;
        peak_bounded = v.peak_bounded;
        tasks = omega (arith, v.tasks, v.queueing.counted, length-pending s.queues);
        outstanding =
            omega (arith, v.outstanding, v.tasks, v.queueing.counted, length-pending s.queues);
      })

-- A callback has returned.
pub callback_done-IsSound :
    {n : ℕ} (s : Scheduler) → IsSound (suc n) s → IsSound n (callback_done s)
unfolding callback_done
callback_done-IsSound s v = record {
  queueing = record { arranged = v.queueing.arranged; counted = v.queueing.counted };
  working = same-IsWorking v.working refl refl refl refl refl;
  bounded = v.bounded;
  limited = v.limited;
  peak_limited = v.peak_limited;
  peak_bounded = v.peak_bounded;
  tasks = v.tasks;
  outstanding = omega (arith, v.outstanding);
}
