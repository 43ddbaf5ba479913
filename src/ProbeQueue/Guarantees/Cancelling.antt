-- ===== src/ProbeQueue/Guarantees/Cancelling.antt =====
-- `CancelRun` and `Close` of internal/probe/queue/scheduler.go: what they end, and that it stays ended.
use clash_sub_parser.Prelude.{
  ℕ, ◌≡◌, refl, String, Bool, true, false, [], arith, any, ite, none, String_discrete,
}
use clash_sub_parser.Prelude.Maps.{get-remove}
use clash_sub_parser.ProbeQueue.State.{
  Scheduler, Task, queue_of, same, scheduler_closed, context_canceled,
}
use clash_sub_parser.ProbeQueue.Pick.{dispatch, stopped}
use clash_sub_parser.ProbeQueue.Submit.{refused, submit_strict_conflict, submit_periodic_dedupe}
use clash_sub_parser.ProbeQueue.Preempt.{drop_run, submit_manual_preempt_front}
use clash_sub_parser.ProbeQueue.Finish.{cancel_run, close, begin_task}
use clash_sub_parser.ProbeQueue.Invariant.Sound.{IsSound}

drop_run_keeps :
    (run : String) (s : Scheduler)
    → ((drop_run run s).queues ≡ s.queues)
      × ((drop_run run s).cancelled_runs ≡ s.cancelled_runs)
      × ((drop_run run s).closed ≡ s.closed)
unfolding drop_run
drop_run_keeps run s = ground arith

-- Where the invariant holds, a cancelled run loses its queued tasks, which are handed out for
-- their callbacks, and the queues of the other runs stay as they were.
pub cancel_run_lem :
    (n now : ℕ) (run other : String) (s : Scheduler)
    → IsSound n s
    → let r = cancel_run now run s in
      (r.1 ≡ queue_of run s)
      × (queue_of run r.0 ≡ [])
      × (queue_of other r.0 ≡ ite (String_discrete run other) [] (queue_of other s))
unfolding cancel_run
cancel_run_lem n now run other s v =
    let u = v.queueing.arranged.unique in
    (
      refl,
      rw (drop_run_keeps run _).0
          (ground (arith, get-remove String_discrete [] run run s.queues u)),
      rw (drop_run_keeps run _).0
          (ground (arith, get-remove String_discrete [] run other s.queues u)),
    )

cancelled :
    (now : ℕ) (run : String) (s : Scheduler)
    → (any (same run) (cancel_run now run s).0.cancelled_runs ≡ true)
      × ((cancel_run now run s).0.closed ≡ s.closed)
unfolding cancel_run
cancelled now run s = (rw (drop_run_keeps run _).1 (ground arith), rw (drop_run_keeps run _).2 refl)

-- After the cancellation in an open pool every submission of the run is refused as cancelled, and
-- a task of the run that was dispatched before ends without being executed.
pub cancel_run_refuses :
    (now later : ℕ) (t : Task) (exec_id : ℕ) (wait : Bool) (s : Scheduler)
    → s.closed ≡ false
    → let c = (cancel_run now t.run_id s).0 in
      ((submit_strict_conflict later t wait c).1 ≡ refused context_canceled)
      × ((submit_periodic_dedupe later t wait c).1 ≡ refused context_canceled)
      × ((submit_manual_preempt_front later t wait c).1 ≡ refused context_canceled)
      × ((begin_task later t exec_id c).1 ≡ none)
unfolding submit_strict_conflict submit_periodic_dedupe submit_manual_preempt_front begin_task
cancel_run_refuses now later t exec_id wait s open_pool =
    let c = (cancel_run now t.run_id s).0 in
    let (e, f) = cancelled now t.run_id s in
    (ground (arith, e, f), ground (arith, e, f), ground (arith, e, f), ground (arith, e))

-- After Close a pool refuses every submission as closed, stops its dispatcher, and ends a task
-- that was dispatched before without executing it.
pub close_refuses :
    (now later : ℕ) (t : Task) (exec_id : ℕ) (wait : Bool) (s : Scheduler)
    → let c = (close now s).0 in
      ((submit_strict_conflict later t wait c).1 ≡ refused scheduler_closed)
      × ((submit_periodic_dedupe later t wait c).1 ≡ refused scheduler_closed)
      × ((submit_manual_preempt_front later t wait c).1 ≡ refused scheduler_closed)
      × ((dispatch c).1 ≡ stopped)
      × ((begin_task later t exec_id c).1 ≡ none)
unfolding submit_strict_conflict submit_periodic_dedupe submit_manual_preempt_front dispatch
    begin_task close
close_refuses now later t exec_id wait s =
    (ground arith, ground arith, ground arith, ground arith, ground arith)
