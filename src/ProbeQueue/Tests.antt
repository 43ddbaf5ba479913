-- ===== src/ProbeQueue/Tests.antt =====
-- The theorems about internal/probe/queue/scheduler.go at the states of a small pool.
use clash_sub_parser.Prelude.{
  any, if◌then◌else◌, ◌+◌, ◌≤◌, ◌<◌, ◌≡◌, ◌↔◌, ◌⊎◌, refl, true, false, [], none, some, arith, ite,
  String_discrete,
}
use clash_sub_parser.Prelude.Maps.{find, get, set, has}
use clash_sub_parser.ProbeQueue.State.{
  same, Scheduler, empty_scheduler, queue_of, scheduler_closed, context_canceled, is_manual,
}
use clash_sub_parser.ProbeQueue.Nodes.{prune_active_nodes, make_node_key, node_id_from_key}
use clash_sub_parser.ProbeQueue.Pick.{Pick, dispatch, started, run_limit, stopped}
use clash_sub_parser.ProbeQueue.Submit.{refused, submit_strict_conflict, submit_periodic_dedupe}
use clash_sub_parser.ProbeQueue.Preempt.{
  submit, submit_manual_preempt_front, insert_front, manual_prefix,
}
use clash_sub_parser.ProbeQueue.Finish.{
  get_node_pool_state, PoolState, begin_task, cancel_run, close, is_drained, pending,
}
use clash_sub_parser.ProbeQueue.Snapshot.{snapshot_node_pool}
use clash_sub_parser.ProbeQueue.Guarantees.Snapshots.{snapshot_node_pool-get_node_pool_state}
use clash_sub_parser.ProbeQueue.Invariant.Queueing.{IsPick}
use clash_sub_parser.ProbeQueue.Pool.{Step, IsSoundWorld, Reach-IsSoundWorld, Step-IsSoundWorld}
use clash_sub_parser.ProbeQueue.Guarantees.Drained.{is_drained_iff}
use clash_sub_parser.ProbeQueue.Guarantees.Dispatching.{
  dispatch_starts, dispatch_manual_first, dispatch_waits,
}
use clash_sub_parser.ProbeQueue.Guarantees.Records.{
  node_id_from_key-make_node_key, prune_active_nodes-find,
}
use clash_sub_parser.ProbeQueue.Guarantees.Cancelling.{
  cancel_run_lem, cancel_run_refuses, close_refuses,
}
use clash_sub_parser.ProbeQueue.Guarantees.Admission.{manual_without_room, insert_front-dispatch}
use clash_sub_parser.ProbeQueue.Scenario.{
  small_request, small_pool, strict_task, second_task, manual_task, queued_one, queued_two,
  dispatched_one, reach_two, reach_dispatched, small_pool_created,
}

Reach-IsSoundWorld_example : IsSoundWorld dispatched_one
Reach-IsSoundWorld_example =
    Reach-IsSoundWorld small_request small_pool small_pool_created reach_dispatched

queued_two-IsSoundWorld : IsSoundWorld queued_two
queued_two-IsSoundWorld = Reach-IsSoundWorld small_request small_pool small_pool_created reach_two

is_drained_iff_example : (is_drained dispatched_one.pool ≡ true) ↔ (
    (pending dispatched_one.pool.queues ≡ [])
    × (dispatched_one.pool.probing_tasks ≡ [])
    × (dispatched_one.completing ≡ []))
is_drained_iff_example =
    is_drained_iff dispatched_one
      (Reach-IsSoundWorld small_request small_pool small_pool_created reach_dispatched)

dispatch_starts_example :
    (p : Pick) × (p.task ≡ strict_task)
    × IsPick queued_two.pool p
    × (queued_two.pool.active_count < queued_two.pool.concurrency)
    × ((is_manual strict_task ≡ true)
        ⊎ (get String_discrete 0 p.run queued_two.pool.active_by_run < run_limit queued_two.pool))
unfolding submit submit_strict_conflict dispatch empty_scheduler find prune_active_nodes set
    String_discrete make_node_key get has
dispatch_starts_example = dispatch_starts queued_two.pool 1 strict_task refl

-- A manual task joins the pool with the two strict ones, and is handed to the free worker.
abbrev with_manual : Scheduler
with_manual = insert_front manual_task queued_one.pool

dispatch_manual_first_example : is_manual manual_task ≡ true
unfolding submit submit_strict_conflict dispatch empty_scheduler find prune_active_nodes set
    String_discrete make_node_key get insert_front
dispatch_manual_first_example =
    dispatch_manual_first with_manual 0 "r2" manual_task [] 1 manual_task refl refl refl refl

-- One task of the run is at work, and the limit for a run is one.
dispatch_waits_example :
    run_limit dispatched_one.pool ≤ get String_discrete 0 "r1" dispatched_one.pool.active_by_run
unfolding submit submit_strict_conflict dispatch empty_scheduler find prune_active_nodes set
    String_discrete make_node_key get has
dispatch_waits_example =
    dispatch_waits 0 dispatched_one.pool "r1"
      (Reach-IsSoundWorld small_request small_pool small_pool_created reach_dispatched) refl
      (omega arith) refl (λ h. ground arith)

node_id_from_key-make_node_key_example : node_id_from_key (make_node_key "n#1" "ip") ≡ "n#1"
node_id_from_key-make_node_key_example =
    node_id_from_key-make_node_key "n#1" "ip" (λ h. ground arith, (λ h. ground arith, tt))

prune_active_nodes-find_example :
    find String_discrete "a#baseline" (prune_active_nodes 9 queued_one.pool).active_nodes
    ≡ some (record { active = true; count = 1; until = 0; last_run_id = "r1" })
unfolding submit submit_strict_conflict dispatch empty_scheduler find prune_active_nodes set
    String_discrete make_node_key get has
prune_active_nodes-find_example =
    prune_active_nodes-find 9 queued_one.pool "a#baseline"
      (record { active = true; count = 1; until = 0; last_run_id = "r1" }) (refl, tt) refl refl

cancel_run_lem_example :
    ((cancel_run 7 "r1" queued_two.pool).1 ≡ queue_of "r1" queued_two.pool)
    × (queue_of "r1" (cancel_run 7 "r1" queued_two.pool).0 ≡ [])
    × (queue_of "r2" (cancel_run 7 "r1" queued_two.pool).0
        ≡ ite (String_discrete "r1" "r2") [] (queue_of "r2" queued_two.pool))
unfolding submit
cancel_run_lem_example = cancel_run_lem 0 7 "r1" "r2" queued_two.pool queued_two-IsSoundWorld

cancel_run_refuses_example :
    ((submit_strict_conflict 8 second_task false (cancel_run 7 "r1" queued_one.pool).0).1
      ≡ refused context_canceled)
    × ((submit_periodic_dedupe 8 second_task false (cancel_run 7 "r1" queued_one.pool).0).1
        ≡ refused context_canceled)
    × ((submit_manual_preempt_front 8 second_task false (cancel_run 7 "r1" queued_one.pool).0).1
        ≡ refused context_canceled)
    × ((begin_task 8 second_task 1 (cancel_run 7 "r1" queued_one.pool).0).1 ≡ none)
unfolding submit submit_strict_conflict dispatch empty_scheduler find prune_active_nodes set
    String_discrete make_node_key get has
cancel_run_refuses_example = cancel_run_refuses 7 8 second_task 1 false queued_one.pool refl

close_refuses_example :
    ((submit_strict_conflict 8 second_task true (close 7 queued_one.pool).0).1
      ≡ refused scheduler_closed)
    × ((submit_periodic_dedupe 8 second_task true (close 7 queued_one.pool).0).1
        ≡ refused scheduler_closed)
    × ((submit_manual_preempt_front 8 second_task true (close 7 queued_one.pool).0).1
        ≡ refused scheduler_closed)
    × ((dispatch (close 7 queued_one.pool).0).1 ≡ stopped)
    × ((begin_task 8 second_task 1 (close 7 queued_one.pool).0).1 ≡ none)
close_refuses_example = close_refuses 7 8 second_task 1 true queued_one.pool

-- The queue has its two tasks, and the manual task is of another node.
manual_without_room_example :
    (submit_manual_preempt_front 7 manual_task false queued_two.pool).2 ≡ []
unfolding submit submit_strict_conflict dispatch empty_scheduler find prune_active_nodes set
    String_discrete make_node_key get submit_manual_preempt_front
manual_without_room_example =
    manual_without_room 0 7 manual_task queued_two.pool queued_two-IsSoundWorld refl

insert_front-dispatch_example :
    (dispatch (insert_front manual_task queued_one.pool)).1
    ≡ started (queued_one.pool.next_exec_id + 1) manual_task
unfolding submit submit_strict_conflict dispatch empty_scheduler find prune_active_nodes set
    String_discrete make_node_key get manual_prefix
insert_front-dispatch_example =
    insert_front-dispatch manual_task queued_one.pool refl refl refl (omega arith)

Step-IsSoundWorld_example : IsSoundWorld dispatched_one
Step-IsSoundWorld_example =
    Step-IsSoundWorld {w = queued_two} Step.dispatches queued_two-IsSoundWorld

-- One task is at work on `a`, one for `b` waits.
snapshot_node_pool-get_node_pool_state_example : get_node_pool_state "b" dispatched_one.pool ≡ (
    if any (same "b") (snapshot_node_pool dispatched_one.pool).probing_node_ids
    then PoolState.probing
    else if any (same "b") (snapshot_node_pool dispatched_one.pool).queued_node_ids
    then PoolState.in_queue
    else PoolState.idle)
unfolding String_discrete submit
snapshot_node_pool-get_node_pool_state_example =
    snapshot_node_pool-get_node_pool_state 0 "b" dispatched_one.pool
      (Reach-IsSoundWorld small_request small_pool small_pool_created reach_dispatched) refl
