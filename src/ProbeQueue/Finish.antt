-- ===== src/ProbeQueue/Finish.antt =====
-- The worker's side of internal/probe/queue/scheduler.go: `processTask`, `finishTaskExecutionLocked`,
-- `CancelRun`, `Close`, and the views of the pool.
use clash_sub_parser.Prelude.{
  ℕ, ◌+◌, ◌-◌, String, Bool, true, false, not, ◌||◌, ◌&&◌, List, [], ◌∷◌, ◌++◌, ltb, if◌then◌else◌,
  any, length, filter_if, ◌==◌, String_discrete, ℕ_discrete, Option, none, some,
}
use clash_sub_parser.Prelude.Maps.{Map, get, set, remove}
use clash_sub_parser.ProbeQueue.State.{Scheduler, ActiveRecord, Task, queue_of, same}
use clash_sub_parser.ProbeQueue.Nodes.{make_node_key, settle_key, settle_present}
use clash_sub_parser.ProbeQueue.Preempt.{drop_run}

-- One less, and the key goes when nothing is left.
unfoldable pub decrement : String → Map String ℕ → Map String ℕ
decrement k m =
    if ltb 1 (get String_discrete 0 k m)
    then set String_discrete k (get String_discrete 0 k m - 1) m
    else remove String_discrete k m

-- The cancel function of a started task is forgotten.
unfoldable pub forget_cancel : String → Option ℕ → Map String (List ℕ) → Map String (List ℕ)
forget_cancel run none m = m
forget_cancel run (some seq) m =
    elim (filter_if (λ n. not (n == seq)) (get String_discrete [] run m)) [
      | [] ↦ remove String_discrete run m
      | n ∷ left ↦ set String_discrete run (n ∷ left) m
    ]

-- `finishTaskExecutionLocked`
unfoldable pub finish_task_execution : ℕ → Task → ℕ → Option ℕ → Scheduler → Scheduler
unfolding decrement
finish_task_execution now t exec_id seq s = record s {
  run_cancels = forget_cancel t.run_id seq s.run_cancels;
  probing_tasks = remove ℕ_discrete exec_id s.probing_tasks;
  probing_nodes = decrement t.logical_id s.probing_nodes;
  active_count = s.active_count - 1;
  active_by_run = decrement t.run_id s.active_by_run;
  active_nodes = settle_present now s.node_ttl (make_node_key t.logical_id t.kind) s.active_nodes;
  task_count = s.task_count - 1;
}

-- The first locked part of `processTask`: the task ends at once in a closed pool or a cancelled run
-- (`none`), and otherwise its cancel function is stored under a number.
unfoldable pub begin_task : ℕ → Task → ℕ → Scheduler → Scheduler × Option ℕ
unfolding finish_task_execution
begin_task now t exec_id s =
    if s.closed || any (same t.run_id) s.cancelled_runs
    then (finish_task_execution now t exec_id none s, none)
    else (
      record s {
        cancel_sequence = s.cancel_sequence + 1;
        run_cancels =
            set String_discrete t.run_id
              (s.cancel_sequence ∷ get String_discrete [] t.run_id s.run_cancels) s.run_cancels;
      },
      some s.cancel_sequence,
    )

-- The records of tasks that are dropped from their queue.
unfoldable pub settle_all : ℕ → ℕ → List Task → Map String ActiveRecord → Map String ActiveRecord
settle_all now ttl [] nodes = nodes
settle_all now ttl (t ∷ q) nodes =
    settle_all now ttl q (settle_key now ttl (make_node_key t.logical_id t.kind) nodes)

-- The locked part of `CancelRun`, and the tasks whose callbacks then run.
unfoldable pub cancel_run : ℕ → String → Scheduler → Scheduler × List Task
unfolding settle_all
cancel_run now run s =
    let q = queue_of run s in
    (
      drop_run run (record s {
        cancelled_runs = run ∷ s.cancelled_runs;
        queues = remove String_discrete run s.queues;
        queued = s.queued - length q;
        active_nodes = settle_all now s.node_ttl q s.active_nodes;
        task_count = s.task_count - length q;
      }),
      q,
    )

-- All queues in the order of the map.
unfoldable pub pending : Map String (List Task) → List Task
pending [] = []
pending ((run, q) ∷ queues) = q ++ pending queues

-- The locked part of `Close`, and the tasks whose callbacks then run.
unfoldable pub close : ℕ → Scheduler → Scheduler × List Task
unfolding settle_all pending
close now s =
    let waiting = pending s.queues in
    if s.closed then (s, []) else (
      record s {
        closed = true;
        queues = [];
        run_order = [];
        queued = 0;
        active_nodes = settle_all now s.node_ttl waiting s.active_nodes;
        task_count = s.task_count - length waiting;
      },
      waiting,
    )

-- The deferred part of `completeCallback`.
unfoldable pub callback_done : Scheduler → Scheduler
callback_done s = record s { callbacks = s.callbacks - 1 }

-- The test of `Wait`.
unfoldable pub is_idle : Scheduler → Bool
is_idle s = s.task_count == 0

-- The test of `Drain`.
unfoldable pub is_drained : Scheduler → Bool
is_drained s = s.callbacks == 0 && (s.active_count == 0 && s.queued == 0)

pub data PoolState : Type 0 where
  probing in_queue idle : PoolState

-- `GetNodePoolState`
unfoldable pub get_node_pool_state : String → Scheduler → PoolState
get_node_pool_state node s =
    if ltb 0 (get String_discrete 0 node s.probing_nodes)
    then probing
    else if any (λ (e : String × List Task). any (λ (t : Task). same t.logical_id node) e.1)
        s.queues
    then in_queue
    else idle

-- `IsNodeInPool`
unfoldable pub is_node_in_pool : String → Scheduler → Bool
unfolding get_node_pool_state
is_node_in_pool node s = elim (get_node_pool_state node s) [ idle ↦ false | _ ↦ true ]
