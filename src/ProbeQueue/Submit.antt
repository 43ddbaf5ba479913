-- ===== src/ProbeQueue/Submit.antt =====
-- The submissions of internal/probe/queue/scheduler.go, one round of their loops at a time: a round
-- that returns `waits` sleeps until the pool changes, and the caller then makes another round.
-- `EnqueueManualPreemptFront` is in `Preempt`.
use Prim.Native.Nat.{max}
use clash_sub_parser.Prelude.{
  ℕ, ◌+◌, String, Bool, true, not, ◌||◌, ◌&&◌, List, [], ◌∷◌, ◌++◌, ltb, if◌then◌else◌, any,
  String_discrete, none, some,
}
use clash_sub_parser.Prelude.Maps.{set, remove, find}
use clash_sub_parser.ProbeQueue.State.{
  Scheduler, Task, Error, scheduler_closed, context_canceled, node_conflict, capacity_exceeded,
  queue_of, same,
}
use clash_sub_parser.ProbeQueue.Nodes.{make_node_key, retain, prune_active_nodes}

pub data Attempt : Type 0 where
  accepted skipped waits : Attempt
  refused : Error → Attempt

-- The end of every round: the queue is full.
abbrev pub full : Bool → Attempt
full wait = if wait then waits else refused capacity_exceeded

-- A task joins the end of its run's queue, and a run without tasks joins the end of the order.
unfoldable pub append_task : Task → Scheduler → Scheduler
append_task t s =
    let q = queue_of t.run_id s in
    record s {
      task_count = s.task_count + 1;
      callbacks = s.callbacks + 1;
      run_order = elim q [ [] ↦ s.run_order ++ t.run_id ∷ [] | _ ∷ _ ↦ s.run_order ];
      queues = set String_discrete t.run_id (q ++ t ∷ []) s.queues;
      queued = s.queued + 1;
      peak_queued = max s.peak_queued (s.queued + 1);
    }

-- `enqueueTaskLocked`
unfoldable pub enqueue_task : String → Task → Scheduler → Scheduler
unfolding append_task
enqueue_task key t s = append_task t (record s {
  active_nodes =
      set String_discrete key
        (record { active = true; count = 1; until = 0; last_run_id = t.run_id }) s.active_nodes;
})

-- The rest of a strict round, behind the test for a conflict.
unfoldable pub strict_enqueue : String → Task → Bool → Scheduler → Scheduler × Attempt
unfolding enqueue_task
strict_enqueue key t wait s =
    if ltb s.queued s.queue_size then (enqueue_task key t s, accepted) else (s, full wait)

-- A round of `submitStrictConflict` behind the tests for a closed pool and a cancelled run.
unfoldable pub strict_round : String → ℕ → Task → Bool → Scheduler → Scheduler × Attempt
unfolding strict_enqueue
strict_round key now t wait s = elim (find String_discrete key s.active_nodes) [
  | none ↦ strict_enqueue key t wait s
  | some rec ↦
      if rec.active || ltb now rec.until
      then (s, refused node_conflict)
      else strict_enqueue key t wait
          (record s { active_nodes = remove String_discrete key s.active_nodes })
]

-- One round of `submitStrictConflict`.
unfoldable pub submit_strict_conflict : ℕ → Task → Bool → Scheduler → Scheduler × Attempt
unfolding strict_round
submit_strict_conflict now t wait s =
    if s.closed
    then (s, refused scheduler_closed)
    else if any (same t.run_id) s.cancelled_runs
    then (s, refused context_canceled)
    else strict_round (make_node_key t.logical_id t.kind) now t wait (prune_active_nodes now s)

-- The test on a task in the pool: another run's, or the same kind's.
abbrev pub clashes : Task → Task → Bool
clashes t other =
    same other.logical_id t.logical_id
    && (not (same other.run_id t.run_id) || same t.run_id "" || same other.kind t.kind)

-- `isNodeInPoolForPeriodicLocked`
unfoldable pub is_node_in_pool_for_periodic : Task → Scheduler → Bool
is_node_in_pool_for_periodic t s =
    not (same t.logical_id "")
    && (any (λ (e : ℕ × Task). clashes t e.1) s.probing_tasks
        || any (λ (e : String × List Task). any (clashes t) e.1) s.queues)

-- A round of `submitPeriodicDedupe` behind the test for the node in the pool.
unfoldable pub periodic_round : Task → Bool → Scheduler → Scheduler × Attempt
unfolding append_task
periodic_round t wait s =
    if ltb s.queued s.queue_size
    then (
      append_task t (record s {
        active_nodes = retain (make_node_key t.logical_id t.kind) t.run_id s.active_nodes;
      }),
      accepted,
    )
    else (s, full wait)

-- One round of `submitPeriodicDedupe`.
unfoldable pub submit_periodic_dedupe : ℕ → Task → Bool → Scheduler → Scheduler × Attempt
unfolding is_node_in_pool_for_periodic periodic_round
submit_periodic_dedupe now t wait s =
    if s.closed
    then (s, refused scheduler_closed)
    else if any (same t.run_id) s.cancelled_runs
    then (s, refused context_canceled)
    else if is_node_in_pool_for_periodic t s
    then (s, skipped)
    else periodic_round t wait (prune_active_nodes now s)
