-- ===== src/ProbeQueue/Preempt.antt =====
-- `submitManualPreemptFront` of internal/probe/queue/scheduler.go, one round of its loop.
use Prim.Native.Nat.{max}
use clash_sub_parser.Prelude.{
  ℕ, zero, suc, ◌+◌, ◌-◌, String, Bool, false, not, ◌||◌, ◌&&◌, List, [], ◌∷◌, ◌++◌, map, ltb,
  if◌then◌else◌, any, length, get_elem?, remove_at, insert_at, String_discrete, Option, none, some,
}
use clash_sub_parser.Prelude.Maps.{Map, set, remove, find}
use clash_sub_parser.ProbeQueue.State.{
  EnqueueMode, strict_conflict, periodic_dedupe, Scheduler, ActiveRecord, Task,
  manual_preempt_front, scheduler_closed, context_canceled, node_conflict, queue_of, same,
  is_manual, wrap,
}
use clash_sub_parser.ProbeQueue.Nodes.{make_node_key, retain, withdraw, prune_active_nodes}
use clash_sub_parser.ProbeQueue.Submit.{
  submit_strict_conflict, submit_periodic_dedupe, Attempt, accepted, refused, full,
}

-- The number of manual tasks at the front.
unfoldable pub manual_prefix : List Task → ℕ
manual_prefix [] = 0
manual_prefix (t ∷ q) = let rest = suc (manual_prefix q) in if is_manual t then rest else 0

-- The task of the same node and kind.
abbrev pub same_probe : Task → Task → Bool
same_probe t other = same other.logical_id t.logical_id && same other.kind t.kind

-- The test for the same node and kind within one run that has a name.
unfoldable pub is_duplicate : ℕ → Task → Scheduler → Bool
is_duplicate now t s =
    not (same t.run_id "")
    && ((elim (find String_discrete (make_node_key t.logical_id t.kind) s.active_nodes) [
      | none ↦ false
      | some rec ↦ same rec.last_run_id t.run_id && (rec.active || ltb now rec.until)
    ])
        || (any (λ (e : ℕ × Task). same e.1.run_id t.run_id && same_probe t e.1) s.probing_tasks
            || any (same_probe t) (queue_of t.run_id s)))

-- The place in a queue, the queue, the records and the tasks that left, in the scan of one queue.
pub record Scan : Type 0 where
  pub place : ℕ
  pub queue : List Task
  pub nodes : Map String ActiveRecord
  pub promoted : List Task

abbrev any_kind : Task → Task → Bool
any_kind t old = same old.kind t.kind || same old.kind "" || same t.kind ""

-- The body of the scan, at the task `old` in place `c.place`.
unfoldable pub scan_task : Task → Task → Scan → Scan
unfolding manual_prefix
scan_task t old c =
    if not (same old.logical_id t.logical_id)
    then record c { place = suc c.place }
    else if any_kind t old
    then record c {
      queue = remove_at c.place c.queue;
      nodes = withdraw (make_node_key old.logical_id old.kind) c.nodes;
      promoted = c.promoted ++ old ∷ [];
    }
    else if not (is_manual old)
    then (let q = remove_at c.place c.queue in
        record c {
          place = suc c.place;
          queue = insert_at (manual_prefix q) (record old { mode = manual_preempt_front }) q;
        })
    else record c { place = suc c.place }

-- The scan of one queue. A round passes one task or removes it, so the length is enough fuel.
unfoldable pub scan_queue : ℕ → Task → Scan → Scan
unfolding scan_task
scan_queue zero t c = c
scan_queue (suc fuel) t c = elim (get_elem? c.queue c.place) [
  | none ↦ c
  | some old ↦ scan_queue fuel t (scan_task t old c)
]

-- The place of a run in the order.
unfoldable pub index_of : String → List String → Option ℕ
index_of run [] = none
index_of run (r ∷ order) =
    let rest = index_of run order in
    if same r run then some 0 else elim rest [ none ↦ none | some i ↦ some (suc i) ]

-- A run leaves the order.
unfoldable pub drop_run : String → Scheduler → Scheduler
unfolding index_of
drop_run run s = elim (index_of run s.run_order) [
  | none ↦ s
  | some j ↦
      let order = remove_at j s.run_order in
      record s { run_order = order; run_cursor = wrap s.run_cursor order }
]

-- The queue of a run is written back, or deleted where it is empty.
unfoldable pub write_queue : String → Scan → Scheduler → Scheduler
unfolding drop_run
write_queue run c s =
    let s' = record s {
      active_nodes = c.nodes;
      queued = s.queued - length c.promoted;
      task_count = s.task_count - length c.promoted;
    } in
    elim c.queue [
      | [] ↦ drop_run run (record s' { queues = remove String_discrete run s.queues })
      | t ∷ q ↦ record s' { queues = set String_discrete run (t ∷ q) s.queues }
    ]

abbrev pub start_scan : String → Scheduler → Scan
start_scan run s = record {
  place = 0;
  queue = queue_of run s;
  nodes = s.active_nodes;
  promoted = [];
}

-- The body of `for runID, q := range s.queues`.
unfoldable pub promote_run : Task → String → Scheduler → Scheduler × List Task
unfolding scan_queue write_queue
promote_run t run s =
    if same run t.run_id && not (same t.run_id "")
    then (s, [])
    else let c = scan_queue (length (queue_of run s)) t (start_scan run s) in
      (write_queue run c s, c.promoted)

-- The loop over the queues, and the tasks that left them.
unfoldable pub promote_runs : Task → List String → Scheduler → Scheduler × List Task
unfolding promote_run
promote_runs t [] s = (s, [])
promote_runs t (run ∷ runs) s =
    let (s', out) = promote_run t run s in
    let (s'', more) = promote_runs t runs s' in (s'', out ++ more)

-- The run moves to the front of the order, or joins it there.
unfoldable pub to_front : String → List String → List String
unfolding index_of
to_front run order = elim (index_of run order) [
  | none ↦ run ∷ order
  | some zero ↦ order
  | some (suc j) ↦ run ∷ remove_at (suc j) order
]

-- The task joins its queue behind the manual tasks.
unfoldable pub insert_front : Task → Scheduler → Scheduler
unfolding to_front manual_prefix
insert_front t s =
    let q = queue_of t.run_id s in
    record s {
      active_nodes = retain (make_node_key t.logical_id t.kind) t.run_id s.active_nodes;
      task_count = s.task_count + 1;
      callbacks = s.callbacks + 1;
      run_order = to_front t.run_id s.run_order;
      run_cursor = 0;
      queues = set String_discrete t.run_id (insert_at (manual_prefix q) t q) s.queues;
      queued = s.queued + 1;
      peak_queued = max s.peak_queued (s.queued + 1);
    }

-- The end of a round, after the promotion. The tasks that left are completed whatever it says.
unfoldable pub manual_round : Task → Bool → Scheduler × List Task → Scheduler × Attempt × List Task
unfolding insert_front
manual_round t wait (s, promoted) =
    if ltb s.queued s.queue_size
    then (insert_front t s, accepted, promoted)
    else (s, full wait, promoted)

-- One round of `submitManualPreemptFront`.
unfoldable pub submit_manual_preempt_front :
    ℕ → Task → Bool → Scheduler → Scheduler × Attempt × List Task
unfolding is_duplicate promote_runs manual_round
submit_manual_preempt_front now t wait s =
    if s.closed
    then (s, refused scheduler_closed, [])
    else if any (same t.run_id) s.cancelled_runs
    then (s, refused context_canceled, [])
    else let s' = prune_active_nodes now s in
      if is_duplicate now t s'
      then (s', refused node_conflict, [])
      else manual_round t wait (promote_runs t (map (λ e. e.0) s'.queues) s')

-- `submit` behind the test on the caller's context: one round of the submission for a mode. A periodic
-- task that is skipped has its callback run by the caller, outside the pool's count.
unfoldable pub submit_as :
    EnqueueMode → ℕ → Task → Bool → Scheduler → Scheduler × Attempt × List Task
unfolding submit_manual_preempt_front
submit_as strict_conflict now t wait s =
    let r = submit_strict_conflict now t wait s in (r.0, r.1, [])
submit_as periodic_dedupe now t wait s =
    let r = submit_periodic_dedupe now t wait s in (r.0, r.1, [])
submit_as manual_preempt_front now t wait s = submit_manual_preempt_front now t wait s

unfoldable pub submit : ℕ → Task → Bool → Scheduler → Scheduler × Attempt × List Task
unfolding submit_as
submit now t wait s = submit_as t.mode now t wait s
