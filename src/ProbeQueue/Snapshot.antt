-- ===== src/ProbeQueue/Snapshot.antt =====
-- `SnapshotNodePool` of internal/probe/queue/scheduler.go.
use clash_sub_parser.Prelude.{
  ℕ, ◌+◌, String, Bool, true, not, ◌&&◌, List, [], ◌∷◌, ◌++◌, ltb, if◌then◌else◌, any, length,
}
use clash_sub_parser.Prelude.Maps.{Map}
use clash_sub_parser.Prelude.Sort.{sort_texts}
use clash_sub_parser.ProbeQueue.State.{Scheduler, Task, queue_of, same, is_manual}

pub record PoolQueueSnapshot : Type 0 where
  pub probing_node_ids : List String
  pub queued_node_ids : List String
  pub probing_count : ℕ
  pub queued_waiting_count : ℕ
  pub queue_nodes_count : ℕ

-- The nodes of `probingNodes` that have a name and a task at work.
unfoldable pub probing_ids : Map String ℕ → List String
probing_ids [] = []
probing_ids ((node, count) ∷ nodes) =
    let rest = probing_ids nodes in if ltb 0 count && not (same node "") then node ∷ rest else rest

-- The queued tasks by the order of their runs.
unfoldable pub ordered_tasks : Scheduler → List String → List Task
ordered_tasks s [] = []
ordered_tasks s (run ∷ order) = queue_of run s ++ ordered_tasks s order

-- The nodes of the tasks that pass the test join those that were seen.
unfoldable pub collect : (Task → Bool) → List String → List Task → List String → List String
collect p probing [] seen = seen
collect p probing (t ∷ q) seen = collect p probing q (
    if p t
      && (not (same t.logical_id "")
          && (not (any (same t.logical_id) seen) && not (any (same t.logical_id) probing)))
    then seen ++ t.logical_id ∷ []
    else seen)

-- `queuedOrdered`
unfoldable pub queued_ids : List String → List Task → List String
unfolding collect
queued_ids probing tasks = collect (λ t. true) probing tasks (collect is_manual probing tasks [])

-- `SnapshotNodePool`
unfoldable pub snapshot_node_pool : Scheduler → PoolQueueSnapshot
unfolding probing_ids ordered_tasks queued_ids
snapshot_node_pool s =
    let probing = sort_texts (probing_ids s.probing_nodes) in
    let queued = queued_ids probing (ordered_tasks s s.run_order) in
    record {
      probing_node_ids = probing;
      queued_node_ids = queued;
      probing_count = length probing;
      queued_waiting_count = length queued;
      queue_nodes_count = length probing + length queued;
    }
