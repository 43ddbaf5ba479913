-- ===== src/ProbeQueue/Guarantees/Views.antt =====
-- `GetNodePoolState` and `IsNodeInPool` of internal/probe/queue/scheduler.go.
use clash_sub_parser.Prelude.{
  ◌+◌, ◌<◌, ◌≡◌, ◌↔◌, String, Bool, true, List, [], ◌∷◌, arith, any, count_if, count_if-append,
  any-count_if,
}
use clash_sub_parser.Prelude.Maps.{Map}
use clash_sub_parser.ProbeQueue.State.{Scheduler, Task, same}
use clash_sub_parser.ProbeQueue.Finish.{is_node_in_pool, pending}
use clash_sub_parser.ProbeQueue.Invariant.Working.{IsWorking, tasks_of_node}

abbrev of_node : String → Task → Bool
of_node node t = same t.logical_id node

any_queued :
    (node : String) (queues : Map String (List Task))
    → (any (λ (e : String × List Task). any (of_node node) e.1) queues ≡ true)
      ↔ (0 < count_if (of_node node) (pending queues))
unfolding pending
any_queued node [] = ground arith
any_queued node ((run, q) ∷ queues) = ground (
  arith,
  any_queued node queues,
  any-count_if (of_node node) q,
  count_if-append (of_node node) q (pending queues),
)

-- Where the maps over the tasks at work agree with them, a node counts as in the pool exactly when a
-- task at work or a queued task is of that node.
is_node_in_pool_iff :
    (node : String) (s : Scheduler)
    → IsWorking s
    → (is_node_in_pool node s ≡ true)
      ↔ (0 < tasks_of_node node s.probing_tasks + count_if (of_node node) (pending s.queues))
unfolding is_node_in_pool
is_node_in_pool_iff node s w = ground (arith, w.by_node node, any_queued node s.queues)
