-- ===== src/ProbeQueue/Invariant/Frame.antt =====
-- What the operations on the queues leave alone: the tasks at work, and the configuration.
use clash_sub_parser.Prelude.{ℕ, ◌≡◌, String, arith}
use clash_sub_parser.ProbeQueue.State.{Scheduler}
use clash_sub_parser.ProbeQueue.Nodes.{prune_active_nodes}
use clash_sub_parser.ProbeQueue.Pick.{Pick, take_pick}
use clash_sub_parser.ProbeQueue.Preempt.{drop_run, write_queue, Scan}
use clash_sub_parser.ProbeQueue.Invariant.Working.{IsWorking}

pub record IsFrame (s u : Scheduler) : Type 0 where
  pub same_cfg : u.cfg ≡ s.cfg
  pub same_closed : u.closed ≡ s.closed
  pub same_by_run : u.active_by_run ≡ s.active_by_run
  pub same_nodes : u.probing_nodes ≡ s.probing_nodes
  pub same_tasks : u.probing_tasks ≡ s.probing_tasks
  pub same_exec : u.next_exec_id ≡ s.next_exec_id
  pub same_active : u.active_count ≡ s.active_count
  pub same_peaks : u.peak_active ≡ s.peak_active
  pub same_peak_queued : u.peak_queued ≡ s.peak_queued
  pub same_callbacks : u.callbacks ≡ s.callbacks

pub IsFrame-refl : (s : Scheduler) → IsFrame s s
IsFrame-refl s = ground arith

pub IsFrame-trans : {s u w : Scheduler} → IsFrame s u → IsFrame u w → IsFrame s w
IsFrame-trans f g = ground arith

pub same-IsWorking :
    {s u : Scheduler}
    → IsWorking s
    → u.active_by_run ≡ s.active_by_run
    → u.probing_nodes ≡ s.probing_nodes
    → u.probing_tasks ≡ s.probing_tasks
    → u.next_exec_id ≡ s.next_exec_id
    → u.active_count ≡ s.active_count
    → IsWorking u
same-IsWorking w a b c d e = record {
  running = ground arith;
  by_run_unique = rw a w.by_run_unique;
  by_run = λ run. rw (a, c) (w.by_run run);
  by_node_unique = rw b w.by_node_unique;
  by_node = λ node. rw (b, c) (w.by_node node);
  exec_unique = rw c w.exec_unique;
  exec_fresh = λ i h. rw c (w.exec_fresh i (rw (← d) h));
}

pub IsFrame-IsWorking : {s u : Scheduler} → IsFrame s u → IsWorking s → IsWorking u
IsFrame-IsWorking f w =
    same-IsWorking w f.same_by_run f.same_nodes f.same_tasks f.same_exec f.same_active

pub prune_active_nodes-IsFrame : (now : ℕ) (s : Scheduler) → IsFrame s (prune_active_nodes now s)
unfolding prune_active_nodes
prune_active_nodes-IsFrame now s = ground arith

pub take_pick-IsFrame :
    (p : Pick) (emptied kept : ℕ) (s : Scheduler) → IsFrame s (take_pick p emptied kept s)
unfolding take_pick
take_pick-IsFrame p emptied kept s = ground arith

pub drop_run-IsFrame : (run : String) (s : Scheduler) → IsFrame s (drop_run run s)
unfolding drop_run
drop_run-IsFrame run s = ground arith

pub write_queue-IsFrame :
    (run : String) (c : Scan) (s : Scheduler) → IsFrame s (write_queue run c s)
unfolding write_queue drop_run
write_queue-IsFrame run c s = ground arith
