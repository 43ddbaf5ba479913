-- ===== src/ProbeQueue/Invariant/Sound.antt =====
-- The invariant of the pool, with the number of completion callbacks that were handed out and have
-- not returned, and every operation of internal/probe/queue/scheduler.go on it.
use clash_sub_parser.Prelude.{ℕ, ◌+◌, ◌≤◌, ◌<◌, ◌≡◌, refl, String, arith}
use clash_sub_parser.Prelude.Maps.{Map}
use clash_sub_parser.ProbeQueue.State.{Scheduler, ActiveRecord, Task}
use clash_sub_parser.ProbeQueue.Nodes.{prune_active_nodes}
use clash_sub_parser.ProbeQueue.Submit.{append_task}
use clash_sub_parser.ProbeQueue.Preempt.{insert_front}
use clash_sub_parser.ProbeQueue.Invariant.Working.{IsWorking}
use clash_sub_parser.ProbeQueue.Invariant.Frame.{same-IsWorking}
use clash_sub_parser.ProbeQueue.Invariant.Queueing.{
  IsQueueing, append_task-IsQueueing, insert_front-IsQueueing,
}

-- `n` callbacks are outstanding beside those of the tasks in the pool.
pub record IsSound (n : ℕ) (s : Scheduler) : Type 0 where
  pub queueing : IsQueueing s
  pub working : IsWorking s
  pub bounded : s.queued ≤ s.queue_size
  pub limited : s.active_count ≤ s.concurrency
  pub peak_limited : s.peak_active ≤ s.concurrency
  pub peak_bounded : s.peak_queued ≤ s.queue_size
  pub tasks : s.task_count ≡ s.queued + s.active_count
  pub outstanding : s.callbacks ≡ s.task_count + n

-- The records of the nodes are not part of it.
pub nodes-IsSound :
    {n : ℕ} {s : Scheduler} (nodes : Map String ActiveRecord)
    → IsSound n s
    → IsSound n (record s { active_nodes = nodes })
nodes-IsSound nodes v = record {
  queueing = record { arranged = v.queueing.arranged; counted = v.queueing.counted };
  working = same-IsWorking v.working refl refl refl refl refl;
  bounded = v.bounded;
  limited = v.limited;
  peak_limited = v.peak_limited;
  peak_bounded = v.peak_bounded;
  tasks = v.tasks;
  outstanding = v.outstanding;
}

pub prune_active_nodes-IsSound :
    {n : ℕ} (now : ℕ) {s : Scheduler} → IsSound n s → IsSound n (prune_active_nodes now s)
unfolding prune_active_nodes
prune_active_nodes-IsSound now v = nodes-IsSound _ v

module _ {n : ℕ} (t : Task) (s : Scheduler) (v : IsSound n s) (room : s.queued < s.queue_size) where
  pub append_task-IsSound : IsSound n (append_task t s)
  append_task-IsSound = record {
    queueing = append_task-IsQueueing t s v.queueing;
    working = unfold append_task in same-IsWorking v.working refl refl refl refl refl;
    bounded = unfold append_task in omega arith;
    limited = unfold append_task in v.limited;
    peak_limited = unfold append_task in v.peak_limited;
    peak_bounded = unfold append_task in omega (arith, v.peak_bounded);
    tasks = unfold append_task in omega (arith, v.tasks);
    outstanding = unfold append_task in omega (arith, v.outstanding);
  }

  pub insert_front-IsSound : IsSound n (insert_front t s)
  insert_front-IsSound = record {
    queueing = insert_front-IsQueueing t s v.queueing;
    working = unfold insert_front in same-IsWorking v.working refl refl refl refl refl;
    bounded = unfold insert_front in omega arith;
    limited = unfold insert_front in v.limited;
    peak_limited = unfold insert_front in v.peak_limited;
    peak_bounded = unfold insert_front in omega (arith, v.peak_bounded);
    tasks = unfold insert_front in omega (arith, v.tasks);
    outstanding = unfold insert_front in omega (arith, v.outstanding);
  }
