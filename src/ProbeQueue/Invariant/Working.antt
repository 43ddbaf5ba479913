-- ===== src/ProbeQueue/Invariant/Working.antt =====
-- The tasks at work: the counters and maps over them agree, when a task starts and when it ends.
use clash_sub_parser.Prelude.{
  ℕ, ◌+◌, ◌-◌, ◌<◌, ◌≡◌, String, false, Option, some, ite, arith, length, count_if, String_discrete,
  ℕ_discrete,
}
use clash_sub_parser.Prelude.Maps.{
  Map, get, has, find, IsUnique, get-set, get-remove, has-set, has-remove, set-IsUnique,
  remove-IsUnique, length-set_of_missing, count_if-set_of_missing, length-remove_of_find,
  count_if-remove_of_find,
}
use clash_sub_parser.ProbeQueue.State.{Scheduler, Task, same}
use clash_sub_parser.ProbeQueue.Pick.{start_task}
use clash_sub_parser.ProbeQueue.Finish.{decrement, finish_task_execution}

abbrev pub tasks_of_run : String → Map ℕ Task → ℕ
tasks_of_run run = count_if (λ e. same e.1.run_id run)

abbrev pub tasks_of_node : String → Map ℕ Task → ℕ
tasks_of_node node = count_if (λ e. same e.1.logical_id node)

-- `activeByRun` and `probingNodes` count the tasks at work, and execution ids are not used twice.
pub record IsWorking (s : Scheduler) : Type 0 where
  pub running : s.active_count ≡ length s.probing_tasks
  pub by_run_unique : IsUnique String_discrete s.active_by_run
  pub by_run :
      (run : String) → get String_discrete 0 run s.active_by_run ≡ tasks_of_run run s.probing_tasks
  pub by_node_unique : IsUnique String_discrete s.probing_nodes
  pub by_node :
      (node : String)
      → get String_discrete 0 node s.probing_nodes ≡ tasks_of_node node s.probing_tasks
  pub exec_unique : IsUnique ℕ_discrete s.probing_tasks
  pub exec_fresh : (i : ℕ) → s.next_exec_id < i → has ℕ_discrete i s.probing_tasks ≡ false

pub start_task-IsWorking : (t : Task) (s : Scheduler) → IsWorking s → IsWorking (start_task t s)
unfolding start_task
start_task-IsWorking t s w = record {
  running = ground (
    arith,
    w.running,
    length-set_of_missing ℕ_discrete (s.next_exec_id + 1) t s.probing_tasks,
    w.exec_fresh (s.next_exec_id + 1),
  );
  by_run_unique = set-IsUnique String_discrete _ _ s.active_by_run w.by_run_unique;
  by_run = λ run. ground (
    arith,
    w.by_run run,
    get-set String_discrete 0 t.run_id run (get String_discrete 0 t.run_id s.active_by_run + 1)
        s.active_by_run,
    count_if-set_of_missing ℕ_discrete (λ (x : Task). same x.run_id run) (s.next_exec_id + 1) t
        s.probing_tasks,
    w.exec_fresh (s.next_exec_id + 1),
  );
  by_node_unique = set-IsUnique String_discrete _ _ s.probing_nodes w.by_node_unique;
  by_node = λ node. ground (
    arith,
    w.by_node node,
    get-set String_discrete 0 t.logical_id node
        (get String_discrete 0 t.logical_id s.probing_nodes + 1) s.probing_nodes,
    count_if-set_of_missing ℕ_discrete (λ (x : Task). same x.logical_id node) (s.next_exec_id + 1) t
        s.probing_tasks,
    w.exec_fresh (s.next_exec_id + 1),
  );
  exec_unique = set-IsUnique ℕ_discrete _ _ s.probing_tasks w.exec_unique;
  exec_fresh = λ i h.
      ground (arith, w.exec_fresh i, has-set ℕ_discrete (s.next_exec_id + 1) i t s.probing_tasks);
}

decrement-IsUnique :
    (k : String) (m : Map String ℕ)
    → IsUnique String_discrete m
    → IsUnique String_discrete (decrement k m)
unfolding decrement
decrement-IsUnique k m u = ground (
  arith,
  set-IsUnique String_discrete k (get String_discrete 0 k m - 1) m u,
  remove-IsUnique String_discrete k m u,
)

get-decrement :
    (k j : String) (m : Map String ℕ)
    → IsUnique String_discrete m
    → get String_discrete 0 j (decrement k m)
      ≡ ite (String_discrete k j) (get String_discrete 0 k m - 1) (get String_discrete 0 j m)
unfolding decrement
get-decrement k j m u = ground (
  arith,
  get-set String_discrete 0 k j (get String_discrete 0 k m - 1) m,
  get-remove String_discrete 0 k j m u,
)

pub finish_task_execution-IsWorking :
    (now : ℕ) (t : Task) (exec_id : ℕ) (seq : Option ℕ) (s : Scheduler)
    → find ℕ_discrete exec_id s.probing_tasks ≡ some t
    → IsWorking s
    → IsWorking (finish_task_execution now t exec_id seq s)
unfolding finish_task_execution
finish_task_execution-IsWorking now t exec_id seq s h w = record {
  running = ground (arith, w.running, length-remove_of_find ℕ_discrete exec_id t s.probing_tasks h);
  by_run_unique = decrement-IsUnique _ _ w.by_run_unique;
  by_run = λ run. ground (
    arith,
    w.by_run run,
    get-decrement t.run_id run s.active_by_run w.by_run_unique,
    count_if-remove_of_find ℕ_discrete (λ (x : Task). same x.run_id run) exec_id t s.probing_tasks
        h,
  );
  by_node_unique = decrement-IsUnique _ _ w.by_node_unique;
  by_node = λ node. ground (
    arith,
    w.by_node node,
    get-decrement t.logical_id node s.probing_nodes w.by_node_unique,
    count_if-remove_of_find ℕ_discrete (λ (x : Task). same x.logical_id node) exec_id t
        s.probing_tasks h,
  );
  exec_unique = remove-IsUnique ℕ_discrete _ s.probing_tasks w.exec_unique;
  exec_fresh = λ i l.
      ground
        (arith, w.exec_fresh i l, has-remove ℕ_discrete exec_id i s.probing_tasks w.exec_unique);
}
