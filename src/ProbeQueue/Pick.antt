-- ===== src/ProbeQueue/Pick.antt =====
-- `nextEligibleLocked` and one round of `dispatch` of internal/probe/queue/scheduler.go.
use Prim.Native.Nat.{max}
use clash_sub_parser.Prelude.{
  ℕ, zero, suc, ◌+◌, ◌-◌, ◌%◌, String, not, ◌||◌, ◌&&◌, List, [], ◌∷◌, ltb, leb, ◌==◌,
  if◌then◌else◌, length, get_elem?, remove_at, String_discrete, ℕ_discrete, count_if, Option, none,
  some,
}
use clash_sub_parser.Prelude.Maps.{Map, get, set, remove, has}
use clash_sub_parser.ProbeQueue.State.{Scheduler, Task, queue_of, is_manual, wrap}

-- A run's place in the order, its first task and the tasks behind it.
pub record Pick : Type 0 where
  pub index : ℕ
  pub run : String
  pub task : Task
  pub rest : List Task

-- The priority pass.
unfoldable pub pick_manual : Map String (List Task) → ℕ → List String → Option Pick
pick_manual queues i [] = none
pick_manual queues i (run ∷ order) =
    let next = pick_manual queues (suc i) order in
    elim (get String_discrete [] run queues) [
      | [] ↦ next
      | t ∷ q ↦
          if is_manual t then some (record { index = i; run = run; task = t; rest = q }) else next
    ]

-- `activeCompetingRunsLocked`
unfoldable pub active_competing_runs : Scheduler → ℕ
active_competing_runs s =
    length s.queues
    + count_if (λ (e : String × ℕ). not (has String_discrete e.0 s.queues)) s.active_by_run

unfoldable pub run_limit : Scheduler → ℕ
unfolding active_competing_runs
run_limit s =
    if not s.explicit_run_concurrency && leb (active_competing_runs s) 1
    then s.concurrency
    else s.run_concurrency

-- The round-robin pass: `rounds` runs are left, and `n` were passed over.
unfoldable pub pick_fair : Scheduler → ℕ → ℕ → Option Pick
unfolding run_limit
pick_fair s zero n = none
pick_fair s (suc rounds) n =
    let next = pick_fair s rounds (suc n) in
    let i = (s.run_cursor + n) % length s.run_order in
    elim (get_elem? s.run_order i) [
      | none ↦ none
      | some run ↦ elim (queue_of run s) [
        | [] ↦ next
        | t ∷ q ↦
            if ltb (get String_discrete 0 run s.active_by_run) (run_limit s)
            then some (record { index = i; run = run; task = t; rest = q })
            else next
      ]
    ]

-- The picked task leaves its queue. `emptied` and `kept` are the cursors of the two outcomes.
unfoldable pub take_pick : Pick → ℕ → ℕ → Scheduler → Scheduler
take_pick p emptied kept s = elim p.rest [
  | [] ↦
      let order = remove_at p.index s.run_order in
      record s {
        queues = remove String_discrete p.run s.queues;
        queued = s.queued - 1;
        run_order = order;
        run_cursor = wrap emptied order;
      }
  | t ∷ q ↦ record s {
    queues = set String_discrete p.run (t ∷ q) s.queues;
    queued = s.queued - 1;
    run_cursor = kept;
  }
]

-- `nextEligibleLocked`
unfoldable pub next_eligible : Scheduler → Option (Pick × Scheduler)
unfolding pick_manual pick_fair take_pick
next_eligible s = elim (pick_manual s.queues 0 s.run_order) [
  | some p ↦ some (p, take_pick p s.run_cursor s.run_cursor s)
  | none ↦ elim (pick_fair s (length s.run_order) 0) [
    | some p ↦ some (p, take_pick p p.index ((p.index + 1) % length s.run_order) s)
    | none ↦ none
  ]
]

pub data Dispatched : Type 0 where
  stopped waits : Dispatched
  started : ℕ → Task → Dispatched

-- The bookkeeping of a task that leaves the queue for a worker.
unfoldable pub start_task : Task → Scheduler → Scheduler
start_task t s =
    let exec_id = s.next_exec_id + 1 in
    record s {
      active_by_run =
          set String_discrete t.run_id (get String_discrete 0 t.run_id s.active_by_run + 1)
            s.active_by_run;
      next_exec_id = exec_id;
      probing_nodes =
          set String_discrete t.logical_id (get String_discrete 0 t.logical_id s.probing_nodes + 1)
            s.probing_nodes;
      probing_tasks = set ℕ_discrete exec_id t s.probing_tasks;
      active_count = s.active_count + 1;
      peak_active = max s.peak_active (s.active_count + 1);
    }

-- One round of the loop of `dispatch`.
unfoldable pub dispatch : Scheduler → Scheduler × Dispatched
unfolding next_eligible start_task
dispatch s =
    if s.closed
    then (s, stopped)
    else if leb s.concurrency s.active_count || s.queued == 0
    then (s, waits)
    else elim (next_eligible s) [
      | none ↦ (s, waits)
      | some (p, s') ↦ (start_task p.task s', started (s'.next_exec_id + 1) p.task)
    ]
