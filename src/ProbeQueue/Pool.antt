-- ===== src/ProbeQueue/Pool.antt =====
-- The pool of internal/probe/queue/scheduler.go with its callers, workers and callbacks, as one step
-- relation: each step is one locked section, and the steps of all goroutines interleave in any order.
-- `completing` holds a task for each call of `completeCallback` that has not returned. A worker's
-- arguments are the entry of `probingTasks` under its execution id.
use clash_sub_parser.Prelude.{
  ℕ, ◌+◌, ◌≤◌, ◌≡◌, refl, sym, subst, String, Bool, List, [], ◌∷◌, ◌++◌, Option, none, some, arith,
  length, get_elem?, remove_at, length-append, length-remove_at, ℕ_discrete,
}
use clash_sub_parser.Prelude.Maps.{find, get, has}
use clash_sub_parser.ProbeQueue.State.{
  Scheduler, Task, Request, new_scheduler, created, Config, empty_scheduler,
}
use clash_sub_parser.ProbeQueue.Pick.{dispatch}
use clash_sub_parser.ProbeQueue.Preempt.{submit}
use clash_sub_parser.ProbeQueue.Finish.{
  begin_task, finish_task_execution, cancel_run, close, callback_done,
}
use clash_sub_parser.ProbeQueue.Invariant.Sound.{IsSound}
use clash_sub_parser.ProbeQueue.Invariant.Submitted.{submit-IsSound}
use clash_sub_parser.ProbeQueue.Invariant.Served.{
  dispatch-IsSound, at_once, begin_task-IsSound, finish_task_execution-IsSound, cancel_run-IsSound,
  close-IsSound, callback_done-IsSound,
}

pub record World : Type 0 where
  pub pool : Scheduler
  pub completing : List Task

-- The callback of a task that ends at its start.
abbrev pub ended : Task → Option ℕ → List Task
ended t none = t ∷ []
ended t (some seq) = []

pub data Step (w : World) : World → Type 0 where
  submits :
      (now : ℕ) (t : Task) (wait : Bool)
      → Step w (record {
        pool = (submit now t wait w.pool).0;
        completing = (submit now t wait w.pool).2 ++ w.completing;
      })
  dispatches : Step w (record w { pool = (dispatch w.pool).0 })
  begins :
      (now : ℕ) (t : Task) (exec_id : ℕ)
      → find ℕ_discrete exec_id w.pool.probing_tasks ≡ some t
      → Step w (record {
        pool = (begin_task now t exec_id w.pool).0;
        completing = ended t (begin_task now t exec_id w.pool).1 ++ w.completing;
      })
  finishes :
      (now : ℕ) (t : Task) (exec_id : ℕ) (seq : Option ℕ)
      → find ℕ_discrete exec_id w.pool.probing_tasks ≡ some t
      → Step w (record {
        pool = finish_task_execution now t exec_id seq w.pool;
        completing = t ∷ w.completing;
      })
  cancels :
      (now : ℕ) (run : String)
      → Step w (record {
        pool = (cancel_run now run w.pool).0;
        completing = (cancel_run now run w.pool).1 ++ w.completing;
      })
  closes :
      (now : ℕ)
      → Step w (record {
        pool = (close now w.pool).0;
        completing = (close now w.pool).1 ++ w.completing;
      })
  calls_back :
      (i : ℕ) (t : Task)
      → get_elem? w.completing i ≡ some t
      → Step w (record { pool = callback_done w.pool; completing = remove_at i w.completing })

-- The worlds that a new pool can come to.
pub data Reach (s : Scheduler) : World → Type 0 where
  here : Reach s (record { pool = s; completing = [] })
  next : {w u : World} → Reach s w → Step w u → Reach s u

abbrev pub IsSoundWorld : World → Type 0
IsSoundWorld w = IsSound (length w.completing) w.pool

length-ended :
    (t : Task) (o : Option ℕ) (cs : List Task) → length (ended t o ++ cs) ≡ length cs + at_once o
length-ended t none cs = omega arith
length-ended t (some seq) cs = omega arith

handed :
    (s : Scheduler) (out cs : List Task)
    → IsSound (length cs + length out) s
    → IsSound (length (out ++ cs)) s
handed s out cs v = subst (λ n. IsSound n s) (omega (arith, length-append out cs)) v

-- Every step of a world keeps the invariant: each run with queued tasks stands in the order once
-- and no other run does; the number of queued tasks, and the numbers of tasks at work, in all, by
-- run and by node, are those of the queues and of the tasks at work; both stay within their
-- limits, and so do their peaks; and the outstanding callbacks are those of the tasks in the pool
-- and those that are being completed.
pub Step-IsSoundWorld : {w u : World} → Step w u → IsSoundWorld w → IsSoundWorld u
Step-IsSoundWorld {w} (submits now t wait) v =
    handed _ _ w.completing (submit-IsSound now t wait w.pool v)
Step-IsSoundWorld {w} dispatches v = dispatch-IsSound w.pool v
Step-IsSoundWorld {w} (begins now t exec_id h) v =
    rw (length-ended t (begin_task now t exec_id w.pool).1 w.completing)
      (begin_task-IsSound now t exec_id w.pool h v)
Step-IsSoundWorld {w} (finishes now t exec_id seq h) v =
    handed _ (t ∷ []) w.completing (finish_task_execution-IsSound now t exec_id seq w.pool h v)
Step-IsSoundWorld {w} (cancels now run) v =
    handed _ _ w.completing (cancel_run-IsSound now run w.pool v)
Step-IsSoundWorld {w} (closes now) v = handed _ _ w.completing (close-IsSound now w.pool v)
Step-IsSoundWorld {w} (calls_back i t h) v =
    callback_done-IsSound w.pool
      (subst (λ n. IsSound n w.pool) (sym (length-remove_at i w.completing t h)) v)

empty_scheduler-IsSound : (c : Config) (explicit : Bool) → IsSound 0 (empty_scheduler c explicit)
unfolding empty_scheduler
empty_scheduler-IsSound c explicit = record {
  queueing = record {
    arranged = record { unique = tt; ordered = λ run. unfold get in refl };
    counted = refl;
  };
  working = record {
    running = refl;
    by_run_unique = tt;
    by_run = λ run. unfold get in refl;
    by_node_unique = tt;
    by_node = λ node. unfold get in refl;
    exec_unique = tt;
    exec_fresh = λ i h. unfold has in refl;
  };
  bounded = omega arith;
  limited = omega arith;
  peak_limited = omega arith;
  peak_bounded = omega arith;
  tasks = omega arith;
  outstanding = omega arith;
}

new_scheduler_cases :
    (r : Request) (s : Scheduler)
    → new_scheduler r ≡ created s
    → s ≡ empty_scheduler s.cfg s.explicit_run_concurrency
unfolding new_scheduler empty_scheduler
new_scheduler_cases r s h = ground arith

-- A pool that is created has at least one and at most 256 places, a limit for each run between one
-- and the number of places, and a queue and a time to live that are not empty.
pub new_scheduler_bounds :
    (r : Request) (s : Scheduler)
    → new_scheduler r ≡ created s
    → (1 ≤ s.concurrency)
      × (s.concurrency ≤ 256)
      × (1 ≤ s.run_concurrency)
      × (s.run_concurrency ≤ s.concurrency)
      × (1 ≤ s.queue_size)
      × (1 ≤ s.node_ttl)
unfolding new_scheduler empty_scheduler
new_scheduler_bounds r s h = ground arith

-- Whatever the request, a pool that is created satisfies the invariant.
pub new_scheduler-IsSound :
    (r : Request) (s : Scheduler) → new_scheduler r ≡ created s → IsSound 0 s
new_scheduler-IsSound r s h =
    subst (IsSound 0) (sym (new_scheduler_cases r s h))
      (empty_scheduler-IsSound s.cfg s.explicit_run_concurrency)

-- The invariant holds in every world that a pool made by NewScheduler comes to, by submissions,
-- dispatches, starts and ends of tasks, cancellations, closings and returns of callbacks in any
-- order.
pub Reach-IsSoundWorld :
    (r : Request) (s : Scheduler) {w : World}
    → new_scheduler r ≡ created s
    → Reach s w
    → IsSoundWorld w
Reach-IsSoundWorld r s h here = new_scheduler-IsSound r s h
Reach-IsSoundWorld r s h (next x st) = Step-IsSoundWorld st (Reach-IsSoundWorld r s h x)
