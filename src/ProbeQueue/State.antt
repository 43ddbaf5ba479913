-- ===== src/ProbeQueue/State.antt =====
-- The types of internal/probe/queue/scheduler.go and `NewScheduler`. Times are numbers of
-- nanoseconds, and the time of a call is its argument. Counters are numbers: the code lowers each of
-- them only after it raised it. Contexts, mutexes and the wake-up channel hold no data of the pool.
use clash_sub_parser.Prelude.{
  ℕ, ◌+◌, ◌/◌, ◌*◌, ◌%◌, String, Bool, true, false, ◌||◌, List, [], ltb, ◌==◌, if◌then◌else◌,
  length, String_discrete,
}
pub use clash_sub_parser.Prelude.{same}
use clash_sub_parser.Prelude.Maps.{Map, get}
use clash_sub_parser.Prelude.Int.{ℤ, is_negative, to_ℕ}

pub data EnqueueMode : Type 0 where
  strict_conflict periodic_dedupe manual_preempt_front : EnqueueMode

pub record Task : Type 0 where
  pub id : String
  pub run_id : String
  pub logical_id : String
  pub kind : String
  pub mode : EnqueueMode

pub record ActiveRecord : Type 0 where
  pub active : Bool
  pub count : ℕ
  pub until : ℕ
  pub last_run_id : String

pub record Config : Type 0 where
  pub concurrency : ℕ
  pub run_concurrency : ℕ
  pub queue_size : ℕ
  pub node_ttl : ℕ

pub record Scheduler : Type 0 where
  pub cfg : Config
  pub open cfg use *
  pub explicit_run_concurrency : Bool
  pub closed : Bool
  pub queues : Map String (List Task)
  pub run_order : List String
  pub run_cursor : ℕ
  pub queued : ℕ
  pub active_by_run : Map String ℕ
  pub active_nodes : Map String ActiveRecord
  pub probing_nodes : Map String ℕ
  pub probing_tasks : Map ℕ Task
  pub next_exec_id : ℕ
  pub run_cancels : Map String (List ℕ)
  pub cancelled_runs : List String
  pub cancel_sequence : ℕ
  pub active_count : ℕ
  pub peak_active : ℕ
  pub peak_queued : ℕ
  pub task_count : ℕ
  pub callbacks : ℕ

pub data Error : Type 0 where
  invalid_concurrency invalid_run_concurrency : Error
  capacity_exceeded node_conflict scheduler_closed context_canceled context_done : Error

pub data Created : Type 0 where
  created : Scheduler → Created
  rejected : Error → Created

-- `Config` as the caller writes it, before the checks.
pub record Request : Type 0 where
  pub concurrency : ℤ
  pub run_concurrency : ℤ
  pub queue_size : ℤ
  pub node_ttl : ℤ

abbrev pub default_concurrency : ℕ
default_concurrency = 50

abbrev pub min_concurrency : ℕ
min_concurrency = 1

abbrev pub hard_max_concurrency : ℕ
hard_max_concurrency = 256

abbrev pub default_queue_size : ℕ
default_queue_size = 1024

abbrev pub default_node_ttl : ℕ
default_node_ttl = 30 * 1000000000

-- A value, or the default where it is not positive.
abbrev or_default : ℤ → ℕ → ℕ
or_default z d = if is_negative z || to_ℕ z == 0 then d else to_ℕ z

unfoldable pub empty_scheduler : Config → Bool → Scheduler
empty_scheduler c explicit = record {
  cfg = c;
  explicit_run_concurrency = explicit;
  closed = false;
  queues = [];
  run_order = [];
  run_cursor = 0;
  queued = 0;
  active_by_run = [];
  active_nodes = [];
  probing_nodes = [];
  probing_tasks = [];
  next_exec_id = 0;
  run_cancels = [];
  cancelled_runs = [];
  cancel_sequence = 0;
  active_count = 0;
  peak_active = 0;
  peak_queued = 0;
  task_count = 0;
  callbacks = 0;
}

-- The part of `NewScheduler` after the default of `Concurrency` is filled in.
unfoldable pub with_concurrency : ℕ → Request → Created
unfolding empty_scheduler
with_concurrency n r =
    if ltb n min_concurrency || ltb hard_max_concurrency n
    then rejected invalid_concurrency
    else if is_negative r.run_concurrency || ltb n (to_ℕ r.run_concurrency)
    then rejected invalid_run_concurrency
    else created (
        empty_scheduler
          (record {
            concurrency = n;
            run_concurrency =
                if to_ℕ r.run_concurrency == 0 then (n + 1) / 2 else to_ℕ r.run_concurrency;
            queue_size = or_default r.queue_size default_queue_size;
            node_ttl = or_default r.node_ttl default_node_ttl;
          })
          (ltb 0 (to_ℕ r.run_concurrency)))

unfoldable pub new_scheduler : Request → Created
unfolding with_concurrency
new_scheduler r =
    if is_negative r.concurrency
    then rejected invalid_concurrency
    else with_concurrency
        (if to_ℕ r.concurrency == 0 then default_concurrency else to_ℕ r.concurrency) r

-- `s.queues[run]`
abbrev pub queue_of : String → Scheduler → List Task
queue_of run s = get String_discrete [] run s.queues

abbrev pub is_manual : Task → Bool
is_manual t = elim t.mode [ manual_preempt_front ↦ true | _ ↦ false ]

-- The new cursor after a run left the order.
abbrev pub wrap : ℕ → List String → ℕ
wrap cursor order = if ltb 0 (length order) then cursor % length order else 0
