-- ===== src/ProbeQueue/Scenario.antt =====
-- A small pool of internal/probe/queue/scheduler.go, with two places and two queued tasks, and the
-- states of one run of it.
use clash_sub_parser.Prelude.{◌≡◌, refl, true, false, [], ◌++◌}
use clash_sub_parser.Prelude.Int.{pos}
use clash_sub_parser.ProbeQueue.State.{
  Request, Config, Task, Scheduler, strict_conflict, manual_preempt_front, empty_scheduler,
  new_scheduler, created,
}
use clash_sub_parser.ProbeQueue.Pick.{dispatch}
use clash_sub_parser.ProbeQueue.Preempt.{submit}
use clash_sub_parser.ProbeQueue.Pool.{World, Step, Reach}

abbrev pub small_request : Request
small_request = record {
  concurrency = pos 2;
  run_concurrency = pos 1;
  queue_size = pos 2;
  node_ttl = pos 10;
}

abbrev pub small_config : Config
small_config = record { concurrency = 2; run_concurrency = 1; queue_size = 2; node_ttl = 10 }

abbrev pub small_pool : Scheduler
small_pool = empty_scheduler small_config true

abbrev pub strict_task : Task
strict_task = record {
  id = "t1";
  run_id = "r1";
  logical_id = "a";
  kind = "baseline";
  mode = strict_conflict;
}

abbrev pub second_task : Task
second_task = record {
  id = "t2";
  run_id = "r1";
  logical_id = "b";
  kind = "baseline";
  mode = strict_conflict;
}

abbrev pub manual_task : Task
manual_task = record {
  id = "t3";
  run_id = "r2";
  logical_id = "c";
  kind = "baseline";
  mode = manual_preempt_front;
}

-- The states of a run: the first task is queued, then the second, then the first is dispatched.
abbrev pub new_world : World
new_world = record { pool = small_pool; completing = [] }

abbrev pub queued_one : World
queued_one = record {
  pool = (submit 5 strict_task false small_pool).0;
  completing = (submit 5 strict_task false small_pool).2 ++ [];
}

abbrev pub queued_two : World
queued_two = record {
  pool = (submit 6 second_task false queued_one.pool).0;
  completing = (submit 6 second_task false queued_one.pool).2 ++ queued_one.completing;
}

abbrev pub dispatched_one : World
dispatched_one = record queued_two { pool = (dispatch queued_two.pool).0 }

abbrev pub reach_two : Reach small_pool queued_two
reach_two =
    Reach.next (Reach.next Reach.here (Step.submits 5 strict_task false))
      (Step.submits 6 second_task false)

abbrev pub reach_dispatched : Reach small_pool dispatched_one
reach_dispatched = Reach.next reach_two Step.dispatches

pub small_pool_created : new_scheduler small_request ≡ created small_pool
unfolding new_scheduler
small_pool_created = refl
