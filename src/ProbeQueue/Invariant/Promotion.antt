-- ===== src/ProbeQueue/Invariant/Promotion.antt =====
-- The scan of the queues by a manual submission: every task stays in its queue or is handed out.
use clash_sub_parser.Prelude.{
  not, ◌&&◌, ℕ, zero, suc, ◌+◌, ◌-◌, ◌≤◌, ◌≡◌, refl, inl, inr, String, List, [], ◌∷◌, some, arith,
  length, get_elem?, remove_at, length-append, length-remove_at, length-insert_at, Option-cases,
  Bool-cases, List-cases,
}
use clash_sub_parser.ProbeQueue.State.{Scheduler, Task, queue_of, same, manual_preempt_front}
use clash_sub_parser.ProbeQueue.Preempt.{
  Scan, start_scan, drop_run, manual_prefix, scan_task, scan_queue, write_queue, promote_run,
  promote_runs,
}
use clash_sub_parser.ProbeQueue.Arranged.{total-set, total-remove, set-IsArranged}
use clash_sub_parser.ProbeQueue.Invariant.Frame.{
  IsFrame, IsFrame-refl, IsFrame-trans, write_queue-IsFrame,
}
use clash_sub_parser.ProbeQueue.Invariant.Queueing.{
  IsQueueing, length-queue_of-le, drop_run-IsQueueing,
}

abbrev pub scan_size : Scan → ℕ
scan_size c = length c.queue + length c.promoted

scan_size-scan_task :
    (t old : Task) (c : Scan)
    → get_elem? c.queue c.place ≡ some old
    → scan_size (scan_task t old c) ≡ scan_size c
unfolding scan_task
scan_size-scan_task t old c h = ground (
  arith,
  length-remove_at c.place c.queue old h,
  length-append c.promoted (old ∷ []),
  length-insert_at (manual_prefix (remove_at c.place c.queue))
      (record old { mode = manual_preempt_front }) (remove_at c.place c.queue),
)

pub scan_size-scan_queue :
    (fuel : ℕ) (t : Task) (c : Scan) → scan_size (scan_queue fuel t c) ≡ scan_size c
unfolding scan_queue
scan_size-scan_queue zero t c = refl
scan_size-scan_queue (suc fuel) t c = elim (Option-cases (get_elem? c.queue c.place)) [
  | inl e ↦ ground (arith, e)
  | inr (old, e) ↦
      ground
        (arith, e, scan_size-scan_task t old c e, scan_size-scan_queue fuel t (scan_task t old c))
]

-- The pool after a promotion: as many tasks left it as were handed out.
pub record IsPromoted (s : Scheduler) (r : Scheduler × List Task) : Type 0 where
  pub queueing : IsQueueing r.0
  pub frame : IsFrame s r.0
  pub fewer_queued : r.0.queued + length r.1 ≡ s.queued
  pub fewer_tasks : r.0.task_count + length r.1 ≡ s.task_count

write_queue_counts :
    (run : String) (c : Scan) (s : Scheduler)
    → ((write_queue run c s).queued ≡ s.queued - length c.promoted)
      × ((write_queue run c s).task_count ≡ s.task_count - length c.promoted)
unfolding write_queue drop_run
write_queue_counts run c s = ground arith

write_queue-IsPromoted :
    (run : String) (c : Scan) (s : Scheduler)
    → IsQueueing s
    → s.queued ≤ s.task_count
    → scan_size c ≡ length (queue_of run s)
    → IsPromoted s (write_queue run c s, c.promoted)
unfolding write_queue
write_queue-IsPromoted run c s v h size = elim (List-cases c.queue) [
  | inl e ↦ record {
    queueing =
        rw (e, write_queue)
          (drop_run-IsQueueing run
            (record s { active_nodes = c.nodes; task_count = s.task_count - length c.promoted })
            (s.queued - length c.promoted)
            (ground (arith, v.counted, e, size, total-remove run s.queues)) v.arranged);
    frame = write_queue-IsFrame run c s;
    fewer_queued = omega (arith, (write_queue_counts run c s).0, length-queue_of-le run s v);
    fewer_tasks = omega (arith, (write_queue_counts run c s).1, length-queue_of-le run s v);
  }
  | inr (t, q, e) ↦ elim (List-cases (queue_of run s)) [
    | inl f ↦ ground (arith, e, f, size)
    | inr (u, r, f) ↦ record {
      queueing =
          rw (e, write_queue)
            (record {
              arranged = set-IsArranged v.arranged run u t r q f;
              counted = ground (arith, v.counted, e, f, size, total-set run (t ∷ q) s.queues);
            });
      frame = write_queue-IsFrame run c s;
      fewer_queued = omega (arith, (write_queue_counts run c s).0, length-queue_of-le run s v);
      fewer_tasks = omega (arith, (write_queue_counts run c s).1, length-queue_of-le run s v);
    }
  ]
]

pub promote_run-IsPromoted :
    (t : Task) (run : String) (s : Scheduler)
    → IsQueueing s
    → s.queued ≤ s.task_count
    → IsPromoted s (promote_run t run s)
unfolding promote_run
promote_run-IsPromoted t run s v h =
    elim (Bool-cases (same run t.run_id && not (same t.run_id ""))) [
      | inl e ↦
          rw (e, promote_run)
            (record {
              queueing = v;
              frame = IsFrame-refl s;
              fewer_queued = omega arith;
              fewer_tasks = omega arith;
            })
      | inr e ↦
          rw (e, promote_run)
            (write_queue-IsPromoted run (scan_queue (length (queue_of run s)) t (start_scan run s))
              s v h
              (ground (arith, scan_size-scan_queue (length (queue_of run s)) t (start_scan run s))))
    ]

pub promote_runs-IsPromoted :
    (t : Task) (runs : List String) (s : Scheduler)
    → IsQueueing s
    → s.queued ≤ s.task_count
    → IsPromoted s (promote_runs t runs s)
unfolding promote_runs
promote_runs-IsPromoted t [] s v h = record {
  queueing = v;
  frame = IsFrame-refl s;
  fewer_queued = omega arith;
  fewer_tasks = omega arith;
}
promote_runs-IsPromoted t (run ∷ runs) s v h =
    let p = promote_run-IsPromoted t run s v h in
    let q =
      promote_runs-IsPromoted t runs (promote_run t run s).0 p.queueing
        (omega (arith, p.fewer_queued, p.fewer_tasks)) in
    let size =
      length-append (promote_run t run s).1 (promote_runs t runs (promote_run t run s).0).1 in
    record {
      queueing = q.queueing;
      frame = IsFrame-trans p.frame q.frame;
      fewer_queued = omega (arith, p.fewer_queued, q.fewer_queued, size);
      fewer_tasks = omega (arith, p.fewer_tasks, q.fewer_tasks, size);
    }
