-- ===== src/ProbeQueue/Invariant/Submitted.antt =====
-- The submissions of internal/probe/queue/scheduler.go keep the invariant of the pool.
use clash_sub_parser.Prelude.{
  ℕ, ◌+◌, ◌≤◌, inl, inr, String, Bool, ◌||◌, List, arith, if_cases, length, any, map, ltb,
  Option-cases, String_discrete, ltb→lt,
}
use native.Mathlib.Nat.{add-zero}
use clash_sub_parser.Prelude.Maps.{find}
use clash_sub_parser.ProbeQueue.State.{
  EnqueueMode, strict_conflict, periodic_dedupe, manual_preempt_front, Scheduler, Task, same,
}
use clash_sub_parser.ProbeQueue.Nodes.{prune_active_nodes}
use clash_sub_parser.ProbeQueue.Submit.{
  enqueue_task, strict_enqueue, strict_round, submit_strict_conflict, periodic_round,
  submit_periodic_dedupe, is_node_in_pool_for_periodic, Attempt,
}
use clash_sub_parser.ProbeQueue.Preempt.{
  is_duplicate, promote_runs, manual_round, submit_manual_preempt_front, submit_as, submit,
}
use clash_sub_parser.ProbeQueue.Invariant.Frame.{IsFrame-IsWorking}
use clash_sub_parser.ProbeQueue.Invariant.Sound.{
  IsSound, nodes-IsSound, prune_active_nodes-IsSound, append_task-IsSound, insert_front-IsSound,
}
use clash_sub_parser.ProbeQueue.Invariant.Promotion.{IsPromoted, promote_runs-IsPromoted}

abbrev After : ℕ → Scheduler × Attempt → Type 0
After n r = IsSound n r.0

abbrev Handed : ℕ → Scheduler × Attempt × List Task → Type 0
Handed n r = IsSound (n + length r.2) r.0

module _ {n : ℕ} (now : ℕ) (t : Task) (wait : Bool) (s : Scheduler) (v : IsSound n s) where
  strict_enqueue-IsSound : (key : String) → IsSound n (strict_enqueue key t wait s).0
  unfolding strict_enqueue enqueue_task
  strict_enqueue-IsSound key =
      if_cases (After n) (ltb s.queued s.queue_size) _ _
        (λ h. append_task-IsSound t _ (nodes-IsSound _ v) (ltb→lt _ _ h)) (λ h. v)

  periodic_round-IsSound : IsSound n (periodic_round t wait s).0
  unfolding periodic_round
  periodic_round-IsSound =
      if_cases (After n) (ltb s.queued s.queue_size) _ _
        (λ h. append_task-IsSound t _ (nodes-IsSound _ v) (ltb→lt _ _ h)) (λ h. v)

strict_round-IsSound :
    {n : ℕ} (key : String) (now : ℕ) (t : Task) (wait : Bool) (s : Scheduler)
    → IsSound n s
    → IsSound n (strict_round key now t wait s).0
unfolding strict_round
strict_round-IsSound {n} key now t wait s v =
    elim (Option-cases (find String_discrete key s.active_nodes)) [
      | inl e ↦ rw (e, strict_round) (strict_enqueue-IsSound now t wait s v key)
      | inr (rec, e) ↦
          rw (e, strict_round)
            (if_cases (After n) (rec.active || ltb now rec.until) _ _ (λ h. v)
              (λ h. strict_enqueue-IsSound now t wait _ (nodes-IsSound _ v) key))
    ]

submit_strict_conflict-IsSound :
    {n : ℕ} (now : ℕ) (t : Task) (wait : Bool) (s : Scheduler)
    → IsSound n s
    → IsSound n (submit_strict_conflict now t wait s).0
unfolding submit_strict_conflict
submit_strict_conflict-IsSound {n} now t wait s v =
    if_cases (After n) s.closed _ _ (λ h. v)
      (λ h.
        if_cases (After n) (any (same t.run_id) s.cancelled_runs) _ _ (λ k. v)
          (λ k. strict_round-IsSound _ now t wait _ (prune_active_nodes-IsSound now v)))

submit_periodic_dedupe-IsSound :
    {n : ℕ} (now : ℕ) (t : Task) (wait : Bool) (s : Scheduler)
    → IsSound n s
    → IsSound n (submit_periodic_dedupe now t wait s).0
unfolding submit_periodic_dedupe
submit_periodic_dedupe-IsSound {n} now t wait s v =
    if_cases (After n) s.closed _ _ (λ h. v)
      (λ h.
        if_cases (After n) (any (same t.run_id) s.cancelled_runs) _ _ (λ k. v)
          (λ k.
            if_cases (After n) (is_node_in_pool_for_periodic t s) _ _ (λ l. v)
              (λ l. periodic_round-IsSound now t wait _ (prune_active_nodes-IsSound now v))))

-- A promotion hands out callbacks of the tasks that left.
promoted-IsSound :
    {n : ℕ} {s : Scheduler} {r : Scheduler × List Task}
    → IsSound n s
    → IsPromoted s r
    → IsSound (n + length r.1) r.0
promoted-IsSound v p = record {
  queueing = p.queueing;
  working = IsFrame-IsWorking p.frame v.working;
  bounded = rw p.frame.same_cfg (omega (arith, v.bounded, p.fewer_queued));
  limited = rw (p.frame.same_cfg, p.frame.same_active) v.limited;
  peak_limited = rw (p.frame.same_cfg, p.frame.same_peaks) v.peak_limited;
  peak_bounded = rw (p.frame.same_cfg, p.frame.same_peak_queued) v.peak_bounded;
  tasks = omega (arith, v.tasks, p.fewer_queued, p.fewer_tasks, p.frame.same_active);
  outstanding = omega (arith, v.outstanding, p.fewer_tasks, p.frame.same_callbacks);
}

manual_round-IsSound :
    (n : ℕ) (t : Task) (wait : Bool) (r : Scheduler × List Task)
    → IsSound (n + length r.1) r.0
    → Handed n (manual_round t wait r)
unfolding manual_round
manual_round-IsSound n t wait (s, promoted) v =
    if_cases (Handed n) (ltb s.queued s.queue_size) _ _
      (λ h. insert_front-IsSound t s v (ltb→lt _ _ h)) (λ h. v)

abbrev waiting_runs : ℕ → Scheduler → List String
waiting_runs now s = map (λ e. e.0) (prune_active_nodes now s).queues

none_left : {n : ℕ} {s : Scheduler} → IsSound n s → IsSound (n + 0) s
none_left w = rw add-zero w

queued-le :
    {n : ℕ} (now : ℕ) {s : Scheduler}
    → IsSound n s
    → (prune_active_nodes now s).queued ≤ (prune_active_nodes now s).task_count
queued-le now v = omega (arith, (prune_active_nodes-IsSound now v).tasks)

submit_manual_preempt_front-IsSound :
    {n : ℕ} (now : ℕ) (t : Task) (wait : Bool) (s : Scheduler)
    → IsSound n s
    → let r = submit_manual_preempt_front now t wait s in IsSound (n + length r.2) r.0
unfolding submit_manual_preempt_front
submit_manual_preempt_front-IsSound {n} now t wait s v =
    if_cases (Handed n) s.closed _ _ (λ h. none_left v)
      (λ h.
        if_cases (Handed n) (any (same t.run_id) s.cancelled_runs) _ _ (λ k. none_left v)
          (λ k.
            if_cases (Handed n) (is_duplicate now t (prune_active_nodes now s)) _ _
              (λ l. none_left (prune_active_nodes-IsSound now v))
              (λ l.
                manual_round-IsSound n t wait
                  (promote_runs t (waiting_runs now s) (prune_active_nodes now s))
                  (promoted-IsSound (prune_active_nodes-IsSound now v) (
                    promote_runs-IsPromoted t (waiting_runs now s) (prune_active_nodes now s)
                      (prune_active_nodes-IsSound now v).queueing (queued-le now v))))))

submit_as-IsSound :
    {n : ℕ} (mode : EnqueueMode) (now : ℕ) (t : Task) (wait : Bool) (s : Scheduler)
    → IsSound n s
    → let r = submit_as mode now t wait s in IsSound (n + length r.2) r.0
unfolding submit_as
submit_as-IsSound strict_conflict now t wait s v =
    none_left (submit_strict_conflict-IsSound now t wait s v)
submit_as-IsSound periodic_dedupe now t wait s v =
    none_left (submit_periodic_dedupe-IsSound now t wait s v)
submit_as-IsSound manual_preempt_front now t wait s v =
    submit_manual_preempt_front-IsSound now t wait s v

pub submit-IsSound :
    {n : ℕ} (now : ℕ) (t : Task) (wait : Bool) (s : Scheduler)
    → IsSound n s
    → let r = submit now t wait s in IsSound (n + length r.2) r.0
unfolding submit
submit-IsSound now t wait s v = submit_as-IsSound t.mode now t wait s v
