-- ===== src/ProbeQueue/Guarantees/Admission.antt =====
-- What an accepted or refused submission of internal/probe/queue/scheduler.go does to the pool.
use clash_sub_parser.Prelude.{
  ℕ, zero, suc, ◌+◌, ◌≤◌, ◌<◌, ◌≡◌, refl, inl, inr, String, Bool, true, false, List, [], ◌∷◌, ◌++◌,
  arith, any, ite, length, map, some, if_cases, String_discrete, List-cases, insert_at, remove_at,
  Option-cases,
}
use clash_sub_parser.Prelude.Maps.{get-set}
use clash_sub_parser.ProbeQueue.State.{
  Scheduler, Task, queue_of, same, is_manual, capacity_exceeded,
}
use clash_sub_parser.ProbeQueue.Nodes.{prune_active_nodes}
use clash_sub_parser.ProbeQueue.Pick.{dispatch, started, next_eligible, pick_manual, Pick}
use clash_sub_parser.ProbeQueue.Submit.{
  Attempt, accepted, refused, append_task, strict_enqueue, strict_round, enqueue_task,
  submit_strict_conflict,
}
use clash_sub_parser.ProbeQueue.Preempt.{
  submit_manual_preempt_front, manual_round, promote_runs, insert_front, manual_prefix, to_front,
  is_duplicate, index_of,
}
use clash_sub_parser.ProbeQueue.Invariant.Sound.{IsSound, prune_active_nodes-IsSound}
use clash_sub_parser.ProbeQueue.Invariant.Frame.{take_pick-IsFrame}
use clash_sub_parser.ProbeQueue.Arranged.{get_elem?-index_of}
use clash_sub_parser.ProbeQueue.Invariant.Promotion.{promote_runs-IsPromoted}

queue_of-append_task :
    (t : Task) (run : String) (s : Scheduler)
    → queue_of run (append_task t s)
      ≡ (ite (String_discrete t.run_id run) (queue_of run s ++ t ∷ []) (queue_of run s))
unfolding append_task
queue_of-append_task t run s =
    ground (arith, get-set String_discrete [] t.run_id run (queue_of t.run_id s ++ t ∷ []) s.queues)

-- An accepted strict submission puts the task at the end of its run's queue, and leaves the other
-- queues alone.
pub submit_strict_conflict_accepts :
    (now : ℕ) (t : Task) (wait : Bool) (run : String) (s : Scheduler)
    → (submit_strict_conflict now t wait s).1 ≡ accepted
    → queue_of run (submit_strict_conflict now t wait s).0
      ≡ (ite (String_discrete t.run_id run) (queue_of run s ++ t ∷ []) (queue_of run s))
unfolding submit_strict_conflict strict_round strict_enqueue enqueue_task prune_active_nodes
    append_task
submit_strict_conflict_accepts now t wait run s h =
    ground (arith, get-set String_discrete [] t.run_id run (queue_of t.run_id s ++ t ∷ []) s.queues)

manual_round_refuses :
    (t : Task) (r : Scheduler × List Task)
    → r.0.queued + length r.1 ≤ r.0.queue_size
    → (manual_round t false r).1 ≡ refused capacity_exceeded
    → (manual_round t false r).2 ≡ []
unfolding manual_round
manual_round_refuses t (s, []) h e = ground arith
manual_round_refuses t (s, x ∷ xs) h e = ground arith

abbrev RefusesEmpty : Scheduler × Attempt × List Task → Type 0
RefusesEmpty r = r.1 ≡ refused capacity_exceeded → r.2 ≡ []

-- Where the invariant holds, a manual submission that does not wait and is refused for want of
-- room has taken no task out of a queue.
pub manual_without_room :
    (n now : ℕ) (t : Task) (s : Scheduler)
    → IsSound n s
    → (submit_manual_preempt_front now t false s).1 ≡ refused capacity_exceeded
    → (submit_manual_preempt_front now t false s).2 ≡ []
unfolding submit_manual_preempt_front
manual_without_room n now t s v h =
    let w = prune_active_nodes-IsSound now v in
    let u = prune_active_nodes now s in
    let p =
      promote_runs-IsPromoted t (map (λ e. e.0) u.queues) u w.queueing (omega (arith, w.tasks)) in
    let r = promote_runs t (map (λ e. e.0) u.queues) u in
    let fits : r.0.queued + length r.1 ≤ r.0.queue_size =
      rw p.frame.same_cfg (omega (arith, p.fewer_queued, w.bounded)) in
    if_cases RefusesEmpty s.closed _ _ (λ a e. refl)
      (λ a.
        if_cases RefusesEmpty (any (same t.run_id) s.cancelled_runs) _ _ (λ b e. refl)
          (λ b.
            if_cases RefusesEmpty (is_duplicate now t u) _ _ (λ c e. refl)
              (λ c. manual_round_refuses t r fits)))
      h

dispatch_front :
    (s : Scheduler) (run : String) (order : List String) (t : Task) (q : List Task)
    → s.run_order ≡ run ∷ order
    → queue_of run s ≡ t ∷ q
    → is_manual t ≡ true
    → s.closed ≡ false
    → s.active_count < s.concurrency
    → 0 < s.queued
    → (dispatch s).1 ≡ started (s.next_exec_id + 1) t
unfolding dispatch next_eligible pick_manual
dispatch_front s run order t q a b m open_pool room busy =
    let p : Pick = record { index = 0; run = run; task = t; rest = q } in
    let f = take_pick-IsFrame p s.run_cursor s.run_cursor s in
    let e : pick_manual s.queues 0 s.run_order ≡ some p = rw a (ground (arith, b)) in
    ground (arith, e, f.same_exec)

to_front_head :
    (run : String) (order : List String) → (rest : List String) × (to_front run order ≡ run ∷ rest)
unfolding to_front
to_front_head run order = elim (Option-cases (index_of run order)) [
  | inl e ↦ (order, rw (e, to_front) refl)
  | inr (zero, e) ↦ elim (List-cases order) [
    | inl f ↦ ground (arith, f, get_elem?-index_of run order 0 e)
    | inr (r, rest, f) ↦
        (rest, rw (e, to_front) (ground (arith, f, get_elem?-index_of run order 0 e)))
  ]
  | inr (suc j, e) ↦ (remove_at (suc j) order, rw (e, to_front) refl)
]

-- A manual task that is put in front of a run whose queue starts with no other manual task is
-- the next that a dispatch starts, if the pool is open and has a free place.
pub insert_front-dispatch :
    (t : Task) (s : Scheduler)
    → is_manual t ≡ true
    → manual_prefix (queue_of t.run_id s) ≡ 0
    → s.closed ≡ false
    → s.active_count < s.concurrency
    → (dispatch (insert_front t s)).1 ≡ started (s.next_exec_id + 1) t
unfolding insert_front
insert_front-dispatch t s m none_before open_pool room =
    let (rest, e) = to_front_head t.run_id s.run_order in
    dispatch_front (insert_front t s) t.run_id rest t (queue_of t.run_id s) e
      (ground (
        arith,
        none_before,
        get-set String_discrete [] t.run_id t.run_id
            (insert_at (manual_prefix (queue_of t.run_id s)) t (queue_of t.run_id s)) s.queues,
      ))
      m open_pool room (omega arith)
