-- ===== src/ProbeQueue/Invariant/Queueing.antt =====
-- The queued tasks: the order of the runs and the counter agree with the queues, under every change.
use clash_sub_parser.Prelude.{
  ℕ, zero, suc, ◌+◌, ◌-◌, ◌%◌, ◌≤◌, ◌<◌, ◌≡◌, inl, inr, String, true, List, [], ◌∷◌, ◌++◌, some,
  arith, length, get_elem?, insert_at, String_discrete, length-append, length-insert_at,
  Option-cases, Bool-cases, List-cases, ltb,
}
use clash_sub_parser.Prelude.Maps.{get, remove}
use clash_sub_parser.ProbeQueue.State.{Scheduler, Task, queue_of, is_manual}
use clash_sub_parser.ProbeQueue.Pick.{Pick, take_pick, pick_manual, pick_fair, run_limit}
use clash_sub_parser.ProbeQueue.Submit.{append_task}
use clash_sub_parser.ProbeQueue.Preempt.{manual_prefix, index_of, drop_run, insert_front}
use clash_sub_parser.ProbeQueue.Finish.{cancel_run, settle_all}
use clash_sub_parser.ProbeQueue.Arranged.{
  IsArranged, total, total-set, total-remove, get_elem?-index_of, remove_at-IsArranged,
  set-IsArranged, append-IsArranged, to_front-IsArranged, drop-IsArranged, drop_at-IsArranged,
}

pub record IsQueueing (s : Scheduler) : Type 0 where
  pub arranged : IsArranged s.queues s.run_order
  pub counted : s.queued ≡ total s.queues

-- A pick stands at its place in the order, and at the front of its queue.
pub record IsPick (s : Scheduler) (p : Pick) : Type 0 where
  pub placed : get_elem? s.run_order p.index ≡ some p.run
  pub front : queue_of p.run s ≡ p.task ∷ p.rest

pub take_pick-IsQueueing :
    (p : Pick) (emptied kept : ℕ) (s : Scheduler)
    → IsPick s p
    → IsQueueing s
    → IsQueueing (take_pick p emptied kept s)
unfolding take_pick
take_pick-IsQueueing p emptied kept s h v = elim (List-cases p.rest) [
  | inl e ↦
      rw (e, take_pick)
        (record {
          arranged =
              remove_at-IsArranged v.arranged p.index p.run p.task h.placed
                (ground (arith, h.front));
          counted = ground (arith, v.counted, h.front, total-remove p.run s.queues);
        })
  | inr (t, r, e) ↦
      rw (e, take_pick)
        (record {
          arranged = set-IsArranged v.arranged p.run p.task t p.rest r h.front;
          counted = ground (arith, v.counted, h.front, total-set p.run (t ∷ r) s.queues);
        })
]

pub append_task-IsQueueing :
    (t : Task) (s : Scheduler) → IsQueueing s → IsQueueing (append_task t s)
unfolding append_task
append_task-IsQueueing t s v = elim (List-cases (queue_of t.run_id s)) [
  | inl e ↦
      rw (e, append_task)
        (record {
          arranged = append-IsArranged v.arranged t.run_id t [] e;
          counted = ground (arith, v.counted, e, total-set t.run_id (t ∷ []) s.queues);
        })
  | inr (u, q, e) ↦
      rw (e, append_task)
        (record {
          arranged = set-IsArranged v.arranged t.run_id u u q (q ++ t ∷ []) e;
          counted = ground (
            arith,
            v.counted,
            e,
            total-set t.run_id (u ∷ q ++ t ∷ []) s.queues,
            length-append q (t ∷ []),
          );
        })
]

-- A run is dropped from the order once its queue is deleted.
pub drop_run-IsQueueing :
    (run : String) (s : Scheduler) (n : ℕ)
    → n ≡ total (remove String_discrete run s.queues)
    → IsArranged s.queues s.run_order
    → IsQueueing
        (drop_run run (record s { queues = remove String_discrete run s.queues; queued = n }))
unfolding drop_run
drop_run-IsQueueing run s n h a = elim (Option-cases (index_of run s.run_order)) [
  | inl e ↦ rw (e, drop_run) (record { arranged = drop-IsArranged a run e; counted = h })
  | inr (j, e) ↦
      rw (e, drop_run)
        (record {
          arranged = drop_at-IsArranged a j run (get_elem?-index_of run s.run_order j e);
          counted = h;
        })
]

pick_manual-IsPick :
    (s : Scheduler) (i : ℕ) (order : List String) (p : Pick)
    → pick_manual s.queues i order ≡ some p
    → (k : ℕ) × (p.index ≡ i + k)
      × (get_elem? order k ≡ some p.run)
      × (queue_of p.run s ≡ p.task ∷ p.rest)
      × (is_manual p.task ≡ true)
unfolding pick_manual
pick_manual-IsPick s i [] p h = cc
pick_manual-IsPick s i (run ∷ order) p h = elim (List-cases (queue_of run s)) [
  | inl e ↦
      let (k, a, b, c, d) = pick_manual-IsPick s (suc i) order p (ground (arith, e)) in
      (suc k, omega arith, b, c, d)
  | inr (t, q, e) ↦ elim (Bool-cases (is_manual t)) [
    | inl m ↦
        (0, ground (arith, e, m), ground (arith, e, m), ground (arith, e, m), ground (arith, e, m))
    | inr m ↦
        let (k, a, b, c, d) = pick_manual-IsPick s (suc i) order p (ground (arith, e, m)) in
        (suc k, omega arith, b, c, d)
  ]
]

pub pick_manual_lem :
    (s : Scheduler) (p : Pick)
    → pick_manual s.queues 0 s.run_order ≡ some p
    → IsPick s p × (is_manual p.task ≡ true)
pick_manual_lem s p h =
    let (k, a, b, c, d) = pick_manual-IsPick s 0 s.run_order p h in
    let e : k ≡ p.index = omega arith in (record { placed = rw e at b; front = c }, d)

pub pick_fair_lem :
    (s : Scheduler) (rounds n : ℕ) (p : Pick)
    → pick_fair s rounds n ≡ some p
    → IsPick s p × (get String_discrete 0 p.run s.active_by_run < run_limit s)
unfolding pick_fair
pick_fair_lem s zero n p h = cc
pick_fair_lem s (suc rounds) n p h =
    let i = (s.run_cursor + n) % length s.run_order in
    elim (Option-cases (get_elem? s.run_order i)) [
      | inl e ↦ ground (arith, e)
      | inr (run, e) ↦ elim (List-cases (queue_of run s)) [
        | inl f ↦ pick_fair_lem s rounds (suc n) p (ground (arith, e, f))
        | inr (t, q, f) ↦
            elim (Bool-cases (ltb (get String_discrete 0 run s.active_by_run) (run_limit s))) [
              | inl m ↦ (
                record { placed = ground (arith, e, f, m); front = ground (arith, e, f, m) },
                ground (arith, e, f, m),
              )
              | inr m ↦ pick_fair_lem s rounds (suc n) p (ground (arith, e, f, m))
            ]
      ]
    ]

-- A manual task joins the pool.
pub insert_front-IsQueueing :
    (t : Task) (s : Scheduler) → IsQueueing s → IsQueueing (insert_front t s)
unfolding insert_front
insert_front-IsQueueing t s v =
    let q = queue_of t.run_id s in
    let size = length-insert_at (manual_prefix q) t q in
    elim (List-cases (insert_at (manual_prefix q) t q)) [
      | inl e ↦ ground (arith, e, size)
      | inr (u, r, e) ↦ record {
        arranged = rw e (to_front-IsArranged v.arranged t.run_id u r);
        counted =
            ground (
              arith,
              v.counted,
              size,
              total-set t.run_id (insert_at (manual_prefix q) t q) s.queues,
            );
      }
    ]

-- A run is cancelled.
pub cancel_run-IsQueueing :
    (now : ℕ) (run : String) (s : Scheduler) → IsQueueing s → IsQueueing (cancel_run now run s).0
unfolding cancel_run
cancel_run-IsQueueing now run s v =
    drop_run-IsQueueing run
      (record s {
        cancelled_runs = run ∷ s.cancelled_runs;
        active_nodes = settle_all now s.node_ttl (queue_of run s) s.active_nodes;
        task_count = s.task_count - length (queue_of run s);
      })
      (s.queued - length (queue_of run s)) (ground (arith, v.counted, total-remove run s.queues))
      v.arranged

pub length-queue_of-le :
    (run : String) (s : Scheduler) → IsQueueing s → length (queue_of run s) ≤ s.queued
length-queue_of-le run s v = ground (arith, v.counted, total-remove run s.queues)
