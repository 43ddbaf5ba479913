-- ===== src/ProbeQueue/Guarantees/Drained.antt =====
-- The tests of `Wait` and `Drain` of internal/probe/queue/scheduler.go.
use clash_sub_parser.Prelude.{◌≡◌, ◌↔◌, refl, ap, true, List, [], ◌∷◌, arith, length}
use clash_sub_parser.ProbeQueue.Finish.{is_drained, is_idle, pending}
use clash_sub_parser.ProbeQueue.Invariant.Served.{length-pending}
use clash_sub_parser.ProbeQueue.Pool.{World, IsSoundWorld}

length-eq-zero {ℓ} : {A : Type ℓ} (xs : List A) → length xs ≡ 0 → xs ≡ []
length-eq-zero [] h = refl
length-eq-zero (x ∷ xs) h = ground arith

-- Where the invariant holds, the test of `Drain` passes exactly when no task is queued or at work and
-- no completion callback is outstanding.
pub is_drained_iff :
    (w : World)
    → IsSoundWorld w
    → (is_drained w.pool ≡ true)
      ↔ ((pending w.pool.queues ≡ []) × (w.pool.probing_tasks ≡ []) × (w.completing ≡ []))
unfolding is_drained
is_drained_iff w v =
    let size = length-pending w.pool.queues in
    (
      λ h. (
        length-eq-zero _ (ground (arith, size, v.queueing.counted)),
        length-eq-zero _ (ground (arith, v.working.running)),
        length-eq-zero _ (ground (arith, v.outstanding, v.tasks)),
      ),
      λ (a, b, c). ground (
        arith,
        v.queueing.counted,
        size,
        v.working.running,
        v.outstanding,
        v.tasks,
        ap length a,
        ap length b,
        ap length c,
      ),
    )

-- Where the invariant holds, the test of `Wait` passes only when no task is queued or at work.
pub is_idle_lem :
    (w : World)
    → IsSoundWorld w
    → is_idle w.pool ≡ true
    → (pending w.pool.queues ≡ []) × (w.pool.probing_tasks ≡ [])
unfolding is_idle
is_idle_lem w v h = (
  length-eq-zero _ (ground (arith, length-pending w.pool.queues, v.queueing.counted, v.tasks)),
  length-eq-zero _ (ground (arith, v.working.running, v.tasks)),
)
