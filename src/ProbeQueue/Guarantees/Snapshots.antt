-- ===== src/ProbeQueue/Guarantees/Snapshots.antt =====
-- The lists of `SnapshotNodePool` of internal/probe/queue/scheduler.go agree with `GetNodePoolState`.
use clash_sub_parser.Prelude.{
  ℕ, ◌<◌, ◌≡◌, ◌↔◌, refl, sym, subst, ap, inl, inr, String, Bool, true, false, not, ◌||◌, ◌&&◌,
  List, [], ◌∷◌, ◌++◌, arith, any, ltb, if◌then◌else◌, Bool-cases, String_discrete,
}
use clash_sub_parser.Prelude.Maps.{Map, get, get_of_missing, IsUnique}
use clash_sub_parser.Prelude.Sort.{sort_texts, Occurs, Occurs-sort_texts}
use clash_sub_parser.ProbeQueue.State.{Scheduler, Task, queue_of, same, is_manual}
use clash_sub_parser.ProbeQueue.Finish.{get_node_pool_state, probing, in_queue, idle}
use clash_sub_parser.ProbeQueue.Snapshot.{
  probing_ids, ordered_tasks, collect, queued_ids, snapshot_node_pool,
}
use clash_sub_parser.ProbeQueue.Invariant.Sound.{IsSound}
use clash_sub_parser.ProbeQueue.Arranged.{occurrences, present}

abbrev of_node : String → Task → Bool
of_node node t = same t.logical_id node

any-append :
    {A : Type 0} (p : A → Bool) (xs ys : List A) → any p (xs ++ ys) ≡ (any p xs || any p ys)
any-append p [] ys = refl
any-append p (x ∷ xs) ys = ground (arith, any-append p xs ys)

Occurs-any : (v : String) (xs : List String) → Occurs v xs ↔ (any (same v) xs ≡ true)
Occurs-any v [] = ground arith
Occurs-any v (x ∷ xs) = ground (arith, Occurs-any v xs)

any-sort_texts : (v : String) (xs : List String) → any (same v) (sort_texts xs) ≡ any (same v) xs
any-sort_texts v xs =
    ground (arith, Occurs-any v xs, Occurs-any v (sort_texts xs), Occurs-sort_texts v xs)

-- A named node stands in the list exactly when a task of it is at work.
any-probing_ids :
    (node : String) (nodes : Map String ℕ)
    → IsUnique String_discrete nodes
    → same node "" ≡ false
    → any (same node) (probing_ids nodes) ≡ ltb 0 (get String_discrete 0 node nodes)
unfolding probing_ids get
any-probing_ids node [] u h = refl
any-probing_ids node ((k, c) ∷ nodes) u h = elim (String_discrete k node) [
  | yes e ↦ ground (
    arith,
    subst (λ x. any (same x) (probing_ids nodes) ≡ ltb 0 (get String_discrete 0 x nodes)) (sym e)
        (any-probing_ids node nodes u.1 h),
    get_of_missing String_discrete 0 k nodes u.0,
    e,
    ap (λ x. same x "") e,
    any-probing_ids node nodes u.1 h,
    ap (λ x. get String_discrete 0 x nodes) e,
  )
  | no ne ↦ ground (arith, any-probing_ids node nodes u.1 h, ne)
]

any-collect :
    (p : Task → Bool) (busy : List String) (node : String) (q : List Task) (seen : List String)
    → same node "" ≡ false
    → any (same node) (collect p busy q seen)
      ≡ (any (same node) seen || (not (any (same node) busy) && any (λ t. p t && of_node node t) q))
unfolding collect
any-collect p busy node [] seen h = ground arith
any-collect p busy node (t ∷ q) seen h =
    let longer = any-collect p busy node q (seen ++ t.logical_id ∷ []) h in
    let shorter = any-collect p busy node q seen h in
    let added = any-append (same node) seen (t.logical_id ∷ []) in
    elim (String_discrete t.logical_id node) [
      | yes e ↦ ground (
        arith,
        longer,
        shorter,
        added,
        e,
        ap (λ x. same x "") e,
        ap (λ x. any (same x) seen) e,
        ap (λ x. any (same x) busy) e,
      )
      | no ne ↦ ground (arith, longer, shorter, added, ne)
    ]

any-both :
    (p : Task → Bool) (node : String) (q : List Task)
    → any (λ t. p t && of_node node t) q ≡ true
    → any (of_node node) q ≡ true
any-both p node [] h = h
any-both p node (t ∷ q) h = ground (arith, any-both p node q)

-- A node of a run's queue is a node of the map, and of the ordered tasks where the run is in the order.
any-queues :
    (node run : String) (queues : Map String (List Task))
    → any (of_node node) (get String_discrete [] run queues) ≡ true
    → any (λ (e : String × List Task). any (of_node node) e.1) queues ≡ true
unfolding get
any-queues node run [] h = h
any-queues node run ((r, q) ∷ queues) h = ground (arith, any-queues node run queues)

any-ordered_tasks :
    (node run : String) (s : Scheduler) (order : List String)
    → any (of_node node) (queue_of run s) ≡ true
    → 0 < occurrences run order
    → any (of_node node) (ordered_tasks s order) ≡ true
unfolding ordered_tasks
any-ordered_tasks node run s [] h o = absurd (omega arith)
any-ordered_tasks node run s (r ∷ order) h o = elim (String_discrete r run) [
  | yes e ↦ ground (
    arith,
    any-append (of_node node) (queue_of r s) (ordered_tasks s order),
    ap (λ x. any (of_node node) (queue_of x s)) e,
  )
  | no ne ↦ ground (
    arith,
    ne,
    any-append (of_node node) (queue_of r s) (ordered_tasks s order),
    any-ordered_tasks node run s order h,
  )
]

run_of_queues :
    (node : String) (queues : Map String (List Task))
    → IsUnique String_discrete queues
    → any (λ (e : String × List Task). any (of_node node) e.1) queues ≡ true
    → (run : String) × (any (of_node node) (get String_discrete [] run queues) ≡ true)
unfolding get
run_of_queues node [] u h = absurd cc
run_of_queues node ((r, q) ∷ queues) u h = elim (Bool-cases (any (of_node node) q)) [
  | inl e ↦ (r, ground (arith, e))
  | inr e ↦
      let (run, f) = run_of_queues node queues u.1 (ground (arith, e)) in
      (
        run,
        ground (
          arith,
          f,
          get_of_missing String_discrete [] r queues u.0,
          ap (λ x. get String_discrete [] x queues),
        ),
      )
]

run_of_ordered_tasks :
    (node : String) (s : Scheduler) (order : List String)
    → any (of_node node) (ordered_tasks s order) ≡ true
    → (run : String) × (any (of_node node) (queue_of run s) ≡ true)
unfolding ordered_tasks
run_of_ordered_tasks node s [] h = absurd cc
run_of_ordered_tasks node s (r ∷ order) h = elim (Bool-cases (any (of_node node) (queue_of r s))) [
  | inl e ↦ (r, e)
  | inr e ↦
      run_of_ordered_tasks node s order
        (ground (arith, e, any-append (of_node node) (queue_of r s) (ordered_tasks s order)))
]

some_task : (node : String) (q : List Task) → any (of_node node) q ≡ true → present q ≡ 1
some_task node [] h = absurd cc
some_task node (t ∷ q) h = refl

-- The ordered tasks are the tasks of the queues.
any-ordered_tasks-queues :
    (n : ℕ) (node : String) (s : Scheduler)
    → IsSound n s
    → any (of_node node) (ordered_tasks s s.run_order)
      ≡ any (λ (e : String × List Task). any (of_node node) e.1) s.queues
any-ordered_tasks-queues n node s v = ground (
  arith,
  λ (h : any (of_node node) (ordered_tasks s s.run_order) ≡ true).
      (let (run, e) = run_of_ordered_tasks node s s.run_order h in any-queues node run s.queues e),
  λ (h : any (λ (e : String × List Task). any (of_node node) e.1) s.queues ≡ true).
      (let (run, e) = run_of_queues node s.queues v.queueing.arranged.unique h in
        any-ordered_tasks node run s s.run_order e
          (omega (arith, v.queueing.arranged.ordered run, some_task node (queue_of run s) e))),
)

-- Where the invariant holds, GetNodePoolState of a node with a name can be read off the lists of
-- SnapshotNodePool: the node is probing when it stands in the first, queued when it stands in the
-- second only, and idle otherwise.
pub snapshot_node_pool-get_node_pool_state :
    (n : ℕ) (node : String) (s : Scheduler)
    → IsSound n s
    → same node "" ≡ false
    → get_node_pool_state node s ≡ (
        if any (same node) (snapshot_node_pool s).probing_node_ids
        then probing
        else if any (same node) (snapshot_node_pool s).queued_node_ids
        then in_queue
        else idle)
unfolding snapshot_node_pool queued_ids get_node_pool_state
snapshot_node_pool-get_node_pool_state n node s v h =
    let busy = sort_texts (probing_ids s.probing_nodes) in
    let tasks = ordered_tasks s s.run_order in
    ground (
      arith,
      any-sort_texts node (probing_ids s.probing_nodes),
      any-probing_ids node s.probing_nodes v.working.by_node_unique h,
      any-collect (λ t. true) busy node tasks (collect is_manual busy tasks []) h,
      any-collect is_manual busy node tasks [] h,
      any-both is_manual node tasks,
      any-ordered_tasks-queues n node s v,
    )
