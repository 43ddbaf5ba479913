-- ===== src/ProbeQueue/Guarantees/Dispatching.antt =====
-- What `dispatch` of internal/probe/queue/scheduler.go starts, and when it waits.
use clash_sub_parser.Prelude.{
  ℕ, zero, suc, ◌+◌, ◌%◌, ◌≤◌, ◌<◌, ◌≡◌, ◌≢◌, sym, ◌⊎◌, inl, inr, String, true, false, List, [],
  ◌∷◌, arith, length, none, some, Option-cases, List-cases, get_elem?, get_elem?-ne-none,
  lt_of_get_elem?, ap, ◌-◌, ◌∙◌, String_discrete,
}
use native.Mathlib.Nat.{mod-lt, add-mod-mod, mod-add-mod, mod-eq-sub-mod, mod-eq_of_lt}
use clash_sub_parser.Prelude.Maps.{get}
use clash_sub_parser.ProbeQueue.State.{Scheduler, Task, queue_of, is_manual}
use clash_sub_parser.ProbeQueue.Pick.{
  Pick, pick_manual, pick_fair, run_limit, next_eligible, dispatch, started, waits,
}
use clash_sub_parser.ProbeQueue.Invariant.Queueing.{
  IsPick, length-queue_of-le, pick_manual_lem, pick_fair_lem,
}
use clash_sub_parser.ProbeQueue.Invariant.Sound.{IsSound}
use clash_sub_parser.ProbeQueue.Arranged.{occurrences}

-- A task that a dispatch starts is the first of a queue in the order; it is a manual one, or its run
-- had fewer tasks at work than its limit.
pub dispatch_starts :
    (s : Scheduler) (exec_id : ℕ) (t : Task)
    → (dispatch s).1 ≡ started exec_id t
    → (p : Pick) × (p.task ≡ t)
      × IsPick s p
      × (s.active_count < s.concurrency)
      × ((is_manual t ≡ true) ⊎ (get String_discrete 0 p.run s.active_by_run < run_limit s))
unfolding dispatch next_eligible
dispatch_starts s exec_id t h = elim (Option-cases (pick_manual s.queues 0 s.run_order)) [
  | inr (p, e) ↦
      let (a, b) = pick_manual_lem s p e in
      let q : p.task ≡ t = ground (arith, e) in (p, q, a, ground (arith, e), inl (rw (← q) b))
  | inl e ↦ elim (Option-cases (pick_fair s (length s.run_order) 0)) [
    | inl f ↦ ground (arith, e, f)
    | inr (p, f) ↦
        let (a, b) = pick_fair_lem s _ 0 p f in
        (p, ground (arith, e, f), a, ground (arith, e, f), inr b)
  ]
]

pick_manual-none :
    (s : Scheduler) (i k : ℕ) (order : List String) (run : String) (t : Task) (q : List Task)
    → get_elem? order k ≡ some run
    → queue_of run s ≡ t ∷ q
    → is_manual t ≡ true
    → pick_manual s.queues i order ≢ none
unfolding pick_manual
pick_manual-none s i k [] run t q a b c = λ h. ground arith
pick_manual-none s i zero (r ∷ order) run t q a b c = λ h. ground arith
pick_manual-none s i (suc k) (r ∷ order) run t q a b c = λ h. elim (List-cases (queue_of r s)) [
  | inl e ↦ pick_manual-none s (suc i) k order run t q a b c (ground (arith, e))
  | inr (u, w, e) ↦ pick_manual-none s (suc i) k order run t q a b c (ground (arith, e))
]

-- If the first task of some run in the order is manual and a dispatch starts a task, that task
-- is a manual one.
pub dispatch_manual_first :
    (s : Scheduler) (k : ℕ) (run : String) (u : Task) (q : List Task) (exec_id : ℕ) (t : Task)
    → get_elem? s.run_order k ≡ some run
    → queue_of run s ≡ u ∷ q
    → is_manual u ≡ true
    → (dispatch s).1 ≡ started exec_id t
    → is_manual t ≡ true
unfolding dispatch next_eligible
dispatch_manual_first s k run u q exec_id t a b c h =
    elim (Option-cases (pick_manual s.queues 0 s.run_order)) [
      | inl e ↦ absurd (pick_manual-none s 0 k s.run_order run u q a b c e)
      | inr (p, e) ↦ let q : p.task ≡ t = ground (arith, e) in rw (← q) ((pick_manual_lem s p e).1)
    ]

order-pos :
    (s : Scheduler) (n : ℕ) (run : String)
    → get_elem? s.run_order (n % length s.run_order) ≡ some run
    → 0 < length s.run_order
order-pos s n run a = omega (arith, lt_of_get_elem? s.run_order (n % length s.run_order) run a)

-- Every place of the order is a slot of the round-robin pass.
slot : (cursor size k : ℕ) → k < size → (m : ℕ) × (m < size) × ((cursor + m) % size ≡ k)
slot cursor size k h =
    let x = k + (size - cursor % size) in
    (
      x % size,
      mod-lt x (omega arith),
      add-mod-mod cursor x size
          ∙ sym (mod-add-mod cursor size x)
          ∙ ap (λ n. n % size) (omega (arith, mod-lt cursor {m = size} (omega arith)))
          ∙ mod-eq-sub-mod {n = k + size} {m = size} (omega arith)
          ∙ ap (λ n. n % size) (omega arith)
          ∙ mod-eq_of_lt h,
    )

-- A slot of the round-robin pass that passes its run over.
passed-IsFull :
    (s : Scheduler) (rounds n m : ℕ) (run : String)
    → pick_fair s rounds n ≡ none
    → m < rounds
    → get_elem? s.run_order ((s.run_cursor + (n + m)) % length s.run_order) ≡ some run
    → queue_of run s ≢ []
    → run_limit s ≤ get String_discrete 0 run s.active_by_run
unfolding pick_fair
passed-IsFull s zero n m run h l a b = absurd (omega arith)
passed-IsFull s (suc rounds) n zero run h l a b =
    let e : n + 0 ≡ n = omega arith in
    let a' = rw e at a in
    elim (List-cases (queue_of run s)) [
      | inl f ↦ absurd (b f)
      | inr (t, q, f) ↦ ground (arith, a', f)
    ]
passed-IsFull s (suc rounds) n (suc m) run h l a b =
    let i = (s.run_cursor + n) % length s.run_order in
    let e : n + suc m ≡ suc n + m = omega arith in
    let later = λ (g : pick_fair s rounds (suc n) ≡ none).
      passed-IsFull s rounds (suc n) m run g (omega arith) (rw e at a) b in
    elim (Option-cases (get_elem? s.run_order i)) [
      | inl f ↦ absurd (
          get_elem?-ne-none s.run_order i
            (mod-lt (s.run_cursor + n) (order-pos s (s.run_cursor + (n + suc m)) run a)) f)
      | inr (r, f) ↦ elim (List-cases (queue_of r s)) [
        | inl g ↦ later (ground (arith, f, g))
        | inr (t, q, g) ↦ later (ground (arith, f, g))
      ]
    ]

place_of_run :
    (order : List String) (run : String)
    → 0 < occurrences run order
    → (k : ℕ) × (get_elem? order k ≡ some run)
place_of_run [] run h = absurd (omega arith)
place_of_run (r ∷ order) run h = elim (String_discrete r run) [
  | yes e ↦ (0, ap some e)
  | no e ↦ let (k, a) = place_of_run order run (ground arith) in (suc k, a)
]

queued_pos :
    (n : ℕ) (s : Scheduler) (run : String) → IsSound n s → queue_of run s ≢ [] → 0 < s.queued
queued_pos n s run v busy = elim (List-cases (queue_of run s)) [
  | inl e ↦ absurd (busy e)
  | inr (t, q, e) ↦ omega (arith, length-queue_of-le run s v.queueing, ap length e)
]

-- Where the invariant holds, a dispatch of an open pool with a free place waits only when each
-- run with queued tasks has reached its limit of tasks at work.
pub dispatch_waits :
    (n : ℕ) (s : Scheduler) (run : String)
    → IsSound n s
    → s.closed ≡ false
    → s.active_count < s.concurrency
    → (dispatch s).1 ≡ waits
    → queue_of run s ≢ []
    → run_limit s ≤ get String_discrete 0 run s.active_by_run
unfolding dispatch next_eligible
dispatch_waits n s run v open_pool room h busy =
    let (k, a) =
      place_of_run s.run_order run
        (ground (arith, v.queueing.arranged.ordered run, List-cases (queue_of run s))) in
    let (m, l, e) =
      slot s.run_cursor (length s.run_order) k (lt_of_get_elem? s.run_order k run a) in
    let e' : (s.run_cursor + (0 + m)) % length s.run_order ≡ k =
      ap (λ x. (s.run_cursor + x) % length s.run_order) (omega arith) ∙ e in
    let some_task : 0 < s.queued = queued_pos n s run v busy in
    elim (Option-cases (pick_manual s.queues 0 s.run_order)) [
      | inr (p, f) ↦ ground (arith, f)
      | inl f ↦ elim (Option-cases (pick_fair s (length s.run_order) 0)) [
        | inr (p, g) ↦ ground (arith, f, g)
        | inl g ↦ passed-IsFull s (length s.run_order) 0 m run g l (rw e' a) busy
      ]
    ]
