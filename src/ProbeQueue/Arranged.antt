-- ===== src/ProbeQueue/Arranged.antt =====
-- The queues of the pool and the order of its runs: what ties them together, and how each kind of
-- change of internal/probe/queue/scheduler.go keeps it.
use clash_sub_parser.Prelude.{
  ℕ, zero, suc, ◌+◌, ◌≤◌, ◌≡◌, refl, inl, inr, String, List, [], ◌∷◌, ◌++◌, none, some, ite, arith,
  length, get_elem?, remove_at, count_if, count_if-append, count_if-remove_at, String_discrete,
  Option-cases,
}
use clash_sub_parser.Prelude.Maps.{
  Map, get, set, remove, IsUnique, get-set, get-remove, set-IsUnique, remove-IsUnique,
}
use clash_sub_parser.ProbeQueue.State.{Task, same}
use clash_sub_parser.ProbeQueue.Preempt.{index_of, to_front}

abbrev pub Queues : Type 0
Queues = Map String (List Task)

abbrev pub tasks_of : String → Queues → List Task
tasks_of run queues = get String_discrete [] run queues

-- The number of queued tasks.
abbrev pub total : Queues → ℕ
total [] = 0
total ((run, q) ∷ queues) = length q + total queues

-- 1 for a run with tasks.
abbrev pub present {ℓ} : {A : Type ℓ} → List A → ℕ
present [] = 0
present (_ ∷ _) = 1

abbrev pub occurrences : String → List String → ℕ
occurrences run order = count_if (λ r. same r run) order

-- Each run with queued tasks stands in the order once, and no other run does.
pub record IsArranged (queues : Queues) (order : List String) : Type 0 where
  pub unique : IsUnique String_discrete queues
  pub ordered : (run : String) → occurrences run order ≡ present (tasks_of run queues)

pub total-set :
    (run : String) (q : List Task) (queues : Queues)
    → total (set String_discrete run q queues) + length (tasks_of run queues)
      ≡ total queues + length q
unfolding set get
total-set run q [] = omega arith
total-set run q ((r, w) ∷ queues) = ground (arith, total-set run q queues)

pub total-remove :
    (run : String) (queues : Queues)
    → total (remove String_discrete run queues) + length (tasks_of run queues) ≡ total queues
unfolding remove get
total-remove run [] = omega arith
total-remove run ((r, w) ∷ queues) = ground (arith, total-remove run queues)

pub get_elem?-index_of :
    (run : String) (order : List String) (i : ℕ)
    → index_of run order ≡ some i
    → get_elem? order i ≡ some run
unfolding index_of
get_elem?-index_of run [] i h = ground arith
get_elem?-index_of run (r ∷ order) i h = elim (Option-cases (index_of run order)) [
  | inl e ↦ ground (arith, e)
  | inr (k, e) ↦ ground (arith, e, get_elem?-index_of run order k e)
]

pub occurrences_of_missing :
    (run : String) (order : List String) → index_of run order ≡ none → occurrences run order ≡ 0
unfolding index_of
occurrences_of_missing run [] h = refl
occurrences_of_missing run (r ∷ order) h = ground (arith, occurrences_of_missing run order)

pub occurrences-to_front :
    (run r : String) (order : List String)
    → occurrences run order ≤ 1
    → occurrences r (to_front run order) ≡ ite (String_discrete run r) 1 (occurrences r order)
unfolding to_front
occurrences-to_front run r order h = elim (Option-cases (index_of run order)) [
  | inl e ↦ ground (arith, e, occurrences_of_missing run order e)
  | inr (zero, e) ↦ ground (
    arith,
    e,
    count_if-remove_at (λ x. same x run) 0 order run (get_elem?-index_of run order 0 e),
  )
  | inr (suc j, e) ↦ ground (
    arith,
    e,
    count_if-remove_at (λ x. same x r) (suc j) order run (get_elem?-index_of run order (suc j) e),
  )
]

module _ {queues : Queues} {order : List String} (a : IsArranged queues order) where
  -- The last task of a run leaves.
  pub remove_at-IsArranged :
      (i : ℕ) (run : String) (t : Task)
      → get_elem? order i ≡ some run
      → tasks_of run queues ≡ t ∷ []
      → IsArranged (remove String_discrete run queues) (remove_at i order)
  remove_at-IsArranged i run t h e = record {
    unique = remove-IsUnique String_discrete run queues a.unique;
    ordered = λ r. ground (
      arith,
      a.ordered r,
      count_if-remove_at (λ x. same x r) i order run h,
      get-remove String_discrete [] run r queues a.unique,
    );
  }

  -- A run that has tasks gets others.
  pub set-IsArranged :
      (run : String) (t u : Task) (q p : List Task)
      → tasks_of run queues ≡ t ∷ q
      → IsArranged (set String_discrete run (u ∷ p) queues) order
  set-IsArranged run t u q p e = record {
    unique = set-IsUnique String_discrete run (u ∷ p) queues a.unique;
    ordered = λ r. ground (arith, a.ordered r, get-set String_discrete [] run r (u ∷ p) queues);
  }

  -- A run without tasks gets some and joins the end of the order.
  pub append-IsArranged :
      (run : String) (u : Task) (p : List Task)
      → tasks_of run queues ≡ []
      → IsArranged (set String_discrete run (u ∷ p) queues) (order ++ run ∷ [])
  append-IsArranged run u p e = record {
    unique = set-IsUnique String_discrete run (u ∷ p) queues a.unique;
    ordered = λ r. ground (
      arith,
      a.ordered r,
      count_if-append (λ x. same x r) order (run ∷ []),
      get-set String_discrete [] run r (u ∷ p) queues,
    );
  }

  -- A run gets tasks and moves to the front of the order, or joins it there.
  pub to_front-IsArranged :
      (run : String) (u : Task) (p : List Task)
      → IsArranged (set String_discrete run (u ∷ p) queues) (to_front run order)
  to_front-IsArranged run u p = record {
    unique = set-IsUnique String_discrete run (u ∷ p) queues a.unique;
    ordered = λ r. ground (
      arith,
      a.ordered r,
      a.ordered run,
      occurrences-to_front run r order,
      get-set String_discrete [] run r (u ∷ p) queues,
    );
  }

  -- A run is dropped with its tasks.
  pub drop-IsArranged :
      (run : String)
      → index_of run order ≡ none
      → IsArranged (remove String_discrete run queues) order
  drop-IsArranged run h = record {
    unique = remove-IsUnique String_discrete run queues a.unique;
    ordered = λ r. ground (
      arith,
      a.ordered r,
      occurrences_of_missing run order h,
      a.ordered run,
      get-remove String_discrete [] run r queues a.unique,
    );
  }

  pub drop_at-IsArranged :
      (i : ℕ) (run : String)
      → get_elem? order i ≡ some run
      → IsArranged (remove String_discrete run queues) (remove_at i order)
  drop_at-IsArranged i run h = record {
    unique = remove-IsUnique String_discrete run queues a.unique;
    ordered = λ r. ground (
      arith,
      a.ordered r,
      count_if-remove_at (λ x. same x r) i order run h,
      get-remove String_discrete [] run r queues a.unique,
    );
  }
