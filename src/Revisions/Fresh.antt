-- ===== src/Revisions/Fresh.antt =====
-- What it takes for `Activate` of internal/application/revision/service.go to succeed.
use clash_sub_parser.Prelude.{
  String, ◌≡◌, ◌≢◌, refl, ap, ◌∙◌, Bool, true, false, not, ◌&&◌, List, [], ◌∷◌, if◌then◌else◌,
  if_cases, Option, none, some, same, String_discrete, arith, length, ◌==◌, Bool-cases,
  Option-cases, inl, inr, ◌⊎◌, any,
}
use clash_sub_parser.Prelude.Int.{ℤ, pos, negsuc}
use clash_sub_parser.Prelude.Maps.{Map, find, set, find-set}
use clash_sub_parser.Prelude.Members.{In}
use clash_sub_parser.Probing.Health.{same_int}
use clash_sub_parser.Policy.Source.{Filters}
use clash_sub_parser.Revisions.Rows.{
  RevisionState, draft, active, archived, other_state, Revision, ok, StoredGroup, Database, differs,
  vector, has_moved, row_of, activated,
}
use clash_sub_parser.Revisions.Service.{
  Called, activate, graph_is_valid, activate_found, activate_fresh, activate_draft,
}
use clash_sub_parser.Revisions.Lifecycle.{
  states_of, retired, row_of-id, state_in, states_of-activated,
}
use clash_sub_parser.Revisions.Lifecycle.Kept.{set_active-cases}

eq_of_same_int : (a b : ℤ) → same_int a b ≡ true → a ≡ b
eq_of_same_int (pos a) (pos b) h = ground arith
eq_of_same_int (pos a) (negsuc b) h = absurd cc
eq_of_same_int (negsuc a) (pos b) h = absurd cc
eq_of_same_int (negsuc a) (negsuc b) h = ground arith

true_of_not : {b : Bool} → not b ≡ false → b ≡ true
true_of_not {b} h = ground arith

module _ (F : Filters) where
  -- The snapshot has a group of the same ID and the same revision.
  abbrev pub IsKept : List (StoredGroup F) → StoredGroup F → Type 0
  IsKept snapshot g =
      (q : StoredGroup F) × In q snapshot × (q.group.id ≡ g.group.id) × (q.revision ≡ g.revision)

  empty_find : (i : String) (n : ℤ) → find {V = ℤ} String_discrete i [] ≢ some n
  unfolding find
  empty_find i n h = absurd cc

  find-vector :
      (gs : List (StoredGroup F)) (v : Map String ℤ) (i : String) (n : ℤ)
      → find String_discrete i (vector F gs v) ≡ some n
      → (find String_discrete i v ≡ some n)
        ⊎ ((q : StoredGroup F) × In q gs × (q.group.id ≡ i) × (q.revision ≡ n))
  unfolding vector
  find-vector [] v i n h = inl h
  find-vector (g ∷ gs) v i n h =
      elim (find-vector gs (set String_discrete g.group.id g.revision v) i n h) [
        | inr (q, j, e, f) ↦ inr (q, inr j, e, f)
        | inl e ↦ elim (String_discrete g.group.id i) [
          | yes k ↦
              inr
                (g, inl refl, k, ground (arith, find-set String_discrete g.group.id i g.revision v))
          | no k ↦ inl (ground (arith, find-set String_discrete g.group.id i g.revision v))
        ]
      ]

  has_moved-IsKept :
      (snapshot : List (StoredGroup F)) (g : StoredGroup F)
      → has_moved F (vector F snapshot []) g ≡ false
      → IsKept snapshot g
  has_moved-IsKept snapshot g h =
      elim (Option-cases (find String_discrete g.group.id (vector F snapshot []))) [
        | inl e ↦ absurd (cc (rw (e, has_moved) at h))
        | inr (n, e) ↦
            let same_number = eq_of_same_int n g.revision (true_of_not (rw (e, has_moved) at h)) in
            elim (find-vector snapshot [] g.group.id n e) [
              | inl f ↦ absurd (empty_find g.group.id n f)
              | inr (q, j, k, m) ↦ (q, j, k, m ∙ same_number)
            ]
      ]

  abbrev pub AllKept : List (StoredGroup F) → List (StoredGroup F) → Type 0
  AllKept snapshot [] = Unit
  AllKept snapshot (g ∷ gs) = IsKept snapshot g × AllKept snapshot gs

  any-AllKept :
      (snapshot current : List (StoredGroup F))
      → any (has_moved F (vector F snapshot [])) current ≡ false
      → AllKept snapshot current
  any-AllKept snapshot [] h = tt
  any-AllKept snapshot (g ∷ gs) h = elim (Bool-cases (has_moved F (vector F snapshot []) g)) [
    | inl e ↦ absurd (cc (rw e at h))
    | inr e ↦ (has_moved-IsKept snapshot g e, any-AllKept snapshot gs (rw e at h))
  ]

  differs-AllKept :
      (current snapshot : List (StoredGroup F))
      → differs F current snapshot ≡ false
      → (length current ≡ length snapshot) × AllKept snapshot current
  unfolding differs
  differs-AllKept current snapshot h = elim (Bool-cases (length current == length snapshot)) [
    | inr e ↦ absurd (cc (rw e at h))
    | inl e ↦ (ground arith, any-AllKept snapshot current (rw e at h))
  ]

  module _ (digest : List (StoredGroup F) → String) where
    -- A snapshot of the present groups: as many, each of them with its ID and its revision in the
    -- snapshot, and of the same digest.
    pub record IsPresent (db : Database F) (snapshot : List (StoredGroup F)) : Type 0 where
      pub same_length : length db.groups ≡ length snapshot
      pub kept : AllKept snapshot db.groups
      pub same_digest : digest db.groups ≡ digest snapshot

    -- What a call that succeeds has met and done, for the row that it found.
    abbrev IsDone : Revision → Database F → Called F digest → Type 0
    IsDone q db c =
        (snapshot : List (StoredGroup F)) × (find String_discrete q.id db.snapshots ≡ some snapshot)
        × IsPresent db snapshot
        × (c.0 ≡ activated F q.id db)

    fresh-IsDone :
        (q r : Revision) (db : Database F) (found : Option (List (StoredGroup F)))
        → find String_discrete q.id db.snapshots ≡ found
        → (activate_fresh F digest q found db).1 ≡ ok r
        → IsDone q db (activate_fresh F digest q found db)
    fresh-IsDone q r db none e h = absurd cc
    fresh-IsDone q r db (some snapshot) e h = elim (Bool-cases (differs F db.groups snapshot)) [
      | inl d ↦ absurd (cc (rw d at h))
      | inr d ↦ elim (set_active-cases F digest q.id db) [
        | inl (x, k) ↦ absurd (cc (rw (d, k) at h))
        | inr (x, _, fresh, k) ↦
            let (l, a) = differs-AllKept db.groups snapshot d in
            (
              snapshot,
              e,
              record {
                same_length = l;
                kept = a;
                same_digest = elim (String_discrete (digest db.groups) (digest snapshot)) [
                  | yes y ↦ y
                  | no n ↦ absurd (ground (arith, rw e at fresh))
                ];
              },
              rw (d, k) refl,
            )
      ]
    ]

    draft-IsDone :
        (q r : Revision) (db : Database F)
        → (activate_draft F digest q db).1 ≡ ok r
        → IsDone q db (activate_draft F digest q db)
    draft-IsDone q r db h =
        if_cases (λ (c : Called F digest). c.1 ≡ ok r → IsDone q db c)
          (not (length db.groups == 0)
            && not (graph_is_valid F digest db (db.policy_rules q.id) (db.admission_rules q.id)))
          _ _ (λ _ k. absurd cc)
          (λ _. fresh-IsDone q r db (find String_discrete q.id db.snapshots) refl) h

    found-IsDone :
        (q r : Revision) (db : Database F) (s : RevisionState)
        → q.state ≡ s
        → (activate_found F digest (some q) db).1 ≡ ok r
        → (q.state ≡ draft) × IsDone q db (activate_found F digest (some q) db)
    found-IsDone q r db active e h = absurd (cc (rw e at h))
    found-IsDone q r db archived e h = absurd (cc (rw e at h))
    found-IsDone q r db (other_state s) e h = absurd (cc (rw e at h))
    found-IsDone q r db draft e h = (e, rw e (draft-IsDone q r db (rw e at h)))

    -- A revision that `Activate` makes active was a draft, and has a snapshot of the present groups.
    -- It becomes active, those that were active are archived, and no other changes.
    pub activate-IsPresent :
        (i j : String) (db : Database F) (r : Revision)
        → (activate F digest i db).1 ≡ ok r
        → (snapshot : List (StoredGroup F)) × (find String_discrete i db.snapshots ≡ some snapshot)
          × IsPresent db snapshot
          × (states_of db.revisions i ≡ some draft)
          × (states_of (activate F digest i db).0.revisions j
              ≡ (if same j i then some active else retired (states_of db.revisions j)))
    unfolding activate
    activate-IsPresent i j db r h = elim (Bool-cases (same i "")) [
      | inl e ↦ absurd (cc (rw e at h))
      | inr e ↦ elim (Option-cases (row_of i db.revisions)) [
        | inl n ↦ absurd (cc (rw (e, n) at h))
        | inr (q, n) ↦
            let (d, made) = found-IsDone q r db q.state refl (rw (e, n) at h) in
            let (snapshot, f, p, done) = made in
            let k = row_of-id i db.revisions q n in
            (
              snapshot,
              rw k f,
              p,
              ap state_in n ∙ ap (λ x. some x) d,
              rw (e, n, done)
                  (rw k (
                    states_of-activated db.revisions q.id j
                      (rw k at (ap state_in n ∙ ap (λ x. some x) d)))),
            )
      ]
    ]
