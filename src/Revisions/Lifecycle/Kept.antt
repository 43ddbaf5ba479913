-- ===== src/Revisions/Lifecycle/Kept.antt =====
-- The calls of internal/application/revision/service.go as steps in the life of the revisions.
use clash_sub_parser.Prelude.{
  ℕ, String, ◌≡◌, refl, sym, ap, ◌∙◌, Bool, true, not, ◌&&◌, List, [], ◌∷◌, ◌++◌, if_cases, Option,
  none, some, same, String_discrete, Bool-cases, Option-cases, inl, inr, ◌⊎◌, arith, length, ◌==◌,
}
use clash_sub_parser.Policy.Source.{Filters}
use clash_sub_parser.Prelude.Maps.{find, set}
use clash_sub_parser.Revisions.Rows.{
  RevisionState, draft, active, archived, other_state, Revision, RevisionError, key_is_taken,
  parent_is_missing, revision_not_found, ok, err, row_of, newest_active, differs, StoredGroup,
  Database, create_row, set_active, activated, stale_failure, parent_is_there,
}
use clash_sub_parser.Revisions.Service.{
  Called, graph_is_valid, is_refused_state, parent_is_missing as no_parent, activate_fresh,
  activate_found, add_revision, create, ensure_active, activate, finish_active, drafted,
}
use clash_sub_parser.Revisions.Lifecycle.{
  States, Lives, created, promoted, states_of, state_in, row_of-id, states_of-append,
  states_of-activated,
}

module _ (F : Filters) (digest : List (StoredGroup F) → String) where
  abbrev pub stored : Revision → Database F → Revision
  stored r db = record r { content_digest = digest db.groups }

  abbrev pub with_row : Revision → Database F → Database F
  with_row r db = record db {
    revisions = db.revisions ++ (stored r db ∷ []);
    snapshots = set String_discrete r.id db.groups db.snapshots;
  }

  create_row-cases :
      (r : Revision) (db : Database F)
      → ((e : RevisionError) × (create_row F digest r db ≡ err e))
        ⊎ ((row_of r.id db.revisions ≡ none)
            × (create_row F digest r db ≡ ok (stored r db, with_row r db)))
  unfolding create_row
  create_row-cases r db = elim (Option-cases (row_of r.id db.revisions)) [
    | inr (x, e) ↦ inl (key_is_taken, ground arith)
    | inl e ↦ elim (Bool-cases (parent_is_there F r.parent_id db)) [
      | inr t ↦ inl (parent_is_missing, ground arith)
      | inl t ↦ inr (e, ground arith)
    ]
  ]

  pub set_active-cases :
      (i : String) (db : Database F)
      → ((e : RevisionError) × (set_active F digest i db ≡ err e))
        ⊎ ((r : Revision) × (row_of i db.revisions ≡ some r)
            × (stale_failure F digest (find String_discrete i db.snapshots) db ≡ none)
            × (set_active F digest i db ≡ ok (activated F i db)))
  unfolding set_active
  set_active-cases i db =
      elim (Option-cases (stale_failure F digest (find String_discrete i db.snapshots) db)) [
        | inr (x, e) ↦ inl (x, ground arith)
        | inl e ↦ elim (Option-cases (row_of i db.revisions)) [
          | inl n ↦ inl (revision_not_found, ground arith)
          | inr (r, n) ↦ inr (r, n, e, ground arith)
        ]
      ]

  -- The rows after a step that changes one row, as a step of a life.
  with_row-Lives :
      (f : States) (r : Revision) (db : Database F)
      → row_of r.id db.revisions ≡ none
      → r.state ≡ draft
      → Lives f (states_of db.revisions)
      → Lives f (states_of (with_row r db).revisions)
  with_row-Lives f r db n d l =
      created _ _ r.id l (ap state_in n) (λ j. states_of-append db.revisions (stored r db) j n d)

  activated-Lives :
      (f : States) (i : String) (db : Database F)
      → states_of db.revisions i ≡ some draft
      → Lives f (states_of db.revisions)
      → Lives f (states_of (activated F i db).revisions)
  activated-Lives f i db d l = promoted _ _ i l d (λ j. states_of-activated db.revisions i j d)

  finish_active-Lives :
      (f : States) (r : Revision) (db : Database F)
      → states_of db.revisions r.id ≡ some draft
      → Lives f (states_of db.revisions)
      → Lives f
          (states_of (finish_active F digest (r, db) (set_active F digest r.id db)).0.revisions)
  finish_active-Lives f r db d l = elim (set_active-cases r.id db) [
    | inl (e, h) ↦ rw h l
    | inr (x, _, _, h) ↦ rw h (activated-Lives f r.id db d l)
  ]

  pub add_revision-Lives :
      (f : States) (to_activate : Bool) (parent : Option String) (new : String) (now : ℕ)
      (db : Database F)
      → Lives f (states_of db.revisions)
      → Lives f (states_of (add_revision F digest to_activate parent new now db).0.revisions)
  unfolding add_revision
  add_revision-Lives f to_activate parent new now db l =
      elim (Bool-cases (graph_is_valid F digest db [] [])) [
        | inr e ↦ rw e l
        | inl e ↦ elim (create_row-cases (drafted F digest new parent now db) db) [
          | inl (x, h) ↦ rw (e, h) l
          | inr (n, h) ↦ elim (Bool-cases to_activate) [
            | inr t ↦
                rw (e, h, t) (with_row-Lives f (drafted F digest new parent now db) db n refl l)
            | inl t ↦
                rw (e, h, t)
                  (let r = drafted F digest new parent now db in
                    finish_active-Lives f (stored r db) (with_row r db)
                      (ground (arith, states_of-append db.revisions (stored r db) new n refl))
                      (with_row-Lives f r db n refl l))
          ]
        ]
      ]

  pub create-Lives :
      (f : States) (state : RevisionState) (parent : Option String) (new : String) (now : ℕ)
      (db : Database F)
      → Lives f (states_of db.revisions)
      → Lives f (states_of (create F digest state parent new now db).0.revisions)
  unfolding create
  create-Lives f state parent new now db l =
      if_cases (λ (c : Called F digest). Lives f (states_of c.0.revisions))
        (is_refused_state F digest state) _ _ (λ _. l)
        (λ _.
          if_cases (λ (c : Called F digest). Lives f (states_of c.0.revisions))
            (no_parent F digest parent db) _ _ (λ _. l)
            (λ _. add_revision-Lives f _ parent new now db l))

  pub ensure_active-Lives :
      (f : States) (new : String) (now : ℕ) (db : Database F)
      → Lives f (states_of db.revisions)
      → Lives f (states_of (ensure_active F digest new now db).0.revisions)
  unfolding ensure_active
  ensure_active-Lives f new now db l = elim (Option-cases (newest_active db.revisions none)) [
    | inr (r, e) ↦ rw e l
    | inl e ↦ elim (Bool-cases (length db.revisions == 0)) [
      | inr t ↦ rw (e, t) l
      | inl t ↦ rw (e, t) (add_revision-Lives f true none new now db l)
    ]
  ]

  activate_fresh-Lives :
      (f : States) (r : Revision) (found : Option (List (StoredGroup F))) (db : Database F)
      → states_of db.revisions r.id ≡ some draft
      → Lives f (states_of db.revisions)
      → Lives f (states_of (activate_fresh F digest r found db).0.revisions)
  activate_fresh-Lives f r none db d l = l
  activate_fresh-Lives f r (some snapshot) db d l =
      if_cases (λ (c : Called F digest). Lives f (states_of c.0.revisions))
        (differs F db.groups snapshot) _ _ (λ _. l) (λ _. finish_active-Lives f r db d l)

  activate_found-Lives :
      (f : States) (i : String) (found : Option Revision) (db : Database F)
      → row_of i db.revisions ≡ found
      → Lives f (states_of db.revisions)
      → Lives f (states_of (activate_found F digest found db).0.revisions)
  activate_found-Lives f i none db e l = l
  activate_found-Lives f i (some r) db e l = activate_as r.state refl
    where
      activate_as :
          (s : RevisionState)
          → r.state ≡ s
          → Lives f (states_of (activate_found F digest (some r) db).0.revisions)
      activate_as active h = rw h l
      activate_as archived h = rw h l
      activate_as (other_state s) h = rw h l
      activate_as draft h = rw h (
          if_cases (λ (c : Called F digest). Lives f (states_of c.0.revisions))
            (not (length db.groups == 0)
              && not (graph_is_valid F digest db (db.policy_rules r.id) (db.admission_rules r.id)))
            _ _ (λ _. l)
            (λ _.
              activate_fresh-Lives f r (find String_discrete r.id db.snapshots) db
                (ap (states_of db.revisions) (sym (row_of-id i db.revisions r e))
                  ∙ (ap state_in e ∙ ap (λ x. some x) h))
                l))

  pub activate-Lives :
      (f : States) (i : String) (db : Database F)
      → Lives f (states_of db.revisions)
      → Lives f (states_of (activate F digest i db).0.revisions)
  unfolding activate
  activate-Lives f i db l =
      if_cases (λ (c : Called F digest). Lives f (states_of c.0.revisions)) (same i "") _ _ (λ _. l)
        (λ _. activate_found-Lives f i _ db refl l)
