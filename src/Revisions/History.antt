-- ===== src/Revisions/History.antt =====
-- Histories of the revisions of internal/application/revision/service.go.
use clash_sub_parser.Prelude.{
  ℕ, String, ◌≡◌, ◌≢◌, refl, sym, ◌∙◌, List, [], ◌∷◌, if◌then◌else◌, Option, none, some, same,
  String_discrete, arith,
}
use clash_sub_parser.Prelude.Maps.{Map}
use clash_sub_parser.Policy.Source.{Filters, GroupEdge}
use clash_sub_parser.Policy.Rules.{PolicyRule}
use clash_sub_parser.Resolver.Admission.{AdmissionRule}
use clash_sub_parser.Revisions.Rows.{
  RevisionState, draft, active, archived, other_state, StoredGroup, Database,
}
use clash_sub_parser.Revisions.Service.{create, ensure_active, activate}
use clash_sub_parser.Revisions.Lifecycle.{
  States, Lives, same_states, created, promoted, states_of, retired,
}
use clash_sub_parser.Revisions.Lifecycle.Kept.{create-Lives, ensure_active-Lives, activate-Lives}

module _ (F : Filters) where
  -- What happens to the rows: calls of the service, and any change of the policy by other services.
  pub data Call : Type 0 where
    create_call : RevisionState → Option String → String → ℕ → Call
    ensure_call : String → ℕ → Call
    activate_call : String → Call
    edit_call :
        List (StoredGroup F)
        → Map String (List GroupEdge)
        → (String → List PolicyRule)
        → (String → List AdmissionRule)
        → Call

  module _ (digest : List (StoredGroup F) → String) where
    unfoldable pub execute : Call → Database F → Database F
    unfolding create ensure_active activate
    execute (create_call state parent new now) db = (create F digest state parent new now db).0
    execute (ensure_call new now) db = (ensure_active F digest new now db).0
    execute (activate_call i) db = (activate F digest i db).0
    execute (edit_call gs es rs as_rules) db = record db {
      groups = gs;
      edges = es;
      policy_rules = rs;
      admission_rules = as_rules;
    }

    unfoldable pub run : List Call → Database F → Database F
    unfolding execute
    run [] db = db
    run (c ∷ cs) db = run cs (execute c db)

    execute-Lives :
        (f : States) (c : Call) (db : Database F)
        → Lives f (states_of db.revisions)
        → Lives f (states_of (execute c db).revisions)
    unfolding execute
    execute-Lives f (create_call state parent new now) db l =
        create-Lives F digest f state parent new now db l
    execute-Lives f (ensure_call new now) db l = ensure_active-Lives F digest f new now db l
    execute-Lives f (activate_call i) db l = activate-Lives F digest f i db l
    execute-Lives f (edit_call gs es rs as_rules) db l = l

    run-Lives :
        (f : States) (cs : List Call) (db : Database F)
        → Lives f (states_of db.revisions)
        → Lives f (states_of (run cs db).revisions)
    unfolding run
    run-Lives f [] db l = l
    run-Lives f (c ∷ cs) db l = run-Lives f cs (execute c db) (execute-Lives f c db l)

    -- Every history of the rows is a life of the revisions: the states that the rows show change only
    -- by a new draft, and by a draft that becomes active while what was active is archived.
    pub run_refines :
        (cs : List Call) (db : Database F)
        → Lives (states_of db.revisions) (states_of (run cs db).revisions)
    run_refines cs db = run-Lives _ cs db (same_states _ (λ i. refl))

-- No two revisions are active.
abbrev pub IsSingle : States → Type 0
IsSingle f = (i j : String) → f i ≡ some active → f j ≡ some active → i ≡ j

retired-active : (o : Option RevisionState) → retired o ≢ some active
retired-active none h = absurd cc
retired-active (some draft) h = absurd cc
retired-active (some active) h = absurd cc
retired-active (some archived) h = absurd cc
retired-active (some (other_state s)) h = absurd cc

-- Only the draft that is promoted is active then.
active_of_promoted :
    (o : Option RevisionState) (i j : String)
    → (if same j i then some active else retired o) ≡ some active
    → j ≡ i
active_of_promoted o i j h = elim (String_discrete j i) [
  | yes e ↦ e
  | no ne ↦ absurd (retired-active o (ground (arith, ne)))
]

active_of_created :
    (o : Option RevisionState) (i j : String)
    → (if same j i then some draft else o) ≡ some active
    → o ≡ some active
active_of_created o i j h = ground arith

Lives-IsSingle : (f h : States) → Lives f h → IsSingle f → IsSingle h
Lives-IsSingle f h (same_states g e) s i j p q = s i j (sym (e i) ∙ p) (sym (e j) ∙ q)
Lives-IsSingle f h (created g h' k l n e) s i j p q =
    Lives-IsSingle f g l s i j (active_of_created (g i) k i (sym (e i) ∙ p))
      (active_of_created (g j) k j (sym (e j) ∙ q))
Lives-IsSingle f h (promoted g h' k l n e) s i j p q =
    active_of_promoted (g i) k i (sym (e i) ∙ p)
    ∙ sym (active_of_promoted (g j) k j (sym (e j) ∙ q))

-- Whatever is called, no two revisions are active where none were before.
pub run-IsSingle :
    (F : Filters) (digest : List (StoredGroup F) → String) (cs : List (Call F)) (db : Database F)
    → IsSingle (states_of db.revisions)
    → IsSingle (states_of (run F digest cs db).revisions)
run-IsSingle F digest cs db = Lives-IsSingle _ _ (run_refines F digest cs db)
