-- ===== src/Revisions/Service.antt =====
-- The service of internal/application/revision/service.go on the rows, with its repositories given. Its
-- mutex keeps the calls apart; an ID is given as `strings.TrimSpace` leaves it; the audit is left out.
use clash_sub_parser.Prelude.{
  ℕ, String, Bool, true, false, not, ◌&&◌, List, [], ◌∷◌, map, if◌then◌else◌, ◌==◌, length, Option,
  none, some, same, String_discrete,
}
use clash_sub_parser.Prelude.Int.{is_negative}
use clash_sub_parser.Prelude.Maps.{Map, find, get}
use clash_sub_parser.Prelude.Strings.{is_blank}
use clash_sub_parser.Policy.Source.{Filters, GroupEdge, Failure}
use clash_sub_parser.Policy.Rules.{PolicyRule}
use clash_sub_parser.Policy.Topology.{validate_policy_topology}
use clash_sub_parser.Resolver.Admission.{AdmissionRule, RuleAction, other_action}
use clash_sub_parser.Revisions.Rows.{
  RevisionState, draft, active, archived, other_state, Revision, RevisionError, revision_not_found,
  revision_conflict, snapshot_unavailable, missing_revision_id, revision_already_active,
  revision_not_draft, invalid_revision_state, policy_is_invalid, Result, ok, err, ◌>>=◌, row_of,
  newest_active, StoredGroup, Database, differs, create_row, set_active,
}

abbrev action_is_valid : RuleAction → Bool
action_is_valid (other_action s) = false
action_is_valid _ = true

-- `ValidateAdmissionRules` of internal/application/policy/graph.go has no error.
unfoldable pub rules_are_valid : List AdmissionRule → Bool
unfolding is_blank
rules_are_valid [] = true
rules_are_valid (r ∷ rs) =
    not (is_blank r.name)
    && not (is_blank r.expression)
    && action_is_valid r.action
    && not (is_negative r.position)
    && rules_are_valid rs

abbrev passes : Failure → Bool
passes none = true
passes (some e) = false

module _ (F : Filters) (digest : List (StoredGroup F) → String) where
  -- What a call leaves in the rows, and its result.
  abbrev pub Called : Type 0
  Called = Database F × Result Revision

  abbrev pub refused : Database F → RevisionError → Called
  refused db e = (db, err e)

  abbrev edge_map : Database F → Map String (List GroupEdge)
  edge_map db =
      map (λ (g : StoredGroup F). (g.group.id, get String_discrete [] g.group.id db.edges))
        db.groups

  -- `ValidatePolicyGraph` has no error.
  unfoldable pub graph_is_valid : Database F → List PolicyRule → List AdmissionRule → Bool
  unfolding validate_policy_topology rules_are_valid get
  graph_is_valid db rules admission =
      passes (
        validate_policy_topology F (map (λ (g : StoredGroup F). g.group) db.groups) (edge_map db)
          rules true)
      && rules_are_valid admission

  abbrev pub drafted : String → Option String → ℕ → Database F → Revision
  drafted i parent now db = record {
    id = i;
    parent_id = parent;
    content_digest = digest db.groups;
    state = draft;
    created_at = now;
  }

  abbrev pub finish_active : Revision × Database F → Result (Database F) → Called
  finish_active (r, db) (ok db') = (db', ok (record r { state = active }))
  finish_active (r, db) (err e) = (db, err e)

  -- The row that was written, made active where that is asked for. Where this fails, the draft stays.
  abbrev pub finish_create : Bool → Database F → Result (Revision × Database F) → Called
  finish_create to_activate db (err e) = (db, err e)
  finish_create to_activate db (ok (r, db')) =
      if to_activate then finish_active (r, db') (set_active F digest r.id db') else (db', ok r)

  abbrev pub parent_is_missing : Option String → Database F → Bool
  parent_is_missing none db = false
  parent_is_missing (some p) db = elim (row_of p db.revisions) [ none ↦ true | some r ↦ false ]

  -- The row of a new revision, where the present policy is accepted.
  unfoldable pub add_revision : Bool → Option String → String → ℕ → Database F → Called
  unfolding graph_is_valid create_row
  add_revision to_activate parent new now db =
      if not (graph_is_valid db [] [])
      then refused db policy_is_invalid
      else finish_create to_activate db (create_row F digest (drafted new parent now db) db)

  abbrev pub wants_active : RevisionState → Bool
  wants_active active = true
  wants_active _ = false

  abbrev pub is_refused_state : RevisionState → Bool
  is_refused_state draft = false
  is_refused_state active = false
  is_refused_state archived = true
  is_refused_state (other_state s) = not (same s "")

  -- `Create`; a parent that is blank is given as none.
  unfoldable pub create : RevisionState → Option String → String → ℕ → Database F → Called
  unfolding add_revision
  create state parent new now db =
      if is_refused_state state
      then refused db invalid_revision_state
      else if parent_is_missing parent db
      then refused db revision_not_found
      else add_revision (wants_active state) parent new now db

  abbrev pub bootstrap :
      Option Revision → String → ℕ → Database F → Database F × Result (Option Revision)
  bootstrap found new now db = elim found [
    | some r ↦ (db, ok (some r))
    | none ↦
        if not (length db.revisions == 0)
        then (db, ok none)
        else let (db', r) = add_revision true none new now db in (db', r >>= λ x. ok (some x))
  ]

  -- `EnsureActiveRevision`
  unfoldable pub ensure_active : String → ℕ → Database F → Database F × Result (Option Revision)
  unfolding newest_active add_revision
  ensure_active new now db = bootstrap (newest_active db.revisions none) new now db

  abbrev pub activate_fresh : Revision → Option (List (StoredGroup F)) → Database F → Called
  activate_fresh r none db = refused db snapshot_unavailable
  activate_fresh r (some snapshot) db =
      if differs F db.groups snapshot
      then refused db revision_conflict
      else finish_active (r, db) (set_active F digest r.id db)

  abbrev pub activate_draft : Revision → Database F → Called
  activate_draft r db =
      if not (length db.groups == 0)
        && not (graph_is_valid db (db.policy_rules r.id) (db.admission_rules r.id))
      then refused db policy_is_invalid
      else activate_fresh r (find String_discrete r.id db.snapshots) db

  abbrev pub activate_found : Option Revision → Database F → Called
  activate_found none db = refused db revision_not_found
  activate_found (some r) db = elim r.state [
    | active ↦ refused db revision_already_active
    | draft ↦ activate_draft r db
    | _ ↦ refused db revision_not_draft
  ]

  -- `Activate`
  unfoldable pub activate : String → Database F → Called
  unfolding row_of
  activate id db =
      if same id ""
      then refused db missing_revision_id
      else activate_found (row_of id db.revisions) db
