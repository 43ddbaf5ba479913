-- ===== src/Revisions/Rows.antt =====
-- The rows of internal/repository/sqlite/revisions.go and revision_snapshots.go. A transaction that
-- fails leaves the rows as they were. What the database itself refuses beside the keys of its rows is
-- not modelled. A snapshot of groups is kept as a text and is read back as it was.
use clash_sub_parser.Prelude.{
  ℕ, String, Bool, true, false, not, ◌||◌, List, [], ◌∷◌, ◌++◌, map, if◌then◌else◌, any, ltb, ◌==◌,
  length, Option, none, some, same, String_discrete,
}
use clash_sub_parser.Prelude.Int.{ℤ}
use clash_sub_parser.Prelude.Maps.{Map, find, set}
use clash_sub_parser.Probing.Health.{same_int}
use clash_sub_parser.Policy.Source.{Filters, GroupEdge}
use clash_sub_parser.Policy.Rules.{PolicyRule}
use clash_sub_parser.Policy.Topology.{NodeGroup}
use clash_sub_parser.Resolver.Admission.{AdmissionRule}

pub data RevisionState : Type 0 where
  draft active archived : RevisionState
  other_state : String → RevisionState

-- `ConfigurationRevision`
pub record Revision : Type 0 where
  pub id : String
  pub parent_id : Option String
  pub content_digest : String
  pub state : RevisionState
  pub created_at : ℕ

pub data RevisionError : Type 0 where
  revision_not_found active_revision_not_found key_is_taken parent_is_missing : RevisionError
  revision_conflict revision_graph_changed snapshot_unavailable : RevisionError
  missing_revision_id revision_already_active revision_not_draft invalid_revision_state :
      RevisionError
  policy_is_invalid : RevisionError

pub data Result (A : Type 0) : Type 0 where
  ok : A → Result A
  err : RevisionError → Result A

infixl 5 ◌>>=◌
abbrev pub ◌>>=◌ : {A B : Type 0} → Result A → (A → Result B) → Result B
ok a >>= f = f a
err e >>= f = err e

abbrev pub guard : {A : Type 0} → Bool → RevisionError → Result A → Result A
guard true e r = err e
guard false e r = r

-- The first row with an ID.
unfoldable pub row_of : String → List Revision → Option Revision
row_of i [] = none
row_of i (r ∷ rs) = let rest = row_of i rs in if same i r.id then some r else rest

abbrev pub is_active : Revision → Bool
is_active r = elim r.state [ active ↦ true | _ ↦ false ]

-- The active row that was created last.
unfoldable pub newest_active : List Revision → Option Revision → Option Revision
newest_active [] best = best
newest_active (r ∷ rs) best = newest_active rs (
    if is_active r
    then (elim best [
      | none ↦ some r
      | some b ↦ if ltb b.created_at r.created_at then some r else some b
    ])
    else best)

-- `UPDATE ... SET state = 'archived' WHERE state = 'active'`
abbrev pub retire : Revision → Revision
retire r = if is_active r then record r { state = archived } else r

-- `UPDATE ... SET state = 'active' WHERE id = ?`
abbrev pub promote : String → Revision → Revision
promote i r = if same i r.id then record r { state = active } else r

module _ (F : Filters) where
  -- A group as its row and its sources, with the number of its revision.
  pub record StoredGroup : Type 0 where
    pub group : NodeGroup F
    pub revision : ℤ

  pub record Database : Type 0 where
    pub revisions : List Revision
    pub snapshots : Map String (List StoredGroup)
    pub groups : List StoredGroup
    pub edges : Map String (List GroupEdge)
    pub policy_rules : String → List PolicyRule
    pub admission_rules : String → List AdmissionRule

  -- The map from the IDs of a snapshot to the numbers of their revisions.
  unfoldable pub vector : List StoredGroup → Map String ℤ → Map String ℤ
  vector [] v = v
  vector (g ∷ gs) v = vector gs (set String_discrete g.group.id g.revision v)

  abbrev pub has_moved : Map String ℤ → StoredGroup → Bool
  has_moved v g = elim (find String_discrete g.group.id v) [
    | none ↦ true
    | some n ↦ not (same_int n g.revision)
  ]

  -- A group of the present is not in the snapshot, or has another number there.
  unfoldable pub differs : List StoredGroup → List StoredGroup → Bool
  unfolding vector
  differs current snapshot =
      not (length current == length snapshot) || any (has_moved (vector snapshot [])) current

  abbrev pub parent_is_there : Option String → Database → Bool
  parent_is_there none db = true
  parent_is_there (some p) db = elim (row_of p db.revisions) [ none ↦ false | some r ↦ true ]

  abbrev pub is_taken : String → Database → Bool
  is_taken i db = elim (row_of i db.revisions) [ none ↦ false | some r ↦ true ]

  abbrev pub activated : String → Database → Database
  activated i db = record db { revisions = map (promote i) (map retire db.revisions) }

  abbrev pub unless_stale : Option RevisionError → Result Database → Result Database
  unless_stale none r = r
  unless_stale (some e) r = err e

  -- `policyGroupsDigest`: a hash over the groups
  module _ (digest : List StoredGroup → String) where
    -- `Create`, with `CapturePolicyRevisionSnapshot`
    unfoldable pub create_row : Revision → Database → Result (Revision × Database)
    unfolding row_of
    create_row r db =
        let stored = record r { content_digest = digest db.groups } in
        guard (is_taken r.id db) key_is_taken (
          guard (not (parent_is_there r.parent_id db)) parent_is_missing (
            ok (
              stored,
              record db {
                revisions = db.revisions ++ (stored ∷ []);
                snapshots = set String_discrete r.id db.groups db.snapshots;
              },
            )))

    -- The check that a draft is not stale, inside the transaction.
    abbrev pub stale_failure : Option (List StoredGroup) → Database → Option RevisionError
    stale_failure none db = none
    stale_failure (some snapshot) db =
        if differs db.groups snapshot
        then some revision_conflict
        else if not (same (digest db.groups) (digest snapshot))
        then some revision_graph_changed
        else none

    -- `SetActive` with `setActiveRevision`
    unfoldable pub set_active : String → Database → Result Database
    unfolding stale_failure row_of
    set_active i db =
        unless_stale (stale_failure (find String_discrete i db.snapshots) db)
          (guard (not (is_taken i db)) revision_not_found (ok (activated i db)))
