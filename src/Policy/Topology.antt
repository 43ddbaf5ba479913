-- ===== src/Policy/Topology.antt =====
-- `ValidatePolicyTopology` of internal/domain/policy.go. The edges come as the entries of a Go map, in
-- the order of the iteration.
pub mod Closed
pub mod Plain
pub mod Accepted
use clash_sub_parser.Prelude.{
  ℕ, zero, suc, String, Bool, true, false, not, ◌||◌, ◌&&◌, List, [], ◌∷◌, ◌++◌, map, if◌then◌else◌,
  length, any, Option, none, some, same, String_discrete,
}
use clash_sub_parser.Prelude.Strings.{is_blank}
use clash_sub_parser.Prelude.Maps.{Map, get, set}
use clash_sub_parser.Policy.Graph.{Adjacency}
use clash_sub_parser.Prelude.Sort.{sort_texts}
use clash_sub_parser.Policy.Cycles.{Outcome, search_all, blank}
use clash_sub_parser.Policy.Cycles
use clash_sub_parser.Policy.Identifiers.{is_valid_uuid_v7}
use clash_sub_parser.Policy.Source.{
  Filters, Failure, PolicyError, refuse_if, ◌or_else◌, MemberSource, MemberSourceKind, group_ref,
  group_nodes, GroupEdge, validate_member_source, validate_group_edge, is_set, invalid_group_id,
  invalid_group_name, invalid_group_type, parent_group_not_found, target_group_not_found,
  self_loop_forbidden, cycle_detected, search_out_of_fuel,
}
use clash_sub_parser.Policy.Rules.{PolicyRule, validate_policy_rules}

pub data GroupType : Type 0 where
  select url_test fallback load_balance : GroupType
  other_type : String → GroupType

abbrev pub type_is_valid : GroupType → Bool
type_is_valid (other_type t) = false
type_is_valid _ = true

-- A map that is being built, or the first error.
pub data Built : Type 0 where
  built : Adjacency → Built
  failed : PolicyError → Built

infixl 5 ◌>>=◌
abbrev pub ◌>>=◌ : Built → (Adjacency → Built) → Built
built adj >>= f = f adj
failed e >>= f = failed e

-- The next step, where a check passes.
abbrev pub unless : Failure → Built → Built
unless none b = b
unless (some e) b = failed e

-- `adj[u] = append(adj[u], v)`
unfoldable pub push_child : String → String → Adjacency → Adjacency
push_child u v adj = set String_discrete u (get String_discrete [] u adj ++ v ∷ []) adj

-- A child that is named must be another known group.
unfoldable pub add_child : List String → String → Option String → Adjacency → Built
unfolding push_child
add_child ids u none adj = built adj
add_child ids u (some v) adj =
    if same v ""
    then built adj
    else if same v u
    then failed self_loop_forbidden
    else if any (same v) ids
    then built (push_child u v adj)
    else failed target_group_not_found

-- The edges of one parent.
unfoldable pub add_edges : List String → String → List GroupEdge → Adjacency → Built
unfolding add_child
add_edges ids u [] adj = built adj
add_edges ids u (e ∷ es) adj =
    unless (validate_group_edge (record e { parent_group_id = u }))
      (add_child ids u e.child_group_id adj)
    >>= add_edges ids u es

unfoldable pub add_all_edges : List String → Map String (List GroupEdge) → Adjacency → Built
unfolding add_edges
add_all_edges ids [] adj = built adj
add_all_edges ids ((u, es) ∷ edges) adj =
    (if any (same u) ids then add_edges ids u es adj else failed parent_group_not_found)
    >>= add_all_edges ids edges

-- `adj[g.ID] = make([]string, 0)` for each group.
unfoldable pub start_children : List String → Adjacency → Adjacency
start_children [] adj = adj
start_children (id ∷ ids) adj = start_children ids (set String_discrete id [] adj)

module _ (F : Filters) where
  pub record NodeGroup : Type 0 where
    pub id : String
    pub name : String
    pub group_type : GroupType
    pub sources : List (MemberSource F)

  abbrev pub group_ids : List NodeGroup → List String
  group_ids = map (λ g. g.id)

  unfoldable pub groups_failure : List NodeGroup → Failure
  groups_failure [] = none
  groups_failure (g ∷ gs) =
      refuse_if (not (is_valid_uuid_v7 g.id)) invalid_group_id
      or_else refuse_if (is_blank g.name) invalid_group_name
      or_else refuse_if (not (type_is_valid g.group_type)) invalid_group_type
      or_else groups_failure gs

  -- The group that a source refers to.
  abbrev pub referenced : MemberSource F → Option String
  referenced s = elim s.kind [
    | group_ref ↦ s.target_group_id
    | group_nodes ↦ s.target_group_id
    | _ ↦ none
  ]

  unfoldable pub add_sources : List String → String → List (MemberSource F) → Adjacency → Built
  unfolding add_child
  add_sources ids u [] adj = built adj
  add_sources ids u (s ∷ ss) adj =
      unless (validate_member_source F s) (add_child ids u (referenced s) adj)
      >>= add_sources ids u ss

  unfoldable pub add_all_sources : List String → List NodeGroup → Adjacency → Built
  unfolding add_sources
  add_all_sources ids [] adj = built adj
  add_all_sources ids (g ∷ gs) adj = add_sources ids g.id g.sources adj >>= add_all_sources ids gs

  -- The map `adj` of the function.
  unfoldable pub adjacency : List NodeGroup → Map String (List GroupEdge) → Built
  unfolding add_all_edges start_children add_all_sources
  adjacency groups edges =
      let ids = group_ids groups in
      add_all_edges ids edges (start_children ids []) >>= add_all_sources ids groups

  -- The search and the checks behind it.
  unfoldable pub search_failure : List String → Adjacency → List PolicyRule → Bool → Failure
  search_failure ids adj rules require_terminal =
      elim (search_all (length ids) adj (sort_texts ids) blank) [
        | Outcome.done d ↦ validate_policy_rules rules ids require_terminal
        | Outcome.cycle path ↦ some (cycle_detected path)
        | Outcome.out_of_fuel ↦ some search_out_of_fuel
      ]

  -- `ValidatePolicyTopology`
  unfoldable pub validate_policy_topology :
      List NodeGroup → Map String (List GroupEdge) → List PolicyRule → Bool → Failure
  unfolding groups_failure adjacency search_failure
  validate_policy_topology groups edges rules require_terminal =
      groups_failure groups or_else (elim (adjacency groups edges) [
        | failed e ↦ some e
        | built adj ↦ search_failure (group_ids groups) adj rules require_terminal
      ])
