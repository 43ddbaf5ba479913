-- ===== src/Resolver/Snapshot.antt =====
-- The steps of `Resolve` in internal/resolver/resolver.go up to the members of the groups: admission,
-- the global filter, and the resolution of each group in `resolveGroups`.
pub mod Allowed
mod Tests
use clash_sub_parser.Prelude.{
  ℕ, suc, String, Bool, true, false, not, List, [], ◌∷◌, map, length, filter_if, if◌then◌else◌,
  Option, none, some, same, String_discrete,
}
use clash_sub_parser.Prelude.Maps.{Map, get, set}
use clash_sub_parser.Prelude.Sort.{sort_by, text_le}
use clash_sub_parser.Probing.Health.{Observation}
use clash_sub_parser.Filters.Regex.{Library}
use clash_sub_parser.Filters.Conditions.{FilterCondition}
use clash_sub_parser.Filters.Matching.{matches_filter}
use clash_sub_parser.Resolver.Admission.{
  AdmissionNode, AdmissionRule, AdmissionResult, RiskDecision, RiskAction, admit_nodes,
}
use clash_sub_parser.Resolver.Admission.Expressions.{TextLibrary, matches_admission_expression}
use clash_sub_parser.Resolver.Groups.{NodeEntry, Group, Inventory, GroupMemo, Shared, is_none}
use clash_sub_parser.Resolver.Groups.Resolve.{resolve_each}

abbrev text_lt : String → String → Bool
text_lt s t = not (text_le t s)

abbrev pub entry_of : AdmissionNode → NodeEntry
entry_of n = record {
  logical_id = n.logical_id;
  node_name = n.display_name;
  node_protocol = n.protocol;
}

-- `globalAdmittedMap[node.LogicalID] = node` for one node after the other.
unfoldable pub index_nodes : List AdmissionNode → Map String NodeEntry → Map String NodeEntry
index_nodes [] m = m
index_nodes (n ∷ ns) m = index_nodes ns (set String_discrete n.logical_id (entry_of n) m)

-- The order by name, then by ID.
abbrev pub entry_lt : NodeEntry → NodeEntry → Bool
entry_lt a b =
    if same a.node_name b.node_name
    then text_lt a.logical_id b.logical_id
    else text_lt a.node_name b.node_name

module _ (lib : Library) where
  abbrev group_lt : Group lib → Group lib → Bool
  group_lt a b = if same a.name b.name then text_lt a.id b.id else text_lt a.name b.name

  unfoldable pub index_groups : List (Group lib) → Map String (Group lib) → Map String (Group lib)
  index_groups [] m = m
  index_groups (g ∷ gs) m = index_groups gs (set String_discrete g.id g m)

  -- What is read of `ResolveInput`.
  pub record ResolveInput : Type 0 where
    pub nodes : List AdmissionNode
    pub admission_rules : List AdmissionRule
    pub excluded_node_ids : List String
    pub risk_policy_revision : String
    pub risk_decisions : List RiskDecision
    pub risk_review_action : RiskAction
    pub global_filter : List FilterCondition
    pub policy_groups : List (Group lib)
    pub node_sources : Map String (List String)
    pub latest_observations : Map String (Map String Observation)
    pub as_of : ℕ
    pub text_library : TextLibrary
    pub trim_upper : String → String

  module _ (input : ResolveInput) where
    -- The nodes that are admitted.
    unfoldable pub admission_result : AdmissionResult
    unfolding admit_nodes
    admission_result =
        admit_nodes (matches_admission_expression input.text_library) input.nodes
          input.admission_rules input.excluded_node_ids input.risk_policy_revision
          input.risk_decisions input.risk_review_action

    -- The test of the global filter; one without conditions, and none, let all nodes pass.
    unfoldable pub passes_global : AdmissionNode → Bool
    passes_global n = is_none (
        matches_filter lib input.global_filter
          (record {
            name = n.display_name;
            node_protocol = n.protocol;
            subscription_ids = get String_discrete [] n.logical_id input.node_sources;
          })
          (get String_discrete [] n.logical_id input.latest_observations) input.as_of)

    -- `globalAdmittedNodes`
    unfoldable pub global_admitted : List AdmissionNode
    unfolding admission_result passes_global
    global_admitted = filter_if passes_global admission_result.admitted_nodes

    -- The arguments of `resolveGroups`.
    unfoldable pub inventory_of : Inventory lib
    unfolding global_admitted index_nodes index_groups
    inventory_of = record {
      groups = index_groups input.policy_groups [];
      sorted_nodes = sort_by entry_lt (map entry_of global_admitted);
      global_nodes = index_nodes global_admitted [];
      admitted_nodes = index_nodes admission_result.admitted_nodes [];
      node_sources = input.node_sources;
      latest_obs = input.latest_observations;
      as_of = input.as_of;
      trim_upper = input.trim_upper;
    }

    -- The IDs of the groups, in the order by name, then by ID.
    abbrev pub group_ids : List String
    group_ids = map (λ (g : Group lib). g.id) (sort_by group_lt input.policy_groups)

    abbrev pub no_memo : Shared
    no_memo = record { memo = []; resolving = []; notices = []; is_exhausted = false }

    -- The groups in their order, resolved one after the other.
    unfoldable pub resolve_members : List GroupMemo × Shared
    unfolding inventory_of resolve_each
    resolve_members =
        resolve_each lib inventory_of (suc (length inventory_of.groups)) group_ids no_memo
