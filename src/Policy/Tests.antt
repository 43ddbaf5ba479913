-- ===== src/Policy/Tests.antt =====
-- Small policies of internal/domain/policy.go: two groups, one above the other or each above the other.
use clash_sub_parser.Prelude.{
  suc, ◌≡◌, ◌≢◌, ◌↔◌, refl, true, List, [], ◌∷◌, none, some, String, map, filter_if, not, ◌++◌,
  length, String_discrete,
}
use clash_sub_parser.Prelude.Strings.{is_blank}
use clash_sub_parser.Prelude.Int.{ℤ, pos}
use clash_sub_parser.Prelude.Maps.{Map, get, set}
use clash_sub_parser.Policy.Graph.{Adjacency, neighbors}
use clash_sub_parser.Prelude.Sort.{sort_texts}
use clash_sub_parser.Policy.Cycles.{search_all}
use clash_sub_parser.Policy.Cycles.Path.{IsCycle}
use clash_sub_parser.Policy.Identifiers.{is_valid_uuid_v7}
use clash_sub_parser.Policy.Source.{
  Filters, MemberSource, SourceOperation, MemberSourceKind, GroupEdge, search_out_of_fuel,
  validate_group_edge, validate_member_source,
}
use clash_sub_parser.Policy.Rules.{PolicyRule, is_match_rule, validate_policy_rules, resolve_rules}
use clash_sub_parser.Policy.Topology.{
  GroupType, NodeGroup, group_ids, validate_policy_topology, groups_failure, adjacency,
}
use clash_sub_parser.Policy.Topology.Accepted.{
  AllAccessible, validate_policy_topology_iff, validate_policy_topology-IsCycle,
  validate_policy_topology_total,
}
use clash_sub_parser.Policy.Positions.{IsOrdered, stands_at}
use clash_sub_parser.Policy.Told.{told, to_tell}
use clash_sub_parser.Policy.RuleOrder.{
  IsNumbered, IsTerminalLast, validate_policy_rules_terminal, resolve_rules_lem,
}

abbrev no_filters : Filters
no_filters = record { Spec = Unit; spec_is_valid = λ f. true; regex_compiles = λ p. true }

abbrev upper_id : String
upper_id = "01890000-0000-7000-8000-000000000001"

abbrev lower_id : String
lower_id = "01890000-0000-7000-8000-000000000002"

abbrev reference : String → MemberSource no_filters
reference target = record {
  id = "s";
  operation = SourceOperation.add;
  kind = MemberSourceKind.group_ref;
  position = pos 0;
  node_logical_id = none;
  target_group_id = some target;
  pattern = none;
  filter_spec = none;
  builtin_name = none;
}

abbrev edge_to : String → GroupEdge
edge_to child = record {
  id = "e";
  parent_group_id = "";
  child_group_id = some child;
  node_logical_id = none;
  position = pos 0;
}

abbrev groups_with : List (MemberSource no_filters) → List (NodeGroup no_filters)
groups_with sources =
    record { id = upper_id; name = "Upper"; group_type = GroupType.select; sources = [] }
    ∷ record { id = lower_id; name = "Lower"; group_type = GroupType.url_test; sources = sources }
    ∷ []

abbrev edges : Map String (List GroupEdge)
edges = (upper_id, edge_to lower_id ∷ []) ∷ []

abbrev final_rule : PolicyRule
final_rule = record {
  id = "r2";
  target_group_id = upper_id;
  expression = "MATCH";
  position = pos 5;
}

abbrev rules : List PolicyRule
rules =
    final_rule
    ∷ record { id = "r1"; target_group_id = lower_id; expression = "DOMAIN,a.b"; position = pos 1 }
    ∷ []

abbrev one_way : Adjacency
one_way = (upper_id, lower_id ∷ []) ∷ (lower_id, []) ∷ []

abbrev both_ways : Adjacency
both_ways = (upper_id, lower_id ∷ []) ∷ (lower_id, upper_id ∷ []) ∷ []

validate_policy_topology_iff_example :
    (validate_policy_topology no_filters (groups_with []) edges rules true ≡ none) ↔ (
      AllAccessible one_way (group_ids no_filters (groups_with []))
      × (validate_policy_rules rules (group_ids no_filters (groups_with [])) true ≡ none))
unfolding groups_failure adjacency is_valid_uuid_v7 is_blank String_discrete set get
    validate_group_edge validate_member_source
validate_policy_topology_iff_example =
    validate_policy_topology_iff no_filters (groups_with []) edges rules true one_way refl refl

validate_policy_topology-IsCycle_example : IsCycle both_ways (upper_id ∷ lower_id ∷ upper_id ∷ [])
unfolding groups_failure adjacency validate_policy_topology search_all is_valid_uuid_v7 is_blank
    String_discrete set get validate_group_edge validate_member_source sort_texts neighbors
validate_policy_topology-IsCycle_example =
    validate_policy_topology-IsCycle no_filters (groups_with (reference upper_id ∷ [])) edges rules
      true both_ways refl refl (upper_id ∷ lower_id ∷ upper_id ∷ []) refl

validate_policy_topology_total_example :
    validate_policy_topology no_filters (groups_with (reference upper_id ∷ [])) edges rules true
    ≢ some search_out_of_fuel
unfolding groups_failure adjacency is_valid_uuid_v7 is_blank String_discrete set get
    validate_group_edge validate_member_source
validate_policy_topology_total_example =
    validate_policy_topology_total no_filters (groups_with (reference upper_id ∷ [])) edges rules
      true both_ways refl refl

validate_policy_rules_terminal_example : suc 1 ≡ length rules
unfolding validate_policy_rules is_blank String_discrete is_match_rule
validate_policy_rules_terminal_example =
    validate_policy_rules_terminal rules (upper_id ∷ lower_id ∷ []) 1 final_rule refl refl refl

resolve_rules_lem_example :
    IsNumbered 0 (resolve_rules rules ((upper_id, "Upper") ∷ []))
    × IsTerminalLast (resolve_rules rules ((upper_id, "Upper") ∷ []))
    × ((ordered : List PolicyRule) × IsOrdered ordered
        × ((n : ℤ) → filter_if (stands_at n) ordered ≡ filter_if (stands_at n) rules)
        × (map told (resolve_rules rules ((upper_id, "Upper") ∷ []))
            ≡ map (to_tell ((upper_id, "Upper") ∷ [])) (
                filter_if (λ r. not (is_match_rule r.expression)) ordered
                ++ filter_if (λ r. is_match_rule r.expression) ordered)))
resolve_rules_lem_example = resolve_rules_lem rules ((upper_id, "Upper") ∷ [])
