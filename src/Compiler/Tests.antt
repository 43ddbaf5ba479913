-- ===== src/Compiler/Tests.antt =====
-- Small snapshots for internal/compiler/prune.go: a selector above two empty groups.
use clash_sub_parser.Prelude.{
  ◌≡◌, refl, true, false, List, [], ◌∷◌, none, String, map, String_discrete,
}
use clash_sub_parser.Prelude.Int.{pos}
use clash_sub_parser.Prelude.Strings.{is_blank, trim_space}
use clash_sub_parser.Policy.Topology.{GroupType}
use clash_sub_parser.Compiler.Prune.{
  Member, MemberKind, ResolvedGroup, Snapshot, prune_one_pass, prune_unavailable_optional_groups,
}
use clash_sub_parser.Compiler.Prune.Fixpoint.{prune_unavailable_optional_groups-none}
use clash_sub_parser.Compiler.Prune.Targets.{copies, prune_unavailable_optional_groups-copies}

abbrev child : String → Member
child id = record { kind = MemberKind.group; target_id = id; display_name = "" }

abbrev group_of : String → String → List Member → ResolvedGroup
group_of id name members = record {
  empty_fallback_pass = false;
  effective_empty_pass = false;
  id = id;
  name = name;
  group_type = GroupType.select;
  members = members;
  all_node_logical_ids = [];
}

abbrev upper : ResolvedGroup
upper = group_of "u" "Upper" (child "a" ∷ child "b" ∷ [])

abbrev siblings : Snapshot
siblings = record {
  groups = upper ∷ group_of "a" "First" [] ∷ group_of "b" "Second" [] ∷ [];
  rules =
      record {
        id = "r";
        target_group_id = "u";
        target_group_name = "Upper";
        expression = "MATCH";
        position = pos 0;
        is_terminal = true;
      }
      ∷ [];
  diagnostics = [];
}

-- Each of two empty siblings may go for itself, so one pass removes both, and the selector that a rule
-- goes to is left without members.
siblings_emptied :
    map (λ (g : ResolvedGroup). g.members) (prune_unavailable_optional_groups siblings).0.groups
    ≡ [] ∷ []
unfolding prune_unavailable_optional_groups is_blank String_discrete
siblings_emptied = refl

prune_unavailable_optional_groups-none_example :
    prune_one_pass (prune_unavailable_optional_groups siblings).0 ≡ none
prune_unavailable_optional_groups-none_example = prune_unavailable_optional_groups-none siblings

prune_unavailable_optional_groups-copies_example :
    copies upper (prune_unavailable_optional_groups siblings).0 ≡ copies upper siblings
unfolding is_blank trim_space String_discrete
prune_unavailable_optional_groups-copies_example =
    prune_unavailable_optional_groups-copies upper siblings refl
