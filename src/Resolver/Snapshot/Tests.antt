-- ===== src/Resolver/Snapshot/Tests.antt =====
-- The whole of the resolution of members on a small input for internal/resolver.
use clash_sub_parser.Prelude.{
  ℕ, ◌≡◌, refl, String, Bool, true, false, List, [], ◌∷◌, map, Option, none, some,
}
use clash_sub_parser.Prelude.Int.{pos}
use clash_sub_parser.Prelude.Sort.{Occurs}
use clash_sub_parser.Prelude.Strings.{same_codes, to_lower, to_upper}
use clash_sub_parser.Policy.Source.{add, MemberSourceKind, manual_node, group_nodes}
use clash_sub_parser.Filters.Regex.{Library}
use clash_sub_parser.Filters.Conditions.{FilterCondition}
use clash_sub_parser.Resolver.Admission.{AdmissionNode, risk_block}
use clash_sub_parser.Resolver.Groups.{Source, GroupMemo}
use clash_sub_parser.Resolver.Groups.Preserved.{All}
use clash_sub_parser.Resolver.Snapshot.{ResolveInput, resolve_members}
use clash_sub_parser.Resolver.Snapshot.Allowed.{IsAllowed, resolve_members-IsAllowed}

abbrev library : Library
library = record {
  compile_re2 = λ p. some (λ text. true);
  compile_backtracking = λ p. none;
  lower_case = to_lower;
  equal_fold = λ s t. same_codes (to_lower s) (to_lower t);
}

abbrev source : MemberSourceKind → ℕ → Option String → Option String → Source library
source k p n t = record {
  id = "s";
  operation = add;
  kind = k;
  position = pos p;
  node_logical_id = n;
  target_group_id = t;
  pattern = none;
  filter_spec = none;
  builtin_name = none;
}

abbrev node_of : String → String → Bool → AdmissionNode
node_of i p a = record { logical_id = i; display_name = i; protocol = p; active = a }

abbrev no_vmess : FilterCondition
no_vmess = record {
  field = "protocol";
  op = "not_equals";
  value = "vmess";
  probe_kind = none;
  freshness_seconds = none;
}

abbrev input : ResolveInput library
input = record {
  nodes =
      node_of "n1" "ss" true
      ∷ node_of "n2" "vmess" true
      ∷ node_of "n3" "ss" false
      ∷ node_of "n4" "ss" true
      ∷ node_of "n5" "ss" true
      ∷ [];
  admission_rules = [];
  excluded_node_ids = "n5" ∷ [];
  risk_policy_revision = "p";
  risk_decisions =
      record { node_logical_id = "n4"; policy_revision_id = "p"; decision = risk_block } ∷ [];
  risk_review_action = risk_block;
  global_filter = no_vmess ∷ [];
  policy_groups =
      record {
        id = "g1";
        name = "All";
        empty_fallback_pass = false;
        sources =
            source manual_node 0 (some "n1") none
            ∷ source manual_node 1 (some "n2") none
            ∷ source manual_node 2 (some "n4") none
            ∷ source manual_node 3 (some "n5") none
            ∷ [];
      }
      ∷ record {
        id = "g2";
        name = "Same";
        empty_fallback_pass = false;
        sources = source group_nodes 0 none (some "g1") ∷ [];
      }
      ∷ [];
  node_sources = [];
  latest_observations = [];
  as_of = 0;
  text_library = record {
    compile = λ p. none;
    lower_case = to_lower;
    upper_case = to_upper;
    equal_fold = λ s t. same_codes (to_lower s) (to_lower t);
  };
  trim_upper = λ s. s;
}

resolve_members_test :
    map (λ (m : GroupMemo). m.expanded_node_ids) (resolve_members library input).0
    ≡ ("n1" ∷ []) ∷ ("n1" ∷ []) ∷ []
unfolding resolve_members clash_sub_parser.Prelude.Sort.sort_by
    clash_sub_parser.Prelude.String_discrete clash_sub_parser.Prelude.Maps.find
    clash_sub_parser.Prelude.Maps.set clash_sub_parser.Prelude.Sort.sort_texts
    clash_sub_parser.Filters.Matching.matches_filter
    clash_sub_parser.Filters.Conditions.parse_filter_field
    clash_sub_parser.Prelude.Strings.trim_space clash_sub_parser.Filters.Conditions.parse_filter_op
    clash_sub_parser.Prelude.Maps.has clash_sub_parser.Resolver.Items.add_items
resolve_members_test = refl

resolve_members-IsAllowed_example :
    ((resolve_members library input).1.is_exhausted ≡ false)
    × All
        (λ (m : GroupMemo). (t : String) → Occurs t m.expanded_node_ids → IsAllowed library input t)
        (resolve_members library input).0
resolve_members-IsAllowed_example = resolve_members-IsAllowed library input
