-- ===== src/Resolver/Admission/Tests.antt =====
-- Concrete nodes and rules for internal/resolver/admission.go.
use clash_sub_parser.Prelude.{
  ℕ, ◌≡◌, ◌↔◌, count_if, inl, refl, any, same, String, Bool, true, false, List, [], ◌∷◌, Option,
  none, some,
}
use clash_sub_parser.Prelude.Int.{pos}
use clash_sub_parser.Prelude.Members.{In}
use clash_sub_parser.Prelude.Sort.{Occurs}
use clash_sub_parser.Prelude.Strings.{same_codes, to_lower, to_upper}
use clash_sub_parser.Resolver.Admission.{
  AdmissionNode, AdmissionRule, RuleAction, allow, reject, quarantine, RiskDecision, risk_allow,
  risk_block, risk_review, AdmissionResult, admit_nodes,
}
use clash_sub_parser.Resolver.Admission.Expressions.{TextLibrary, matches_admission_expression}
use clash_sub_parser.Resolver.Admission.Ordered.{IsAscending}
use clash_sub_parser.Resolver.Admission.Split.{MayEnter, admit_nodes_lem}

abbrev library : TextLibrary
library = record {
  compile = λ p. none;
  lower_case = to_lower;
  upper_case = to_upper;
  equal_fold = λ s t. same_codes (to_lower s) (to_lower t);
}

abbrev node_of : String → String → Bool → AdmissionNode
node_of i p a = record { logical_id = i; display_name = i; protocol = p; active = a }

abbrev nodes : List AdmissionNode
nodes =
    node_of "n1" "ss" true
    ∷ node_of "n2" "vmess" true
    ∷ node_of "n3" "ss" false
    ∷ node_of "n4" "trojan" true
    ∷ node_of "n5" "trojan" true
    ∷ []

abbrev rule_of : String → RuleAction → ℕ → AdmissionRule
rule_of e a p = record { name = "r"; expression = e; action = a; position = pos p }

abbrev rules : List AdmissionRule
rules =
    rule_of "*" quarantine 3
    ∷ rule_of "protocol == 'vmess'" reject 1
    ∷ rule_of "protocol != \"tuic\"" allow 2
    ∷ []

abbrev decisions : List RiskDecision
decisions =
    record { node_logical_id = "n4"; policy_revision_id = "p"; decision = risk_block }
    ∷ record { node_logical_id = "n5"; policy_revision_id = "p"; decision = risk_review }
    ∷ []

abbrev revision : String
revision = "p"

abbrev first_id : String
first_id = "n1"

admit_nodes_test :
    (admit_nodes
      (matches_admission_expression library)
      nodes
      rules
      []
      "p"
      decisions
      risk_allow).admitted_node_ids
    ≡ "n1" ∷ "n5" ∷ []
unfolding admit_nodes clash_sub_parser.Prelude.Sort.sort_texts
    clash_sub_parser.Prelude.String_discrete matches_admission_expression
    clash_sub_parser.Prelude.Strings.trim_space
admit_nodes_test = refl

abbrev admitted : AdmissionResult
admitted =
    admit_nodes (matches_admission_expression library) nodes rules [] revision decisions risk_allow

abbrev MayEnterHere : List AdmissionRule → AdmissionNode → Type 0
MayEnterHere =
    MayEnter (matches_admission_expression library) nodes rules [] revision decisions risk_allow

admit_nodes_lem_example :
    (ordered : List AdmissionRule) × IsAscending ordered
    × ((p : AdmissionRule → Bool) → count_if p ordered ≡ count_if p rules)
    × ((x : AdmissionNode) → In x admitted.admitted_nodes ↔ (In x nodes × MayEnterHere ordered x))
    × ((t : String)
        → Occurs t admitted.excluded_node_ids
          ↔ ((y : AdmissionNode) × In y nodes × (y.logical_id ≡ t) × (MayEnterHere ordered y → ⊥)))
admit_nodes_lem_example =
    admit_nodes_lem (matches_admission_expression library) nodes rules [] revision decisions
      risk_allow
