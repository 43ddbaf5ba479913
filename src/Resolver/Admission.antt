-- ===== src/Resolver/Admission.antt =====
-- `evaluateNodeAdmission` of internal/resolver/admission.go and `evaluateRiskAdmission` of
-- internal/resolver/risk_admission.go.
pub mod Expressions
pub mod Filed
pub mod Judged
pub mod Ordered
pub mod Split
mod Tests
use clash_sub_parser.Prelude.{
  ℕ, zero, suc, String, Bool, true, false, not, ◌&&◌, ◌||◌, List, [], ◌∷◌, ◌++◌, map, length,
  if◌then◌else◌, any, Option, none, some, same, String_discrete,
}
use clash_sub_parser.Prelude.Int.{ℤ}
use clash_sub_parser.Prelude.Maps.{Map, set}
use clash_sub_parser.Prelude.Sort.{sort_texts}
use clash_sub_parser.Policy.Rules.{position_lt}

pub data RuleAction : Type 0 where
  allow reject quarantine : RuleAction
  other_action : String → RuleAction

pub record AdmissionRule : Type 0 where
  pub name : String
  pub expression : String
  pub action : RuleAction
  pub position : ℤ

-- What is read of a node.
pub record AdmissionNode : Type 0 where
  pub logical_id : String
  pub display_name : String
  pub protocol : String
  pub active : Bool

-- The inner loop: `x` stands in front and changes places with each rule of a smaller position.
abbrev bring_first : AdmissionRule → List AdmissionRule → AdmissionRule × List AdmissionRule
bring_first x [] = (x, [])
bring_first x (y ∷ ys) =
    let is_less = position_lt y.position x.position in
    let (first, rest) = bring_first (if is_less then y else x) ys in
    (first, (if is_less then x else y) ∷ rest)

-- The exchange of the rules by position. The rounds are as many as the rules.
unfoldable pub exchange_rules : ℕ → List AdmissionRule → List AdmissionRule
exchange_rules zero rs = rs
exchange_rules (suc n) [] = []
exchange_rules (suc n) (r ∷ rs) =
    let (first, rest) = bring_first r rs in first ∷ exchange_rules n rest

pub data Verdict : Type 0 where
  is_admitted is_inactive is_risky : Verdict
  is_rejected is_quarantined : String → Verdict

abbrev verdict_of : AdmissionRule → Verdict
verdict_of r = elim r.action [
  | reject ↦ is_rejected r.name
  | quarantine ↦ is_quarantined r.name
  | _ ↦ is_admitted
]

-- The first rule that matches decides.
unfoldable pub first_verdict :
    (AdmissionNode → String → Bool) → List AdmissionRule → AdmissionNode → Verdict
first_verdict matches [] n = is_admitted
first_verdict matches (r ∷ rs) n =
    let rest = first_verdict matches rs n in if matches n r.expression then verdict_of r else rest

-- What is decided on a node, given the rules in their order.
unfoldable pub judge_node :
    (AdmissionNode → String → Bool) → List AdmissionRule → List String → AdmissionNode → Verdict
unfolding first_verdict
judge_node matches rules risky n =
    if not n.active
    then is_inactive
    else if any (same n.logical_id) risky
    then is_risky
    else first_verdict matches rules n

-- `nodeAdmissionResult`; a notice is the node with what was decided.
pub record AdmissionResult : Type 0 where
  pub admitted_nodes : List AdmissionNode
  pub admitted_node_map : Map String AdmissionNode
  pub admitted_node_ids : List String
  pub excluded_node_ids : List String
  pub notices : List (AdmissionNode × Verdict)

abbrev file_node : AdmissionNode → Verdict → AdmissionResult → AdmissionResult
file_node n is_admitted res = record res {
  admitted_nodes = res.admitted_nodes ++ (n ∷ []);
  admitted_node_map = set String_discrete n.logical_id n res.admitted_node_map;
  admitted_node_ids = res.admitted_node_ids ++ (n.logical_id ∷ []);
}
file_node n v res = record res {
  excluded_node_ids = res.excluded_node_ids ++ (n.logical_id ∷ []);
  notices = res.notices ++ ((n, v) ∷ []);
}

-- The loop over the nodes.
unfoldable pub file_nodes :
    (AdmissionNode → Verdict) → List AdmissionNode → AdmissionResult → AdmissionResult
file_nodes judge [] res = res
file_nodes judge (n ∷ ns) res = file_nodes judge ns (file_node n (judge n) res)

-- `uniqueStrings`: a text is left out where the one kept before is the same.
abbrev unique_after : String → List String → List String
unique_after last [] = []
unique_after last (v ∷ vs) = let rest = unique_after v vs in if same v last then rest else v ∷ rest

unfoldable pub unique_strings : List String → List String
unique_strings [] = []
unique_strings (v ∷ vs) = v ∷ unique_after v vs

-- `evaluateNodeAdmission`
unfoldable pub evaluate_node_admission :
    (AdmissionNode → String → Bool)
    → List AdmissionNode
    → List AdmissionRule
    → List String
    → AdmissionResult
unfolding exchange_rules judge_node file_nodes unique_strings
evaluate_node_admission matches nodes rules risky =
    let sorted = exchange_rules (length rules) rules in
    let res = file_nodes (judge_node matches sorted risky) nodes (record {
      admitted_nodes = [];
      admitted_node_map = [];
      admitted_node_ids = [];
      excluded_node_ids = [];
      notices = [];
    }) in
    record res {
      admitted_node_ids = sort_texts res.admitted_node_ids;
      excluded_node_ids = unique_strings (sort_texts res.excluded_node_ids);
    }

pub data RiskAction : Type 0 where
  risk_allow risk_block risk_review risk_unknown : RiskAction
  other_risk : String → RiskAction

pub record RiskDecision : Type 0 where
  pub node_logical_id : String
  pub policy_revision_id : String
  pub decision : RiskAction

-- A decision that excludes its node; `lenient` where nodes under review are admitted.
abbrev pub excludes : Bool → RiskAction → Bool
excludes lenient risk_block = true
excludes lenient risk_review = not lenient
excludes lenient risk_unknown = true
excludes lenient _ = false

abbrev pub is_lenient : RiskAction → Bool
is_lenient risk_allow = true
is_lenient _ = false

-- A decision that is read: of this revision, and on a node that is there.
abbrev pub is_relevant : String → List AdmissionNode → RiskDecision → Bool
is_relevant revision nodes d =
    same d.policy_revision_id revision
    && any (λ (n : AdmissionNode). same n.logical_id d.node_logical_id) nodes

-- The set of the nodes that the decisions exclude.
unfoldable pub risky_ids : String → Bool → List AdmissionNode → List RiskDecision → List String
risky_ids revision lenient nodes [] = []
risky_ids revision lenient nodes (d ∷ ds) =
    let rest = risky_ids revision lenient nodes ds in
    if is_relevant revision nodes d && excludes lenient d.decision
    then d.node_logical_id ∷ rest
    else rest

-- A decision that is told of: one of the three kinds that `switch` knows.
abbrev is_noted : RiskAction → Bool
is_noted risk_block = true
is_noted risk_review = true
is_noted risk_unknown = true
is_noted _ = false

-- The notices: a decision, and whether it is a warning.
unfoldable pub risk_notices :
    String → Bool → List AdmissionNode → List RiskDecision → List (RiskDecision × Bool)
risk_notices revision lenient nodes [] = []
risk_notices revision lenient nodes (d ∷ ds) =
    let rest = risk_notices revision lenient nodes ds in
    if is_relevant revision nodes d && is_noted d.decision
    then (d, excludes lenient d.decision) ∷ rest
    else rest

-- `evaluateRiskAdmission`: the excluded nodes, and the notices. The keys of a map are unique, so the
-- sorted ones are those that the list has.
unfoldable pub evaluate_risk_admission :
    List AdmissionNode
    → String
    → List RiskDecision
    → RiskAction
    → List String × List (RiskDecision × Bool)
unfolding risky_ids unique_strings risk_notices
evaluate_risk_admission nodes revision decisions review = if same revision "" then ([], []) else (
  unique_strings (sort_texts (risky_ids revision (is_lenient review) nodes decisions)),
  risk_notices revision (is_lenient review) nodes decisions,
)

-- The start of `Resolve` in internal/resolver/resolver.go: the nodes that the risk excludes are added to
-- those that the caller excludes.
unfoldable pub admit_nodes :
    (AdmissionNode → String → Bool)
    → List AdmissionNode
    → List AdmissionRule
    → List String
    → String
    → List RiskDecision
    → RiskAction
    → AdmissionResult
unfolding evaluate_node_admission evaluate_risk_admission
admit_nodes matches nodes rules excluded revision decisions review =
    evaluate_node_admission matches nodes rules
      (excluded ++ (evaluate_risk_admission nodes revision decisions review).0)
