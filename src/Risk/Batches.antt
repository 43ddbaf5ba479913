-- ===== src/Risk/Batches.antt =====
-- `EvaluateBatch` of internal/application/iprisk/service.go, without the digest over its decisions: it is
-- made of texts, which `json.Marshal` always takes.
pub mod Resolved
pub mod Total
use clash_sub_parser.Prelude.{
  ℕ, String, Bool, true, false, not, List, [], ◌∷◌, ◌++◌, if◌then◌else◌, any, filter_if, Option,
  none, some, same,
}
use clash_sub_parser.Prelude.Sort.{sort_texts}
use clash_sub_parser.Policy.Identifiers.{is_valid_logical_id}
use clash_sub_parser.Resolver.Admission.{
  RiskAction, risk_allow, risk_block, risk_review, risk_unknown, other_risk, is_lenient,
}
use clash_sub_parser.Risk.Texts.{Scanner}
use clash_sub_parser.Risk.Policies.{
  RiskPolicy, RiskError, invalid_node_id, fetch_failed, effective_action, policy_failure,
}
use clash_sub_parser.Risk.Providers.{IpRiskObservation}
use clash_sub_parser.Risk.Nodes.{Decision, NodeEvaluation, Result, ok, err, evaluate_node}

infixl 5 ◌>>=◌
abbrev pub ◌>>=◌ : {A B : Type 0} → Result A → (A → Result B) → Result B
ok a >>= f = f a
err e >>= f = err e

-- The IDs without those that were seen.
unfoldable pub unseen : List String → List String → List String
unseen seen [] = []
unseen seen (x ∷ xs) =
    let rest = unseen (x ∷ seen) xs in
    let less = unseen seen xs in if any (same x) seen then less else x ∷ rest

pub record BatchInput : Type 0 where
  pub node_ids : List String
  pub exit_digests : String → String
  pub observations : List IpRiskObservation
  pub evaluated_at : ℕ

-- A diagnostic is the evaluation that it tells of.
pub record Batch : Type 0 where
  pub evaluations : List NodeEvaluation
  pub admitted_node_ids : List String
  pub excluded_node_ids : List String
  pub diagnostics : List NodeEvaluation

abbrev pub empty_batch : Batch
empty_batch = record {
  evaluations = [];
  admitted_node_ids = [];
  excluded_node_ids = [];
  diagnostics = [];
}

abbrev told : NodeEvaluation → Batch → Batch
told e b = record b { diagnostics = b.diagnostics ++ (e ∷ []) }

abbrev admit : NodeEvaluation → Batch → Batch
admit e b = record b {
  admitted_node_ids = b.admitted_node_ids ++ (e.node_decision.node_logical_id ∷ []);
}

abbrev exclude : NodeEvaluation → Batch → Batch
exclude e b = record b {
  excluded_node_ids = b.excluded_node_ids ++ (e.node_decision.node_logical_id ∷ []);
}

abbrev classify_as : Bool → NodeEvaluation → RiskAction → Batch → Batch
classify_as lenient e risk_allow b = admit e b
classify_as lenient e risk_block b = told e (exclude e b)
classify_as lenient e risk_review b = told e (if lenient then admit e b else exclude e b)
classify_as lenient e _ b = told e (exclude e b)

-- What one evaluation adds to the result; `lenient` where nodes under review are admitted.
unfoldable pub classify : Bool → NodeEvaluation → Batch → Batch
unfolding classify_as told admit exclude
classify lenient e b =
    classify_as lenient e e.node_decision.decision
      (record b { evaluations = b.evaluations ++ (e ∷ []) })

module _ (scan : Scanner) (fetch : String → Option (List IpRiskObservation)) where
  abbrev stored : Option (List IpRiskObservation) → Result (List IpRiskObservation)
  stored none = err fetch_failed
  stored (some os) = ok os

  -- The observations of a node: those of the input, else those of the repository.
  abbrev pub observations_of : String → List IpRiskObservation → Result (List IpRiskObservation)
  observations_of node os =
      elim (filter_if (λ (o : IpRiskObservation). same o.node_logical_id node) os) [
        | [] ↦ stored (fetch node)
        | o ∷ rest ↦ ok (o ∷ rest)
      ]

  module _ (policy : RiskPolicy) (input : BatchInput) where
    -- The evaluation of one node of the batch.
    unfoldable pub evaluate_member : String → Result NodeEvaluation
    unfolding evaluate_node
    evaluate_member node = do
      os ← observations_of node input.observations
      evaluate_node scan policy node (input.exit_digests node) os input.evaluated_at

    unfoldable pub evaluate_members : List String → Batch → Result Batch
    unfolding evaluate_member classify
    evaluate_members [] b = ok b
    evaluate_members (node ∷ nodes) b = evaluate_member node >>= λ e.
        evaluate_members nodes (classify (is_lenient (effective_action policy.review_action)) e b)

    abbrev pub sorted : Batch → Batch
    sorted b = record b {
      admitted_node_ids = sort_texts b.admitted_node_ids;
      excluded_node_ids = sort_texts b.excluded_node_ids;
    }

    abbrev unless_refused : Option RiskError → Result Batch → Result Batch
    unless_refused none r = r
    unless_refused (some e) r = err e

    -- `EvaluateBatch`, on a policy and the time of its evaluation
    unfoldable pub evaluate_batch : Result Batch
    unfolding evaluate_members
    evaluate_batch = unless_refused (policy_failure scan policy) (
        if any (λ i. not (is_valid_logical_id i)) input.node_ids
        then err invalid_node_id
        else (evaluate_members (sort_texts (unseen [] input.node_ids)) empty_batch >>= λ b.
            ok (sorted b)))
